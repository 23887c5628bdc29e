-- ===== src/Client/Orderly/Session.antt =====
-- The calls of a CacheConn in any order.
use filehub_cloud.Base.{
  ℕ, false, Option, none, some, List, [], ◌∷◌, ◌≡◌, refl, ◌∙◌, arith, Bool-cases, inl, inr, Text,
  pos,
}
use filehub_cloud.Client.Link.{
  Link, Event, Hiredis, InRange, run, Always, Always->>=, Always-mono, Always-run,
}
use filehub_cloud.Client.Connecting.{CacheConn, new_cache_conn, cache_init, de_init}
use filehub_cloud.Client.Keys.{
  get, set, set_ex, m_get, is_exists, del, incr_by, incr, decr, flush_db,
}
use filehub_cloud.Client.Hashes.{
  h_del, h_get, h_get_into, h_get_all, h_set, h_incr_by, h_m_set, h_m_get,
}
use filehub_cloud.Client.Lists.{l_push, r_push, l_len, l_range}
use filehub_cloud.Client.Sets.{
  zset_exist, zset_add, zset_zrem, zset_incr, zset_zcard, zset_zrevrange, zset_get_score,
}
use filehub_cloud.Client.Calls.{
  Call, connects, disconnects, flushes, gets, exists, dels, incrs, decrs, gets_all, lens, zcards,
  sets, hdels, hgets, hgets_into, lpushes, rpushes, zexists, zrems, zincrs, zscores, sets_ex, mgets,
  incrs_by, hsets, hincrs_by, hmsets, hmgets, lranges, zadds, zranges, left, perform, session,
}
use filehub_cloud.Client.Orderly.{opened, IsOrderly, Knows, Opens, Ends, Keeps, cache_init-Opens}
use filehub_cloud.Client.Orderly.Commands.{
  guarded-Keeps, unguarded-Keeps, m_get-Keeps, h_get_into-Keeps,
}

-- What a call ends with: a connection that knows its events, or a crash.
abbrev Stays : Option CacheConn → List Event → Type 0
Stays none es = IsOrderly es
Stays (some c) es = Knows c es

-- What a session ends with: no context is left, unless it crashed.
abbrev pub IsSession : Option CacheConn → List Event → Type 0
IsSession none es = IsOrderly es
IsSession (some c) es = (opened es ≡ false) × IsOrderly es

left-Stays :
    {A : Type 0} (f : CacheConn → Link (A × CacheConn))
    → Keeps f
    → (c : CacheConn) (es : List Event) → Knows c es
    → Always (left (f c)) Stays es
left-Stays f keeps c es k =
    Always->>= (f c) _ Ends Stays es (keeps c es k) (λ es' h. h) (λ r es' h. h)

-- What a disconnection ends with.
abbrev Closes : Option CacheConn → List Event → Type 0
Closes none es = IsOrderly es
Closes (some c) es = (opened es ≡ false) × Knows c es

de_init-Closes : (c : CacheConn) (es : List Event) → Knows c es → Always (de_init c) Closes es
unfolding de_init
de_init-Closes c es (o, k, l, r) = elim (Bool-cases c.context) [
  | inl e ↦ rw e (refl, (refl, k, l, (o ∙ e, r)))
  | inr e ↦ rw e (o ∙ e, (o ∙ e, k, l, r))
]

closed : (o : Option CacheConn) (es : List Event) → Closes o es → Stays o es
closed none es h = h
closed (some c) es h = h.1

perform-Stays :
    (call : Call) (c : CacheConn) (es : List Event) → Knows c es → Always (perform call c) Stays es
unfolding perform get set set_ex is_exists del incr_by incr decr flush_db h_del h_get h_get_all
    h_set h_incr_by h_m_set h_m_get l_push r_push l_len l_range zset_exist zset_add zset_zrem
    zset_incr zset_zcard zset_zrevrange zset_get_score
perform-Stays connects c es k =
    Always->>= (cache_init c) _ Opens Stays es (cache_init-Opens c es k) (λ es' h. h)
      (λ r es' h. h.1)
perform-Stays disconnects c es k =
    Always-mono (de_init c) Closes Stays closed es (de_init-Closes c es k)
perform-Stays flushes c es known = left-Stays flush_db (guarded-Keeps _ _ _ _) c es known
perform-Stays (gets k) c es known = left-Stays (get k) (guarded-Keeps _ _ _ _) c es known
perform-Stays (exists k) c es known = left-Stays (is_exists k) (guarded-Keeps _ _ _ _) c es known
perform-Stays (dels k) c es known = left-Stays (del k) (guarded-Keeps _ _ _ _) c es known
perform-Stays (incrs k) c es known = left-Stays (incr k) (guarded-Keeps _ _ _ _) c es known
perform-Stays (decrs k) c es known = left-Stays (decr k (pos 0)) (guarded-Keeps _ _ _ _) c es known
perform-Stays (gets_all k) c es known =
    left-Stays (h_get_all k []) (guarded-Keeps _ _ _ _) c es known
perform-Stays (lens k) c es known = left-Stays (l_len k) (guarded-Keeps _ _ _ _) c es known
perform-Stays (zcards k) c es known = left-Stays (zset_zcard k) (unguarded-Keeps _ _ _) c es known
perform-Stays (sets k v) c es known = left-Stays (set k v) (guarded-Keeps _ _ _ _) c es known
perform-Stays (hdels k f) c es known = left-Stays (h_del k f) (guarded-Keeps _ _ _ _) c es known
perform-Stays (hgets k f) c es known = left-Stays (h_get k f) (guarded-Keeps _ _ _ _) c es known
perform-Stays (hgets_into k f) c es known =
    left-Stays (h_get_into k f) (h_get_into-Keeps k f) c es known
perform-Stays (lpushes k v) c es known = left-Stays (l_push k v) (guarded-Keeps _ _ _ _) c es known
perform-Stays (rpushes k v) c es known = left-Stays (r_push k v) (guarded-Keeps _ _ _ _) c es known
perform-Stays (zexists k m) c es known =
    left-Stays (zset_exist k m) (unguarded-Keeps _ _ _) c es known
perform-Stays (zrems k m) c es known = left-Stays (zset_zrem k m) (unguarded-Keeps _ _ _) c es known
perform-Stays (zincrs k m) c es known =
    left-Stays (zset_incr k m) (unguarded-Keeps _ _ _) c es known
perform-Stays (zscores k m) c es known =
    left-Stays (zset_get_score k m) (unguarded-Keeps _ _ _) c es known
perform-Stays (sets_ex k n v) c es known =
    left-Stays (set_ex k n v) (guarded-Keeps _ _ _ _) c es known
perform-Stays (mgets ks) c es known = left-Stays (m_get ks []) (m_get-Keeps ks []) c es known
perform-Stays (incrs_by k i) c es known =
    left-Stays (incr_by k i) (guarded-Keeps _ _ _ _) c es known
perform-Stays (hsets k f v) c es known = left-Stays (h_set k f v) (guarded-Keeps _ _ _ _) c es known
perform-Stays (hincrs_by k f i) c es known =
    left-Stays (h_incr_by k f i) (guarded-Keeps _ _ _ _) c es known
perform-Stays (hmsets k h) c es known = left-Stays (h_m_set k h) (guarded-Keeps _ _ _ _) c es known
perform-Stays (hmgets k fs) c es known =
    left-Stays (h_m_get k fs []) (guarded-Keeps _ _ _ _) c es known
perform-Stays (lranges k i j) c es known =
    left-Stays (l_range k i j []) (guarded-Keeps _ _ _ _) c es known
perform-Stays (zadds k i m) c es known =
    left-Stays (zset_add k i m) (unguarded-Keeps _ _ _) c es known
perform-Stays (zranges k i j) c es known =
    left-Stays (zset_zrevrange k i j) (unguarded-Keeps _ _ _) c es known

session-Closes :
    (calls : List Call) (c : CacheConn) (es : List Event)
    → Knows c es
    → Always (session calls c) Closes es
unfolding session
session-Closes [] c es k = de_init-Closes c es k
session-Closes (call ∷ calls) c es k =
    Always->>= (perform call c) (session calls) Stays Closes es (perform-Stays call c es k)
      (λ es' h. h) (λ c' es' h. session-Closes calls c' es' h)

-- On a new CacheConn, after calls of its operations in any order and the destructor, with times below
-- 2^63: each command and each redisFree found a context; each attempt to connect found none and came in a
-- later second than the attempt before; and no context is left, unless a missing answer or text of a reply,
-- or an array longer than the keys of MGet, killed the run.
pub session-IsSession-run :
    (S : Hiredis)
    → InRange S
    → (ip : Text) (port index : ℕ) (password name : Text) (calls : List Call) (w : S.World)
    → IsSession
        (run S (session calls (new_cache_conn ip port index password name)) w []).0
        (run S (session calls (new_cache_conn ip port index password name)) w []).2
unfolding new_cache_conn
session-IsSession-run S range ip port index password name calls w =
    Always-run S range (session calls (new_cache_conn ip port index password name)) IsSession w [] (
      Always-mono (session calls (new_cache_conn ip port index password name)) Closes IsSession
        ended []
        (session-Closes calls (new_cache_conn ip port index password name) []
          (refl, tt, omega arith, tt)))
  where
    ended : (o : Option CacheConn) (es : List Event) → Closes o es → IsSession o es
    ended none es h = h
    ended (some c) es (o, (k, l, m, r)) = (o, r)
