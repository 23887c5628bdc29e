-- ===== src/Client/Orderly/Commands.antt =====
-- What each shape of a command does with the connection.
use filehub_cloud.Base.{
  is_zero, negsuc, true, false, Option, none, some, List, [], ◌∷◌, ◌≡◌, Bool-cases, inl, inr, Text,
}
use filehub_cloud.Client.Link.{Link, Event, Always, Always->>=, Reply}
use filehub_cloud.Client.Keys.{joined, stored, m_get, m_get_array, answered_m_get, m_get_text}
use filehub_cloud.Client.Hashes.{h_get_into}
use filehub_cloud.Client.Connecting.{
  CacheConn, checked, or_crash, unchecked, cache_init, guarded, unguarded, after_init, dropped,
}
use filehub_cloud.Client.Orderly.{
  Knows, Opens, Ends, Keeps, Knows-sent, Knows-freed, cache_init-Opens,
}

after_init-Keeps :
    {A : Type 0} (early : A) (f : CacheConn → Link (A × CacheConn))
    → ((c : CacheConn) (es : List Event) → Knows c es → c.context ≡ true → Always (f c) Ends es)
    → Keeps (after_init early f)
unfolding after_init
after_init-Keeps early f inner c es k =
    Always->>= (cache_init c) _ Opens Ends es (cache_init-Opens c es k) (λ es' h. h)
      λ r es' h. elim (Bool-cases (is_zero r.0)) [
        | inl e ↦ rw e (inner r.1 es' h.1 (h.0 e))
        | inr e ↦ rw e h.1
      ]

checked-Ends :
    {A : Type 0} (lost : A) (read : Reply → A) (c : CacheConn) (es : List Event)
    → Knows c es
    → c.context ≡ true
    → (r : Option Reply) → Always (checked lost read c r) Ends es
unfolding checked dropped
checked-Ends lost read c es k e none = Knows-freed c es k e
checked-Ends lost read c es k e (some a) = k

pub guarded-Keeps :
    {A : Type 0} (early lost : A) (words : List Text) (read : Reply → A)
    → Keeps (guarded early lost words read)
unfolding guarded
guarded-Keeps early lost words read =
    after_init-Keeps early _ λ c es k e. checked-Ends lost read c _ (Knows-sent c es [] k e) e

or_crash-Ends :
    {A : Type 0} (x : Option A) (c : CacheConn) (es : List Event)
    → Knows c es
    → Always (or_crash x c) Ends es
or_crash-Ends none c es (o, l, m, r) = r
or_crash-Ends (some x) c es k = k

unchecked-Ends :
    {A : Type 0} (read : Reply → Option A) (c : CacheConn) (es : List Event)
    → Knows c es
    → (r : Option Reply) → Always (unchecked read c r) Ends es
unchecked-Ends read c es (o, l, m, r) none = r
unchecked-Ends read c es k (some a) = or_crash-Ends (read a) c es k

pub unguarded-Keeps :
    {A : Type 0} (early : A) (words : List Text) (read : Reply → Option A)
    → Keeps (unguarded early words read)
unfolding unguarded
unguarded-Keeps early words read =
    after_init-Keeps early _ λ c es k e. unchecked-Ends read c _ (Knows-sent c es [] k e)

m_get_array-Ends :
    (m : List (Text × Text)) (c : CacheConn) (es : List Event)
    → Knows c es
    → (o : Option (List (Text × Text))) → Always (m_get_array m c o) Ends es
m_get_array-Ends m c es (o, l, n, r) none = r
m_get_array-Ends m c es k (some m') = k

answered_m_get-Ends :
    (keys : List Text) (m : List (Text × Text)) (c : CacheConn) (es : List Event)
    → Knows c es
    → c.context ≡ true
    → (r : Option Reply) → Always (answered_m_get keys m c r) Ends es
unfolding answered_m_get dropped
answered_m_get-Ends keys m c es k e none = Knows-freed c es k e
answered_m_get-Ends keys m c es k e (some (Reply.array elements)) =
    m_get_array-Ends m c es k (stored keys elements m)
answered_m_get-Ends keys m c es k e (some _) = k

m_get_text-Ends :
    (keys : List Text) (m : List (Text × Text)) (c : CacheConn) (es : List Event)
    → Knows c es
    → c.context ≡ true
    → (s : Text) → Always (m_get_text keys m c s) Ends es
unfolding m_get_text
m_get_text-Ends keys m c es k e [] = k
m_get_text-Ends keys m c es k e (b ∷ s) = answered_m_get-Ends keys m c _ (Knows-sent c es [] k e) e

pub m_get-Keeps : (keys : List Text) (m : List (Text × Text)) → Keeps (m_get keys m)
unfolding m_get
m_get-Keeps keys m =
    after_init-Keeps (false, m) _ λ c es k e. m_get_text-Ends keys m c es k e (joined keys)

pub h_get_into-Keeps : (key field : Text) → Keeps (h_get_into key field)
unfolding h_get_into
h_get_into-Keeps key field =
    after_init-Keeps (negsuc 0, none) _ λ c es k e r. Knows-sent c es [] k e
