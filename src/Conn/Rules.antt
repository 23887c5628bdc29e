-- ===== src/Conn/Rules.antt =====
-- What a cache command can do to the rest of the system: nothing.
pub mod Ranks
use filehub_cloud.Base.{
  ℕ, Bool, true, false, Option, none, some, Text, ◌≡◌, arith, if◌then◌else◌, [], inl, inr,
  Option-cases, sym, subst,
}
use filehub_cloud.Redis.{Key, find, shown, answer, effect}
use filehub_cloud.Program.Defs.{Prog, View, Wp, ◌>>=◌}
use filehub_cloud.Program.Rules.{Wp->>=, Wp-mono, Then}
use filehub_cloud.Conn.Cache.{
  only_string, cache_get, cache_set, cache_set_ex, cache_del, cache_hdel, cache_hset, zset_exist,
  zset_add, zset_zrem, zset_incr,
}

-- The two views differ in the Redis data at most.
pub record SameFiles (v w : View) : Type 0 where
  pub tables_eq : w.tables ≡ v.tables
  pub locked_eq : w.locked ≡ v.locked
  pub timeouts_eq : w.timeouts ≡ v.timeouts
  pub removed_eq : w.removed ≡ v.removed

abbrev pub Quiet : {A : Type 0} → Prog A → Type 0
Quiet {A} p = (v : View) → Wp p (λ r w. SameFiles v w) v

pub cache_set-Quiet : (k s : Text) → Quiet (cache_set k s)
unfolding cache_set
cache_set-Quiet k s v = ground arith

pub cache_set_ex-Quiet : (k : Text) (n : ℕ) (s : Text) → Quiet (cache_set_ex k n s)
unfolding cache_set_ex
cache_set_ex-Quiet k n s v = ground arith

pub cache_del-Quiet : (k : Key) → Quiet (cache_del k)
unfolding cache_del
cache_del-Quiet k v = ground arith

pub cache_hset-Quiet : (f s : Text) → Quiet (cache_hset f s)
unfolding cache_hset
cache_hset-Quiet f s v = ground arith

pub cache_hdel-Quiet : (f : Text) → Quiet (cache_hdel f)
unfolding cache_hdel
cache_hdel-Quiet f v = ground arith

pub zset_add-Quiet : (n : ℕ) (m : Text) → Quiet (zset_add n m)
unfolding zset_add
zset_add-Quiet n m v = ground arith

pub zset_zrem-Quiet : (m : Text) → Quiet (zset_zrem m)
unfolding zset_zrem
zset_zrem-Quiet m v = ground arith

pub zset_exist-Quiet : (m : Text) → Quiet (zset_exist m)
unfolding zset_exist
zset_exist-Quiet m v = ground arith

pub zset_incr-Quiet : (m : Text) → Quiet (zset_incr m)
unfolding zset_incr
zset_incr-Quiet m v = ground arith

-- A cache command whose result does not matter, and what follows it.
pub Wp-Quiet :
    {A B : Type 0} (p : Prog A) (f : A → Prog B) (Q : Option B → View → Type 0) (v : View)
    → Quiet p
    → ((w : View) → SameFiles v w → Q none w)
    → ((a : A) (w : View) → SameFiles v w → Wp (f a) Q w)
    → Wp (p >>= f) Q v
Wp-Quiet {A} p f Q v quiet crashed goes_on =
    Wp->>= p f Q v (Wp-mono p (λ _ w. SameFiles v w) (Then f Q) next v (quiet v))
  where
    next : (a : Option A) (w : View) → SameFiles v w → Then f Q a w
    next none w s = crashed w s
    next (some a) w s = goes_on a w s

-- An update that does not care about its count succeeds with any count.
pub either_way : (b : Bool) (P : Bool → Type 0) → P true → P (if b then true else true)
either_way true P h = h
either_way false P h = h

-- GET gives the value of the key, or the empty text: for a missing key, and for every failure.
pub Wp-get :
    (k : Text) (Q : Option Text → View → Type 0) (v : View)
    → Q (some []) v
    → ((s : Text) → find k v.store.strings ≡ some s → Q (some s) v)
    → Wp (cache_get k) Q v
unfolding cache_get answer effect
Wp-get k Q v empty hit = elim (Option-cases (find k v.store.strings)) [
  | inl e ↦ (empty, (empty, (λ _. empty), at empty (sym e)))
  | inr (s, e) ↦ (empty, (empty, (λ _. empty), at (hit s e) (sym e)))
]
  where
    at :
        {o p : Option Text}
        → Q (some (only_string (shown o))) v
        → o ≡ p
        → Q (some (only_string (shown p))) v
    at h e = subst (λ o. Q (some (only_string (shown o))) v) e h
