-- ===== src/Handlers/Share/Lock.antt =====
-- The share lock of handleShareFile: however its attempts end, they write its key and nothing else.
use filehub_cloud.Base.{ℕ, zero, suc, [], ◌∷◌, Bool, true, Option, none, some, Text, ◌≡◌, arith}
use filehub_cloud.Redis.{answer, effect}
use filehub_cloud.Program.Defs.{Prog, View, Wp, done}
use filehub_cloud.Program.Rules.{Wp->>=, Wp-mono, Then}
use filehub_cloud.Conn.Cache.{cache_set, cache_set_ex}
use filehub_cloud.Handlers.Share.{after_set, acquire_share_lock}

-- Only the strings of Redis may differ.
pub record SameRanking (v w : View) : Type 0 where
  pub tables_eq : w.tables ≡ v.tables
  pub zset_eq : w.store.zset ≡ v.store.zset
  pub hash_eq : w.store.hash ≡ v.store.hash

module _ (u : View) where
  set-SameRanking :
      (k s : Text) (v : View) → SameRanking u v → Wp (cache_set k s) (λ _ w. SameRanking u w) v
  unfolding cache_set answer effect
  set-SameRanking k s v h = ground arith

  set_ex-SameRanking :
      (k : Text) (n : ℕ) (s : Text) (v : View)
      → SameRanking u v
      → Wp (cache_set_ex k n s) (λ _ w. SameRanking u w) v
  unfolding cache_set_ex answer effect
  set_ex-SameRanking k n s v h = ground arith

  Then-done :
      (b : Bool) (a : Option Text) (w : View)
      → SameRanking u w
      → Then (λ _. done b) (λ _ x. SameRanking u x) a w
  Then-done b none w h = h
  Then-done b (some t) w h = h

  after_set-SameRanking :
      (again : Prog Bool) (k s : Text)
      → ((v : View) → SameRanking u v → Wp again (λ _ w. SameRanking u w) v)
      → (a : Option Text) (v : View) → SameRanking u v
      → Then (after_set again k s) (λ _ w. SameRanking u w) a v
  unfolding after_set
  after_set-SameRanking again k s ih none v h = h
  after_set-SameRanking again k s ih (some []) v h = ih v h
  after_set-SameRanking again k s ih (some (c ∷ t)) v h =
      Wp->>= (cache_set_ex k 10 s) (λ _. done true) (λ _ w. SameRanking u w) v
        (Wp-mono (cache_set_ex k 10 s) (λ _ w. SameRanking u w)
          (Then (λ _. done true) (λ _ w. SameRanking u w)) (Then-done true) v
          (set_ex-SameRanking k 10 s v h))

  -- The lock touches nothing but its key.
  pub acquire-SameRanking :
      (n : ℕ) (k s : Text) (v : View)
      → SameRanking u v
      → Wp (acquire_share_lock n k s) (λ _ w. SameRanking u w) v
  unfolding acquire_share_lock
  acquire-SameRanking zero k s v h = h
  acquire-SameRanking (suc n) k s v h =
      Wp->>= (cache_set k s) (after_set (acquire_share_lock n k s) k s) (λ _ w. SameRanking u w) v
        (Wp-mono (cache_set k s) (λ _ w. SameRanking u w)
          (Then (after_set (acquire_share_lock n k s) k s) (λ _ w. SameRanking u w))
          (after_set-SameRanking (acquire_share_lock n k s) k s (acquire-SameRanking n k s)) v
          (set-SameRanking k s v h))
