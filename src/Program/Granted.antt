-- ===== src/Program/Granted.antt =====
-- Runs of a program against services that grant every call: no statement or command is refused, no
-- connection fails, and no wait runs out.
use filehub_cloud.Base.{true, false, Bool, Option, none, some, ◌∷◌, ◌≡◌, sym, subst, Text}
use filehub_cloud.Schema.Statements.{Sql, respond}
use filehub_cloud.Schema.Results.{Reply}
use filehub_cloud.Redis.{Command, Answer, get, zlexcount}
use filehub_cloud.Program.Defs.{
  Prog, done, crash, query, prepare, external, Job, init, redis, try_lock, unlock, remove_file,
  View, executed, Replies, ◌>>=◌,
}
use filehub_cloud.Program.Servers.{Server, run}

-- The weakest precondition over such services. A tool prints any text.
abbrev pub Granted : {A : Type 0} → Prog A → (Option A → View → Type 0) → View → Type 0
Granted (done a) Q v = Q (some a) v
Granted crash Q v = Q none v
Granted (query s k) Q v = Granted (k (respond s v.tables)) Q (executed s v)
Granted (prepare k) Q v = Granted (k true) Q v
Granted (external j k) Q v = (s : Text) → Granted (k (some s)) Q v
Granted (init k) Q v = Granted (k false) Q v
Granted (redis c k) Q v = Replies c (λ a w. Granted (k a) Q w) v
Granted (try_lock k) Q v = Granted (k true) Q (record v { locked = true })
Granted (unlock p) Q v = Granted p Q (record v { locked = false })
Granted (remove_file i k) Q v = Granted (k false) Q (record v { removed = i ∷ v.removed })

-- What such services do, for every property `K` of a result and the state after it.
pub record IsGranting (S : Server) : Type 1 where
  pub query_ok :
      (s : Sql) (w : S.World) (K : Reply → View → Type 0)
      → K (respond s (S.view w).tables) (executed s (S.view w))
      → K (S.on_query s w).0 (S.view (S.on_query s w).1)
  pub prepare_ok :
      (w : S.World) (K : Bool → View → Type 0)
      → K true (S.view w)
      → K (S.on_prepare w).0 (S.view (S.on_prepare w).1)
  pub external_ok :
      (j : Job) (w : S.World) (K : Option Text → View → Type 0)
      → ((s : Text) → K (some s) (S.view w))
      → K (S.on_external j w).0 (S.view (S.on_external j w).1)
  pub init_ok :
      (w : S.World) (K : Bool → View → Type 0)
      → K false (S.view w)
      → K (S.on_init w).0 (S.view (S.on_init w).1)
  pub redis_ok :
      (c : Command) (w : S.World) (K : Option Answer → View → Type 0)
      → Replies c K (S.view w)
      → K (S.on_redis c w).0 (S.view (S.on_redis c w).1)
  pub lock_ok :
      (w : S.World) (K : Bool → View → Type 0)
      → K true (record (S.view w) { locked = true })
      → K (S.on_try_lock w).0 (S.view (S.on_try_lock w).1)
  pub unlock_ok : (w : S.World) → S.view (S.on_unlock w) ≡ record (S.view w) { locked = false }
  pub remove_ok :
      (i : Text) (w : S.World) (K : Bool → View → Type 0)
      → K false (record (S.view w) { removed = i ∷ (S.view w).removed })
      → K (S.on_remove_file i w).0 (S.view (S.on_remove_file i w).1)

module _ (S : Server) (granting : IsGranting S) where
  -- What a run ends with: its result and the view after it.
  abbrev pub Gives : {A : Type 0} → Prog A → (Option A → View → Type 0) → S.World → Type 0
  Gives p Q w = Q (run S p w).0 (S.view (run S p w).1)

  pub Granted-run :
      {A : Type 0} (p : Prog A) (Q : Option A → View → Type 0) (w : S.World)
      → Granted p Q (S.view w)
      → Gives p Q w
  unfolding run
  Granted-run (done a) Q w h = h
  Granted-run crash Q w h = h
  Granted-run (query s k) Q w h =
      Granted-run (k _) Q _ (granting.query_ok s w (λ r v. Granted (k r) Q v) h)
  Granted-run (prepare k) Q w h =
      Granted-run (k _) Q _ (granting.prepare_ok w (λ b v. Granted (k b) Q v) h)
  Granted-run (external j k) Q w h =
      Granted-run (k _) Q _ (granting.external_ok j w (λ o v. Granted (k o) Q v) h)
  Granted-run (init k) Q w h =
      Granted-run (k _) Q _ (granting.init_ok w (λ b v. Granted (k b) Q v) h)
  Granted-run (redis c k) Q w h =
      Granted-run (k _) Q _ (granting.redis_ok c w (λ a v. Granted (k a) Q v) h)
  Granted-run (try_lock k) Q w h =
      Granted-run (k _) Q _ (granting.lock_ok w (λ b v. Granted (k b) Q v) h)
  Granted-run (unlock p) Q w h =
      Granted-run p Q _ (subst (Granted p Q) (sym (granting.unlock_ok w)) h)
  Granted-run (remove_file i k) Q w h =
      Granted-run (k _) Q _ (granting.remove_ok i w (λ b v. Granted (k b) Q v) h)

-- What the first program must end with for the second to end with `Q`.
abbrev pub Next :
    {A B : Type 0} → (A → Prog B) → (Option B → View → Type 0) → Option A → View → Type 0
Next f Q none v = Q none v
Next f Q (some a) v = Granted (f a) Q v

Replies-map :
    (c : Command) (K L : Option Answer → View → Type 0)
    → ((a : Option Answer) (v : View) → K a v → L a v)
    → (v : View) → Replies c K v
    → Replies c L v
Replies-map (zlexcount m) K L h v r = λ n e. h _ _ (r n e)
Replies-map (get k) K L h v r = h _ _ r
Replies-map _ K L h v r = h _ _ r

-- Sequencing.
pub Granted->>= :
    {A B : Type 0} (p : Prog A) (f : A → Prog B) (Q : Option B → View → Type 0) (v : View)
    → Granted p (Next f Q) v
    → Granted (p >>= f) Q v
unfolding ◌>>=◌
Granted->>= (done a) f Q v h = h
Granted->>= crash f Q v h = h
Granted->>= (query s k) f Q v h = Granted->>= (k _) f Q _ h
Granted->>= (prepare k) f Q v h = Granted->>= (k _) f Q _ h
Granted->>= (external j k) f Q v h = λ s. Granted->>= (k _) f Q _ (h s)
Granted->>= (init k) f Q v h = Granted->>= (k _) f Q _ h
Granted->>= (redis c k) f Q v h = Replies-map c _ _ (λ a u. Granted->>= (k a) f Q u) v h
Granted->>= (try_lock k) f Q v h = Granted->>= (k _) f Q _ h
Granted->>= (unlock p) f Q v h = Granted->>= p f Q _ h
Granted->>= (remove_file i k) f Q v h = Granted->>= (k _) f Q _ h

-- Consequence.
pub Granted-mono :
    {A : Type 0} (p : Prog A) (P Q : Option A → View → Type 0)
    → ((a : Option A) (v : View) → P a v → Q a v)
    → (v : View) → Granted p P v
    → Granted p Q v
Granted-mono (done a) P Q h v g = h _ _ g
Granted-mono crash P Q h v g = h _ _ g
Granted-mono (query s k) P Q h v g = Granted-mono (k _) P Q h _ g
Granted-mono (prepare k) P Q h v g = Granted-mono (k _) P Q h _ g
Granted-mono (external j k) P Q h v g = λ s. Granted-mono (k _) P Q h _ (g s)
Granted-mono (init k) P Q h v g = Granted-mono (k _) P Q h _ g
Granted-mono (redis c k) P Q h v g = Replies-map c _ _ (λ a u. Granted-mono (k a) P Q h u) v g
Granted-mono (try_lock k) P Q h v g = Granted-mono (k _) P Q h _ g
Granted-mono (unlock p) P Q h v g = Granted-mono p P Q h _ g
Granted-mono (remove_file i k) P Q h v g = Granted-mono (k _) P Q h _ g
