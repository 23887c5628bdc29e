-- ===== src/Program/Servers.antt =====
-- Runs of a program against services that keep to what they document.
use filehub_cloud.Base.{Bool, true, false, Option, none, some, ◌∷◌, ◌≡◌, sym, subst, Text}
use filehub_cloud.Schema.Statements.{Sql, respond}
use filehub_cloud.Schema.Results.{Reply, refused}
use filehub_cloud.Redis.{Command, Answer, error}
use filehub_cloud.Program.Defs.{
  Prog, done, crash, query, prepare, external, Job, init, redis, try_lock, unlock, remove_file,
  View, executed, timed_out, not_prepared, Replies, Wp,
}

-- The services that the source only calls. `World` is all their state, of which `view` shows what
-- the handlers rely on.
pub record Server : Type 1 where
  pub World : Type 0
  pub view : World → View
  pub on_query : Sql → World → Reply × World
  pub on_prepare : World → Bool × World
  pub on_external : Job → World → Option Text × World
  pub on_init : World → Bool × World
  pub on_redis : Command → World → Option Answer × World
  pub on_try_lock : World → Bool × World
  pub on_unlock : World → World
  pub on_remove_file : Text → World → Bool × World

-- What the services document, for every property `K` of a result and the state after it.
pub record IsDocumented (S : Server) : Type 1 where
  -- MySQL refuses a statement and changes nothing, or executes it.
  pub query_ok :
      (s : Sql) (w : S.World) (K : Reply → View → Type 0)
      → K refused (S.view w)
      → K (respond s (S.view w).tables) (executed s (S.view w))
      → K (S.on_query s w).0 (S.view (S.on_query s w).1)
  -- To prepare a statement changes no data. What is counted are its failures.
  pub prepare_ok :
      (w : S.World) (K : Bool → View → Type 0)
      → K false (not_prepared (S.view w))
      → K true (S.view w)
      → K (S.on_prepare w).0 (S.view (S.on_prepare w).1)
  -- A job changes none of this data.
  pub external_ok : (j : Job) (w : S.World) → S.view (S.on_external j w).1 ≡ S.view w
  -- A connection attempt changes no data.
  pub init_ok : (w : S.World) → S.view (S.on_init w).1 ≡ S.view w
  -- Redis gives no answer or an error and changes nothing, or executes the command.
  pub redis_ok :
      (c : Command) (w : S.World) (K : Option Answer → View → Type 0)
      → K none (S.view w)
      → ((e : Text) → K (some (error e)) (S.view w))
      → Replies c K (S.view w)
      → K (S.on_redis c w).0 (S.view (S.on_redis c w).1)
  -- The lock is granted, or the wait for it runs out.
  pub lock_ok :
      (w : S.World) (K : Bool → View → Type 0)
      → K false (timed_out (S.view w))
      → K true (record (S.view w) { locked = true })
      → K (S.on_try_lock w).0 (S.view (S.on_try_lock w).1)
  pub unlock_ok : (w : S.World) → S.view (S.on_unlock w) ≡ record (S.view w) { locked = false }
  -- The FastDFS tool deletes the file, or fails and changes nothing.
  pub remove_ok :
      (i : Text) (w : S.World) (K : Bool → View → Type 0)
      → K true (S.view w)
      → K false (record (S.view w) { removed = i ∷ (S.view w).removed })
      → K (S.on_remove_file i w).0 (S.view (S.on_remove_file i w).1)

-- A run; `none` is a crash.
unfoldable pub run : (S : Server) {A : Type 0} → Prog A → S.World → Option A × S.World
run S (done a) w = (some a, w)
run S crash w = (none, w)
run S (query s k) w = let (r, w') = S.on_query s w in run S (k r) w'
run S (prepare k) w = let (b, w') = S.on_prepare w in run S (k b) w'
run S (external j k) w = let (o, w') = S.on_external j w in run S (k o) w'
run S (init k) w = let (b, w') = S.on_init w in run S (k b) w'
run S (redis c k) w = let (a, w') = S.on_redis c w in run S (k a) w'
run S (try_lock k) w = let (b, w') = S.on_try_lock w in run S (k b) w'
run S (unlock p) w = run S p (S.on_unlock w)
run S (remove_file i k) w = let (b, w') = S.on_remove_file i w in run S (k b) w'

either :
    {A : Type 0} (k : Bool → Prog A) (Q : Option A → View → Type 0) (b : Bool) (v : View)
    → Wp (k true) Q v × Wp (k false) Q v
    → Wp (k b) Q v
either k Q true v h = h.0
either k Q false v h = h.1

any_output :
    {A : Type 0} (k : Option Text → Prog A) (Q : Option A → View → Type 0) (o : Option Text)
    (v : View)
    → Wp (k none) Q v × ((s : Text) → Wp (k (some s)) Q v)
    → Wp (k o) Q v
any_output k Q none v h = h.0
any_output k Q (some s) v h = h.1 s

module _ (S : Server) (documented : IsDocumented S) where
  -- What a run ends with: its result and the view after it.
  abbrev pub Ends : {A : Type 0} → Prog A → (Option A → View → Type 0) → S.World → Type 0
  Ends p Q w = Q (run S p w).0 (S.view (run S p w).1)

  -- A weakest precondition that holds at the start gives its postcondition at the end of every run.
  pub Wp-run :
      {A : Type 0} (p : Prog A) (Q : Option A → View → Type 0) (w : S.World)
      → Wp p Q (S.view w)
      → Ends p Q w
  unfolding run
  Wp-run (done a) Q w h = h
  Wp-run crash Q w h = h
  Wp-run (query s k) Q w h =
      Wp-run (k _) Q _ (documented.query_ok s w (λ r v. Wp (k r) Q v) h.0 h.1)
  Wp-run (prepare k) Q w h =
      Wp-run (k _) Q _ (documented.prepare_ok w (λ b v. Wp (k b) Q v) h.0 h.1)
  Wp-run (external j k) Q w h =
      let (o, w') = S.on_external j w in
      Wp-run (k o) Q w'
        (subst (Wp (k o) Q) (sym (documented.external_ok j w)) (any_output k Q o _ h))
  Wp-run (init k) Q w h =
      let (b, w') = S.on_init w in
      Wp-run (k b) Q w' (subst (Wp (k b) Q) (sym (documented.init_ok w)) (either k Q b _ h))
  Wp-run (redis c k) Q w h =
      Wp-run (k _) Q _ (documented.redis_ok c w (λ a v. Wp (k a) Q v) h.0 h.1 h.2)
  Wp-run (try_lock k) Q w h = Wp-run (k _) Q _ (documented.lock_ok w (λ b v. Wp (k b) Q v) h.0 h.1)
  Wp-run (unlock p) Q w h = Wp-run p Q _ (subst (Wp p Q) (sym (documented.unlock_ok w)) h)
  Wp-run (remove_file i k) Q w h =
      Wp-run (k _) Q _ (documented.remove_ok i w (λ b v. Wp (k b) Q v) h.0 h.1)
