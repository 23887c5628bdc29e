-- ===== src/Client/Answers.antt =====
-- Runs in sequence, and commands on an open connection that the server answers.
use filehub_cloud.Base.{true, Option, none, some, List, ◌∷◌, Text, ◌≡◌, refl, ap}
use filehub_cloud.Client.Link.{
  Link, done, crash, time, connect, command, format, free, ◌>>=◌, Event, sent, Reply, Hiredis, run,
}
use filehub_cloud.Client.Connecting.{CacheConn, guarded, after_init, cache_init, checked}

abbrev pub Ending : (S : Hiredis) → Type 0 → Type 0
Ending S A = Option A × S.World × List Event

-- A run that goes on from where another ended.
abbrev pub continue : (S : Hiredis) {A B : Type 0} → (A → Link B) → Ending S A → Ending S B
continue S f (none, w, es) = (none, w, es)
continue S f (some a, w, es) = run S (f a) w es

pub run->>= :
    (S : Hiredis) {A B : Type 0} (p : Link A) (f : A → Link B) (w : S.World) (es : List Event)
    → run S (p >>= f) w es ≡ continue S f (run S p w es)
unfolding run ◌>>=◌
run->>= S (done a) f w es = refl
run->>= S crash f w es = refl
run->>= S (time k) f w es = run->>= S (k _) f _ _
run->>= S (connect ip port k) f w es = run->>= S (k _) f _ _
run->>= S (command words k) f w es = run->>= S (k _) f _ _
run->>= S (format s k) f w es = run->>= S (k _) f _ _
run->>= S (free p) f w es = run->>= S p f _ _

-- An answer on an open connection is read, and nothing else is sent.
pub guarded_answered :
    (S : Hiredis) (w : S.World) (es : List Event) (c : CacheConn) {A : Type 0} (early lost : A)
    (words : List Text) (read : Reply → A) (a : Reply)
    → c.context ≡ true
    → (S.on_command words w).0 ≡ some a
    → run S (guarded early lost words read c) w es
      ≡ (some (read a, c), (S.on_command words w).1, sent words ∷ es)
unfolding run guarded after_init cache_init checked ◌>>=◌
guarded_answered S w es c early lost words read a opened answered = rw opened (
    ap
      (λ r.
        run S (checked lost read (record c { context = true }) r) (S.on_command words w).1
          (sent words ∷ es))
      answered)
