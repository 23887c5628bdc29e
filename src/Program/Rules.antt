-- ===== src/Program/Rules.antt =====
-- The rules of the weakest precondition: sequencing and consequence.
use filehub_cloud.Base.{Option, none, some}
use filehub_cloud.Redis.{Command, Answer, get, zlexcount}
use filehub_cloud.Program.Defs.{
  Prog, done, crash, query, prepare, external, init, redis, try_lock, unlock, remove_file, View,
  Replies, Wp, ◌>>=◌,
}

-- What the first program must end with for the second to end with `Q`.
abbrev pub Then :
    {A B : Type 0} → (A → Prog B) → (Option B → View → Type 0) → Option A → View → Type 0
Then f Q none v = Q none v
Then f Q (some a) v = Wp (f a) Q v

Replies-mono :
    (c : Command) (K L : Option Answer → View → Type 0)
    → ((a : Option Answer) (v : View) → K a v → L a v)
    → (v : View) → Replies c K v
    → Replies c L v
Replies-mono (zlexcount m) K L h v r = λ n e. h _ _ (r n e)
Replies-mono (get k) K L h v r = h _ _ r
Replies-mono _ K L h v r = h _ _ r

-- Consequence.
pub Wp-mono :
    {A : Type 0} (p : Prog A) (P Q : Option A → View → Type 0)
    → ((a : Option A) (v : View) → P a v → Q a v)
    → (v : View) → Wp p P v
    → Wp p Q v
Wp-mono (done a) P Q h v w = h _ _ w
Wp-mono crash P Q h v w = h _ _ w
Wp-mono (query s k) P Q h v w = (Wp-mono (k _) P Q h _ w.0, Wp-mono (k _) P Q h _ w.1)
Wp-mono (prepare k) P Q h v w = (Wp-mono (k _) P Q h _ w.0, Wp-mono (k _) P Q h _ w.1)
Wp-mono (external j k) P Q h v w = (Wp-mono (k _) P Q h _ w.0, λ s. Wp-mono (k _) P Q h _ (w.1 s))
Wp-mono (init k) P Q h v w = (Wp-mono (k _) P Q h _ w.0, Wp-mono (k _) P Q h _ w.1)
Wp-mono (redis c k) P Q h v w = (
  Wp-mono (k _) P Q h _ w.0,
  (λ e. Wp-mono (k _) P Q h _ (w.1 e)),
  Replies-mono c _ _ (λ a u. Wp-mono (k a) P Q h u) v w.2,
)
Wp-mono (try_lock k) P Q h v w = (Wp-mono (k _) P Q h _ w.0, Wp-mono (k _) P Q h _ w.1)
Wp-mono (unlock p) P Q h v w = Wp-mono p P Q h _ w
Wp-mono (remove_file i k) P Q h v w = (Wp-mono (k _) P Q h _ w.0, Wp-mono (k _) P Q h _ w.1)

-- Sequencing.
pub Wp->>= :
    {A B : Type 0} (p : Prog A) (f : A → Prog B) (Q : Option B → View → Type 0) (v : View)
    → Wp p (Then f Q) v
    → Wp (p >>= f) Q v
unfolding ◌>>=◌
Wp->>= (done a) f Q v w = w
Wp->>= crash f Q v w = w
Wp->>= (query s k) f Q v w = (Wp->>= (k _) f Q _ w.0, Wp->>= (k _) f Q _ w.1)
Wp->>= (prepare k) f Q v w = (Wp->>= (k _) f Q _ w.0, Wp->>= (k _) f Q _ w.1)
Wp->>= (external j k) f Q v w = (Wp->>= (k _) f Q _ w.0, λ s. Wp->>= (k _) f Q _ (w.1 s))
Wp->>= (init k) f Q v w = (Wp->>= (k _) f Q _ w.0, Wp->>= (k _) f Q _ w.1)
Wp->>= (redis c k) f Q v w = (
  Wp->>= (k _) f Q _ w.0,
  (λ e. Wp->>= (k _) f Q _ (w.1 e)),
  Replies-mono c _ _ (λ a u. Wp->>= (k a) f Q u) v w.2,
)
Wp->>= (try_lock k) f Q v w = (Wp->>= (k _) f Q _ w.0, Wp->>= (k _) f Q _ w.1)
Wp->>= (unlock p) f Q v w = Wp->>= p f Q _ w
Wp->>= (remove_file i k) f Q v w = (Wp->>= (k _) f Q _ w.0, Wp->>= (k _) f Q _ w.1)

Replies-always :
    (c : Command) (K : Option Answer → View → Type 0)
    → ((a : Option Answer) (v : View) → K a v)
    → (v : View) → Replies c K v
Replies-always (zlexcount m) K h v = λ n e. h _ _
Replies-always (get k) K h v = h _ _
Replies-always _ K h v = h _ _

-- What holds of every result in every state holds at the end of every program.
pub Wp-always :
    {A : Type 0} (p : Prog A) (Q : Option A → View → Type 0)
    → ((a : Option A) (v : View) → Q a v)
    → (v : View) → Wp p Q v
Wp-always (done a) Q h v = h _ _
Wp-always crash Q h v = h _ _
Wp-always (query s k) Q h v = (Wp-always (k _) Q h _, Wp-always (k _) Q h _)
Wp-always (prepare k) Q h v = (Wp-always (k _) Q h _, Wp-always (k _) Q h _)
Wp-always (external j k) Q h v = (Wp-always (k _) Q h _, λ s. Wp-always (k _) Q h _)
Wp-always (init k) Q h v = (Wp-always (k _) Q h _, Wp-always (k _) Q h _)
Wp-always (redis c k) Q h v = (
  Wp-always (k _) Q h _,
  (λ e. Wp-always (k _) Q h _),
  Replies-always c _ (λ a u. Wp-always (k a) Q h u) v,
)
Wp-always (try_lock k) Q h v = (Wp-always (k _) Q h _, Wp-always (k _) Q h _)
Wp-always (unlock p) Q h v = Wp-always p Q h _
Wp-always (remove_file i k) Q h v = (Wp-always (k _) Q h _, Wp-always (k _) Q h _)
