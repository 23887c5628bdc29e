-- ===== src/Client/Link.antt =====
-- What CacheConn asks of hiredis and of the clock, as a program over their answers. Neither is modelled:
-- `Hiredis` is any function that answers.
use filehub_cloud.Base.{
  ℕ, ◌^◌, ◌<◌, Option, none, some, List, ◌∷◌, Text, ℤ, pos, negsuc, decimal, suc,
}

-- `redisReply` of an element of an array, by its type; `other` has no text.
pub data Element : Type 0 where
  string status : Text → Element
  other : Element

-- `redisReply`, by its type.
pub data Reply : Type 0 where
  string status error : Text → Reply
  integer : ℤ → Reply
  array : List Element → Reply
  nil : Reply

-- What redisConnectWithTimeout gives: NULL, a context with its `err` set, or one without.
pub data Connected : Type 0 where
  null broken connected : Connected

pub data Link (A : Type 0) : Type 0 where
  done : A → Link A
  -- a NULL pointer is read
  crash : Link A
  -- time(NULL)
  time : (ℕ → Link A) → Link A
  -- redisConnectWithTimeout, with the address and the port
  connect : Text → ℕ → (Connected → Link A) → Link A
  -- redisCommand and redisCommandArgv, with the words that they send; none for NULL
  command : List Text → (Option Reply → Link A) → Link A
  -- redisCommand with one text, which hiredis takes as a format and cuts into words
  format : Text → (Option Reply → Link A) → Link A
  -- redisFree
  free : Link A → Link A

infixl 5 ◌>>=◌
unfoldable pub ◌>>=◌ : {A B : Type 0} → Link A → (A → Link B) → Link B
done a >>= f = f a
crash >>= f = crash
time k >>= f = time (λ t. k t >>= f)
connect ip port k >>= f = connect ip port (λ o. k o >>= f)
command words k >>= f = command words (λ r. k r >>= f)
format s k >>= f = format s (λ r. k r >>= f)
free p >>= f = free (p >>= f)

-- `%ld` of a signed number.
unfoldable pub signed : ℤ → Text
signed (pos n) = decimal n
signed (negsuc n) = 45 ∷ decimal (suc n)

-- What happened on a connection.
pub data Event : Type 0 where
  told : ℕ → Event
  attempted : Connected → Event
  sent : List Text → Event
  sent_format : Text → Event
  freed : Event

-- hiredis, the server behind it and the clock.
pub record Hiredis : Type 1 where
  pub World : Type 0
  pub on_time : World → ℕ × World
  pub on_connect : Text → ℕ → World → Connected × World
  pub on_command : List Text → World → Option Reply × World
  pub on_format : Text → World → Option Reply × World
  pub on_free : World → World

-- time(NULL) is a nonnegative `time_t`.
abbrev pub InRange : Hiredis → Type 0
InRange S = (w : S.World) → (S.on_time w).0 < 2 ^ 63

-- A run from a state and the events so far, the last one first. It ends with a result, `none` for
-- a crash, the state and all events.
unfoldable pub run :
    (S : Hiredis) {A : Type 0} → Link A → S.World → List Event → Option A × S.World × List Event
run S (done a) w es = (some a, w, es)
run S crash w es = (none, w, es)
run S (time k) w es = let (t, w') = S.on_time w in run S (k t) w' (told t ∷ es)
run S (connect ip port k) w es =
    let (o, w') = S.on_connect ip port w in run S (k o) w' (attempted o ∷ es)
run S (command words k) w es =
    let (r, w') = S.on_command words w in run S (k r) w' (sent words ∷ es)
run S (format s k) w es = let (r, w') = S.on_format s w in run S (k r) w' (sent_format s ∷ es)
run S (free p) w es = run S p (S.on_free w) (freed ∷ es)

-- `Q` holds at the end, whatever is answered.
abbrev pub Always : {A : Type 0} → Link A → (Option A → List Event → Type 0) → List Event → Type 0
Always (done a) Q es = Q (some a) es
Always crash Q es = Q none es
Always (time k) Q es = (t : ℕ) → t < 2 ^ 63 → Always (k t) Q (told t ∷ es)
Always (connect ip port k) Q es = (o : Connected) → Always (k o) Q (attempted o ∷ es)
Always (command words k) Q es = (r : Option Reply) → Always (k r) Q (sent words ∷ es)
Always (format s k) Q es = (r : Option Reply) → Always (k r) Q (sent_format s ∷ es)
Always (free p) Q es = Always p Q (freed ∷ es)

-- What holds at the end, whatever is answered, holds at the end of each run.
pub Always-run :
    (S : Hiredis)
    → InRange S
    → {A : Type 0} (p : Link A) (Q : Option A → List Event → Type 0) (w : S.World) (es : List Event)
    → Always p Q es
    → Q (run S p w es).0 (run S p w es).2
unfolding run
Always-run S range (done a) Q w es h = h
Always-run S range crash Q w es h = h
Always-run S range (time k) Q w es h = Always-run S range (k _) Q _ _ (h _ (range w))
Always-run S range (connect ip port k) Q w es h = Always-run S range (k _) Q _ _ (h _)
Always-run S range (command words k) Q w es h = Always-run S range (k _) Q _ _ (h _)
Always-run S range (format s k) Q w es h = Always-run S range (k _) Q _ _ (h _)
Always-run S range (free p) Q w es h = Always-run S range p Q _ _ h

-- Sequencing, with what the first program ends with.
pub Always->>= :
    {A B : Type 0} (p : Link A) (f : A → Link B) (P : Option A → List Event → Type 0)
    (Q : Option B → List Event → Type 0) (es : List Event)
    → Always p P es
    → ((es' : List Event) → P none es' → Q none es')
    → ((a : A) (es' : List Event) → P (some a) es' → Always (f a) Q es')
    → Always (p >>= f) Q es
unfolding ◌>>=◌
Always->>= (done a) f P Q es h last next = next a es h
Always->>= crash f P Q es h last next = last es h
Always->>= (time k) f P Q es h last next = λ t small. Always->>= (k t) f P Q _ (h t small) last next
Always->>= (connect ip port k) f P Q es h last next = λ o. Always->>= (k o) f P Q _ (h o) last next
Always->>= (command words k) f P Q es h last next = λ r. Always->>= (k r) f P Q _ (h r) last next
Always->>= (format s k) f P Q es h last next = λ r. Always->>= (k r) f P Q _ (h r) last next
Always->>= (free p) f P Q es h last next = Always->>= p f P Q _ h last next

-- Consequence.
pub Always-mono :
    {A : Type 0} (p : Link A) (P Q : Option A → List Event → Type 0)
    → ((o : Option A) (es : List Event) → P o es → Q o es)
    → (es : List Event) → Always p P es
    → Always p Q es
Always-mono (done a) P Q h es w = h _ _ w
Always-mono crash P Q h es w = h _ _ w
Always-mono (time k) P Q h es w = λ t small. Always-mono (k t) P Q h _ (w t small)
Always-mono (connect ip port k) P Q h es w = λ o. Always-mono (k o) P Q h _ (w o)
Always-mono (command words k) P Q h es w = λ r. Always-mono (k r) P Q h _ (w r)
Always-mono (format s k) P Q h es w = λ r. Always-mono (k r) P Q h _ (w r)
Always-mono (free p) P Q h es w = Always-mono p P Q h _ w
