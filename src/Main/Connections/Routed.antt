-- ===== src/Main/Connections/Routed.antt =====
-- Messages reach the connection that they came on.
use filehub_cloud.Base.{
  ℕ, ◌+◌, ◌%◌, ◌^◌, ◌≤◌, ◌<◌, ◌==◌, Bool, true, false, none, some, List, [], ◌∷◌, length,
  if◌then◌else◌, ◌≡◌, refl, ap, ◌∙◌, arith, Bool-cases, inl, inr, Option-cases,
}
use filehub_cloud.Main.Connections.{
  lookup, without, HttpServer, new_server, on_connected, Read, on_disconnected, erased, dispatched,
  found_conn, on_message, Callback, connected, disconnected, message, or_same, serve,
}

unfoldable pub is_in : ℕ → List ℕ → Bool
is_in c [] = false
is_in c (d ∷ live) = if d == c then true else is_in c live

remove : ℕ → List ℕ → List ℕ
remove c [] = []
remove c (d ∷ live) = let rest = remove c live in if d == c then rest else d ∷ rest

-- What a message of a connection leads to, with the connections that are up: to itself or to nothing.
abbrev pub own : ℕ → ℕ → Bool → Read
own num_threads conn up = dispatched num_threads (if up then some conn else none)

unfoldable pub expected : ℕ → List Callback → List ℕ → List Read
unfolding is_in remove
expected n [] live = []
expected n (connected conn ∷ callbacks) live = expected n callbacks (conn ∷ live)
expected n (disconnected conn ∷ callbacks) live = expected n callbacks (remove conn live)
expected n (message conn ∷ callbacks) live =
    own n conn (is_in conn live) ∷ expected n callbacks live

-- What muduo documents: a connection comes up once, and before its other callbacks.
abbrev pub IsCalled : List ℕ → List Callback → Type 0
IsCalled seen [] = Unit
IsCalled seen (connected conn ∷ callbacks) =
    (is_in conn seen ≡ false) × IsCalled (conn ∷ seen) callbacks
IsCalled seen (disconnected conn ∷ callbacks) = (is_in conn seen ≡ true) × IsCalled seen callbacks
IsCalled seen (message conn ∷ callbacks) = (is_in conn seen ≡ true) × IsCalled seen callbacks

-- A connection that was up has an own number, under which the map has it while it is up.
record Follows (s : HttpServer) (seen live : List ℕ) : Type 0 where
  known :
      (c : ℕ)
      → is_in c seen ≡ true
      → (u : ℕ) × (lookup c s.contexts ≡ some u)
        × (lookup u s.http_map ≡ (if is_in c live then some c else none))
  unknown : (c : ℕ) → is_in c seen ≡ false → is_in c live ≡ false
  below : (c u : ℕ) → lookup c s.contexts ≡ some u → u < s.conn_uuid_generator
  alone : (c d u : ℕ) → lookup c s.contexts ≡ some u → lookup d s.contexts ≡ some u → c ≡ d
  free : (u : ℕ) → s.conn_uuid_generator ≤ u → lookup u s.http_map ≡ none

lookup-without :
    {V : Type 0} (k j : ℕ) (m : List (ℕ × V))
    → lookup k (without j m) ≡ (if j == k then none else lookup k m)
unfolding lookup without
lookup-without k j [] = ground arith
lookup-without k j ((i, v) ∷ m) = ground (arith, lookup-without k j m)

is_in-remove :
    (c d : ℕ) (live : List ℕ) → is_in c (remove d live) ≡ (if d == c then false else is_in c live)
unfolding is_in remove
is_in-remove c d [] = ground arith
is_in-remove c d (e ∷ live) = ground (arith, is_in-remove c d live)

-- A connection with the next number, which is in use nowhere.
abbrev joined : ℕ → HttpServer → HttpServer
joined conn s = record s {
  conn_uuid_generator = s.conn_uuid_generator + 1;
  http_map = (s.conn_uuid_generator, conn) ∷ s.http_map;
  contexts = (conn, s.conn_uuid_generator) ∷ s.contexts;
}

small_mod : (n : ℕ) → n < 2 ^ 32 → n % 2 ^ 32 ≡ n
small_mod n l = omega arith

on_connected-joined :
    (s : HttpServer) (conn : ℕ)
    → lookup s.conn_uuid_generator s.http_map ≡ none
    → s.conn_uuid_generator + 1 < 2 ^ 32
    → on_connected conn s ≡ joined conn s
unfolding on_connected
on_connected-joined s conn new room = rw new (
    ap (λ n. record (joined conn s) { conn_uuid_generator = n })
      (small_mod (s.conn_uuid_generator + 1) room))

joined-Follows :
    (s : HttpServer) (seen live : List ℕ) (conn : ℕ)
    → Follows s seen live
    → is_in conn seen ≡ false
    → Follows (joined conn s) (conn ∷ seen) (conn ∷ live)
unfolding lookup is_in
joined-Follows s seen live conn f new = record {
  known = λ c e. elim (Bool-cases (conn == c)) [
    | inl same ↦ (s.conn_uuid_generator, rw same refl, ground arith)
    | inr other ↦
        let (u, context, here) = f.known c (ground arith) in
        let l = f.below c u context in (u, rw other context, ground (arith, here))
  ];
  unknown = λ c e. ground (arith, f.unknown c);
  below = λ c u e. ground (arith, f.below c u);
  alone = λ c d u e h. ground (arith, f.alone c d u, f.below c u, f.below d u);
  free = λ u e. ground (arith, f.free u);
}

disconnected-Follows :
    (s : HttpServer) (seen live : List ℕ) (conn : ℕ)
    → Follows s seen live
    → is_in conn seen ≡ true
    → Follows (or_same s (on_disconnected conn s)) seen (remove conn live)
unfolding on_disconnected erased
disconnected-Follows s seen live conn f old =
    let (u, context, here) = f.known conn old in
    rw context record {
      known = λ c e.
          let (v, context', here') = f.known c e in
          (
            v,
            context',
            ground (
              arith,
              lookup-without v u s.http_map,
              is_in-remove c conn live,
              f.alone c conn u,
              here',
            ),
          );
      unknown = λ c e. ground (arith, is_in-remove c conn live, f.unknown c e);
      below = f.below;
      alone = f.alone;
      free = λ v e. ground (arith, lookup-without v u s.http_map, f.free v e);
    }

message_own :
    (s : HttpServer) (seen live : List ℕ) (conn : ℕ)
    → Follows s seen live
    → is_in conn seen ≡ true
    → on_message conn s ≡ own s.num_threads conn (is_in conn live)
unfolding on_message found_conn
message_own s seen live conn f old =
    let (u, context, here) = f.known conn old in rw (context, here) refl

-- A connection that goes down changes neither the number of threads nor the counter.
down_same :
    (s : HttpServer) (conn : ℕ)
    → ((or_same s (on_disconnected conn s)).num_threads ≡ s.num_threads)
      × ((or_same s (on_disconnected conn s)).conn_uuid_generator ≡ s.conn_uuid_generator)
unfolding on_disconnected erased
down_same s conn = elim (Option-cases (lookup conn s.contexts)) [
  | inl e ↦ rw e (refl, refl)
  | inr (u, e) ↦ rw e (refl, refl)
]

serve-Follows :
    (callbacks : List Callback) (s : HttpServer) (seen live : List ℕ)
    → Follows s seen live
    → IsCalled seen callbacks
    → s.conn_uuid_generator + length callbacks < 2 ^ 32
    → serve callbacks s ≡ expected s.num_threads callbacks live
unfolding serve expected
serve-Follows [] s seen live f called room = refl
serve-Follows (connected conn ∷ callbacks) s seen live f (new, called) room =
    ap (serve callbacks)
      (on_connected-joined s conn (f.free s.conn_uuid_generator (omega arith)) (omega arith))
    ∙ serve-Follows callbacks (joined conn s) (conn ∷ seen) (conn ∷ live)
        (joined-Follows s seen live conn f new) called (omega arith)
serve-Follows (disconnected conn ∷ callbacks) s seen live f (old, called) room =
    serve-Follows callbacks (or_same s (on_disconnected conn s)) seen (remove conn live)
      (disconnected-Follows s seen live conn f old) called (omega (arith, (down_same s conn).1))
    ∙ ap (λ n. expected n callbacks (remove conn live)) (down_same s conn).0
serve-Follows (message conn ∷ callbacks) s seen live f (old, called) room =
    ap (λ r. r ∷ serve callbacks s) (message_own s seen live conn f old)
    ∙ ap (λ rs. own s.num_threads conn (is_in conn live) ∷ rs)
        (serve-Follows callbacks s seen live f called (omega arith))

starts : (num_threads : ℕ) → Follows (new_server num_threads) [] []
unfolding is_in lookup
starts num_threads = record {
  known = λ c e. cc;
  unknown = λ c e. refl;
  below = λ c u e. cc;
  alone = λ c d u e h. cc;
  free = λ u e. refl;
}

-- For fewer than 2^32 callbacks, in which a connection comes up once and before its other callbacks: each
-- message goes to the CHttpConn of its own connection while that is up, in a thread of the pool if there is
-- one, and to none after that.
pub serve-expected :
    (num_threads : ℕ) (callbacks : List Callback)
    → IsCalled [] callbacks
    → length callbacks < 2 ^ 32
    → serve callbacks (new_server num_threads) ≡ expected num_threads callbacks []
serve-expected num_threads callbacks called room =
    serve-Follows callbacks (new_server num_threads) [] [] (starts num_threads) called (omega arith)
