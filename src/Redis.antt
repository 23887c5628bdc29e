-- ===== src/Redis.antt =====
-- The Redis data that application/filehub uses, and the commands that CacheConn sends through
-- hiredis. Redis and hiredis are not modelled: `answer` and `effect` write down what Redis documents,
-- and Program.antt states it as an assumption on the server. One sorted set and one hash are in use,
-- FILE_PUBLIC_ZSET and FILE_NAME_HASH; scores are downloads, hence natural numbers.
mod Ranking
unfoldable pub use Ranking.{range, ranked}
use filehub_cloud.Base.{
  ◌≡◌, refl, arith, same→≡, same_refl, ℤ, ℕ, ◌+◌, Bool, true, ◌&&◌, Option, none, some, List, [],
  ◌∷◌, Text, bytes, same, decimal, ◌==◌, if◌then◌else◌, length,
}

-- Association lists with at most one entry for a key.
module _ {V : Type 0} where
  unfoldable pub find : Text → List (Text × V) → Option V
  find k [] = none
  find k ((j, v) ∷ m) = if same j k then some v else find k m

  unfoldable pub put : Text → V → List (Text × V) → List (Text × V)
  put k v [] = (k, v) ∷ []
  put k v ((j, x) ∷ m) = if same j k then (j, v) ∷ m else (j, x) ∷ put k v m

  unfoldable pub erase : Text → List (Text × V) → List (Text × V)
  erase k [] = []
  erase k ((j, x) ∷ m) = if same j k then erase k m else (j, x) ∷ erase k m

  abbrev pub found : Option V → ℕ
  found none = 0
  found (some _) = 1

-- An entry that is put is found, and the others as before.
pub find-put :
    {V : Type 0} (k j : Text) (x : V) (m : List (Text × V))
    → find j (put k x m) ≡ (if same k j then some x else find j m)
unfolding find put
find-put k j x [] = refl
find-put k j x ((i, y) ∷ m) =
    ground (arith, find-put k j x m, same→≡ i k, same→≡ i j, same→≡ k j, same_refl k, same_refl j)

pub record Store : Type 0 where
  pub strings : List (Text × Text)
  pub zset : List (Text × ℕ)
  pub hash : List (Text × Text)

pub data Key : Type 0 where
  string_key : Text → Key
  public_zset name_hash : Key

pub data Command : Type 0 where
  get : Text → Command
  set : Text → Text → Command
  setex : Text → ℕ → Text → Command
  del : Key → Command
  zlexcount zrem zincrby : Text → Command
  zadd : ℕ → Text → Command
  zcard : Command
  hset : Text → Text → Command
  hdel hget zscore : Text → Command
  zrevrange : ℤ → ℤ → Command

-- `redisReply`, by its type.
pub data Answer : Type 0 where
  string status error : Text → Answer
  integer : ℕ → Answer
  array : List Text → Answer
  nil : Answer

-- All members have one score; only then ZLEXCOUNT is specified.
unfoldable pub uniform : List (Text × ℕ) → Bool
uniform [] = true
uniform ((j, x) ∷ []) = true
uniform ((j, x) ∷ (i, y) ∷ m) = x == y && uniform ((i, y) ∷ m)

abbrev present : Key → Store → ℕ
present (string_key k) s = found (find k s.strings)
present public_zset s = if length s.zset == 0 then 0 else 1
present name_hash s = if length s.hash == 0 then 0 else 1

abbrev clear : Key → Store → Store
clear (string_key k) s = record s { strings = erase k s.strings }
clear public_zset s = record s { zset = [] }
clear name_hash s = record s { hash = [] }

abbrev pub or_zero : Option ℕ → ℕ
or_zero none = 0
or_zero (some n) = n

abbrev pub shown : Option Text → Answer
shown none = nil
shown (some v) = string v

abbrev pub scored : Option ℕ → Answer
scored none = nil
scored (some n) = string (decimal n)

-- The answer to a command that the server executes.
unfoldable pub answer : Command → Store → Answer
answer (get k) s = shown (find k s.strings)
answer (set k v) s = status (bytes "OK")
answer (setex k n v) s = status (bytes "OK")
answer (del k) s = integer (present k s)
answer (zlexcount m) s = integer (found (find m s.zset))
answer (zrem m) s = integer (found (find m s.zset))
answer (zincrby m) s = string (decimal (or_zero (find m s.zset) + 1))
answer (zadd n m) s = integer (if found (find m s.zset) == 0 then 1 else 0)
answer zcard s = integer (length s.zset)
answer (hset f v) s = integer (if found (find f s.hash) == 0 then 1 else 0)
answer (hdel f) s = integer (found (find f s.hash))
answer (hget f) s = shown (find f s.hash)
answer (zscore m) s = scored (find m s.zset)
answer (zrevrange start stop) s = array (range start stop s.zset)

unfoldable pub effect : Command → Store → Store
effect (set k v) s = record s { strings = put k v s.strings }
effect (setex k n v) s = record s { strings = put k v s.strings }
effect (del k) s = clear k s
effect (zrem m) s = record s { zset = erase m s.zset }
effect (zincrby m) s = record s { zset = put m (or_zero (find m s.zset) + 1) s.zset }
effect (zadd n m) s = record s { zset = put m n s.zset }
effect (hset f v) s = record s { hash = put f v s.hash }
effect (hdel f) s = record s { hash = erase f s.hash }
effect _ s = s
