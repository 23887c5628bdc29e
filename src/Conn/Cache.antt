-- ===== src/Conn/Cache.antt =====
-- The commands of CacheConn in application/filehub/redis/cache_pool.cc. `Init`, the reconnection, is a
-- call that succeeds or fails. A reply that is not checked for NULL is read all the same: `crash`.
-- Return codes are integers; `minus_one` is -1.
use filehub_cloud.Conn.Mysql.{atoi}
use filehub_cloud.Schema.Results as Results
use filehub_cloud.Base.{
  Option, List, ℤ, take, ℕ, true, false, none, some, [], Text, bytes, same, if◌then◌else◌,
}
use filehub_cloud.Redis.{
  Key, Command, get, set, setex, del, zlexcount, zrem, zincrby, zadd, zcard, hset, hdel, hget,
  zscore, zrevrange, array, Answer, string, status, error, integer, nil,
}
use filehub_cloud.Program.Defs.{Prog, done, crash, init, redis}

-- A C int or long: a count, or a negative code.
pub data Code : Type 0 where
  code : ℕ → Code
  minus_one : Code

-- `reply->str` and `reply->integer`; what the reply's type does not set is empty or 0.
abbrev pub reply_str : Answer → Text
reply_str (string s) = s
reply_str (status s) = s
reply_str (error s) = s
reply_str (integer n) = []
reply_str (array elements) = []
reply_str nil = []

abbrev pub reply_integer : Answer → ℕ
reply_integer (integer n) = n
reply_integer _ = 0

-- `if (Init()) return early;`, the command, and `if (!reply) return lost;`.
guarded : {A : Type 0} → A → A → Command → (Answer → A) → Prog A
guarded early lost c read = init λ failed. elim failed [
  | true ↦ done early
  | false ↦ redis c λ r. elim r [ none ↦ done lost | some a ↦ done (read a) ]
]

-- The same with the reply read unchecked.
unguarded : {A : Type 0} → A → Command → (Answer → A) → Prog A
unguarded early c read = init λ failed. elim failed [
  | true ↦ done early
  | false ↦ redis c λ r. elim r [ none ↦ crash | some a ↦ done (read a) ]
]

abbrev pub only_string : Answer → Text
only_string (string s) = s
only_string _ = []

unfoldable pub cache_get : Text → Prog Text
unfolding guarded
cache_get key = guarded [] [] (get key) only_string

unfoldable pub cache_set : Text → Text → Prog Text
unfolding guarded
cache_set key value = guarded [] [] (set key value) reply_str

unfoldable pub cache_set_ex : Text → ℕ → Text → Prog Text
unfolding guarded
cache_set_ex key timeout value = guarded [] [] (setex key timeout value) reply_str

unfoldable pub cache_del : Key → Prog ℕ
unfolding guarded
cache_del key = guarded 0 0 (del key) reply_integer

unfoldable pub cache_hdel : Text → Prog Code
unfolding guarded
cache_hdel field = guarded minus_one minus_one (hdel field) (λ a. code (reply_integer a))

unfoldable pub cache_hset : Text → Text → Prog Code
unfolding guarded
cache_hset field value =
    guarded minus_one minus_one (hset field value) (λ a. code (reply_integer a))

count_or_error : Answer → Code
count_or_error (integer n) = code n
count_or_error _ = minus_one

zero_or_error : Answer → Code
zero_or_error (integer n) = code 0
zero_or_error _ = minus_one

unfoldable pub zset_exist : Text → Prog Code
unfolding unguarded count_or_error
zset_exist member = unguarded minus_one (zlexcount member) count_or_error

unfoldable pub zset_add : ℕ → Text → Prog Code
unfolding unguarded zero_or_error
zset_add score member = unguarded minus_one (zadd score member) zero_or_error

unfoldable pub zset_zrem : Text → Prog Code
unfolding unguarded zero_or_error
zset_zrem member = unguarded minus_one (zrem member) zero_or_error

ok_or_error : Text → Code
ok_or_error s = if same s (bytes "OK") then code 0 else minus_one

-- `strcmp(reply->str, "OK")`: an integer or nil reply has a NULL text.
compare_ok : Answer → Prog Code
unfolding ok_or_error
compare_ok (string s) = done (ok_or_error s)
compare_ok (status s) = done (ok_or_error s)
compare_ok (error s) = done (ok_or_error s)
compare_ok (integer n) = crash
compare_ok (array elements) = crash
compare_ok nil = crash

-- A failed `Init` gives `false`, that is 0.
unfoldable pub zset_incr : Text → Prog Code
unfolding compare_ok
zset_incr member = init λ failed. elim failed [
  | true ↦ done (code 0)
  | false ↦ redis (zincrby member) λ r. elim r [ none ↦ crash | some a ↦ compare_ok a ]
]

unfoldable pub zset_zcard : Prog Code
unfolding unguarded count_or_error
zset_zcard = unguarded minus_one zcard count_or_error

-- Hget with a `char *`: 0 and the value, or -1; the buffer is taken to be large enough.
pub string_or_none : Answer → Option Text
string_or_none (string s) = some s
string_or_none _ = none

unfoldable pub cache_hget : Text → Prog (Option Text)
unfolding guarded string_or_none
cache_hget field = guarded none none (hget field) string_or_none

-- The score is read with atoi.
pub score_or_error : Answer → Code
score_or_error (string s) = code (atoi (Results.string s))
score_or_error _ = minus_one

unfoldable pub zset_get_score : Text → Prog Code
unfolding unguarded score_or_error
zset_get_score member = unguarded minus_one (zscore member) score_or_error

-- At most `count` members; none for -1. Members are taken to fit VALUES_ID_SIZE.
members : ℕ → Answer → Option (List Text)
members count (array elements) = some (take count elements)
members count _ = none

unfoldable pub zset_zrevrange : ℤ → ℤ → ℕ → Prog (Option (List Text))
unfolding unguarded members
zset_zrevrange from_pos end_pos count = unguarded none (zrevrange from_pos end_pos) (members count)
