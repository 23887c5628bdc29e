-- ===== src/Common/Query.antt =====
-- QueryParseKeyValue of api/api_common.cc, over the bytes of C strings. The caller's buffer for the value
-- is assumed to be large enough, and the length is that of the value.
pub mod Parsing
use filehub_cloud.Base.{ℕ, ◌==◌, Bool, ◌||◌, Option, none, some, List, [], ◌∷◌, Text, if◌then◌else◌}

-- What stands behind the key at the start of a string; none if the string does not start with the key.
pub strip : Text → Text → Option Text
strip [] s = some s
strip (k ∷ key) [] = none
strip (k ∷ key) (x ∷ s) = let rest = strip key s in if k == x then rest else none

or_behind : Option Text → Option Text → Option Text
or_behind none later = later
or_behind (some rest) later = some rest

-- `strstr(query, key)` and `temp += strlen(key)`.
pub find_key : Text → Text → Option Text
unfolding strip or_behind
find_key key [] = strip key []
find_key key (x ∷ s) = or_behind (strip key (x ∷ s)) (find_key key s)

-- `#` and `&`; a NUL ends the string.
abbrev pub ends_value : ℕ → Bool
ends_value x = x == 35 || x == 38

value_until : Text → Text
value_until [] = []
value_until (x ∷ s) = let rest = value_until s in if ends_value x then [] else x ∷ rest

-- -1; a read behind the string, which C++ leaves undefined; 0 with the value.
pub data Parsed : Type 0 where
  missing : Parsed
  reads_behind : Parsed
  value : Text → Parsed

-- The byte behind the key is skipped, whatever it is.
behind_key : Option Text → Parsed
unfolding value_until
behind_key none = missing
behind_key (some []) = reads_behind
behind_key (some (x ∷ s)) = value (value_until s)

pub query_parse_key_value : Text → Text → Parsed
unfolding behind_key find_key
query_parse_key_value query key = behind_key (find_key key query)
