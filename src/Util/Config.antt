-- ===== src/Util/Config.antt =====
-- CConfigFileReader (base/config_file_reader.cc), over files without NUL bytes.
pub mod RoundTrip
use filehub_cloud.Base.{
  less, ℕ, zero, suc, ◌-◌, ◌==◌, ltb, Bool, true, false, ◌&&◌, ◌||◌, Option, none, some, List, [],
  ◌∷◌, ◌++◌, Text, if◌then◌else◌, length, take,
}

-- std::map<string, string>: the pairs in the order of their keys.
abbrev pub ConfigMap : Type 0
ConfigMap = List (Text × Text)

-- `insert` keeps a key's value.
pub insert : Text → Text → ConfigMap → ConfigMap
unfolding less
insert k v [] = (k, v) ∷ []
insert k v ((j, x) ∷ m) =
    let rest = insert k v m in
    if less k j then (k, v) ∷ (j, x) ∷ m else if less j k then (j, x) ∷ rest else (j, x) ∷ m

pub find_config : Text → ConfigMap → Option Text
unfolding less
find_config k [] = none
find_config k ((j, x) ∷ m) =
    let rest = find_config k m in if less k j || less j k then rest else some x

-- `it->second = value`
pub assign : Text → Text → ConfigMap → ConfigMap
unfolding less
assign k v [] = []
assign k v ((j, x) ∷ m) =
    let rest = assign k v m in if less k j || less j k then (j, x) ∷ rest else (j, v) ∷ m

abbrev blank : ℕ → Bool
blank c = c == 32 || c == 9

trim_start : Text → Text
trim_start [] = []
trim_start (c ∷ s) = let rest = trim_start s in if blank c then rest else c ∷ s

cons_unless_blank : ℕ → Text → Text
cons_unless_blank c [] = if blank c then [] else c ∷ []
cons_unless_blank c (d ∷ s) = c ∷ d ∷ s

trim_end : Text → Text
unfolding cons_unless_blank
trim_end [] = []
trim_end (c ∷ s) = cons_unless_blank c (trim_end s)

trimmed : Text → Option Text
unfolding trim_end
trimmed [] = none
trimmed (c ∷ s) = some (trim_end (c ∷ s))

-- none for NULL. A text that has a byte behind the blanks at its start keeps that one at its end.
trim_space : Text → Option Text
unfolding trimmed trim_start
trim_space name = trimmed (trim_start name)

insert_pair : Option Text → Option Text → ConfigMap → ConfigMap
unfolding insert
insert_pair none value m = m
insert_pair (some key) none m = m
insert_pair (some key) (some value) m = insert key value m

-- What stands before the first `c` of a text, and behind it; none without a `c`.
behind_first : ℕ → Option (Text × Text) → Option (Text × Text)
behind_first x none = none
behind_first x (some (s, t)) = some (x ∷ s, t)

pub split_at : ℕ → Text → Option (Text × Text)
unfolding behind_first
split_at c [] = none
split_at c (x ∷ s) = let rest = split_at c s in if x == c then some ([], s) else behind_first x rest

insert_parts : Option (Text × Text) → ConfigMap → ConfigMap
unfolding insert_pair trim_space
insert_parts none m = m
insert_parts (some (key, value)) m = insert_pair (trim_space key) (trim_space value) m

parse_line : Text → ConfigMap → ConfigMap
unfolding insert_parts split_at
parse_line line m = insert_parts (split_at 61 line) m

extend : ℕ → List Text → List Text
extend c [] = (c ∷ []) ∷ []
extend c (l ∷ ls) = (c ∷ l) ∷ ls

-- The results of fgets with a buffer of 256 bytes, one call after the other, where the first has `room`
-- bytes left.
pub fgets_lines : ℕ → Text → List Text
unfolding extend
fgets_lines room [] = []
fgets_lines room (c ∷ s) =
    let next = fgets_lines 255 s in
    let rest = fgets_lines (room - 1) s in
    if c == 10 || room == 1 then (c ∷ []) ∷ next else extend c rest

-- `if (buf[len - 1] == '\n') buf[len - 1] = 0;`
chomp : Text → Text
chomp [] = []
chomp (c ∷ []) = if c == 10 then [] else c ∷ []
chomp (c ∷ d ∷ s) = c ∷ chomp (d ∷ s)

before_comment : Text → Text
before_comment [] = []
before_comment (c ∷ s) = let rest = before_comment s in if c == 35 then [] else c ∷ rest

parse_nonempty : Text → ConfigMap → ConfigMap
unfolding parse_line
parse_nonempty [] m = m
parse_nonempty (c ∷ s) m = parse_line (c ∷ s) m

pub parse_lines : List Text → ConfigMap → ConfigMap
unfolding parse_nonempty before_comment chomp
parse_lines [] m = m
parse_lines (l ∷ ls) m = parse_lines ls (parse_nonempty (before_comment (chomp l)) m)

pub record ConfigFileReader : Type 0 where
  pub load_ok : Bool
  pub config_map : ConfigMap

-- The constructor: `content` is the file, none if it cannot be opened; then `load_ok_` keeps what its
-- memory held.
pub load_file : Bool → Option Text → ConfigFileReader
unfolding parse_lines fgets_lines
load_file junk none = record { load_ok = junk; config_map = [] }
load_file junk (some content) = record {
  load_ok = true;
  config_map = parse_lines (fgets_lines 255 content) [];
}

-- none for NULL.
unfoldable pub get_config_name : Text → ConfigFileReader → Option Text
unfolding find_config
get_config_name name c = if c.load_ok then find_config name c.config_map else none

-- A pair, as snprintf leaves it in 128 bytes.
pub pair_line : Text × Text → Text
pair_line (k, v) = take 127 (k ++ (61 ∷ v ++ (10 ∷ [])))

-- What stands in the file, and whether all of it was written, where fwrite succeeds `budget` times.
pub write_pairs : ℕ → ConfigMap → Text × Bool
unfolding pair_line
write_pairs budget [] = ([], true)
write_pairs zero (p ∷ m) = ([], false)
write_pairs (suc budget) (p ∷ m) =
    let (text, ok) = write_pairs budget m in (pair_line p ++ text, ok)

pub set_pair : Option Text → Text → Text → ConfigMap → ConfigMap
unfolding assign insert
set_pair none name value m = insert name value m
set_pair (some old) name value m = assign name value m

-- The reader after it, and the file with whether 0 is returned; none for a file that is not written.
-- `opens`: whether fopen succeeds.
pub set_config_value :
    Bool → ℕ → Text → Text → ConfigFileReader → ConfigFileReader × Option (Text × Bool)
unfolding set_pair write_pairs find_config
set_config_value opens budget name value c =
    let m = set_pair (find_config name c.config_map) name value c.config_map in
    if c.load_ok
    then (record c { config_map = m }, if opens then some (write_pairs budget m) else none)
    else (c, none)
