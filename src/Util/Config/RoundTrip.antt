-- ===== src/Util/Config/RoundTrip.antt =====
-- A configuration that is written and loaded again.
pub mod Keys
pub mod Lines
use filehub_cloud.Base.{
  less, ℕ, zero, suc, ◌+◌, ◌-◌, ◌==◌, ltb, ◌<◌, ◌≤◌, Bool, true, false, ◌&&◌, ◌||◌, not, Option,
  none, some, List, [], ◌∷◌, ◌++◌, Text, if◌then◌else◌, length, length-append, take, take-all, All,
  All-append, ◌≡◌, refl, sym, ap, ◌∙◌, subst, arith, append_assoc, append-nil, Bool-cases, inl, inr,
  Option-cases,
}
use filehub_cloud.Util.Config.{
  ConfigMap, insert, blank, trim_start, cons_unless_blank, trim_end, trimmed, trim_space,
  insert_pair, behind_first, split_at, insert_parts, parse_line, extend, fgets_lines, chomp,
  before_comment, parse_nonempty, parse_lines, pair_line, write_pairs, find_config, set_pair,
  ConfigFileReader, load_file, get_config_name, set_config_value,
}
use filehub_cloud.Util.Config.RoundTrip.Keys.{insert-last, IsSorted, set_pair_lem}
use filehub_cloud.Util.Config.RoundTrip.Lines.{IsPair, parse_lines-pair}

-- Every key behind those that were inserted before.
abbrev IsBehind : ConfigMap → ConfigMap → Type 0
IsBehind acc m = All (λ p. All (λ q. less q.0 p.0 ≡ true) acc) m

IsBehind-append :
    (acc m : ConfigMap) (k v : Text)
    → IsBehind acc m
    → All (λ p. less k p.0 ≡ true) m
    → IsBehind (acc ++ ((k, v) ∷ [])) m
IsBehind-append acc [] k v h l = tt
IsBehind-append acc (p ∷ m) k v (b, h) (q, l) = (
  All-append (λ r. less r.0 p.0 ≡ true) acc ((k, v) ∷ []) b (q, tt),
  IsBehind-append acc m k v h l,
)

parse_lines-write_pairs :
    (acc m : ConfigMap)
    → IsSorted m
    → IsBehind acc m
    → All IsPair m
    → parse_lines (fgets_lines 255 (write_pairs (length m) m).0) acc ≡ acc ++ m
unfolding write_pairs parse_lines fgets_lines
parse_lines-write_pairs acc [] s b h = sym (append-nil acc)
parse_lines-write_pairs acc ((k, v) ∷ m) (l, s) (b, c) (p, h) =
    parse_lines-pair k v (write_pairs (length m) m).0 acc p
    ∙ ap (parse_lines (fgets_lines 255 (write_pairs (length m) m).0)) (insert-last k v acc b)
    ∙ parse_lines-write_pairs (acc ++ ((k, v) ∷ [])) m s (IsBehind-append acc m k v c l) h
    ∙ append_assoc acc ((k, v) ∷ []) m

write_pairs-ok : (m : ConfigMap) → (write_pairs (length m) m).1 ≡ true
unfolding write_pairs
write_pairs-ok [] = refl
write_pairs-ok (p ∷ m) = write_pairs-ok m

write_pairs-budget :
    (budget : ℕ) (m : ConfigMap)
    → length m ≤ budget
    → write_pairs budget m ≡ ((write_pairs (length m) m).0, true)
unfolding write_pairs
write_pairs-budget budget [] l = refl
write_pairs-budget zero (p ∷ m) l = absurd (omega (arith, l))
write_pairs-budget (suc budget) (p ∷ m) l =
    ap (λ r. (pair_line p ++ r.0, r.1)) (write_pairs-budget budget m (omega (arith, l)))

IsBehind-nothing : (m : ConfigMap) → IsBehind [] m
IsBehind-nothing [] = tt
IsBehind-nothing (p ∷ m) = (tt, IsBehind-nothing m)

-- What a reader has loaded, if its map is in order and its pairs fit their lines.
abbrev pub IsWritable : ConfigFileReader → Type 0
IsWritable c = (c.load_ok ≡ true) × IsSorted c.config_map × All IsPair c.config_map

-- Let a reader have loaded a file, its map be in order, each key and value a text without a blank at its
-- ends, a line break or `#`, no key with `=`, and each pair fit the 127 bytes of its line; let the new
-- pair be such a pair too. If the file is opened and fwrite succeeds for one pair more than there are, then
-- SetConfigValue writes the whole file; a reader made from it is the one that SetConfigValue leaves; and
-- GetConfigName on it gives the value that was set.
pub set_config_value-load_file :
    (c : ConfigFileReader) (name value : Text) (budget : ℕ) (junk : Bool)
    → IsWritable c
    → IsPair (name, value)
    → length c.config_map < budget
    → (text : Text) × ((set_config_value true budget name value c).1 ≡ some (text, true))
      × (load_file junk (some text) ≡ (set_config_value true budget name value c).0)
      × (get_config_name name (load_file junk (some text)) ≡ some value)
unfolding set_config_value load_file get_config_name
set_config_value-load_file c name value budget junk (ok, sorted, pairs) pair l =
    let (fine, ordered, short, held) =
      set_pair_lem IsPair name value c.config_map pair pairs sorted in
    let loaded = parse_lines-write_pairs [] m ordered (IsBehind-nothing m) fine in
    (
      (write_pairs (length m) m).0,
      rw ok (ap (λ r. some r) (write_pairs-budget budget m (omega (arith, l, short)))),
      rw ok (ap (λ r. record { load_ok = true; config_map = r }) loaded),
      ap (λ r. find_config name r) loaded ∙ held,
    )
  where
    m : ConfigMap
    m = set_pair (find_config name c.config_map) name value c.config_map
