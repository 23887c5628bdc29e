-- ===== src/Common/Query/Parsing.antt =====
-- What QueryParseKeyValue finds, by the ways to split the query.
use filehub_cloud.Base.{
  drop, ℕ, zero, suc, true, false, Option, none, some, [], ◌∷◌, ◌++◌, Text, All, ◌≡◌, inl, inr,
  append-nil, refl, ap, ◌∙◌, arith, Bool-cases,
}
use filehub_cloud.Common.Query.{
  strip, or_behind, find_key, ends_value, value_until, Parsed, missing, reads_behind, value,
  behind_key, query_parse_key_value,
}

abbrev pub IsCut : Text → Type 0
IsCut [] = Unit
IsCut (x ∷ s) = ends_value x ≡ true

-- missing: the key stands at no place. reads_behind: the query ends with the key. value: the key stands
-- in the query, one byte follows, then the value up to the end, a `#` or a `&`.
abbrev pub IsParsed : Text → Text → Parsed → Type 0
IsParsed query key missing = (n : ℕ) → strip key (drop n query) ≡ none
IsParsed query key reads_behind = (before : Text) × (query ≡ before ++ key)
IsParsed query key (value v) =
    (before : Text) × (x : ℕ) × (rest : Text) × (query ≡ before ++ (key ++ (x ∷ v ++ rest)))
    × All (λ y. ends_value y ≡ false) v
    × IsCut rest

strip-append : (key s rest : Text) → strip key s ≡ some rest → s ≡ key ++ rest
unfolding strip
strip-append [] s rest e = cc
strip-append (k ∷ key) [] rest e = cc
strip-append (k ∷ key) (x ∷ s) rest e = ground (arith, strip-append key s rest)

find_key-append :
    (key s rest : Text)
    → find_key key s ≡ some rest
    → (before : Text) × (s ≡ before ++ (key ++ rest))
unfolding find_key or_behind
find_key-append key [] rest e = ([], strip-append key [] rest e)
find_key-append key (x ∷ s) rest e =
    at_start (find_key-append key s rest) (strip key (x ∷ s)) refl e
  where
    at_start :
        (find_key key s ≡ some rest → (before : Text) × (s ≡ before ++ (key ++ rest)))
        → (o : Option Text) → strip key (x ∷ s) ≡ o
        → or_behind o (find_key key s) ≡ some rest
        → (before : Text) × (x ∷ s ≡ before ++ (key ++ rest))
    at_start later none h q = let (before, split) = later q in (x ∷ before, ap (λ t. x ∷ t) split)
    at_start later (some r) h q = ([], strip-append key (x ∷ s) rest (h ∙ q))

find_key-none : (key s : Text) → find_key key s ≡ none → (n : ℕ) → strip key (drop n s) ≡ none
unfolding find_key or_behind
find_key-none key [] e zero = e
find_key-none key [] e (suc n) = e
find_key-none key (x ∷ s) e n = at_start (find_key-none key s) (strip key (x ∷ s)) refl e n
  where
    at_start :
        (find_key key s ≡ none → (m : ℕ) → strip key (drop m s) ≡ none)
        → (o : Option Text) → strip key (x ∷ s) ≡ o
        → or_behind o (find_key key s) ≡ none
        → (m : ℕ) → strip key (drop m (x ∷ s)) ≡ none
    at_start later none h q zero = h
    at_start later none h q (suc m) = later q m
    at_start later (some r) h q m = cc

value_until-split :
    (s : Text)
    → (rest : Text) × (s ≡ value_until s ++ rest)
      × All (λ y. ends_value y ≡ false) (value_until s)
      × IsCut rest
unfolding value_until
value_until-split [] = ([], refl, tt, tt)
value_until-split (x ∷ s) =
    let (rest, split, clean, cut) = value_until-split s in
    elim (Bool-cases (ends_value x)) [
      | inl e ↦ rw e (x ∷ s, refl, tt, e)
      | inr e ↦ rw e (rest, ap (λ t. x ∷ t) split, (e, clean), cut)
    ]

-- QueryParseKeyValue, on every query and key: -1 if the key stands nowhere in the query; a read behind
-- the string only if the query ends with the key; else the value is what stands between the byte after
-- the key and the next `#`, `&` or the end.
pub query_parse_key_value-IsParsed :
    (query key : Text) → IsParsed query key (query_parse_key_value query key)
unfolding query_parse_key_value behind_key
query_parse_key_value-IsParsed query key = found_key (find_key key query) refl
  where
    found_key : (o : Option Text) → find_key key query ≡ o → IsParsed query key (behind_key o)
    found_key none e = find_key-none key query e
    found_key (some []) e =
        let (before, split) = find_key-append key query [] e in
        (before, split ∙ ap (λ t. before ++ t) (append-nil key))
    found_key (some (x ∷ s)) e =
        let (before, split) = find_key-append key query (x ∷ s) e in
        let (rest, cut_at, clean, cut) = value_until-split s in
        (before, x, rest, split ∙ ap (λ t. before ++ (key ++ (x ∷ t))) cut_at, clean, cut)
