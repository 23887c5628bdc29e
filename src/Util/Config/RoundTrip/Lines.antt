-- ===== src/Util/Config/RoundTrip/Lines.antt =====
-- One line of a configuration, written and parsed again.
use filehub_cloud.Base.{
  ℕ, ◌+◌, ◌-◌, ◌==◌, ◌<◌, ◌≤◌, Bool, true, false, ◌&&◌, ◌||◌, not, some, [], ◌∷◌, ◌++◌, Text,
  length, length-append, take, take-all, All, All-append, ◌≡◌, refl, sym, ap, ◌∙◌, arith,
  append_assoc,
}
use filehub_cloud.Util.Config.{
  ConfigMap, insert, blank, trim_start, cons_unless_blank, trim_end, trimmed, trim_space,
  insert_pair, behind_first, split_at, insert_parts, parse_line, extend, fgets_lines, chomp,
  before_comment, parse_nonempty, parse_lines, pair_line,
}

-- No line break and no comment sign.
abbrev pub IsPlain : ℕ → Type 0
IsPlain c = ((c == 10) ≡ false) × ((c == 35) ≡ false)

abbrev last : ℕ → Text → ℕ
last c [] = c
last c (d ∷ s) = last d s

-- Some text without a blank at either end.
abbrev pub is_bare : Text → Bool
is_bare [] = false
is_bare (c ∷ s) = not (blank c) && not (blank (last c s))

-- A key and a value that a line of 127 bytes holds, both bare and plain, and the key without `=`.
abbrev pub IsPair : Text × Text → Type 0
IsPair (k, v) =
    (is_bare k ≡ true)
    × (is_bare v ≡ true)
    × All IsPlain k
    × All IsPlain v
    × All (λ c. (c == 61) ≡ false) k
    × (length k + length v ≤ 125)

fgets_lines-append :
    (room : ℕ) (s t : Text)
    → All IsPlain s
    → length s < room
    → fgets_lines room (s ++ (10 ∷ t)) ≡ (s ++ (10 ∷ [])) ∷ fgets_lines 255 t
unfolding fgets_lines extend
fgets_lines-append room [] t h l = refl
fgets_lines-append room (x ∷ s) t ((n, c), h) l =
    rw (ends_here) (ap (extend x) (fgets_lines-append (room - 1) s t h (omega (arith, l))))
  where
    ends_here : (x == 10 || room == 1) ≡ false
    ends_here = ground arith

chomp-append : (s : Text) → All IsPlain s → chomp (s ++ (10 ∷ [])) ≡ s
unfolding chomp
chomp-append [] h = refl
chomp-append (x ∷ []) h = refl
chomp-append (x ∷ y ∷ s) (p, h) = ap (λ t. x ∷ t) (chomp-append (y ∷ s) h)

before_comment-same : (s : Text) → All IsPlain s → before_comment s ≡ s
unfolding before_comment
before_comment-same [] h = refl
before_comment-same (x ∷ s) ((n, c), h) = rw c (ap (λ t. x ∷ t) (before_comment-same s h))

split_at-append :
    (c : ℕ) (k v : Text) → All (λ x. (x == c) ≡ false) k → split_at c (k ++ (c ∷ v)) ≡ some (k, v)
unfolding split_at behind_first
split_at-append c [] v h = ground arith
split_at-append c (x ∷ k) v (n, h) = rw n (ap (behind_first x) (split_at-append c k v h))

trim_end-bare : (c : ℕ) (s : Text) → blank (last c s) ≡ false → trim_end (c ∷ s) ≡ c ∷ s
unfolding trim_end cons_unless_blank
trim_end-bare c [] h = rw h refl
trim_end-bare c (d ∷ s) h = ap (cons_unless_blank c) (trim_end-bare d s h)

not-true : (b : Bool) → not b ≡ true → b ≡ false
not-true true h = cc
not-true false h = refl

trim_space-bare : (s : Text) → is_bare s ≡ true → trim_space s ≡ some s
unfolding trim_space trimmed trim_start
trim_space-bare [] h = cc
trim_space-bare (c ∷ s) h = rw (starts) (ap some (trim_end-bare c s ends))
  where
    starts : blank c ≡ false
    starts = ground arith

    ends : blank (last c s) ≡ false
    ends = ground arith

parse_nonempty-parse_line : (s : Text) (m : ConfigMap) → parse_nonempty s m ≡ parse_line s m
unfolding parse_nonempty parse_line insert_parts split_at
parse_nonempty-parse_line [] m = refl
parse_nonempty-parse_line (c ∷ s) m = refl

parse_line-pair :
    (k v : Text) (m : ConfigMap) → IsPair (k, v) → parse_line (k ++ (61 ∷ v)) m ≡ insert k v m
unfolding parse_line insert_parts insert_pair
parse_line-pair k v m (bare_k, bare_v, plain_k, plain_v, keyed, l) =
    ap (λ parts. insert_parts parts m) (split_at-append 61 k v keyed)
    ∙ ap (λ key. insert_pair key (trim_space v) m) (trim_space-bare k bare_k)
    ∙ ap (λ value. insert_pair (some k) value m) (trim_space-bare v bare_v)

-- A written pair is one line, and is inserted.
pub parse_lines-pair :
    (k v t : Text) (m : ConfigMap)
    → IsPair (k, v)
    → parse_lines (fgets_lines 255 (pair_line (k, v) ++ t)) m
      ≡ parse_lines (fgets_lines 255 t) (insert k v m)
unfolding pair_line parse_lines
parse_lines-pair k v t m (bare_k, bare_v, plain_k, plain_v, keyed, l) =
    ap (λ u. parse_lines (fgets_lines 255 u) m) whole
    ∙ ap (λ ls. parse_lines ls m)
        (fgets_lines-append 255 body t plain (omega (arith, l, length-append k (61 ∷ v))))
    ∙ ap (λ u. parse_lines (fgets_lines 255 t) (parse_nonempty (before_comment u) m))
        (chomp-append body plain)
    ∙ ap (λ u. parse_lines (fgets_lines 255 t) (parse_nonempty u m))
        (before_comment-same body plain)
    ∙ ap (parse_lines (fgets_lines 255 t)) (parse_nonempty-parse_line body m ∙ parsed_pair)
  where
    body : Text
    body = k ++ (61 ∷ v)

    plain : All IsPlain body
    plain = All-append IsPlain k (61 ∷ v) plain_k ((ground arith, ground arith), plain_v)

    short : length (k ++ (61 ∷ v ++ (10 ∷ []))) ≤ 127
    short = omega (arith, l, length-append k (61 ∷ v ++ (10 ∷ [])), length-append v (10 ∷ []))

    whole : take 127 (k ++ (61 ∷ v ++ (10 ∷ []))) ++ t ≡ body ++ (10 ∷ t)
    whole =
        ap (λ u. u ++ t) (take-all 127 (k ++ (61 ∷ v ++ (10 ∷ []))) short)
        ∙ append_assoc k (61 ∷ v ++ (10 ∷ [])) t
        ∙ ap (λ u. k ++ u) (append_assoc (61 ∷ v) (10 ∷ []) t)
        ∙ sym (append_assoc k (61 ∷ v) (10 ∷ t))

    parsed_pair : parse_line body m ≡ insert k v m
    parsed_pair = parse_line-pair k v m (bare_k, bare_v, plain_k, plain_v, keyed, l)
