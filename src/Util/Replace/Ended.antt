-- ===== src/Util/Replace/Ended.antt =====
-- ReplaceStr ends.
use filehub_cloud.Base.{
  ℕ, zero, suc, ◌<◌, ◌==◌, none, some, [], ◌∷◌, ◌++◌, append_assoc, append-nil, length-append, Text,
  length, get_elem?, set, if◌then◌else◌, ◌≡◌, refl, sym, ap, ◌∙◌, arith, Bool-cases, inl, inr,
}
use filehub_cloud.Util.Replace.{
  Looped, ended, reads_behind, runs_on, replaced_at, looked, replace_loop, replace_str,
}

abbrev before : ℕ → Looped → Looped
before c (ended s) = ended (c ∷ s)
before c reads_behind = reads_behind
before c runs_on = runs_on

-- What it should leave: each `old_char` before the first zero byte replaced, the bytes behind it as they are;
-- without a zero byte, the end of the memory is run over.
unfoldable pub replaced : ℕ → ℕ → Text → Looped
replaced old_char new_char [] = reads_behind
replaced old_char new_char (c ∷ s) =
    let rest = before (if c == old_char then new_char else c) (replaced old_char new_char s) in
    if c == 0 then ended (c ∷ s) else rest

abbrev behind : Text → Looped → Looped
behind s (ended t) = ended (s ++ t)
behind s reads_behind = reads_behind
behind s runs_on = runs_on

get_elem?-append : (s : Text) (c : ℕ) (t : Text) → get_elem? (s ++ c ∷ t) (length s) ≡ some c
get_elem?-append [] c t = refl
get_elem?-append (x ∷ s) c t = get_elem?-append s c t

get_elem?-end : (s : Text) → get_elem? s (length s) ≡ none
get_elem?-end [] = refl
get_elem?-end (x ∷ s) = get_elem?-end s

set-append : (s : Text) (c d : ℕ) (t : Text) → set (s ++ c ∷ t) (length s) d ≡ s ++ d ∷ t
set-append [] c d t = refl
set-append (x ∷ s) c d t = ap (λ r. x ∷ r) (set-append s c d t)

behind-before : (s : Text) (c : ℕ) (r : Looped) → behind (s ++ (c ∷ [])) r ≡ behind s (before c r)
behind-before s c (ended t) = ap ended (append_assoc s (c ∷ []) t)
behind-before s c reads_behind = refl
behind-before s c runs_on = refl

length-next : (s : Text) (c : ℕ) → suc (length s) ≡ length (s ++ (c ∷ []))
length-next s c = omega (arith, length-append s (c ∷ []))

module _ (old_char new_char : ℕ) where
  abbrev put : ℕ → ℕ
  put c = if c == old_char then new_char else c

  replaced_at-append :
      (s : Text) (c : ℕ) (t : Text)
      → replaced_at old_char new_char (s ++ c ∷ t) (length s) c ≡ (s ++ (put c ∷ [])) ++ t
  replaced_at-append s c t = elim (Bool-cases (c == old_char)) [
    | inl e ↦ rw e (set-append s c new_char t ∙ sym (append_assoc s (new_char ∷ []) t))
    | inr e ↦ rw e (sym (append_assoc s (c ∷ []) t))
  ]

  replace_loop-behind :
      (rounds : ℕ) (s t : Text)
      → length t < rounds
      → replace_loop old_char new_char rounds (s ++ t) (length s)
        ≡ behind s (replaced old_char new_char t)
  unfolding replace_loop replaced
  replace_loop-behind zero s t l = absurd (omega (arith, l))
  replace_loop-behind (suc rounds) s [] l =
      ap (λ m. replace_loop old_char new_char (suc rounds) m (length s)) (append-nil s)
      ∙ ap (looked old_char new_char s _) (get_elem?-end s)
  replace_loop-behind (suc rounds) s (c ∷ t) l =
      ap (looked old_char new_char (s ++ c ∷ t) _) (get_elem?-append s c t)
      ∙ elim (Bool-cases (c == 0)) [
        | inl e ↦ rw e refl
        | inr e ↦ rw e (
            ap (λ m. replace_loop old_char new_char rounds m (suc (length s)))
              (replaced_at-append s c t)
            ∙ ap (replace_loop old_char new_char rounds ((s ++ (put c ∷ [])) ++ t))
                (length-next s (put c))
            ∙ replace_loop-behind rounds (s ++ (put c ∷ [])) t (omega (arith, l))
            ∙ behind-before s (put c) (replaced old_char new_char t))
      ]

behind-nil : (r : Looped) → behind [] r ≡ r
behind-nil (ended t) = refl
behind-nil reads_behind = refl
behind-nil runs_on = refl

-- ReplaceStr, on memory of any bytes, ends after at most as many rounds as the memory has bytes, and one:
-- each `old_char` before the first zero byte is replaced and the bytes behind it are as they were, and a
-- byte behind the memory is read if and only if no byte is zero.
pub replace_str-replaced :
    (old_char new_char : ℕ) (memory : Text)
    → replace_str old_char new_char (some memory) ≡ some (replaced old_char new_char memory)
unfolding replace_str
replace_str-replaced old_char new_char memory = ap some (
    replace_loop-behind old_char new_char (suc (length memory)) [] memory (omega arith)
    ∙ behind-nil (replaced old_char new_char memory))
