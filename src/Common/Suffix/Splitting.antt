-- ===== src/Common/Suffix/Splitting.antt =====
-- The suffix as the part of a name behind its last dot.
use filehub_cloud.Base.{
  ℕ, zero, suc, ◌<◌, ◌≤◌, ◌==◌, ==_iff, true, false, [], ◌∷◌, ◌++◌, Text, bytes, All, length, drop,
  ◌≡◌, ◌⊎◌, inl, inr, subst, refl, ap, arith, Bool-cases,
}
use filehub_cloud.Common.Suffix.{byte_at, dot, scan_back, suffix_or_null, get_file_suffix}

abbrev pub NoDot : Text → Type 0
NoDot s = All (λ x. (x == dot) ≡ false) s

-- Either what stands behind the last dot, or "null" for a name without a dot or with one at its end.
abbrev pub IsSuffix : Text → Text → Type 0
IsSuffix name s =
    ((before : Text) × (name ≡ before ++ (dot ∷ s)) × NoDot s × (0 < length s))
    ⊎ ((s ≡ bytes "null") × (NoDot name ⊎ ((before : Text) × (name ≡ before ++ (dot ∷ [])))))

-- No dot stands behind the place where the scan stops.
scan_back-clean :
    (name : Text) (k j : ℕ) → scan_back name k < j → j ≤ k → (byte_at name j == dot) ≡ false
unfolding scan_back
scan_back-clean name zero j l m = absurd (omega (arith, l, m))
scan_back-clean name (suc k) j l m = elim (Bool-cases (byte_at name (suc k) == dot)) [
  | inl e ↦ absurd (ground arith)
  | inr e ↦ ground (arith, scan_back-clean name k j)
]

-- It stops at a dot or at the start.
scan_back-start :
    (name : Text) (k : ℕ) → (byte_at name (scan_back name k) == dot) ≡ false → scan_back name k ≡ 0
unfolding scan_back
scan_back-start name zero e = refl
scan_back-start name (suc k) e = elim (Bool-cases (byte_at name (suc k) == dot)) [
  | inl d ↦ absurd (ground arith)
  | inr d ↦ ground (arith, scan_back-start name k)
]

split-byte_at :
    (name : Text) (r : ℕ)
    → (byte_at name r == dot) ≡ true
    → (before : Text) × (name ≡ before ++ (dot ∷ drop (suc r) name))
unfolding byte_at
split-byte_at [] r e = cc
split-byte_at (x ∷ s) zero e = ([], ap (λ y. y ∷ s) ((==_iff x dot).0 e))
split-byte_at (x ∷ s) (suc r) e =
    let (before, split) = split-byte_at s r e in (x ∷ before, ap (λ t. x ∷ t) split)

all_clean : (s : Text) → ((j : ℕ) → j < length s → (byte_at s j == dot) ≡ false) → NoDot s
unfolding byte_at
all_clean [] h = tt
all_clean (x ∷ s) h = (h 0 (omega arith), all_clean s (λ j l. h (suc j) (omega (arith, l))))

clean_behind :
    (name : Text) (r : ℕ)
    → ((j : ℕ) → r < j → j ≤ length name → (byte_at name j == dot) ≡ false)
    → NoDot (drop (suc r) name)
unfolding byte_at
clean_behind [] r h = tt
clean_behind (x ∷ s) zero h = all_clean s (λ j l. h (suc j) (omega arith) (omega (arith, l)))
clean_behind (x ∷ s) (suc r) h =
    clean_behind s r (λ j l m. h (suc j) (omega (arith, l)) (omega (arith, m)))

-- GetFileSuffix gives, for every name, what stands behind the name's last dot, if that is not empty, and
-- "null" if the name has no dot or ends with one.
pub get_file_suffix-IsSuffix : (name : Text) → IsSuffix name (get_file_suffix name)
unfolding get_file_suffix suffix_or_null
get_file_suffix-IsSuffix name =
    elim (Bool-cases (byte_at name (scan_back name (length name)) == dot)) [
      | inl e ↦ rw e (
          let (before, split) = split-byte_at name (scan_back name (length name)) e in
          behind before (drop (suc (scan_back name (length name))) name) split
            (clean_behind name (scan_back name (length name)) (scan_back-clean name (length name))))
      | inr e ↦ rw e (inr (refl, inl (no_dot e (scan_back-start name (length name) e))))
    ]
  where
    behind :
        (before s : Text) → name ≡ before ++ (dot ∷ s) → NoDot s → IsSuffix name (suffix_or_null s)
    behind before [] split clean = inr (refl, inr (before, split))
    behind before (x ∷ s) split clean = inl (before, split, clean, omega arith)

    no_dot :
        (byte_at name (scan_back name (length name)) == dot) ≡ false
        → scan_back name (length name) ≡ 0
        → NoDot name
    no_dot e start = all_clean name (λ j l. at_or_behind j l)
      where
        at_or_behind : (j : ℕ) → j < length name → (byte_at name j == dot) ≡ false
        at_or_behind zero l = subst (λ r. (byte_at name r == dot) ≡ false) start e
        at_or_behind (suc j) l =
            scan_back-clean name (length name) (suc j) (omega (arith, start)) (omega (arith, l))
