-- ===== src/Util/Search/Found.antt =====
-- What MemFind finds backwards.
use filehub_cloud.Base.{
  ℕ, zero, suc, ◌+◌, ◌-◌, ◌<◌, ◌≤◌, ◌==◌, ltb, true, false, Option, none, some, [], ◌∷◌, Text, drop,
  length, ◌≡◌, ◌⊎◌, inl, inr, refl, arith, Bool-cases, subst,
}
use filehub_cloud.Util.Search.{stands_at, backward, mem_find}

-- The place is one where the text stands, and no such place lies behind it; none if it stands nowhere.
abbrev pub IsLast : Text → Text → Option ℕ → Type 0
IsLast src sub none = (j : ℕ) → stands_at (drop j src) sub ≡ false
IsLast src sub (some i) =
    (stands_at (drop i src) sub ≡ true) × ((j : ℕ) → (j ≤ i) ⊎ (stands_at (drop j src) sub ≡ false))

too_short : (p sub : Text) → length p < length sub → stands_at p sub ≡ false
unfolding stands_at
too_short p [] l = absurd (omega (arith, l))
too_short [] (y ∷ sub) l = refl
too_short (x ∷ p) (y ∷ sub) l = ground (arith, too_short p sub (omega (arith, l)))

length-drop : (j : ℕ) (p : Text) → length (drop j p) ≡ length p - j
length-drop zero p = omega arith
length-drop (suc j) [] = omega arith
length-drop (suc j) (x ∷ p) = omega (arith, length-drop j p)

-- Behind the last place there is not enough of the text.
behind_last :
    (src sub : Text) (i j : ℕ)
    → length src ≤ i + length sub
    → i < j
    → 0 < length sub
    → stands_at (drop j src) sub ≡ false
behind_last src sub i j l m n =
    too_short (drop j src) sub (omega (arith, length-drop j src, l, m, n))

or_less : (i j : ℕ) → (j ≤ i) ⊎ (i < j)
or_less i j = ground arith

module _ (src sub : Text) (some_sub : 0 < length sub) where
  backward-IsLast :
      (i : ℕ)
      → ((j : ℕ) → (j ≤ i) ⊎ (stands_at (drop j src) sub ≡ false))
      → IsLast src sub (backward i src sub)
  unfolding backward
  backward-IsLast zero h = elim (Bool-cases (stands_at src sub)) [
    | inl e ↦ rw e (e, h)
    | inr e ↦ rw e (λ j. nowhere j (h j) e)
  ]
    where
      nowhere :
          (j : ℕ)
          → (j ≤ 0) ⊎ (stands_at (drop j src) sub ≡ false)
          → stands_at src sub ≡ false
          → stands_at (drop j src) sub ≡ false
      nowhere zero c e = e
      nowhere (suc j) (inl l) e = absurd (omega (arith, l))
      nowhere (suc j) (inr c) e = c
  backward-IsLast (suc i) h = elim (Bool-cases (stands_at (drop (suc i) src) sub)) [
    | inl e ↦ rw e (e, h)
    | inr e ↦ rw e (backward-IsLast i (λ j. next j (h j) (or_less i j) e))
  ]
    where
      next :
          (j : ℕ)
          → (j ≤ suc i) ⊎ (stands_at (drop j src) sub ≡ false)
          → (j ≤ i) ⊎ (i < j)
          → stands_at (drop (suc i) src) sub ≡ false
          → (j ≤ i) ⊎ (stands_at (drop j src) sub ≡ false)
      next j (inr c) d e = inr c
      next j (inl l) (inl m) e = inl m
      next j (inl l) (inr m) e =
          let place : suc i ≡ j = omega (arith, l, m) in
          inr (subst (λ k. stands_at (drop k src) sub ≡ false) place e)

  within : (i j : ℕ) → length src ≤ i + length sub → (j ≤ i) ⊎ (stands_at (drop j src) sub ≡ false)
  within i j l = elim (or_less i j) [
    | inl m ↦ inl m
    | inr m ↦ inr (behind_last src sub i j l m some_sub)
  ]

  nowhere_short : length src < length sub → (j : ℕ) → stands_at (drop j src) sub ≡ false
  nowhere_short l j = too_short (drop j src) sub (omega (arith, length-drop j src, l))

  -- MemFind backwards, for a text that is not empty: the last place where it stands, or NULL if it stands
  -- nowhere.
  pub mem_find-IsLast : IsLast src sub (mem_find src sub false)
  unfolding mem_find backward
  mem_find-IsLast = elim (Bool-cases (length src == 0)) [
    | inl e ↦ rw e (nowhere_short (ground arith))
    | inr e ↦ elim (Bool-cases (ltb (length src) (length sub))) [
      | inl f ↦ rw (e, f) (nowhere_short (ground arith))
      | inr f ↦ elim (Bool-cases (length src == length sub)) [
        | inl g ↦ rw (e, f, g) (backward-IsLast 0 (λ j. within 0 j (ground arith)))
        | inr g ↦
            rw (e, f, g)
              (backward-IsLast (length src - length sub)
                (λ j. within (length src - length sub) j (ground arith)))
      ]
    ]
  ]
