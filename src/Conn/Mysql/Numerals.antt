-- ===== src/Conn/Mysql/Numerals.antt =====
-- atoi on the digits that a number is printed with.
use filehub_cloud.Base.{
  ℕ, zero, suc, ◌+◌, ◌-◌, ◌*◌, ◌/◌, ◌%◌, ◌<◌, ltb, leb, ◌&&◌, true, [], ◌∷◌, ◌++◌, Text, All,
  All-append, digits, decimal, ◌≡◌, refl, subst, arith, Bool-cases, inl, inr,
}
use filehub_cloud.Schema.Results.{string}
use filehub_cloud.Conn.Mysql.{atoi, digits_value}

abbrev Digits : Text → Type 0
Digits s = All (λ c. (leb 48 c && ltb c 58) ≡ true) s

digits_value-append :
    (a : ℕ) (s : Text) (d : ℕ)
    → Digits s
    → d < 10
    → digits_value a (s ++ ((48 + d) ∷ [])) ≡ 10 * digits_value a s + d
unfolding digits_value
digits_value-append a [] d h l = ground arith
digits_value-append a (c ∷ s) d (e, h) l = rw e (digits_value-append (10 * a + (c - 48)) s d h l)

digits-Digits : (f n : ℕ) → Digits (digits f n)
unfolding digits
digits-Digits zero n = tt
digits-Digits (suc f) n = elim (Bool-cases (ltb n 10)) [
  | inl e ↦ rw e (ground arith, tt)
  | inr e ↦ rw e (
      All-append _ (digits f (n / 10)) ((48 + n % 10) ∷ []) (digits-Digits f (n / 10))
        (ground arith, tt))
]

digits_value-digits : (f n : ℕ) → n < f → digits_value 0 (digits f n) ≡ n
unfolding digits digits_value
digits_value-digits zero n l = absurd (omega (arith, l))
digits_value-digits (suc f) n l = elim (Bool-cases (ltb n 10)) [
  | inl e ↦ rw e (ground arith)
  | inr e ↦ rw e (
      omega (
        arith,
        digits_value-append 0 (digits f (n / 10)) (n % 10) (digits-Digits f (n / 10)) (omega arith),
        digits_value-digits f (n / 10) (ground arith),
      ))
]

pub atoi-decimal : (n : ℕ) → atoi (string (decimal n)) ≡ n
unfolding atoi decimal
atoi-decimal n = digits_value-digits (suc n) n (omega arith)

abbrev Headed : Text → Type 0
Headed t = (c : ℕ) × (s : Text) × (t ≡ c ∷ s) × ((leb 48 c && ltb c 58) ≡ true)

append-Headed : (s : Text) (d : ℕ) → Digits s → d < 10 → Headed (s ++ ((48 + d) ∷ []))
append-Headed [] d h l = (48 + d, [], refl, ground arith)
append-Headed (c ∷ s) d (e, h) l = (c, s ++ ((48 + d) ∷ []), refl, e)

-- A printed number starts with a digit.
pub decimal-head :
    (n : ℕ) → (c : ℕ) × (s : Text) × (decimal n ≡ c ∷ s) × ((leb 48 c && ltb c 58) ≡ true)
unfolding decimal digits
decimal-head n = elim (Bool-cases (ltb n 10)) [
  | inl e ↦ (48 + n, [], rw e refl, ground arith)
  | inr e ↦
      subst Headed (rw e refl)
        (append-Headed (digits n (n / 10)) (n % 10) (digits-Digits n (n / 10)) (omega arith))
]
