-- ===== src/Base/Lists.antt =====
-- Lists measured, indexed and filtered by native numbers and Boolean tests.
use Prim.Native.Nat.{ℕ, zero, suc, ◌+◌, ◌≤◌}
use mathlib.Core.Path.{◌≡◌, refl, ap}
use mathlib.Core.Bool.{Bool}
use mathlib.Core.List.{List, [], ◌∷◌, ◌++◌}
use mathlib.Core.Option.{Option, none, some}
use native.Mathlib.Omega.{arith}
use filehub_cloud.Base.Tests.{if◌then◌else◌}

module _ {ℓ} {A : Type ℓ} where
  abbrev pub length : List A → ℕ
  length [] = 0
  length (x ∷ xs) = suc (length xs)

  abbrev pub get_elem? : List A → ℕ → Option A
  get_elem? [] i = none
  get_elem? (x ∷ xs) zero = some x
  get_elem? (x ∷ xs) (suc i) = get_elem? xs i

  -- A write out of bounds changes nothing.
  abbrev pub set : List A → ℕ → A → List A
  set [] i v = []
  set (x ∷ xs) zero v = v ∷ xs
  set (x ∷ xs) (suc i) v = x ∷ set xs i v

  abbrev pub replicate : ℕ → A → List A
  replicate zero a = []
  replicate (suc n) a = a ∷ replicate n a

  abbrev pub take : ℕ → List A → List A
  take zero xs = []
  take (suc n) [] = []
  take (suc n) (x ∷ xs) = x ∷ take n xs

  abbrev pub drop : ℕ → List A → List A
  drop zero xs = xs
  drop (suc n) [] = []
  drop (suc n) (x ∷ xs) = drop n xs

  abbrev pub All {κ} : (A → Type κ) → List A → Type κ
  All P [] = Unit
  All P (x ∷ xs) = P x × All P xs

  pub length-append : (xs ys : List A) → length (xs ++ ys) ≡ length xs + length ys
  length-append [] ys = omega arith
  length-append (x ∷ xs) ys = omega (arith, length-append xs ys)

  pub take-append : (k n : ℕ) (s t : List A) → n ≡ length s + k → take n (s ++ t) ≡ s ++ take k t
  take-append k n [] t e = ap (λ m. take m t) (omega (arith, e))
  take-append k zero (x ∷ s) t e = absurd (omega (arith, e))
  take-append k (suc n) (x ∷ s) t e = ap (λ r. x ∷ r) (take-append k n s t (omega (arith, e)))

  pub take-all : (n : ℕ) (t : List A) → length t ≤ n → take n t ≡ t
  take-all zero [] l = refl
  take-all zero (x ∷ t) l = absurd (omega (arith, l))
  take-all (suc n) [] l = refl
  take-all (suc n) (x ∷ t) l = ap (λ r. x ∷ r) (take-all n t (omega (arith, l)))

  pub length-take : (n : ℕ) (t : List A) → length (take n t) ≤ n
  length-take zero t = omega arith
  length-take (suc n) [] = omega arith
  length-take (suc n) (x ∷ t) = omega (arith, length-take n t)

  pub All-append {κ} : (P : A → Type κ) (s t : List A) → All P s → All P t → All P (s ++ t)
  All-append P [] t h k = k
  All-append P (x ∷ s) t h k = (h.0, All-append P s t h.1 k)

-- Filtering and counting by a Boolean test.
module _ {ℓ} {A : Type ℓ} where
  unfoldable pub keep : (A → Bool) → List A → List A
  keep p [] = []
  keep p (x ∷ xs) = let rest = keep p xs in if p x then x ∷ rest else rest

  unfoldable pub count : (A → Bool) → List A → ℕ
  count p [] = 0
  count p (x ∷ xs) = let rest = count p xs in if p x then suc rest else rest

  unfoldable pub first : (A → Bool) → List A → Option A
  first p [] = none
  first p (x ∷ xs) = let rest = first p xs in if p x then some x else rest

  pub count-append : (p : A → Bool) (xs ys : List A) → count p (xs ++ ys) ≡ count p xs + count p ys
  unfolding count
  count-append p [] ys = omega arith
  count-append p (x ∷ xs) ys = ground (arith, count-append p xs ys)
