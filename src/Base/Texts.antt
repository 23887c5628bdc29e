-- ===== src/Base/Texts.antt =====
-- Byte strings (`char *`, `std::string`) as lists of byte values, and their comparison.
use Prim.Native.Nat.{ℕ, zero, suc, ◌+◌, ◌/◌, ◌%◌, ◌<◌}
use Prim.Native.Char.{code}
use Prim.Native.String.{String}
use mathlib.Core.Path.{◌≡◌, refl}
use mathlib.Core.Bool.{Bool, true, false, ◌&&◌, ◌||◌}
use mathlib.Core.List.{List, [], ◌∷◌, ◌++◌}
use native.Mathlib.Omega.{arith}
use filehub_cloud.Base.Tests.{◌==◌, ltb, if◌then◌else◌}
use filehub_cloud.Base.Lists.{All, All-append}

abbrev pub Text : Type 0
Text = List ℕ

-- The bytes of an ASCII literal.
abbrev pub bytes : String → Text
bytes String.[] = []
bytes (String.◌∷◌ c s) = code c ∷ bytes s

-- `==` of two strings, and `strcmp(a, b) == 0`.
unfoldable pub same : Text → Text → Bool
same [] [] = true
same [] (b ∷ t) = false
same (a ∷ s) [] = false
same (a ∷ s) (b ∷ t) = a == b && same s t

pub same_refl : (a : Text) → same a a ≡ true
unfolding same
same_refl [] = refl
same_refl (a ∷ s) = ground (arith, same_refl s)

pub same→≡ : (a b : Text) → same a b ≡ true → a ≡ b
unfolding same
same→≡ [] [] h = refl
same→≡ [] (b ∷ t) h = cc
same→≡ (a ∷ s) [] h = cc
same→≡ (a ∷ s) (b ∷ t) h = ground (arith, same→≡ s t)

-- `operator<` of std::string.
unfoldable pub less : Text → Text → Bool
less [] [] = false
less [] (b ∷ t) = true
less (a ∷ s) [] = false
less (a ∷ s) (b ∷ t) = ltb a b || (a == b && less s t)

-- The decimal digits of a number (`%d`, std::to_string), the last ones on fuel.
unfoldable pub digits : ℕ → ℕ → Text
digits zero n = []
digits (suc f) n =
    let front = digits f (n / 10) in if ltb n 10 then (48 + n) ∷ [] else front ++ (48 + n % 10) ∷ []

unfoldable pub decimal : ℕ → Text
unfolding digits
decimal n = digits (suc n) n

abbrev Digits : Text → Type 0
Digits s = All (λ c. c < 58) s

digits-Digits : (f n : ℕ) → Digits (digits f n)
unfolding digits
digits-Digits zero n = tt
digits-Digits (suc f) n = ground (
  arith,
  All-append (λ c. c < 58) (digits f (n / 10)) ((48 + n % 10) ∷ []) (digits-Digits f (n / 10))
      (omega arith, tt),
)

Digits-ne : (s : Text) → Digits s → same s (bytes "OK") ≡ false
unfolding same
Digits-ne [] h = refl
Digits-ne (x ∷ s) h = ground arith

-- No number is printed as the text OK.
pub decimal-ne_ok : (n : ℕ) → same (decimal n) (bytes "OK") ≡ false
unfolding decimal
decimal-ne_ok n = Digits-ne (digits (suc n) n) (digits-Digits (suc n) n)
