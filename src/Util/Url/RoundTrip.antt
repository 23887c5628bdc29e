-- ===== src/Util/Url/RoundTrip.antt =====
-- Encoding and decoding one byte, and a text.
use filehub_cloud.Base.{
  ℕ, zero, suc, length, ◌≤◌, ◌*◌, ◌<◌, ◌/◌, ◌%◌, ◌==◌, ==_iff, Bool, true, false, ◌&&◌, ◌||◌, some,
  [], ◌∷◌, ◌++◌, Text, All, ◌≡◌, refl, ap, ◌∙◌, arith, Bool-cases, inl, inr,
}
use filehub_cloud.Util.Url.{
  percent, is_alnum, to_hex, from_hex, encode_byte, url_encode, escaped, plain, cons_to, url_decode,
}

-- A test of every number below a bound.
holds_below : ℕ → (ℕ → Bool) → Bool
holds_below zero test = true
holds_below (suc n) test = test n && holds_below n test

holds_below-at :
    (n : ℕ) (test : ℕ → Bool) (x : ℕ) → holds_below n test ≡ true → x < n → test x ≡ true
unfolding holds_below
holds_below-at zero test x h l = absurd (omega arith)
holds_below-at (suc n) test x h l = ground (arith, holds_below-at n test x)

hex_table : holds_below 256 (λ x. escaped (to_hex (x / 16)) (to_hex (x % 16)) == x) ≡ true
unfolding holds_below escaped from_hex to_hex
hex_table = refl

escaped-to_hex : (x : ℕ) → x < 256 → escaped (to_hex (x / 16)) (to_hex (x % 16)) ≡ x
escaped-to_hex x l = (==_iff _ x).0 (holds_below-at 256 _ x hex_table l)

-- A byte that is no `%` stands for itself or a space, whatever follows.
url_decode-plain :
    (x : ℕ) (s : Text)
    → (x == percent) ≡ false
    → url_decode (x ∷ s) ≡ cons_to (plain x) (url_decode s)
unfolding url_decode cons_to
url_decode-plain x [] h = rw h refl
url_decode-plain x (a ∷ []) h = rw h refl
url_decode-plain x (a ∷ b ∷ s) h = rw h refl

encoded-byte :
    (x : ℕ) (s : Text) → x < 256 → url_decode (encode_byte x ++ s) ≡ cons_to x (url_decode s)
unfolding encode_byte url_decode
encoded-byte x s l = elim (Bool-cases (is_alnum x)) [
  | inl letter ↦
      rw letter
        (url_decode-plain x s (ground arith) ∙ ap (λ y. cons_to y (url_decode s)) (ground arith))
  | inr other ↦ rw other (ap (λ y. cons_to y (url_decode s)) (escaped-to_hex x l))
]

-- URLDecode gives back every string of bytes that URLEncode is given, and reads nothing behind its end.
pub url_decode-url_encode : (s : Text) → All (λ x. x < 256) s → url_decode (url_encode s) ≡ some s
unfolding url_encode url_decode cons_to
url_decode-url_encode [] h = refl
url_decode-url_encode (x ∷ s) (l, h) =
    encoded-byte x (url_encode s) l ∙ ap (cons_to x) (url_decode-url_encode s h)

-- The bytes that a URL may have as they are, and `%`.
abbrev pub IsSafe : ℕ → Type 0
IsSafe x = (is_alnum x || x == percent) ≡ true

digit_table : holds_below 256 (λ x. is_alnum (to_hex (x / 16)) && is_alnum (to_hex (x % 16))) ≡ true
unfolding holds_below to_hex
digit_table = refl

digits-IsSafe : (x : ℕ) → x < 256 → IsSafe (to_hex (x / 16)) × IsSafe (to_hex (x % 16))
digits-IsSafe x l = grind (arith, holds_below-at 256 _ x digit_table l)

-- URLEncode gives letters, digits and `%` alone, whatever bytes it is given, and at most three for each.
pub url_encode-IsSafe :
    (s : Text)
    → All (λ x. x < 256) s
    → All IsSafe (url_encode s) × (length (url_encode s) ≤ 3 * length s)
unfolding url_encode encode_byte
url_encode-IsSafe [] h = (tt, omega arith)
url_encode-IsSafe (x ∷ s) (l, h) =
    let (safe, short) = url_encode-IsSafe s h in
    elim (Bool-cases (is_alnum x)) [
      | inl letter ↦ rw letter ((ground arith, safe), omega (arith, short))
      | inr other ↦ rw other (
        (ground arith, ((digits-IsSafe x l).0, ((digits-IsSafe x l).1, safe))),
        omega (arith, short),
      )
    ]
