-- ===== src/Http/Response/Cut.antt =====
-- Which responses are sent in full.
use filehub_cloud.Base.{
  ℕ, zero, suc, ◌+◌, ◌-◌, ◌/◌, ◌%◌, ◌^◌, ◌<◌, ◌≤◌, ltb, [], ◌∷◌, ◌++◌, Text, bytes, digits, decimal,
  length, take, length-append, take-append, take-all, length-take, ◌≡◌, ◌⊎◌, inl, inr, refl, ap,
  ◌∙◌, arith, Bool-cases,
}
use filehub_cloud.Http.Response.{
  printed, json_header, json_response, html_header, html_response, not_found_response,
}

-- A number below 10 ^ (k + 1) has at most k + 1 digits.
digits-below : (k f n : ℕ) → n < 10 ^ suc k → length (digits f n) ≤ suc k
unfolding digits
digits-below k zero n l = omega arith
digits-below zero (suc f) n l = ground arith
digits-below (suc k) (suc f) n l = elim (Bool-cases (ltb n 10)) [
  | inl e ↦ rw e (omega arith)
  | inr e ↦ rw e (
      omega (
        arith,
        length-append (digits f (n / 10)) ((48 + n % 10) ∷ []),
        digits-below k f (n / 10) (omega (arith, l)),
      ))
]

digits-suc :
    (g f n : ℕ) → g ≡ suc f → 10 ≤ n → length (digits g n) ≡ suc (length (digits f (n / 10)))
unfolding digits
digits-suc zero f n e l = absurd (omega (arith, e))
digits-suc (suc g) f n e l = elim (Bool-cases (ltb n 10)) [
  | inl h ↦ absurd (ground arith)
  | inr h ↦ rw h (
      omega (
        arith,
        length-append (digits g (n / 10)) ((48 + n % 10) ∷ []),
        ap (λ x. length (digits x (n / 10))) (same_fuel e),
      ))
]
  where
    same_fuel : suc g ≡ suc f → g ≡ f
    same_fuel h = omega (arith, h)

digits-some : (g f n : ℕ) → g ≡ suc f → 0 < length (digits g n)
unfolding digits
digits-some zero f n e = absurd (omega (arith, e))
digits-some (suc g) f n e = elim (Bool-cases (ltb n 10)) [
  | inl h ↦ rw h (omega arith)
  | inr h ↦ rw h (omega (arith, length-append (digits g (n / 10)) ((48 + n % 10) ∷ [])))
]

-- From 1000 on a number has four digits or more.
decimal-above : (n : ℕ) → 1000 ≤ n → 3 < length (decimal n)
unfolding decimal
decimal-above n l = omega (
  arith,
  digits-suc (suc n) n n refl (omega (arith, l)),
  digits-suc n (n - 1) (n / 10) (omega (arith, l)) (omega (arith, l)),
  digits-suc (n - 1) (n - 2) (n / 10 / 10) (omega (arith, l)) (omega (arith, l)),
  digits-some (n - 2) (n - 3) (n / 10 / 10 / 10) (omega (arith, l)),
)

decimal-below : (n : ℕ) → n < 10000 → length (decimal n) ≤ 4
unfolding decimal
decimal-below n l = digits-below 3 (suc n) n l

decimal-short : (n : ℕ) → n < 2 ^ 31 → length (decimal n) ≤ 10
unfolding decimal
decimal-short n l = digits-below 9 (suc n) n (omega (arith, l))

json_header-length : (n : ℕ) → length (json_header n) ≡ 99 + length (decimal n)
unfolding json_header
json_header-length n = by_digits (decimal n)
  where
    by_digits :
        (d : Text)
        → length (
            bytes "HTTP/1.1 200 OK\r\nConnection:close\r\nContent-Length:"
            ++ (d ++ bytes "\r\nContent-Type:application/json;charset=utf-8\r\n\r\n"))
          ≡ 99 + length d
    by_digits d =
        omega
          (arith, length-append d (bytes "\r\nContent-Type:application/json;charset=utf-8\r\n\r\n"))

-- A response in full; or the header with less of the body than it says.
abbrev pub IsSent : Text → Text → Type 0
IsSent resp_json sent =
    ((length resp_json ≤ 3992) × (sent ≡ json_header (length resp_json) ++ resp_json))
    ⊎ ((3992 < length resp_json)
        × ((part : Text) × (sent ≡ json_header (length resp_json) ++ part)
            × (length part < length resp_json)))

-- The handlers of CHttpConn, for every body of a JSON response below 2 ^ 31 bytes: one of at most 3992
-- bytes is sent in full behind the header, whose length is then that of the body. Of a longer one less is
-- sent than the header says.
pub json_response-IsSent :
    (resp_json : Text) → length resp_json < 2 ^ 31 → IsSent resp_json (json_response resp_json)
unfolding json_response
json_response-IsSent resp_json l = elim (Bool-cases (ltb 3992 n)) [
  | inl e ↦ inr (
    ground arith,
    (
      take (4095 - (99 + length (decimal n))) resp_json,
      take-append _ 4095 (json_header n) resp_json
          (omega (arith, json_header-length n, digits_fit)),
      shorter (ground arith),
    ),
  )
  | inr e ↦ inl (
    ground arith,
    take-append _ 4095 (json_header n) resp_json (omega (arith, json_header-length n, digits_fit))
        ∙ ap (λ t. json_header n ++ t)
            (take-all (4095 - (99 + length (decimal n))) resp_json (fits (ground arith))),
  )
]
  where
    n : ℕ
    n = length resp_json

    digits_fit : length (decimal n) ≤ 10
    digits_fit = decimal-short n l

    fits : n ≤ 3992 → n ≤ 4095 - (99 + length (decimal n))
    fits k = omega (arith, k, decimal-below n (omega (arith, k)))

    shorter : 3992 < n → length (take (4095 - (99 + length (decimal n))) resp_json) < n
    shorter k = omega (
      arith,
      k,
      decimal-above n (omega (arith, k)),
      length-take (4095 - (99 + length (decimal n))) resp_json,
    )

-- What follows a first byte is a response of a buffer's length at most.
printed-bound :
    (header s : Text)
    → 0 < length header
    → (0 < length (printed 4096 (header ++ s))) × (length (printed 4096 (header ++ s)) < 4096)
printed-bound [] s l = absurd (omega (arith, l))
printed-bound (c ∷ header) s l = (omega arith, omega (arith, length-take 4095 (c ∷ header ++ s)))

json_header-starts : (n : ℕ) → 0 < length (json_header n)
unfolding json_header
json_header-starts n = omega arith

html_header-starts : (n : ℕ) → 0 < length (html_header n)
unfolding html_header
html_header-starts n = omega arith

pub json_response-bound :
    (s : Text) → (0 < length (json_response s)) × (length (json_response s) < 4096)
unfolding json_response
json_response-bound s = printed-bound (json_header (length s)) s (json_header-starts (length s))

pub html_response-bound :
    (s : Text) → (0 < length (html_response s)) × (length (html_response s) < 4096)
unfolding html_response
html_response-bound s = printed-bound (html_header (length s)) s (html_header-starts (length s))

pub not_found_response-bound : (0 < length not_found_response) × (length not_found_response < 4096)
unfolding not_found_response decimal digits
not_found_response-bound = (omega arith, omega arith)
