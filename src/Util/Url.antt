-- ===== src/Util/Url.antt =====
-- URLEncode and URLDecode of base/util.cc, over byte values. isalnum and isdigit are those of the
-- default locale.
pub mod RoundTrip
use Prim.Native.Nat.{bit_or}
use filehub_cloud.Base.{
  ℕ, ◌+◌, ◌-◌, ◌*◌, ◌/◌, ◌%◌, ◌==◌, ltb, leb, Bool, ◌&&◌, ◌||◌, Option, none, some, List, [], ◌∷◌,
  ◌++◌, Text, if◌then◌else◌,
}

abbrev pub percent : ℕ
percent = 37

abbrev pub is_digit : ℕ → Bool
is_digit x = leb 48 x && leb x 57

abbrev pub is_alnum : ℕ → Bool
is_alnum x = is_digit x || (leb 65 x && leb x 90) || (leb 97 x && leb x 122)

-- Both are given and give an unsigned char.
to_hex : ℕ → ℕ
to_hex x = if ltb 9 x then (x - 10 + 65) % 256 else (x + 48) % 256

from_hex : ℕ → ℕ
from_hex x = if is_digit x then x - 48 else (x + 256 - 65 + 10) % 256

encode_byte : ℕ → Text
unfolding to_hex
encode_byte x = if is_alnum x then x ∷ [] else percent ∷ to_hex (x / 16) ∷ to_hex (x % 16) ∷ []

pub url_encode : Text → Text
unfolding encode_byte
url_encode [] = []
url_encode (x ∷ s) = encode_byte x ++ url_encode s

escaped : ℕ → ℕ → ℕ
unfolding from_hex
escaped h l = bit_or (from_hex h * 16 % 256) (from_hex l)

abbrev plain : ℕ → ℕ
plain x = if x == 43 then 32 else x

cons_to : ℕ → Option Text → Option Text
cons_to x none = none
cons_to x (some s) = some (x ∷ s)

-- A `%` takes the next two bytes, whatever they are. The byte behind the last one reads as 0; none is a
-- read behind that, which C++ leaves undefined.
pub url_decode : Text → Option Text
unfolding escaped cons_to
url_decode [] = some []
url_decode (x ∷ []) = if x == percent then none else some (plain x ∷ [])
url_decode (x ∷ h ∷ []) =
    let rest = url_decode (h ∷ []) in
    if x == percent then some (escaped h 0 ∷ []) else cons_to (plain x) rest
url_decode (x ∷ h ∷ l ∷ s) =
    let behind = url_decode s in
    let rest = url_decode (h ∷ l ∷ s) in
    if x == percent then cons_to (escaped h l) behind else cons_to (plain x) rest
