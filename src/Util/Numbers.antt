-- ===== src/Util/Numbers.antt =====
-- Numbers and texts: atoi and atoll of the C library, Int2String and String2Int of base/util.cc, and the
-- functions there that change single characters.
pub mod RoundTrip
use filehub_cloud.Base.{
  ℕ, zero, suc, ◌-◌, ◌%◌, ◌^◌, List, [], ◌∷◌, Text, leb, ◌==◌, ◌&&◌, ◌||◌, if◌then◌else◌, ℤ, pos,
  negsuc, decimal,
}
use filehub_cloud.Schema.Results.{string}
use filehub_cloud.Conn.Mysql.{atoi}

skip_spaces : Text → Text
skip_spaces [] = []
skip_spaces (c ∷ s) =
    let rest = skip_spaces s in if c == 32 || (leb 9 c && leb c 13) then rest else c ∷ s

negative : ℕ → ℤ
negative zero = pos 0
negative (suc n) = negsuc n

-- A sign and digits.
with_sign : Text → ℤ
unfolding negative
with_sign [] = pos 0
with_sign (c ∷ s) =
    if c == 45
    then negative (atoi (string s))
    else if c == 43
    then pos (atoi (string s))
    else pos (atoi (string (c ∷ s)))

-- `atoi` and `atoll`, for a number in the range of the type.
pub atoll : Text → ℤ
unfolding skip_spaces with_sign
atoll s = with_sign (skip_spaces s)

pub int2_string : ℕ → Text
int2_string user_id = decimal user_id

-- `(uint32_t)`
abbrev pub to_uint32 : ℤ → ℕ
to_uint32 (pos n) = n % 2 ^ 32
to_uint32 (negsuc n) = 2 ^ 32 - suc (n % 2 ^ 32)

pub string2_int : Text → ℕ
unfolding atoll
string2_int value = to_uint32 (atoll value)
