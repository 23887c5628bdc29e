-- ===== src/Common/Suffix.antt =====
-- GetFileSuffix of api/api_common.cc, over the bytes of a name that is not NULL. Pointers into the name
-- are offsets, and the terminating NUL is the byte behind the last one.
pub mod Splitting
use filehub_cloud.Base.{ℕ, zero, suc, ◌==◌, List, [], ◌∷◌, Text, bytes, length, drop, if◌then◌else◌}

byte_at : Text → ℕ → ℕ
byte_at [] i = 0
byte_at (x ∷ s) zero = x
byte_at (x ∷ s) (suc i) = byte_at s i

abbrev pub dot : ℕ
dot = 46

-- `while (*k != '.' && k != p) k--`
scan_back : Text → ℕ → ℕ
unfolding byte_at
scan_back name zero = zero
scan_back name (suc k) =
    let rest = scan_back name k in if byte_at name (suc k) == dot then suc k else rest

suffix_or_null : Text → Text
suffix_or_null [] = bytes "null"
suffix_or_null (x ∷ s) = x ∷ s

pub get_file_suffix : Text → Text
unfolding scan_back byte_at suffix_or_null
get_file_suffix name =
    let k = scan_back name (length name) in
    if byte_at name k == dot then suffix_or_null (drop (suc k) name) else bytes "null"
