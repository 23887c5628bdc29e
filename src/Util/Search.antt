-- ===== src/Util/Search.antt =====
-- MemFind of base/util.cc, called with the lengths of both texts. The sought text is not empty: a length of
-- 0 stands for that of a string.
pub mod Found
use filehub_cloud.Base.{
  ℕ, zero, suc, ◌+◌, ◌-◌, ◌==◌, ltb, Bool, true, false, ◌&&◌, Option, none, some, List, [], ◌∷◌,
  Text, drop, length, same, if◌then◌else◌,
}

-- `memcmp(p, sub_str, sub_len) == 0`
unfoldable pub stands_at : Text → Text → Bool
stands_at p [] = true
stands_at [] (y ∷ sub_str) = false
stands_at (x ∷ p) (y ∷ sub_str) = x == y && stands_at p sub_str

-- The forward loop over `steps` places from `i` on.
forward : ℕ → ℕ → Text → Text → Option ℕ
unfolding stands_at
forward zero i src_str sub_str = none
forward (suc steps) i src_str sub_str =
    let later = forward steps (suc i) src_str sub_str in
    if stands_at (drop i src_str) sub_str then some i else later

-- The backward loop from `i` on.
backward : ℕ → Text → Text → Option ℕ
unfolding stands_at
backward zero src_str sub_str = if stands_at src_str sub_str then some 0 else none
backward (suc i) src_str sub_str =
    let before = backward i src_str sub_str in
    if stands_at (drop (suc i) src_str) sub_str then some (suc i) else before

-- The place in src_str; none for NULL.
pub mem_find : Text → Text → Bool → Option ℕ
unfolding forward backward
mem_find src_str sub_str flag =
    if length src_str == 0
    then none
    else if ltb (length src_str) (length sub_str)
    then none
    else if length src_str == length sub_str
    then (if stands_at src_str sub_str then some 0 else none)
    else if flag
    then forward (length src_str - length sub_str) 0 src_str sub_str
    else backward (length src_str - length sub_str) src_str sub_str
