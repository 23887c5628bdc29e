-- ===== src/Client/Sets.antt =====
-- The commands of CacheConn on sorted sets. None of them checks its reply for NULL.
use filehub_cloud.Base.{
  ltb, ◌==◌, length, zero, suc, ℕ, ◌+◌, ◌-◌, Option, none, some, List, [], ◌∷◌, ◌++◌, take, same,
  Text, bytes, ℤ, pos, negsuc, if◌then◌else◌,
}
use filehub_cloud.Util.Numbers.{atoll}
use filehub_cloud.Client.Link.{Link, Reply, string, status, error, integer, array, Element, signed}
use filehub_cloud.Client.Connecting.{CacheConn, unguarded}
use filehub_cloud.Client.Hashes.{element_str}

abbrev pub integer_or_error : Reply → Option ℤ
integer_or_error (integer i) = some i
integer_or_error _ = some (negsuc 0)

abbrev pub zero_or_error : Reply → Option ℤ
zero_or_error (integer i) = some (pos 0)
zero_or_error _ = some (negsuc 0)

unfoldable pub zset_exist : Text → Text → CacheConn → Link (ℤ × CacheConn)
unfolding unguarded
zset_exist key member =
    unguarded (negsuc 0)
      (bytes "zlexcount" ∷ key ∷ (bytes "[" ++ member) ∷ (bytes "[" ++ member) ∷ [])
      integer_or_error

unfoldable pub zset_add : Text → ℤ → Text → CacheConn → Link (ℤ × CacheConn)
unfolding unguarded signed
zset_add key score member =
    unguarded (negsuc 0) (bytes "ZADD" ∷ key ∷ signed score ∷ member ∷ []) zero_or_error

unfoldable pub zset_zrem : Text → Text → CacheConn → Link (ℤ × CacheConn)
unfolding unguarded
zset_zrem key member = unguarded (negsuc 0) (bytes "ZREM" ∷ key ∷ member ∷ []) zero_or_error

abbrev pub ok_or_error : Text → Option ℤ
ok_or_error s = if same s (bytes "OK") then some (pos 0) else some (negsuc 0)

-- `strcmp(reply->str, "OK")`; other types have a NULL text.
abbrev pub compare_ok : Reply → Option ℤ
compare_ok (string s) = ok_or_error s
compare_ok (status s) = ok_or_error s
compare_ok (error s) = ok_or_error s
compare_ok _ = none

-- A failed `Init` gives `false`, that is 0.
unfoldable pub zset_incr : Text → Text → CacheConn → Link (ℤ × CacheConn)
unfolding unguarded
zset_incr key member =
    unguarded (pos 0) (bytes "ZINCRBY" ∷ key ∷ bytes "1" ∷ member ∷ []) compare_ok

unfoldable pub zset_zcard : Text → CacheConn → Link (ℤ × CacheConn)
unfolding unguarded
zset_zcard key = unguarded (negsuc 0) (bytes "ZCARD" ∷ key ∷ []) integer_or_error

-- The first `count` elements; each is cut to 1023 bytes, and one without a text is read as NULL.
copied : ℕ → List Element → Option (List Text)
copied zero elements = some []
copied (suc n) [] = some []
copied (suc n) (Element.other ∷ elements) = none
copied (suc n) (e ∷ elements) = elim (copied n elements) [
  | none ↦ none
  | some values ↦ some (take 1023 (element_str e) ∷ values)
]

-- `end_pos - from_pos + 1`, none below 0.
abbrev pub span : ℤ → ℤ → Option ℕ
span (pos a) (pos b) = if ltb (b + 1) a then none else some (b + 1 - a)
span (pos a) (negsuc b) = if a + b == 0 then some 0 else none
span (negsuc a) (pos b) = some (a + b + 2)
span (negsuc a) (negsuc b) = if ltb (a + 1) b then none else some (a + 1 - b)

-- A count below 0 is a large number where it is compared with the number of elements.
abbrev pub at_most : Option ℕ → List Element → ℕ
at_most none elements = length elements
at_most (some count) elements = count

abbrev pub all_copied : Option (List Text) → Option (Option (List Text))
all_copied none = none
all_copied (some values) = some (some values)

-- The members that are copied; none for -1.
unfoldable pub members : Option ℕ → Reply → Option (Option (List Text))
unfolding copied
members count (array elements) = all_copied (copied (at_most count elements) elements)
members count _ = some none

unfoldable pub zset_zrevrange : Text → ℤ → ℤ → CacheConn → Link (Option (List Text) × CacheConn)
unfolding unguarded signed members
zset_zrevrange key from_pos end_pos =
    unguarded none (bytes "ZREVRANGE" ∷ key ∷ signed from_pos ∷ signed end_pos ∷ [])
      (members (span from_pos end_pos))

abbrev pub score_or_error : Reply → Option ℤ
score_or_error (string s) = some (atoll s)
score_or_error _ = some (negsuc 0)

unfoldable pub zset_get_score : Text → Text → CacheConn → Link (ℤ × CacheConn)
unfolding unguarded
zset_get_score key member = unguarded (negsuc 0) (bytes "ZSCORE" ∷ key ∷ member ∷ []) score_or_error
