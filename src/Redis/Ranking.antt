-- ===== src/Redis/Ranking.antt =====
-- A sorted set from its highest score on, and the range that ZREVRANGE gives.
use filehub_cloud.Base.{
  ℕ, suc, ◌-◌, ltb, ◌==◌, Bool, ◌&&◌, ◌||◌, List, [], ◌∷◌, map, ℤ, pos, negsuc, Text, less,
  if◌then◌else◌, length, take, drop,
}

-- Members with one score stand in the descending order of their bytes.
abbrev ahead : Text × ℕ → Text × ℕ → Bool
ahead (m, x) (n, y) = ltb y x || (x == y && less n m)

placed : Text × ℕ → List (Text × ℕ) → List (Text × ℕ)
placed p [] = p ∷ []
placed p (q ∷ ranks) = let rest = placed p ranks in if ahead p q then p ∷ q ∷ ranks else q ∷ rest

unfoldable pub ranked : List (Text × ℕ) → List (Text × ℕ)
unfolding placed
ranked [] = []
ranked (p ∷ zset) = placed p (ranked zset)

-- A negative index counts from the end.
abbrev from_index : ℕ → ℤ → ℕ
from_index n (pos i) = i
from_index n (negsuc i) = n - suc i

-- The index behind the last one.
abbrev to_index : ℕ → ℤ → ℕ
to_index n (pos i) = suc i
to_index n (negsuc i) = n - i

abbrev cut : ℕ → ℕ → List (Text × ℕ) → List Text
cut from to ranks = map (λ p. p.0) (take (to - from) (drop from ranks))

unfoldable pub range : ℤ → ℤ → List (Text × ℕ) → List Text
unfolding ranked
range start stop zset =
    cut (from_index (length zset) start) (to_index (length zset) stop) (ranked zset)
