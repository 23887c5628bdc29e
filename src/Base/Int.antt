-- ===== src/Base/Int.antt =====
-- C ints as integers.
use Prim.Native.Nat.{ℕ}
use mathlib.Core.Bool.{Bool, false}
use filehub_cloud.Base.Tests.{◌==◌}

-- `negsuc n` is -(n + 1).
pub data ℤ : Type 0 where
  pos : ℕ → ℤ
  negsuc : ℕ → ℤ

-- `!n`
abbrev pub is_zero : ℤ → Bool
is_zero (pos n) = n == 0
is_zero (negsuc n) = false
