-- ===== src/Common/Ints.antt =====
-- Go's signed integers, over the native numbers: `negsuc n` is -(n + 1).
use Prim.Native.Nat.{ℕ}
use mathlib.Core.Bool.{Bool, true}
use smokeping_go.Common.Tests.{ltb}

pub data ℤ : Type 0 where
  pos : ℕ → ℤ
  negsuc : ℕ → ℤ

-- `z < 0 || z > limit`
abbrev pub outside : ℕ → ℤ → Bool
outside limit (pos n) = ltb limit n
outside limit (negsuc n) = true

-- A number that is not negative as itself.
abbrev pub natural : ℤ → ℕ
natural (pos n) = n
natural (negsuc n) = 0
