-- ===== src/Prelude/Int.antt =====
-- Signed decimals as they arrive in a request, in hundredths.
use Prim.Native.Nat.{ℕ}
use mathlib.Core.Bool.{Bool, false}
use senet.Prelude.Tests.{ltb, leb}

-- `negsuc n` is -(n + 1)
pub data ℤ : Type 0 where
  pos : ℕ → ℤ
  negsuc : ℕ → ℤ

abbrev pub pos_part : ℤ → ℕ
pos_part (pos n) = n
pos_part (negsuc n) = 0

-- `Decimal("0") <= a <= top`
abbrev pub within : ℤ → ℕ → Bool
within (pos n) top = leb n top
within (negsuc n) top = false

-- `a > 0`
abbrev pub positive : ℤ → Bool
positive (pos n) = ltb 0 n
positive (negsuc n) = false
