-- ===== src/Base/Int.antt =====
-- Signed integers over the native numbers, as far as an `i32` field is compared with constants.
use Prim.Native.Nat.{ℕ}
use mathlib.Core.Bool.{Bool, true, false}
use wg_kotlin.Base.Tests.{leb, ◌==◌}

-- `negsuc n` is -(n + 1).
pub data ℤ : Type 0 where
  pos : ℕ → ℤ
  negsuc : ℕ → ℤ

-- `n <= z`, `z <= n` and `z == 0` for a constant n of ℕ
abbrev pub at_least : ℕ → ℤ → Bool
at_least n (pos z) = leb n z
at_least n (negsuc z) = false

abbrev pub at_most : ℕ → ℤ → Bool
at_most n (pos z) = leb z n
at_most n (negsuc z) = true

abbrev pub is_zero : ℤ → Bool
is_zero (pos z) = z == 0
is_zero (negsuc z) = false

-- `z == n` for a number n
abbrev pub is_value : ℕ → ℤ → Bool
is_value n (pos z) = z == n
is_value n (negsuc z) = false
