-- ===== src/Prelude/Int.antt =====
-- Signed integers over the native numbers.
use Prim.Native.Nat.{ℕ}
use mathlib.Core.Bool.{Bool, true, false}
use mavcam.Prelude.Tests.{ltb, leb, ◌==◌}

-- `negsuc n` is -(n + 1).
pub data ℤ : Type 0 where
  pos : ℕ → ℤ
  negsuc : ℕ → ℤ

abbrev pub eqb : ℤ → ℤ → Bool
eqb (pos a) (pos b) = a == b
eqb (negsuc a) (negsuc b) = a == b
eqb (pos a) (negsuc b) = false
eqb (negsuc a) (pos b) = false

-- `0 <= x` and `0 < x`.
abbrev pub is_nonneg : ℤ → Bool
is_nonneg (pos a) = true
is_nonneg (negsuc a) = false

abbrev pub is_pos : ℤ → Bool
is_pos (pos a) = ltb 0 a
is_pos (negsuc a) = false

-- `x <= n` for a number n.
abbrev pub is_le : ℤ → ℕ → Bool
is_le (pos a) n = leb a n
is_le (negsuc a) n = true
