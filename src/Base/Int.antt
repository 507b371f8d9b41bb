-- ===== src/Base/Int.antt =====
-- Signed integers over the native numbers, as far as the program subtracts and compares them.
use Prim.Native.Nat.{ℕ, suc, zero, ◌+◌, ◌-◌}
use mathlib.Core.Bool.{Bool, false}
use audio_share.Base.Tests.{ltb, leb, if◌then◌else◌}

-- `negsuc n` is -(n + 1).
pub data ℤ : Type 0 where
  pos : ℕ → ℤ
  negsuc : ℕ → ℤ

-- a - b, as an integer.
abbrev pub sub_ℕ : ℕ → ℕ → ℤ
sub_ℕ a b = if leb b a then pos (a - b) else negsuc (b - a - 1)

abbrev pub neg : ℕ → ℤ
neg zero = pos 0
neg (suc n) = negsuc n

-- `a - b` for an integer `a`.
abbrev pub minus_ℕ : ℤ → ℕ → ℤ
minus_ℕ (pos a) b = sub_ℕ a b
minus_ℕ (negsuc a) b = negsuc (a + b)

-- The integer that a 32-bit pattern stands for: `as i32`.
abbrev pub as_i32 : ℕ → ℤ
as_i32 n = if ltb n 2147483648 then pos n else negsuc (4294967295 - n)

-- `a > n` for a number `n`.
abbrev pub exceeds : ℤ → ℕ → Bool
exceeds (pos a) n = ltb n a
exceeds (negsuc a) n = false
