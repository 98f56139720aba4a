-- ===== src/Common/Int.antt =====
-- Go's `int` where a value may be negative. `negsuc n` is -(n + 1).
use Prim.Native.Nat.{ℕ, zero, suc, ◌-◌, ◌*◌, ◌%◌, ◌^◌}
use mathlib.Core.Bool.{Bool, true, false}
use boilerhouse.Common.Tests.{ltb, if◌then◌else◌}

pub data ℤ : Type 0 where
  pos : ℕ → ℤ
  negsuc : ℕ → ℤ

-- `x > 0`
abbrev pub is_positive : ℤ → Bool
is_positive (pos zero) = false
is_positive (pos (suc n)) = true
is_positive (negsuc n) = false

-- The value of a positive `int`, and 0 otherwise.
abbrev pub pos_part : ℤ → ℕ
pos_part (pos n) = n
pos_part (negsuc n) = 0

-- The bit pattern of a value in `w` bits, and the signed value of a bit pattern.
pattern_of : ℕ → ℤ → ℕ
pattern_of w (pos n) = n % 2 ^ w
pattern_of w (negsuc n) = 2 ^ w - 1 - n % 2 ^ w

signed : ℕ → ℕ → ℤ
signed w n = if ltb n (2 ^ (w - 1)) then pos n else negsuc (2 ^ w - 1 - n)

-- The conversion `int32(x)`, which wraps.
unfoldable pub to_int32 : ℤ → ℤ
unfolding pattern_of signed
to_int32 x = signed 32 (pattern_of 32 x)

-- `x * k` on `int`, which is 64 bits wide and wraps, for a small positive constant `k`.
unfoldable pub mul_int : ℤ → ℕ → ℤ
unfolding pattern_of signed
mul_int x k = signed 64 ((pattern_of 64 x * k) % 2 ^ 64)
