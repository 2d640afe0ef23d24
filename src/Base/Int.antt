-- ===== src/Base/Int.antt =====
-- Signed 64-bit arithmetic as Go does it, on integers over the native numbers.
use Prim.Native.Nat.{ℕ, suc, ◌-◌, ◌*◌, ◌/◌, ◌%◌, ◌^◌}
use mathlib.Core.Path.{◌≡◌}
use mathlib.Core.Logic.{◌↔◌}
use mathlib.Core.Bool.{Bool, true, false}
use native.Mathlib.Omega.{arith}
use payments_boilerplate.Base.Tests.{ltb, leb, eqb, if◌then◌else◌}

-- `negsuc n` is -(n + 1).
pub data ℤ : Type 0 where
  pos : ℕ → ℤ
  negsuc : ℕ → ℤ

-- -n.
abbrev pub neg : ℕ → ℤ
neg n = if eqb n 0 then pos 0 else negsuc (n - 1)

abbrev pub is_positive : ℤ → Bool
is_positive (pos n) = ltb 0 n
is_positive (negsuc n) = false

abbrev pub eqb_ℤ : ℤ → ℤ → Bool
eqb_ℤ (pos a) (pos b) = eqb a b
eqb_ℤ (negsuc a) (negsuc b) = eqb a b
eqb_ℤ _ _ = false

pub eqb_ℤ_iff : (a b : ℤ) → (eqb_ℤ a b ≡ true) ↔ (a ≡ b)
eqb_ℤ_iff (pos a) (pos b) = ground arith
eqb_ℤ_iff (negsuc a) (negsuc b) = ground arith
eqb_ℤ_iff (pos a) (negsuc b) = ground arith
eqb_ℤ_iff (negsuc a) (pos b) = ground arith

-- `a < b`.
abbrev pub ltb_ℤ : ℤ → ℤ → Bool
ltb_ℤ (pos a) (pos b) = ltb a b
ltb_ℤ (pos a) (negsuc b) = false
ltb_ℤ (negsuc a) (pos b) = true
ltb_ℤ (negsuc a) (negsuc b) = ltb b a

-- `math.MaxInt64`.
abbrev pub max_int64 : ℕ
max_int64 = 9223372036854775807

-- A product of int64 values, wrapped to 64 bits as Go wraps it.
abbrev pub wrap64 : ℕ → ℤ
wrap64 n = if leb (n % 2 ^ 64) max_int64 then pos (n % 2 ^ 64) else neg (2 ^ 64 - n % 2 ^ 64)

abbrev pub wrap64_neg : ℕ → ℤ
wrap64_neg n = if leb (n % 2 ^ 64) (2 ^ 63) then neg (n % 2 ^ 64) else pos (2 ^ 64 - n % 2 ^ 64)

unfoldable pub mul64 : ℤ → ℤ → ℤ
mul64 (pos a) (pos b) = wrap64 (a * b)
mul64 (pos a) (negsuc b) = wrap64_neg (a * suc b)
mul64 (negsuc a) (pos b) = wrap64_neg (suc a * b)
mul64 (negsuc a) (negsuc b) = wrap64 (suc a * suc b)

-- Go's quotient of a number that is not negative, which truncates towards 0. Go panics at a zero
-- divisor; callers test for it.
unfoldable pub div64 : ℕ → ℤ → ℤ
div64 a (pos b) = pos (a / b)
div64 a (negsuc b) = neg (a / suc b)

-- Go's quotient of two numbers, where the smallest number is not divided by -1.
unfoldable pub div64_ℤ : ℤ → ℤ → ℤ
unfolding div64
div64_ℤ (pos a) b = div64 a b
div64_ℤ (negsuc a) (pos b) = neg (suc a / b)
div64_ℤ (negsuc a) (negsuc b) = pos (suc a / suc b)
