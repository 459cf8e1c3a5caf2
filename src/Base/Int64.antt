-- ===== src/Base/Int64.antt =====
-- Go's int64 as its 64-bit pattern, a number below 2 ^ 64: addition, multiplication, the signed
-- order, and the division that truncates towards 0 (by a positive divisor).
use Prim.Native.Nat.{ℕ, ◌+◌, ◌-◌, ◌*◌, ◌/◌, ◌%◌, ◌<◌}
use mathlib.Core.Path.{◌≡◌}
use mathlib.Core.Bool.{Bool}
use native.Mathlib.Omega.{arith}
use tfexplorer.Base.Tests.{ltb, leb, if◌then◌else◌}

-- 2 ^ 64
abbrev pub modulus : ℕ
modulus = 18_446_744_073_709_551_616

-- 2 ^ 63: the patterns from here up are the negative numbers.
abbrev pub sign_bit : ℕ
sign_bit = 9_223_372_036_854_775_808

unfoldable pub add : ℕ → ℕ → ℕ
add a b = (a + b) % modulus

unfoldable pub sub : ℕ → ℕ → ℕ
sub a b = (a + modulus - b) % modulus

unfoldable pub mul : ℕ → ℕ → ℕ
mul a b = (a * b) % modulus

abbrev pub is_neg : ℕ → Bool
is_neg a = leb sign_bit a

-- The signed order: flipping the sign bit turns it into the order of the patterns.
abbrev pub slt : ℕ → ℕ → Bool
slt a b = ltb ((a + sign_bit) % modulus) ((b + sign_bit) % modulus)

abbrev pub sle : ℕ → ℕ → Bool
sle a b = leb ((a + sign_bit) % modulus) ((b + sign_bit) % modulus)

-- `a / b` and `a % b` for a divisor 0 < b < 2 ^ 63.
unfoldable pub quot : ℕ → ℕ → ℕ
quot a b = if is_neg a then (modulus - (modulus - a) / b) % modulus else a / b

unfoldable pub rem : ℕ → ℕ → ℕ
rem a b = if is_neg a then (modulus - (modulus - a) % b) % modulus else a % b

pub sle_small : (a b : ℕ) → a < sign_bit → b < sign_bit → sle a b ≡ leb a b
sle_small a b ha hb = ground arith

-- Where nothing wraps around, and the numbers are not negative, these are the operations of ℕ.
pub add_small : (a b : ℕ) → a + b < modulus → add a b ≡ a + b
unfolding add
add_small a b h = omega arith

pub mul_small : (a b : ℕ) → a * b < modulus → mul a b ≡ a * b
unfolding mul
mul_small a b h = omega arith

pub quot_small : (a b : ℕ) → a < sign_bit → quot a b ≡ a / b
unfolding quot
quot_small a b h = ground arith

pub rem_small : (a b : ℕ) → a < sign_bit → rem a b ≡ a % b
unfolding rem
rem_small a b h = ground arith
