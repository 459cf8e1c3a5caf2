-- ===== src/Base/Time.antt =====
-- Go's time: a time.Time counts nanoseconds from the zero time, a time.Duration is an int64.
use Prim.Native.Nat.{ℕ, ◌-◌, ◌*◌}
use mathlib.Core.Path.{◌≡◌}
use native.Mathlib.Omega.{arith}
use tfexplorer.Base.Tests.{leb, if◌then◌else◌}
use tfexplorer.Base.Int64.{modulus, sign_bit, sle}

abbrev pub second : ℕ
second = 1_000_000_000

abbrev pub hour : ℕ
hour = 3_600_000_000_000

abbrev pub day : ℕ
day = 24 * hour

-- Time.Sub, which time.Until goes by: the difference, held at the ends of int64.
unfoldable pub sub_time : ℕ → ℕ → ℕ
sub_time a b =
    if leb b a
    then (if leb (a - b) (sign_bit - 1) then a - b else sign_bit - 1)
    else modulus - (if leb (b - a) sign_bit then b - a else sign_bit)

-- The duration until a time is not positive exactly when the time has come.
pub sub_time-sle : (t now : ℕ) → sle (sub_time t now) 0 ≡ leb t now
unfolding sub_time
sub_time-sle t now = ground arith
