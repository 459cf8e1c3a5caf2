-- ===== src/Base/Decimal.antt =====
-- Decimal text of an int64: `%d` of fmt.Sprintf, strconv.ParseInt(s, 10, 64), and the part of a
-- text before its first dash, strings.Split(s, "-")[0].
pub mod RoundTrip
use Prim.Native.Nat.{ℕ, zero, suc, ◌+◌, ◌-◌, ◌*◌, ◌/◌, ◌%◌}
use mathlib.Core.Bool.{◌&&◌}
use mathlib.Core.Option.{Option, none, some}
use mathlib.Core.List.{[], ◌∷◌}
use tfexplorer.Base.Tests.{ltb, leb, ◌==◌, if◌then◌else◌}
use tfexplorer.Base.Text.{Text, is_empty}
use tfexplorer.Base.Int64.{modulus, sign_bit, is_neg}

-- The digits of `n`, put in front of `acc`. Twenty rounds print every number below 2 ^ 64.
print_fuel : ℕ → ℕ → Text → Text
print_fuel zero n acc = acc
print_fuel (suc f) n acc =
    let rest = print_fuel f (n / 10) ((b'0' + n % 10) ∷ acc) in
    if ltb n 10 then (b'0' + n) ∷ acc else rest

unfoldable pub print : ℕ → Text
unfolding print_fuel
print n = print_fuel 20 n []

-- fmt.Sprintf("%d", a)
unfoldable pub format_int : ℕ → Text
format_int a = if is_neg a then b'-' ∷ print (modulus - a) else print a

unfoldable pub parse_digits : ℕ → Text → Option ℕ
parse_digits n [] = some n
parse_digits n (c ∷ s) =
    if leb b'0' c && leb c b'9' then parse_digits (n * 10 + (c - b'0')) s else none

-- What lies outside of int64 is an error.
abbrev pub positive : Option ℕ → Option ℕ
positive none = none
positive (some n) = if ltb n sign_bit then some n else none

abbrev pub negative : Option ℕ → Option ℕ
negative none = none
negative (some n) = if leb n sign_bit then some ((modulus - n) % modulus) else none

unfoldable pub parse_unsigned : Text → Option ℕ
unfolding parse_digits
parse_unsigned s = if is_empty s then none else parse_digits 0 s

-- strconv.ParseInt(s, 10, 64)
unfoldable pub parse_int : Text → Option ℕ
unfolding parse_unsigned
parse_int [] = none
parse_int (c ∷ s) =
    if c == b'-'
    then negative (parse_unsigned s)
    else if c == b'+'
    then positive (parse_unsigned s)
    else positive (parse_unsigned (c ∷ s))

-- strings.Split(s, "-")[0]
unfoldable pub before_dash : Text → Text
before_dash [] = []
before_dash (c ∷ s) = let rest = before_dash s in if c == b'-' then [] else c ∷ rest
