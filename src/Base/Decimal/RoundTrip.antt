-- ===== src/Base/Decimal/RoundTrip.antt =====
-- Printing and parsing are inverse, and a dash ends the printed number.
use Prim.Native.Nat.{ℕ, zero, suc, ◌+◌, ◌-◌, ◌*◌, ◌/◌, ◌%◌, ◌^◌, ◌≤◌, ◌<◌}
use native.Mathlib.Nat.{pow-suc}
use native.Mathlib.Omega.{arith}
use mathlib.Core.Path.{◌≡◌, refl, ap, ◌∙◌}
use mathlib.Core.Bool.{false}
use mathlib.Core.Option.{some}
use mathlib.Core.List.{[], ◌∷◌, ◌++◌}
use mathlib.Core.Logic.{inl, inr}
use tfexplorer.Base.Tests.{ltb, leb, Bool-cases, ltb→lt, lt→ltb, le→leb}
use tfexplorer.Base.Lists.{All}
use tfexplorer.Base.Text.{Text, is_empty}
use tfexplorer.Base.Int64.{sign_bit}
use tfexplorer.Base.Decimal.{
  print_fuel, print, format_int, parse_digits, positive, parse_int, before_dash,
}

abbrev pub IsDigit : ℕ → Type 0
IsDigit c = (48 ≤ c) × (c ≤ 57)

pow_step : (f n : ℕ) → n < 10 ^ suc f → n / 10 < 10 ^ f
pow_step f n h = omega (arith, pow-suc 10 f)

parse_digits_step :
    (n d : ℕ) (s : Text) → d < 10 → parse_digits n ((48 + d) ∷ s) ≡ parse_digits (n * 10 + d) s
unfolding parse_digits
parse_digits_step n d s h =
    let e : 48 + d - 48 ≡ d = omega arith in
    rw (e, le→leb 48 (48 + d) (omega arith), le→leb (48 + d) 57 (omega arith)) refl

print_fuel_small : (f n : ℕ) (acc : Text) → n < 10 → print_fuel (suc f) n acc ≡ (48 + n) ∷ acc
unfolding print_fuel
print_fuel_small f n acc h = rw (lt→ltb n 10 h)

print_fuel_big :
    (f n : ℕ) (acc : Text)
    → ltb n 10 ≡ false
    → print_fuel (suc f) n acc ≡ print_fuel f (n / 10) ((48 + n % 10) ∷ acc)
unfolding print_fuel
print_fuel_big f n acc h = rw h

parse_digits-print_fuel :
    (f n : ℕ) (acc : Text)
    → n < 10 ^ suc f
    → parse_digits 0 (print_fuel (suc f) n acc) ≡ parse_digits n acc
parse_digits-print_fuel zero n acc h =
    rw (print_fuel_small zero n acc h, parse_digits_step 0 n acc h)
      (ap (λ m. parse_digits m acc) (omega arith))
parse_digits-print_fuel (suc f) n acc h = elim (Bool-cases (ltb n 10)) [
  | inl small ↦
      let k : n < 10 = ltb→lt n 10 small in
      rw (print_fuel_small (suc f) n acc k, parse_digits_step 0 n acc k)
        (ap (λ m. parse_digits m acc) (omega arith))
  | inr big ↦ rw (print_fuel_big (suc f) n acc big) (
      parse_digits-print_fuel f (n / 10) ((48 + n % 10) ∷ acc) (pow_step (suc f) n h)
      ∙ parse_digits_step (n / 10) (n % 10) acc (omega arith)
      ∙ ap (λ m. parse_digits m acc) (omega arith))
]

print_fuel-IsDigit :
    (f n : ℕ) (acc : Text) → n < 10 ^ f → All IsDigit acc → All IsDigit (print_fuel f n acc)
print_fuel-IsDigit zero n acc h a = unfold print_fuel in a
print_fuel-IsDigit (suc f) n acc h a = elim (Bool-cases (ltb n 10)) [
  | inl small ↦
      let k : n < 10 = ltb→lt n 10 small in
      rw (print_fuel_small f n acc k) ((omega arith, omega arith), a)
  | inr big ↦ rw (print_fuel_big f n acc big) (
      print_fuel-IsDigit f (n / 10) ((48 + n % 10) ∷ acc) (pow_step f n h)
        ((omega arith, omega arith), a))
]

is_empty-print_fuel :
    (f n : ℕ) (acc : Text) → is_empty acc ≡ false → is_empty (print_fuel f n acc) ≡ false
unfolding print_fuel
is_empty-print_fuel zero n acc h = h
is_empty-print_fuel (suc f) n acc h =
    ground (arith, is_empty-print_fuel f (n / 10) ((48 + n % 10) ∷ acc) refl)

before_dash-IsDigit : (s t : Text) → All IsDigit s → before_dash (s ++ 45 ∷ t) ≡ s
unfolding before_dash
before_dash-IsDigit [] t h = refl
before_dash-IsDigit (c ∷ s) t h = ground (arith, before_dash-IsDigit s t h.1)

parse_int-IsDigit :
    (s : Text) → All IsDigit s → is_empty s ≡ false → parse_int s ≡ positive (parse_digits 0 s)
unfolding parse_int
parse_int-IsDigit [] h e = ground arith
parse_int-IsDigit (c ∷ s) h e = ground arith

print_lem : (n : ℕ) → print n ≡ print_fuel 20 n []
unfolding print
print_lem n = refl

pub print-IsDigit : (n : ℕ) → n < sign_bit → All IsDigit (print n)
print-IsDigit n h = rw print_lem (print_fuel-IsDigit 20 n [] (omega arith) tt)

pub is_empty-print : (n : ℕ) → n < sign_bit → is_empty (print n) ≡ false
is_empty-print n h = rw print_lem (elim (Bool-cases (ltb n 10)) [
  | inl small ↦ rw (print_fuel_small 19 n [] (ltb→lt n 10 small))
  | inr big ↦ rw (print_fuel_big 19 n [] big) (is_empty-print_fuel 19 (n / 10) _ refl)
])

pub parse_digits-print : (n : ℕ) → n < sign_bit → parse_digits 0 (print n) ≡ some n
parse_digits-print n h =
    rw print_lem (parse_digits-print_fuel 19 n [] (omega arith) ∙ (unfold parse_digits in refl))

positive_small : (n : ℕ) → n < sign_bit → positive (some n) ≡ some n
positive_small n h = rw (lt→ltb n sign_bit h)

pub format_int_pos : (n : ℕ) → n < sign_bit → format_int n ≡ print n
unfolding format_int
format_int_pos n h = let small : leb sign_bit n ≡ false = ground arith in rw small

-- Printing a non-negative int64 and parsing what stands before the first dash gives it back.
pub parse_int-format_int :
    (n : ℕ) (t : Text) → n < sign_bit → parse_int (before_dash (format_int n ++ 45 ∷ t)) ≡ some n
parse_int-format_int n t h =
    let digits : All IsDigit (print n) = print-IsDigit n h in
    rw (format_int_pos n h) (
      rw (before_dash-IsDigit (print n) t digits) (
        rw (parse_int-IsDigit (print n) digits (is_empty-print n h))
          (rw (parse_digits-print n h) (positive_small n h))))
