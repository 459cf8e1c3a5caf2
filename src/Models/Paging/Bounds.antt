-- ===== src/Models/Paging/Bounds.antt =====
-- What a request gets.
use tfexplorer.Base.{
  ℕ, ◌+◌, ◌-◌, ◌*◌, ◌≤◌, ◌<◌, ◌≡◌, refl, ap, true, false, some, [], ◌∷◌, arith, All, lt→ltb,
}
use tfexplorer.Base.Int64.{modulus, sign_bit, is_neg, sle, sub, mul, mul_small}
use tfexplorer.Base.Text.{Text, is_empty}
use tfexplorer.Base.Decimal.{print, format_int, parse_digits}
use tfexplorer.Base.Decimal.RoundTrip.{
  IsDigit, print-IsDigit, is_empty-print, parse_digits-print, format_int_pos,
}
use tfexplorer.Models.Paging.{
  clamp_positive, scan_digits, scan_unsigned, parse_value, page_number, page_size,
  page_from_request, page,
}

parse_digits-ge : (n : ℕ) (s : Text) {v : ℕ} → parse_digits n s ≡ some v → n ≤ v
unfolding parse_digits
parse_digits-ge n [] h = ground arith
parse_digits-ge n (c ∷ s) {v} h = ground (arith, parse_digits-ge (n * 10 + (c - b'0')) s {v = v})

scan_digits-parse_digits :
    (n : ℕ) (s : Text) {v : ℕ} → parse_digits n s ≡ some v → v < modulus → scan_digits n s ≡ some v
unfolding scan_digits parse_digits
scan_digits-parse_digits n [] h small = h
scan_digits-parse_digits n (c ∷ s) {v} h small = ground (
  arith,
  parse_digits-ge (n * 10 + (c - b'0')) s {v = v},
  scan_digits-parse_digits (n * 10 + (c - b'0')) s {v = v},
)

parse_value-IsDigit :
    (s : Text)
    → All IsDigit s
    → is_empty s ≡ false
    → parse_value s ≡ clamp_positive (scan_digits 0 s)
unfolding parse_value scan_unsigned
parse_value-IsDigit [] h e = cc
parse_value-IsDigit (c ∷ s) h e = ground arith

parse_value-format_int : (n : ℕ) → n < sign_bit → parse_value (format_int n) ≡ n
parse_value-format_int n h =
    let e = parse_value-IsDigit (print n) (print-IsDigit n h) (is_empty-print n h) in
    let e' = scan_digits-parse_digits 0 (print n) (parse_digits-print n h) (omega arith) in
    rw (format_int_pos n h, e, e') (rw (lt→ltb n sign_bit h))

-- The limit is at most 1000, and the page is not negative, whatever the request says.
pub page_from_request_bounds :
    (p s : Text)
    → (sle (page_from_request p s).limit 1000 ≡ true)
      × (is_neg (page_number p) ≡ false)
      × ((page_from_request p s).skip ≡ mul (page_number p) (page_from_request p s).limit)
unfolding page_from_request page_number page_size page sub
page_from_request_bounds p s = (ground arith, ground arith, refl)

is_empty-format_int : (n : ℕ) → n < sign_bit → is_empty (format_int n) ≡ false
is_empty-format_int n h = rw (format_int_pos n h) (is_empty-print n h)

page_number-format_int : (p : ℕ) → p + 1 < sign_bit → page_number (format_int (p + 1)) ≡ p
unfolding page_number sub
page_number-format_int p h =
    rw (is_empty-format_int (p + 1) h, parse_value-format_int (p + 1) h) (ground arith)

page_size-format_int : (s : ℕ) → s ≤ 1000 → page_size (format_int s) ≡ s
unfolding page_size
page_size-format_int s h =
    rw (is_empty-format_int s (omega arith), parse_value-format_int s (omega arith)) (ground arith)

-- A page from 1 on and a size up to 1000, written as decimal numbers, are what the request gets,
-- where the elements to skip can be counted in an int64.
pub page_from_request-format_int :
    (p s : ℕ)
    → p + 1 < sign_bit
    → s ≤ 1000
    → p * s < sign_bit
    → page_from_request (format_int (p + 1)) (format_int s) ≡ record { limit = s; skip = p * s }
page_from_request-format_int p s hp hs small =
    let ep : page_number (format_int (p + 1)) ≡ p = page_number-format_int p hp in
    let es : page_size (format_int s) ≡ s = page_size-format_int s hs in
    unfold page_from_request page in
    rw (ep, es) (ap (λ k. record { limit = s; skip = k }) (mul_small p s (omega arith)))
