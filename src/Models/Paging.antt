-- ===== src/Models/Paging.antt =====
-- models/utils.go: the page of a listing that a request asks for.
pub mod Bounds
use tfexplorer.Base.{
  ℕ, zero, suc, ◌+◌, ◌-◌, ◌*◌, Bool, ◌&&◌, not, Option, none, some, List, [], ◌∷◌, ltb, leb, ◌==◌,
  if◌then◌else◌,
}
use tfexplorer.Base.Int64.{modulus, sign_bit, is_neg, sub, mul, slt}
use tfexplorer.Base.Text.{Text, is_empty}
use tfexplorer.Base.Decimal.{parse_int}

-- strconv.ParseUint(s, 10, 64) on a text that is not empty: a number above 2 ^ 64 - 1 ends the scan
-- with that bound and a range error, another character with a syntax error, which is `none`.
scan_digits : ℕ → Text → Option ℕ
scan_digits n [] = some n
scan_digits n (c ∷ s) =
    let rest = scan_digits (n * 10 + (c - b'0')) s in
    if not (leb b'0' c && leb c b'9')
    then none
    else if leb modulus (n * 10 + (c - b'0'))
    then some (modulus - 1)
    else rest

-- The value of strconv.ParseInt on a number with its sign taken off: the nearest int64.
abbrev pub clamp_positive : Option ℕ → ℕ
clamp_positive none = 0
clamp_positive (some n) = if ltb n sign_bit then n else sign_bit - 1

abbrev pub clamp_negative : Option ℕ → ℕ
clamp_negative none = 0
clamp_negative (some n) = if ltb n sign_bit then sub 0 n else sign_bit

scan_unsigned : Text → Option ℕ
unfolding scan_digits
scan_unsigned s = if is_empty s then none else scan_digits 0 s

-- The first result of strconv.ParseInt(s, 10, 64), whose error the callers here ignore.
unfoldable pub parse_value : Text → ℕ
unfolding scan_unsigned
parse_value [] = 0
parse_value (c ∷ s) =
    if c == b'-'
    then clamp_negative (scan_unsigned s)
    else if c == b'+'
    then clamp_positive (scan_unsigned s)
    else clamp_positive (scan_unsigned (c ∷ s))

-- The options of a query: the sort by ID is the same for all.
pub record Pager : Type 0 where
  pub limit : ℕ
  pub skip : ℕ

abbrev pub default_page_size : ℕ
default_page_size = 100

-- Page with a size.
unfoldable pub page : ℕ → ℕ → Pager
page p size = record { limit = size; skip = mul p size }

-- The page number, which users count from 1.
unfoldable pub page_number : Text → ℕ
page_number p =
    if is_empty p then 0 else if slt (sub (parse_value p) 1) 0 then 0 else sub (parse_value p) 1

unfoldable pub page_size : Text → ℕ
page_size s =
    let size = if is_empty s then default_page_size else parse_value s in
    if slt 1000 size then 1000 else size

-- PageFromRequest on the URL parameters "page" and "size".
unfoldable pub page_from_request : Text → Text → Pager
unfolding page page_number page_size
page_from_request p s = page (page_number p) (page_size s)

-- QueryInt on the value of a query parameter; `none` is its error.
unfoldable pub query_int : Text → Option ℕ
query_int s = if is_empty s then some 0 else parse_int s
