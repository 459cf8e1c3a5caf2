-- ===== src/Schema/Date/Laws.antt =====
-- What Date of schema/types.go reads and writes.
use tfexplorer.Base.{
  ℕ, suc, ◌<◌, ◌≤◌, ◌≡◌, ◌∙◌, refl, sym, ap, true, false, Option, none, some, [], ◌∷◌, ◌++◌, arith,
  length, all, Bool-cases, if◌then◌else◌, inl, inr,
}
use tfexplorer.Base.Text.{Text, is_empty}
use tfexplorer.Base.Int64.{add, sub, modulus}
use tfexplorer.Base.Decimal.{format_int, print}
use tfexplorer.Schema.Date.{
  Time, number, DateEnv, from_unix, to_unix, is_zero_time, marshal_date, is_digit, digits,
  after_digits, match_time, with_clock, find_groups, choose_year, choose, date_of, unix_to_internal,
  unmarshal_date, Clock,
}

-- JSON reads back the number as it was printed, as it does while a float64 can hold it.
pub record IsExact (env : DateEnv) (n : ℕ) : Type 0 where
  pub float : ℕ
  pub read : env.unmarshal (format_int n) ≡ some (number float)
  pub whole : env.int_of_float float ≡ n

add-sub : (s : ℕ) → s < modulus → add (sub s unix_to_internal) unix_to_internal ≡ s
unfolding add sub
add-sub s h = omega arith

-- The number that a date is written as.
abbrev pub written : Time → ℕ
written d = if is_zero_time d then 0 else to_unix d

-- A date that is written as JSON and read again is the same to the second, if its number is read
-- back as it was printed, but for the zero time, which comes back as the start of 1970.
pub unmarshal_date-marshal_date :
    (env : DateEnv) (d : Time)
    → d.sec < modulus
    → IsExact env (written d)
    → unmarshal_date env (marshal_date d)
      ≡ some (record { sec = if is_zero_time d then unix_to_internal else d.sec; nsec = 0 })
unfolding unmarshal_date marshal_date from_unix format_int add print
unmarshal_date-marshal_date env d h exact = elim (Bool-cases (is_zero_time d)) [
  | inl e ↦
      let none_written : written d ≡ 0 = rw e refl in
      let read : env.unmarshal (b'0' ∷ []) ≡ some (number exact.float) =
        rw none_written at exact.read in
      let whole : env.int_of_float exact.float ≡ 0 = exact.whole ∙ none_written in
      rw (e, read, whole) refl
  | inr e ↦
      let as_it_is : written d ≡ to_unix d = rw e refl in
      let read : env.unmarshal (format_int (to_unix d)) ≡ some (number exact.float) =
        rw as_it_is at exact.read in
      let whole : env.int_of_float exact.float ≡ to_unix d = exact.whole ∙ as_it_is in
      rw (e, read, whole, add-sub d.sec h) refl
]

abbrev pub AreDigits : Text → Type 0
AreDigits s = all is_digit s ≡ true

digits-append : (s t : Text) → AreDigits s → digits t ≡ [] → digits (s ++ t) ≡ s
unfolding digits
digits-append [] t h e = e
digits-append (c ∷ s) t h e = ground (arith, digits-append s t)

after_digits-append : (s t : Text) → AreDigits s → after_digits t ≡ t → after_digits (s ++ t) ≡ t
unfolding after_digits
after_digits-append [] t h e = e
after_digits-append (c ∷ s) t h e = ground (arith, after_digits-append s t)

stop-digits : (s : Text) → digits (b'/' ∷ s) ≡ []
unfolding digits
stop-digits s = refl

stop-after : (s : Text) → after_digits (b'/' ∷ s) ≡ b'/' ∷ s
unfolding after_digits
stop-after s = refl

-- Three runs of digits with slashes between, and what dateRe finds.
find_groups-three :
    (a m b t : Text)
    → AreDigits a
    → AreDigits m
    → AreDigits b
    → (2 ≤ length a) × (length a ≤ 4)
    → length m ≡ 2
    → (2 ≤ length b) × (length b ≤ 4)
    → digits t ≡ []
    → after_digits t ≡ t
    → find_groups (a ++ (b'/' ∷ (m ++ (b'/' ∷ (b ++ t))))) ≡ with_clock a m b (match_time t)
unfolding find_groups
find_groups-three a m b t da dm db la lm lb e e' =
    let rest : Text = b'/' ∷ (b ++ t) in
    let middle : Text = b'/' ∷ (m ++ rest) in
    let fa : digits (a ++ middle) ≡ a = digits-append a middle da (stop-digits (m ++ rest)) in
    let ta : after_digits (a ++ middle) ≡ middle =
      after_digits-append a middle da (stop-after (m ++ rest)) in
    let fm : digits (m ++ rest) ≡ m = digits-append m rest dm (stop-digits (b ++ t)) in
    let tm : after_digits (m ++ rest) ≡ rest =
      after_digits-append m rest dm (stop-after (b ++ t)) in
    let fb : digits (b ++ t) ≡ b = digits-append b t db e in
    let tb : after_digits (b ++ t) ≡ t = after_digits-append b t db e' in
    rw (fa, ta, tm, fm, fb, tb) (ground arith)

is_empty-false : (s : Text) (n : ℕ) → length s ≡ suc n → is_empty s ≡ false
is_empty-false [] n h = absurd (omega arith)
is_empty-false (c ∷ s) n h = refl

choose-either :
    (now : ℕ) (y m d : Text) (c : Option Clock)
    → length y ≡ 4
    → length d ≡ 2
    → choose now (with_clock y m d c) ≡ choose now (with_clock d m y c)
unfolding choose_year date_of
choose-either now y m d none ly ld = refl
choose-either now y m d (some (hour, ampm, min)) ly ld =
    rw (is_empty-false y 3 ly, is_empty-false d 1 ld) (ground arith)

-- A date may be written with the year of four digits first and the day last or the other way round,
-- with the same time of day behind it, and it is read as the same time, or refused, both ways.
pub find_groups-either_order :
    (now : ℕ) (y m d t : Text)
    → AreDigits y
    → AreDigits m
    → AreDigits d
    → length y ≡ 4
    → length m ≡ 2
    → length d ≡ 2
    → digits t ≡ []
    → after_digits t ≡ t
    → choose now (find_groups (y ++ (b'/' ∷ (m ++ (b'/' ∷ (d ++ t))))))
      ≡ choose now (find_groups (d ++ (b'/' ∷ (m ++ (b'/' ∷ (y ++ t))))))
find_groups-either_order now y m d t dy dm dd ly lm ld e e' =
    ap (choose now) (find_groups-three y m d t dy dm dd (omega arith) lm (omega arith) e e')
    ∙ choose-either now y m d (match_time t) ly ld
    ∙ sym (ap (choose now) (find_groups-three d m y t dd dm dy (omega arith) lm (omega arith) e e'))
