-- ===== src/Schema/Date.antt =====
-- schema/types.go: Date in JSON. A time is what Go keeps of it: the seconds since the zero time, an
-- int64, and the nanoseconds.
pub mod Laws
use tfexplorer.Base.{
  ℕ, zero, suc, ◌+◌, ◌-◌, ◌*◌, ◌/◌, ◌%◌, Bool, true, false, ◌&&◌, ◌||◌, not, Option, none, some,
  List, [], ◌∷◌, ◌++◌, ◌==◌, ltb, leb, length, if◌then◌else◌,
}
use tfexplorer.Base.Text.{Text, is_empty}
use tfexplorer.Base.Int64.{add, sub}
use tfexplorer.Base.Decimal.{format_int}

pub record Time : Type 0 where
  pub sec : ℕ
  pub nsec : ℕ

-- The seconds from the zero time, the start of the year 1, to 1970.
abbrev pub unix_to_internal : ℕ
unix_to_internal = 62_135_596_800

-- A JSON text as json.Unmarshal reads it into an interface{}: a number is a float64.
pub data JsonValue : Type 0 where
  number : ℕ → JsonValue
  text : Text → JsonValue
  other : JsonValue

-- json.Unmarshal, the conversion of a float64 to int64, and the current year.
pub record DateEnv : Type 0 where
  pub unmarshal : Text → Option JsonValue
  pub int_of_float : ℕ → ℕ
  pub this_year : ℕ

-- time.Unix(v, 0)
unfoldable pub from_unix : ℕ → Time
from_unix v = record { sec = add v unix_to_internal; nsec = 0 }

-- t.Unix()
unfoldable pub to_unix : Time → ℕ
to_unix t = sub t.sec unix_to_internal

abbrev pub is_zero_time : Time → Bool
is_zero_time t = t.sec == 0 && t.nsec == 0

-- Date.MarshalJSON
unfoldable pub marshal_date : Time → Text
unfolding to_unix
marshal_date d = if is_zero_time d then b'0' ∷ [] else format_int (to_unix d)

-- The groups that dateRe finds in a text; a group that is not there is empty.
pub record Groups : Type 0 where
  pub first : Text
  pub month : Text
  pub last : Text
  pub hour : Text
  pub ampm : Text
  pub min : Text

abbrev pub is_digit : ℕ → Bool
is_digit c = leb b'0' c && leb c b'9'

-- The digits in front of a text, and the rest.
unfoldable pub digits : Text → Text
digits [] = []
digits (c ∷ s) = if is_digit c then c ∷ digits s else []

unfoldable pub after_digits : Text → Text
after_digits [] = []
after_digits (c ∷ s) = if is_digit c then after_digits s else c ∷ s

abbrev between : ℕ → ℕ → Text → Bool
between lo hi s = leb lo (length s) && leb (length s) hi

abbrev is_space : ℕ → Bool
is_space c = c == 9 || c == 10 || c == 12 || c == 13 || c == 32

unfoldable pub skip_spaces : Text → Text
skip_spaces [] = []
skip_spaces (c ∷ s) = if is_space c then skip_spaces s else c ∷ s

-- (am|pm)? and the rest.
abbrev ampm_of : Text → Text × Text
ampm_of (c ∷ d ∷ s) =
    if (c == b'a' || c == b'p') && d == b'm' then (c ∷ d ∷ [], s) else ([], c ∷ d ∷ s)
ampm_of s = ([], s)

abbrev after_colon : Text → Option Text
after_colon [] = none
after_colon (c ∷ s) = if c == b':' then some s else none

-- The hour, "am" or "pm", and the minutes.
abbrev pub Clock : Type 0
Clock = Text × Text × Text

abbrev minutes_of : Text → Text → Option Text → Option Clock
minutes_of hour ampm none = none
minutes_of hour ampm (some s) =
    if between 1 2 (digits s) && is_empty (after_digits s)
    then some (hour, ampm, digits s)
    else none

abbrev hour_of : Text → Option Clock
hour_of s =
    if between 1 2 (digits s)
    then minutes_of (digits s) (ampm_of (after_digits s)).0
        (after_colon (ampm_of (after_digits s)).1)
    else none

-- (?:\s+(\d{1,2})(am|pm)?:(\d{1,2}))?$
unfoldable pub match_time : Text → Option Clock
unfolding digits after_digits skip_spaces
match_time [] = some ([], [], [])
match_time (c ∷ s) = if is_space c then hour_of (skip_spaces s) else none

abbrev pub with_clock : Text → Text → Text → Option Clock → Option Groups
with_clock first month last none = none
with_clock first month last (some (hour, ampm, min)) =
    some (record { first = first; month = month; last = last; hour = hour; ampm = ampm; min = min })

-- (\d{2,4}) and what follows, after the first group and the month.
abbrev pub match_last : Text → Text → Text → Option Groups
match_last first month s =
    if between 2 4 (digits s)
    then with_clock first month (digits s) (match_time (after_digits s))
    else none

-- A text whose first two runs of digits are followed by a slash, or only the first.
abbrev match_second : Text → Text → Text → Option Groups
match_second a s [] = if length a == 2 then match_last [] a s else none
match_second a s (c ∷ rest) =
    if c == b'/'
    then (if between 2 4 a && length (digits s) == 2 then match_last a (digits s) rest else none)
    else if length a == 2
    then match_last [] a s
    else none

abbrev match_first : Text → Text → Option Groups
match_first a [] = none
match_first a (c ∷ s) = if c == b'/' then match_second a s (after_digits s) else none

-- dateRe.FindStringSubmatch
unfoldable pub find_groups : Text → Option Groups
unfolding digits after_digits match_time
find_groups s = match_first (digits s) (after_digits s)

-- strconv.Atoi on digits
unfoldable pub atoi : ℕ → Text → ℕ
atoi n [] = n
atoi n (c ∷ s) = atoi (n * 10 + (c - b'0')) s

abbrev is_leap : ℕ → Bool
is_leap y = y % 4 == 0 && (not (y % 100 == 0) || y % 400 == 0)

-- The days of a year that are not a leap year's before a month, which counts from 0.
abbrev days_before : ℕ → ℕ
days_before m =
    if m == 0
    then 0
    else if m == 1
    then 31
    else if m == 2
    then 59
    else if m == 3
    then 90
    else if m == 4
    then 120
    else if m == 5
    then 151
    else if m == 6
    then 181
    else if m == 7
    then 212
    else if m == 8
    then 243
    else if m == 9
    then 273
    else if m == 10
    then 304
    else 334

-- The days from the zero time to the last of the month before, in a year and a month from 0 up.
abbrev days_until : ℕ → ℕ → ℕ
days_until y m =
    365 * (y - 1)
    + (y - 1) / 4
    + (y - 1) / 400
    - (y - 1) / 100
    + days_before m
    + (if is_leap y && leb 2 m then 1 else 0)

-- time.Date(year, month, day, hour, min, 0, 0, time.UTC) in seconds, for a year from 100 up; months
-- past the twelfth are of later years, and month 0 is the last of the year before.
unfoldable pub date_seconds : ℕ → ℕ → ℕ → ℕ → ℕ → ℕ
date_seconds y month d h m =
    (days_until (y + (month + 11) / 12 - 1) ((month + 11) % 12) + d - 1) * 86400 + h * 3600 + m * 60

abbrev pub full_year : ℕ → ℕ
full_year y = if ltb y 100 then y + 2000 else y

abbrev pub is_pm : Text → Bool
is_pm [] = false
is_pm (c ∷ s) = c == b'p'

-- The part of Date.UnmarshalJSON from the year and the day on.
unfoldable pub date_of : Groups → ℕ → ℕ → Time
unfolding date_seconds atoi
date_of g year day = record {
  sec =
      date_seconds (full_year year) (atoi 0 g.month) day
        (if is_pm g.ampm then atoi 0 g.hour + 12 else atoi 0 g.hour) (atoi 0 g.min);
  nsec = 0;
}

-- Which of the groups are the year and the day.
unfoldable pub choose_year : ℕ → Groups → Option Time
unfolding date_of atoi
choose_year this_year g =
    if is_empty g.first
    then some (date_of g this_year (atoi 0 g.last))
    else if length g.first == 4 && length g.last == 4
    then none
    else if length g.last == 4
    then some (date_of g (atoi 0 g.last) (atoi 0 g.first))
    else some (date_of g (atoi 0 g.first) (atoi 0 g.last))

abbrev pub choose : ℕ → Option Groups → Option Time
choose this_year none = none
choose this_year (some g) = choose_year this_year g

abbrev pub zero_time : Time
zero_time = record { sec = 0; nsec = 0 }

abbrev date_of_value : DateEnv → Option JsonValue → Option Time
date_of_value env none = none
date_of_value env (some (number v)) = some (from_unix (env.int_of_float v))
date_of_value env (some (text s)) =
    if is_empty s then some zero_time else choose env.this_year (find_groups s)
date_of_value env (some other) = none

-- Date.UnmarshalJSON; `none` is its error.
unfoldable pub unmarshal_date : DateEnv → Text → Option Time
unfolding from_unix find_groups choose_year
unmarshal_date env bytes = date_of_value env (env.unmarshal bytes)
