-- ===== src/Examples/Dates.antt =====
-- Dates, with a JSON reader for the texts that are read here.
use tfexplorer.Base.{ℕ, ◌≡◌, refl, Option, none, some, arith}
use tfexplorer.Base.Text.{codes}
use tfexplorer.Base.Int64.{sub}
use tfexplorer.Base.Decimal.{format_int, print, parse_int}
use tfexplorer.Schema.Date.{
  Time, JsonValue, number, DateEnv, marshal_date, unmarshal_date, to_unix, find_groups, choose,
  choose_year, digits, after_digits,
}
use tfexplorer.Schema.Date.Laws.{unmarshal_date-marshal_date, find_groups-either_order}

-- A number stands for itself.
abbrev number_of : Option ℕ → Option JsonValue
number_of none = none
number_of (some n) = some (number n)

date_env : DateEnv
unfolding parse_int
date_env = record {
  unmarshal = λ s. number_of (parse_int s);
  int_of_float = λ n. n;
  this_year = 2020;
}

-- 2020-01-01 00:00 UTC
abbrev new_year : Time
new_year = record { sec = 63_713_433_600; nsec = 0 }

unmarshal_date-marshal_date_example :
    unmarshal_date date_env (marshal_date new_year) ≡ some new_year
unfolding date_env format_int to_unix sub print
unmarshal_date-marshal_date_example =
    unmarshal_date-marshal_date date_env new_year (omega arith)
      (record { float = 1_577_836_800; read = refl; whole = refl })

find_groups-either_order_example :
    choose 2020 (find_groups (codes "2020/01/02 03:04"))
    ≡ choose 2020 (find_groups (codes "02/01/2020 03:04"))
unfolding digits after_digits
find_groups-either_order_example =
    find_groups-either_order 2020 (codes "2020") (codes "01") (codes "02") (codes " 03:04") refl
      refl refl refl refl refl refl refl

-- Noon, as it is meant, is read as the midnight after it.
noon_is_midnight :
    choose 2020 (find_groups (codes "2020/01/02 12pm:00"))
    ≡ choose 2020 (find_groups (codes "2020/01/03 00:00"))
unfolding find_groups choose_year digits after_digits
noon_is_midnight = refl

new_year_read : choose 2020 (find_groups (codes "01/01")) ≡ some new_year
unfolding find_groups choose_year digits after_digits
new_year_read = refl
