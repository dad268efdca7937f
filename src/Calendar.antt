-- ===== src/Calendar.antt =====
-- Dates as column texts: `ToDateString` and `FromDateString` of src/db/DBManager.cpp, with the
-- `std::format` and `std::chrono::from_stream` behaviour that they use.
pub mod RoundTrip
use recipes_core.Prelude.{
  ℕ, zero, suc, ◌+◌, ◌-◌, ◌*◌, ◌/◌, ◌%◌, Text, text, Bool, ◌&&◌, ◌||◌, not, Option, none, some, [],
  ◌∷◌, ◌++◌, leb, ◌==◌, if◌then◌else◌, ◌>>=◌, ◌≡◌, refl,
}
use recipes_core.Kitchen.{SysDays}

-- The last digits of a number, the leading ones first: the width of `{:04d}` and `{:02d}`, which is
-- all of the number for years below 10000, months and days.
unfoldable pub padded : ℕ → ℕ → Text
padded zero n = []
padded (suc width) n = padded width (n / 10) ++ (b'0' + n % 10) ∷ []

-- std::format("{:04d}-{:02d}-{:02d}", …)
unfoldable pub to_date_string : SysDays → Text
unfolding padded
to_date_string date = padded 4 date.year ++ b'-' ∷ (padded 2 date.month ++ b'-' ∷ padded 2 date.day)

abbrev pub is_digit : ℕ → Bool
is_digit c = leb b'0' c && leb c b'9'

-- A decimal field of at most `width` digits: its value, how many digits there were, and the rest.
unfoldable pub read_field : ℕ → ℕ → ℕ → Text → ℕ × ℕ × Text
read_field zero count acc s = (acc, count, s)
read_field (suc width) count acc [] = (acc, count, [])
read_field (suc width) count acc (c ∷ s) =
    let rest = read_field width (count + 1) (acc * 10 + (c - b'0')) s in
    if is_digit c then rest else (acc, count, c ∷ s)

abbrev pub divides_year : ℕ → ℕ → Bool
divides_year k year = (year % k) == 0

-- year_month_day::ok
unfoldable pub days_in : ℕ → ℕ → ℕ
days_in year month =
    if month == 2
    then (if (divides_year 4 year && not (divides_year 100 year)) || divides_year 400 year
        then 29
        else 28)
    else if (month == 4) || (month == 6) || (month == 9) || (month == 11)
    then 30
    else 31

unfoldable pub is_ok : SysDays → Bool
unfolding days_in
is_ok date =
    leb 1 date.month
    && leb date.month 12
    && leb 1 date.day
    && leb date.day (days_in date.year date.month)

-- `sys_days` is constructed at the epoch, and stays there if the text does not parse.
abbrev pub epoch : SysDays
epoch = record { year = 1970; month = 1; day = 1 }

abbrev dash : Text → Option Text
dash [] = none
dash (c ∷ s) = if c == b'-' then some s else none

abbrev pub field : ℕ → Text → Option (ℕ × Text)
field width s =
    let (value, count, rest) = read_field width 0 0 s in
    if count == 0 then none else some (value, rest)

-- `%Y-%m-%d`, on texts whose fields have no sign.
unfoldable pub parse_date : Text → Option SysDays
unfolding read_field is_ok
parse_date s = do
  (year, s1) ← field 4 s
  s2 ← dash s1
  (month, s3) ← field 2 s2
  s4 ← dash s3
  (day, s5) ← field 2 s4
  let date : SysDays = record { year = year; month = month; day = day }
  if is_ok date then some date else none

unfoldable pub from_date_string : Text → SysDays
unfolding parse_date
from_date_string date_str = elim (parse_date date_str) [ none ↦ epoch | some date ↦ date ]

date_examples :
    (to_date_string (record { year = 2024; month = 2; day = 29 }) ≡ text "2024-02-29")
    × (from_date_string (text "2024-02-29") ≡ record { year = 2024; month = 2; day = 29 })
    × (from_date_string (text "2023-02-29") ≡ epoch)
unfolding to_date_string from_date_string
date_examples = (refl, refl, refl)
