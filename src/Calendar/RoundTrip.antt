-- ===== src/Calendar/RoundTrip.antt =====
-- Dates written to a column by src/db/DBManager.cpp and read back.
use recipes_core.Prelude.{
  none, ℕ, suc, ◌+◌, ◌-◌, ◌*◌, ◌/◌, ◌%◌, ◌<◌, ◌≡◌, ap, refl, Text, [], ◌≤◌, true, ◌∷◌, ◌++◌, some,
  arith,
}
use recipes_core.Kitchen.{SysDays}
use recipes_core.Calendar.{
  epoch, padded, to_date_string, is_digit, read_field, is_ok, parse_date, from_date_string, field,
  days_in,
}

is_digit_lem : (d : ℕ) → d < 10 → is_digit (b'0' + d) ≡ true
is_digit_lem d h = ground arith

value_lem : (acc d : ℕ) → acc * 10 + (b'0' + d - b'0') ≡ acc * 10 + d
value_lem acc d = omega arith

-- One digit of a field.
read_digit :
    (width count acc d : ℕ) (s : Text)
    → d < 10
    → read_field (suc width) count acc ((b'0' + d) ∷ s)
      ≡ read_field width (count + 1) (acc * 10 + d) s
unfolding read_field
read_digit width count acc d s h = rw (is_digit_lem d h, value_lem acc d) refl

two_digits : (n : ℕ) → n < 100 → (0 * 10 + n / 10 % 10) * 10 + n % 10 ≡ n
two_digits n h = omega arith

field_two : (n : ℕ) (s : Text) → n < 100 → field 2 (padded 2 n ++ s) ≡ some (n, s)
unfolding padded read_field
field_two n s h =
    rw
      (
        read_digit 1 0 0 (n / 10 % 10) ((b'0' + n % 10) ∷ s) (omega arith),
        read_digit 0 1 (0 * 10 + n / 10 % 10) (n % 10) s (omega arith),
        two_digits n h,
      )
      refl

four_digits :
    (n : ℕ)
    → n < 10000
    → (((0 * 10 + n / 10 / 10 / 10 % 10) * 10 + n / 10 / 10 % 10) * 10 + n / 10 % 10) * 10 + n % 10
      ≡ n
four_digits n h = omega arith

field_four : (n : ℕ) (s : Text) → n < 10000 → field 4 (padded 4 n ++ s) ≡ some (n, s)
unfolding padded read_field
field_four n s h =
    let a = n / 10 / 10 / 10 % 10 in
    let b = n / 10 / 10 % 10 in
    let c = n / 10 % 10 in
    rw
      (
        read_digit 3 0 0 a ((b'0' + b) ∷ (b'0' + c) ∷ (b'0' + n % 10) ∷ s) (omega arith),
        read_digit 2 1 (0 * 10 + a) b ((b'0' + c) ∷ (b'0' + n % 10) ∷ s) (omega arith),
        read_digit 1 2 ((0 * 10 + a) * 10 + b) c ((b'0' + n % 10) ∷ s) (omega arith),
        read_digit 0 3 (((0 * 10 + a) * 10 + b) * 10 + c) (n % 10) s (omega arith),
        four_digits n h,
      )
      refl

field_last : (n : ℕ) → n < 100 → field 2 (padded 2 n) ≡ some (n, [])
unfolding padded
field_last n h = field_two n [] h

days_bound : (year month : ℕ) → days_in year month ≤ 31
unfolding days_in
days_bound year month = ground arith

parse_printed :
    (date : SysDays)
    → is_ok date ≡ true
    → date.year < 10000
    → date.month < 100
    → date.day < 100
    → parse_date (to_date_string date) ≡ some date
unfolding parse_date to_date_string
parse_printed date ok y m d =
    rw
      (
        field_four date.year (b'-' ∷ (padded 2 date.month ++ b'-' ∷ padded 2 date.day)) y,
        field_two date.month (b'-' ∷ padded 2 date.day) m,
        field_last date.day d,
        ok,
      )
      refl

month_bound : (date : SysDays) → is_ok date ≡ true → date.month < 100
unfolding is_ok
month_bound date ok = ground arith

day_bound : (date : SysDays) → is_ok date ≡ true → date.day < 100
unfolding is_ok
day_bound date ok = let bound = days_bound date.year date.month in ground arith

-- A valid date of the years 0 to 9999 that is written to a column is read back as it was.
pub from_date_string-to_date_string :
    (date : SysDays)
    → is_ok date ≡ true
    → date.year < 10000
    → from_date_string (to_date_string date) ≡ date
unfolding from_date_string
from_date_string-to_date_string date ok y =
    ap (λ parsed. elim parsed [ none ↦ epoch | some read ↦ read ])
      (parse_printed date ok y (month_bound date ok) (day_bound date ok))
