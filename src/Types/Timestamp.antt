-- ===== src/Types/Timestamp.antt =====
-- The calendar of goods_db/src/type/value.cpp: seconds since 1970, an `int64_t` as its 64 bits, and
-- the fields of a date, an `int` each. The text that `sscanf` and `snprintf` make of the fields is not
-- modelled.
use goods_db.Prelude.{
  ℕ, zero, suc, ◌+◌, ◌-◌, ◌*◌, ◌/◌, ◌%◌, ◌^◌, Bool, true, false, not, List, [], ◌∷◌, Option, none,
  some, ltb, leb, ◌==◌, if◌then◌else◌, ◌&&◌, ◌||◌, get_or,
}
pub mod Years
pub mod Months
pub mod RoundTrip
pub mod Tests

-- The variables that are parsed and printed.
pub record Moment : Type 0 where
  pub year : ℕ
  pub month : ℕ
  pub day : ℕ
  pub hour : ℕ
  pub minute : ℕ
  pub second : ℕ

unfoldable pub is_leap : ℕ → Bool
is_leap y = (y % 4 == 0 && not (y % 100 == 0)) || y % 400 == 0

unfoldable pub days_in_year : ℕ → ℕ
days_in_year y = if is_leap y then 366 else 365

-- `for (int y = 1970; y < year; y++)`: `n` rounds from `y` on.
unfoldable pub days_of_years : ℕ → ℕ → ℕ → ℕ
days_of_years zero y days = days
days_of_years (suc n) y days = days_of_years n (y + 1) (days + days_in_year y)

abbrev pub days_before_month : List ℕ
days_before_month = 0 ∷ 31 ∷ 59 ∷ 90 ∷ 120 ∷ 151 ∷ 181 ∷ 212 ∷ 243 ∷ 273 ∷ 304 ∷ 334 ∷ []

-- `ParseTimestamp` after `sscanf`, of fields that are not negative. A month that is not in the table
-- reads behind it: `none`.
unfoldable pub parse_timestamp : Moment → Option ℕ
parse_timestamp m =
    let leap_day : ℕ = if ltb 2 m.month && is_leap m.year then 1 else 0 in
    let days =
      days_of_years (m.year - 1970) 1970 0
      + get_or days_before_month (m.month - 1) 0
      + leap_day
      + m.day in
    if ltb m.year 1970
    then some 0
    else if m.month == 0 || ltb 12 m.month
    then none
    else some
        ((days * 86400 + m.hour * 3600 + m.minute * 60 + m.second + (2 ^ 64 - 86400)) % 2 ^ 64)

-- The loop over years of `FormatTimestamp` on fuel: the year, and the day in it. `year++` on the
-- largest `int` overflows: `none`.
unfoldable pub find_year : ℕ → ℕ → ℕ → Option (ℕ × ℕ)
find_year zero year days = none
find_year (suc fuel) year days =
    let rest = find_year fuel (year + 1) (days - days_in_year year) in
    if ltb days (days_in_year year)
    then some (year, days)
    else if leb (2 ^ 31 - 1) year
    then none
    else rest

-- `mlen`
unfoldable pub month_length : ℕ → ℕ → ℕ
month_length year month =
    if month == 2
    then (if is_leap year then 29 else 28)
    else if month == 4 || month == 6 || month == 9 || month == 11
    then 30
    else 31

-- The loop over months, with the rounds that `month <= 12` leaves.
unfoldable pub find_month : ℕ → ℕ → ℕ → ℕ → ℕ × ℕ
find_month zero year month days = (month, days)
find_month (suc n) year month days =
    let rest = find_month n year (month + 1) (days - month_length year month) in
    if ltb days (month_length year month) then (month, days) else rest

-- `FormatTimestamp` before `snprintf`. An epoch that is 0 or negative is printed as 0.
unfoldable pub format_timestamp : ℕ → Option Moment
format_timestamp epoch =
    let days = epoch / 60 / 60 / 24 in
    if epoch == 0 || leb (2 ^ 63) epoch
    then some (record { year = 1970; month = 1; day = 1; hour = 0; minute = 0; second = 0 })
    else elim (find_year (days + 1) 1970 days) [
      | none ↦ none
      | some (year, rest) ↦ some (record {
        year = year;
        month = (find_month 12 year 1 rest).0;
        day = (find_month 12 year 1 rest).1 + 1;
        hour = epoch / 60 / 60 % 24;
        minute = epoch / 60 % 60;
        second = epoch % 60;
      })
    ]
