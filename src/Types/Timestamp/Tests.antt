-- ===== src/Types/Timestamp/Tests.antt =====
-- Runs of the calendar on the leap day of 2000.
use goods_db.Prelude.{◌≡◌, refl, some, ◌-◌, ◌^◌, arith}
use goods_db.Types.Timestamp.{
  Moment, is_leap, days_in_year, days_of_years, parse_timestamp, find_year, month_length,
  find_month, format_timestamp,
}
use goods_db.Types.Timestamp.RoundTrip.{IsMoment, parse_timestamp-format_timestamp}

abbrev leap_day : Moment
leap_day = record { year = 2000; month = 2; day = 29; hour = 12; minute = 9; second = 14 }

format_timestamp_runs : format_timestamp 951826154 ≡ some leap_day
unfolding format_timestamp is_leap days_in_year find_year month_length find_month
format_timestamp_runs = refl

parse_timestamp_runs : parse_timestamp leap_day ≡ some 951826154
unfolding parse_timestamp is_leap days_in_year days_of_years
parse_timestamp_runs = refl

-- The second one is -1.
parse_timestamp-format_timestamp_example :
    ((m : Moment) × (format_timestamp 951826154 ≡ some m)
      × IsMoment m
      × (parse_timestamp m ≡ some 951826154))
    × (format_timestamp (2 ^ 64 - 1) ≡ format_timestamp 0)
parse_timestamp-format_timestamp_example =
    parse_timestamp-format_timestamp 951826154 (2 ^ 64 - 1) (omega arith) (omega arith)
