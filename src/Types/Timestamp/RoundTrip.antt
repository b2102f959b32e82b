-- ===== src/Types/Timestamp/RoundTrip.antt =====
-- What `FormatTimestamp` of goods_db/src/type/value.cpp makes of an epoch is a date, which
-- `ParseTimestamp` reads back.
use goods_db.Prelude.{
  ℕ, ◌+◌, ◌-◌, ◌/◌, ◌%◌, ◌^◌, ◌≤◌, ◌<◌, ◌≡◌, false, some, arith, ltb, ◌==◌, ◌||◌, Bool-cases, inl,
  inr, ap, ◌∙◌, subst, sym,
}
use goods_db.Types.Timestamp.{
  Moment, is_leap, days_of_years, parse_timestamp, month_length, find_month, format_timestamp,
}
use goods_db.Types.Timestamp.Years.{FoundYear, find_year-FoundYear}
use goods_db.Types.Timestamp.Months.{days_before, FoundMonth, find_month-FoundMonth}

-- The fields of a date and time of day of the calendar, from 1970 on.
pub record IsMoment (m : Moment) : Type 0 where
  pub year : 1970 ≤ m.year
  pub month : (1 ≤ m.month) × (m.month ≤ 12)
  pub day : (1 ≤ m.day) × (m.day ≤ month_length m.year m.month)
  pub hour : m.hour < 24
  pub minute : m.minute < 60
  pub second : m.second < 60

-- An epoch whose year is an `int`.
module _ (epoch : ℕ) (small : epoch < 2 ^ 55) where
  abbrev days : ℕ
  days = epoch / 60 / 60 / 24

  the_year : FoundYear (days + 1) 1970 days
  the_year = find_year-FoundYear (days + 1) 1970 days (omega arith) (omega (arith, small))

  abbrev year : ℕ
  year = 1970 + the_year.n

  the_month : FoundMonth year 1 the_year.r (find_month 12 year 1 the_year.r)
  unfolding is_leap
  the_month =
      find_month-FoundMonth 12 year 1 the_year.r (omega arith) (omega arith) (omega arith)
        (omega (arith, the_year.within))

  abbrev moment : Moment
  moment = record {
    year = year;
    month = (find_month 12 year 1 the_year.r).0;
    day = (find_month 12 year 1 the_year.r).1 + 1;
    hour = epoch / 60 / 60 % 24;
    minute = epoch / 60 % 60;
    second = epoch % 60;
  }

  format_timestamp-moment : 0 < epoch → format_timestamp epoch ≡ some moment
  unfolding format_timestamp
  format_timestamp-moment h = ground (arith, small)

  moment-IsMoment : IsMoment moment
  moment-IsMoment = record {
    year = omega arith;
    month = (the_month.from, the_month.to);
    day = (omega arith, omega (arith, the_month.within));
    hour = omega arith;
    minute = omega arith;
    second = omega arith;
  }

  parse_timestamp-moment : parse_timestamp moment ≡ some epoch
  unfolding parse_timestamp
  parse_timestamp-moment =
      let from = the_month.from in
      let to = the_month.to in
      let modern : ltb year 1970 ≡ false = ground arith in
      let real : ((find_month 12 year 1 the_year.r).0 == 0
            || ltb 12 (find_month 12 year 1 the_year.r).0)
          ≡ false =
        ground (arith, from, to) in
      let rounds : days_of_years (year - 1970) 1970 0 ≡ days_of_years the_year.n 1970 0 =
        ap (λ k. days_of_years k 1970 0) (let e : year - 1970 ≡ the_year.n = omega arith in e) in
      let months : days_before year (find_month 12 year 1 the_year.r).0
            + (find_month 12 year 1 the_year.r).1
          ≡ the_year.r =
        the_month.counted ∙ omega arith in
      rw (modern, real) (ap some (omega (arith, rounds, the_year.counted 0, months, small)))

-- What holds of the result of `FormatTimestamp`.
abbrev pub Printed : ℕ → Moment → Type 0
Printed epoch m = (format_timestamp epoch ≡ some m) × IsMoment m × (parse_timestamp m ≡ some epoch)

abbrev the_epoch : Moment
the_epoch = record { year = 1970; month = 1; day = 1; hour = 0; minute = 0; second = 0 }

the_epoch-Printed : Printed 0 the_epoch
unfolding format_timestamp parse_timestamp days_of_years is_leap month_length
the_epoch-Printed = ground arith

format_timestamp-negative : (epoch : ℕ) → 2 ^ 63 ≤ epoch → format_timestamp epoch ≡ some the_epoch
unfolding format_timestamp
format_timestamp-negative epoch h = ground arith

-- `FormatTimestamp` of an epoch from 0 to below 2^55 ends and gives the fields of a date of the
-- calendar, which `ParseTimestamp` turns into the epoch again. Every negative epoch is printed as 0.
pub parse_timestamp-format_timestamp :
    (epoch before : ℕ)
    → epoch < 2 ^ 55
    → 2 ^ 63 ≤ before
    → ((m : Moment) × (format_timestamp epoch ≡ some m)
        × IsMoment m
        × (parse_timestamp m ≡ some epoch))
      × (format_timestamp before ≡ format_timestamp 0)
parse_timestamp-format_timestamp epoch before small neg = (
  elim (Bool-cases (epoch == 0)) [
    | inl start ↦
        let e : 0 ≡ epoch = ground arith in
        let (printed, real, parsed) = subst (λ k. Printed k the_epoch) e the_epoch-Printed in
        (the_epoch, printed, real, parsed)
    | inr later ↦ (
      moment epoch small,
      format_timestamp-moment epoch small (ground (arith, later)),
      moment-IsMoment epoch small,
      parse_timestamp-moment epoch small,
    )
  ],
  format_timestamp-negative before neg ∙ sym the_epoch-Printed.0,
)
