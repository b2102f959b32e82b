-- ===== src/Types/Timestamp/Months.antt =====
-- The loop over months of goods_db/src/type/value.cpp, and the table of the days before each month.
use goods_db.Prelude.{
  ℕ, zero, suc, ◌+◌, ◌-◌, ◌≤◌, ◌<◌, ◌≡◌, refl, arith, ltb, ◌&&◌, if◌then◌else◌, Bool-cases, inl,
  inr, get_or, subst,
}
use goods_db.Types.Timestamp.{is_leap, days_in_year, days_before_month, month_length, find_month}

-- The days of the year before a month, as `ParseTimestamp` counts them.
abbrev pub days_before : ℕ → ℕ → ℕ
days_before year month =
    get_or days_before_month (month - 1) 0 + (if ltb 2 month && is_leap year then 1 else 0)

month_length-days_before :
    (year month : ℕ)
    → 1 ≤ month
    → month < 12
    → days_before year (month + 1) ≡ days_before year month + month_length year month
unfolding month_length
month_length-days_before year zero a b = absurd (omega arith)
month_length-days_before year (suc zero) a b = ground arith
month_length-days_before year (suc (suc zero)) a b = ground arith
month_length-days_before year (suc (suc (suc zero))) a b = ground arith
month_length-days_before year (suc (suc (suc (suc zero)))) a b = ground arith
month_length-days_before year (suc (suc (suc (suc (suc zero))))) a b = ground arith
month_length-days_before year (suc (suc (suc (suc (suc (suc zero)))))) a b = ground arith
month_length-days_before year (suc (suc (suc (suc (suc (suc (suc zero))))))) a b = ground arith
month_length-days_before year (suc (suc (suc (suc (suc (suc (suc (suc zero)))))))) a b =
    ground arith
month_length-days_before year (suc (suc (suc (suc (suc (suc (suc (suc (suc zero))))))))) a b =
    ground arith
month_length-days_before year (suc (suc (suc (suc (suc (suc (suc (suc (suc (suc zero)))))))))) a b =
    ground arith
month_length-days_before year
      (suc (suc (suc (suc (suc (suc (suc (suc (suc (suc (suc month))))))))))) a b =
    ground arith

december : (year : ℕ) → days_before year 12 + month_length year 12 ≡ days_in_year year
unfolding month_length days_in_year
december year = ground arith

-- What the loop finds: a month of the year, and the day in it.
pub record FoundMonth (year month d : ℕ) (r : ℕ × ℕ) : Type 0 where
  pub from : month ≤ r.0
  pub to : r.0 ≤ 12
  pub within : r.1 < month_length year r.0
  pub counted : days_before year r.0 + r.1 ≡ days_before year month + d

-- A day of the year stands in one of its months, so that the loop ends by its `break`.
pub find_month-FoundMonth :
    (n year month d : ℕ)
    → 1 ≤ month
    → month ≤ 12
    → month + n ≡ 13
    → days_before year month + d < days_in_year year
    → FoundMonth year month d (find_month n year month d)
unfolding find_month
find_month-FoundMonth zero year month d from to e h = absurd (omega arith)
find_month-FoundMonth (suc n) year month d from to e h =
    elim (Bool-cases (ltb d (month_length year month))) [
      | inl here ↦
          rw here
            (record { from = omega arith; to = to; within = ground (arith, here); counted = refl })
      | inr later ↦
          let full : month_length year month ≤ d = ground (arith, later) in
          elim (Bool-cases (ltb month 12)) [
            | inl more ↦
                let step = month_length-days_before year month from (ground arith) in
                let f =
                  find_month-FoundMonth n year (month + 1) (d - month_length year month)
                    (omega arith) (ground (arith, more)) (omega arith)
                    (omega (arith, full, step, h)) in
                rw later (record {
                  from = omega (arith, f.from);
                  to = f.to;
                  within = f.within;
                  counted = omega (arith, f.counted, full, step);
                })
            | inr last ↦
                let e' : 12 ≡ month = ground (arith, last) in
                absurd (
                  omega (
                    arith,
                    full,
                    h,
                    subst (λ k. days_before year k + month_length year k ≡ days_in_year year) e'
                        (december year),
                  ))
          ]
    ]
