-- ===== src/Types/Timestamp/Years.antt =====
-- The loops over years of goods_db/src/type/value.cpp.
use goods_db.Prelude.{
  ℕ, zero, suc, ◌+◌, ◌-◌, ◌*◌, ◌^◌, ◌≤◌, ◌<◌, ◌≡◌, refl, some, arith, ltb, leb, false, Bool-cases,
  inl, inr, ◌∙◌, ap,
}
use goods_db.Types.Timestamp.{days_in_year, days_of_years, find_year}

pub days_in_year_bounds : (y : ℕ) → (365 ≤ days_in_year y) × (days_in_year y ≤ 366)
unfolding days_in_year
days_in_year_bounds y = ground arith

-- What the loop finds from year `y` and day `d` on: `n` years later, the day `r` of that year.
pub record FoundYear (fuel y d : ℕ) : Type 0 where
  pub n : ℕ
  pub r : ℕ
  pub found : find_year fuel y d ≡ some (y + n, r)
  pub within : r < days_in_year (y + n)
  pub counted : (acc : ℕ) → days_of_years n y acc + r ≡ acc + d

-- Each round takes a year, so that more fuel than days is enough, and 2^55 seconds end before the
-- year overflows.
pub find_year-FoundYear :
    (fuel y d : ℕ) → d < fuel → y * 365 + d < 2 ^ 31 * 365 → FoundYear fuel y d
unfolding find_year days_of_years
find_year-FoundYear zero y d h k = absurd (omega arith)
find_year-FoundYear (suc fuel) y d h k = elim (Bool-cases (ltb d (days_in_year y))) [
  | inl here ↦
      let e : y + 0 ≡ y = omega arith in
      record {
        n = 0;
        r = d;
        found = rw here (ap (λ k. some (k, d)) (let e' : y ≡ y + 0 = omega arith in e'));
        within = rw e (ground (arith, here));
        counted = λ acc. refl;
      }
  | inr later ↦
      let full : days_in_year y ≤ d = ground (arith, later) in
      let early : leb (2 ^ 31 - 1) y ≡ false = ground (arith, full, days_in_year_bounds y) in
      let f =
        find_year-FoundYear fuel (y + 1) (d - days_in_year y)
          (omega (arith, days_in_year_bounds y, full))
          (omega (arith, days_in_year_bounds y, full)) in
      let e : y + 1 + f.n ≡ y + suc f.n = omega arith in
      record {
        n = suc f.n;
        r = f.r;
        found = rw (later, early) (f.found ∙ ap (λ k. some (k, f.r)) e);
        within = rw (← e) f.within;
        counted = λ acc. omega (arith, full, f.counted (acc + days_in_year y));
      }
]
