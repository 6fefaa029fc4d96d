-- ===== src/Rfc3339/Format/Dates.antt =====
-- The inverse of DaysFromCivil that FormatRFC3339Nano of src/detail/rfc3339.cc has in line, on the
-- days that DaysFromCivil gives for a date.
use protowire_cpp.Common.{
  ℕ, zero, suc, ◌+◌, ◌-◌, ◌*◌, ◌/◌, ◌%◌, ◌≤◌, ◌<◌, ◌≡◌, inl, inr, refl, sym, ap, ◌∙◌, arith, true,
  false, leb, Bool-cases, if◌then◌else◌,
}
use protowire_cpp.Common.Int.{ℤ, pos, negsuc, pos_part, is_neg, quot, sub_ℕ, ◌+ℤ◌, ◌-ℤ◌, ◌*ℤ◌}
use protowire_cpp.Rfc3339.{days_in_month, days_from_civil}
use protowire_cpp.Rfc3339.Format.{Civil, date_in_era, civil_from_days}
use protowire_cpp.Rfc3339.Format.Calendar.{
  day_of_era, InYear, month_from_march, day_of_year, year_in_era, date-Found, date_in_era_lem,
  year_in_era-lt,
}

-- DaysFromCivil, by the era and the day in it.
module _ (m d : ℕ) where
  abbrev days_of : ℤ → ℕ → ℤ
  days_of era year =
      era *ℤ pos 146097 +ℤ pos (day_of_era (year_in_era year m) (day_of_year m d)) -ℤ pos 719468

  days_at :
      (year : ℕ) (y era : ℤ)
      → sub_ℕ year (if leb m 2 then 1 else 0) ≡ y
      → quot (if is_neg y then y -ℤ pos 399 else y) 400 ≡ era
      → pos_part (y -ℤ era *ℤ pos 400) ≡ year_in_era year m
      → days_from_civil year m d ≡ days_of era year
  unfolding days_from_civil day_of_year month_from_march
  days_at year y era e1 e2 e3 = rw (e1, e2, e3) refl

-- The era that the days fall in.
civil_at :
    (days z era : ℤ) (doe : ℕ)
    → days +ℤ pos 719468 ≡ z
    → quot (if is_neg z then z -ℤ pos 146096 else z) 146097 ≡ era
    → pos_part (z -ℤ era *ℤ pos 146097) ≡ doe
    → civil_from_days days ≡ date_in_era era doe
unfolding civil_from_days
civil_at days z era doe e1 e2 e3 = rw (e1, e2, e3) refl

taken_back : (x : ℤ) (k : ℕ) → x -ℤ pos k +ℤ pos k ≡ x
unfolding ◌+ℤ◌ ◌-ℤ◌
taken_back (pos n) k = ground arith
taken_back (negsuc n) k = ground arith

late_sum : (e doe : ℕ) → pos e *ℤ pos 146097 +ℤ pos doe ≡ pos (e * 146097 + doe)
unfolding ◌+ℤ◌ ◌*ℤ◌
late_sum e doe = ground arith

late_era : (e doe : ℕ) → doe < 146097 → quot (pos (e * 146097 + doe)) 146097 ≡ pos e
unfolding quot
late_era e doe h = ground arith

late_doe :
    (e doe : ℕ) → doe < 146097 → pos_part (pos (e * 146097 + doe) -ℤ pos e *ℤ pos 146097) ≡ doe
unfolding ◌-ℤ◌ ◌*ℤ◌
late_doe e doe h = ground arith

first_sum : (doe : ℕ) → doe < 146097 → negsuc 0 *ℤ pos 146097 +ℤ pos doe ≡ negsuc (146096 - doe)
unfolding ◌+ℤ◌ ◌*ℤ◌
first_sum doe h = ground arith

first_era : (n : ℕ) → n < 146097 → quot (negsuc n -ℤ pos 146096) 146097 ≡ negsuc 0
unfolding quot ◌-ℤ◌
first_era n h = ground arith

first_doe :
    (doe : ℕ) → doe < 146097 → pos_part (negsuc (146096 - doe) -ℤ negsuc 0 *ℤ pos 146097) ≡ doe
unfolding ◌-ℤ◌ ◌*ℤ◌
first_doe doe h = ground arith

late_found :
    (e doe : ℕ)
    → doe < 146097
    → civil_from_days (pos e *ℤ pos 146097 +ℤ pos doe -ℤ pos 719468) ≡ date_in_era (pos e) doe
late_found e doe h =
    civil_at (pos e *ℤ pos 146097 +ℤ pos doe -ℤ pos 719468) (pos (e * 146097 + doe)) (pos e) doe
      (taken_back (pos e *ℤ pos 146097 +ℤ pos doe) 719468 ∙ late_sum e doe) (late_era e doe h)
      (late_doe e doe h)

first_found :
    (doe : ℕ)
    → doe < 146097
    → civil_from_days (negsuc 0 *ℤ pos 146097 +ℤ pos doe -ℤ pos 719468) ≡ date_in_era (negsuc 0) doe
first_found doe h =
    civil_at (negsuc 0 *ℤ pos 146097 +ℤ pos doe -ℤ pos 719468) (negsuc (146096 - doe)) (negsuc 0)
      doe (taken_back (negsuc 0 *ℤ pos 146097 +ℤ pos doe) 719468 ∙ first_sum doe h)
      (first_era (146096 - doe) (omega arith)) (first_doe doe h)

doe_bound : (yoe doy : ℕ) → yoe < 400 → InYear yoe doy → day_of_era yoe doy < 146097
doe_bound yoe doy h (inl k) = omega arith
doe_bound yoe doy h (inr (k, c, l)) = omega arith

positive_quot : (n : ℕ) → quot (pos n) 400 ≡ pos (n / 400)
unfolding quot
positive_quot n = ground arith

positive_rest : (n : ℕ) → pos_part (pos n -ℤ pos (n / 400) *ℤ pos 400) ≡ n % 400
unfolding ◌-ℤ◌ ◌*ℤ◌
positive_rest n = ground arith

positive_year : (n : ℕ) → pos (n % 400) +ℤ pos (n / 400) *ℤ pos 400 ≡ pos n
unfolding ◌+ℤ◌ ◌*ℤ◌
positive_year n = ground arith

module _ (year m d : ℕ) (h1 : 1 ≤ m) (h2 : m ≤ 12) (h3 : 1 ≤ d) (h : d ≤ days_in_month year m) where
  abbrev date : Civil
  date = record { year = pos year; month = m; day = d }

  doe : day_of_era (year_in_era year m) (day_of_year m d) < 146097
  doe =
      doe_bound (year_in_era year m) (day_of_year m d) (year_in_era-lt year m)
        (date-Found year m d h1 h2 h3 h).0

  -- A year from 0 on, counted from March.
  later_date :
      (n : ℕ)
      → sub_ℕ year (if leb m 2 then 1 else 0) ≡ pos n
      → year_in_era year m ≡ n % 400
      → civil_from_days (days_from_civil year m d) ≡ date
  later_date n e k =
      let era = pos (n / 400) in
      let found = date-Found year m d h1 h2 h3 h in
      let days = days_at m d year (pos n) era e (positive_quot n) (positive_rest n ∙ sym k) in
      let same = ap (λ x. pos x +ℤ era *ℤ pos 400) k ∙ positive_year n ∙ sym e in
      ap civil_from_days days
      ∙ late_found (n / 400) (day_of_era (year_in_era year m) (day_of_year m d)) doe
      ∙ date_in_era_lem era year m d h1 h2 h3 found same

  -- January and February of the year 0.
  first_date :
      sub_ℕ year (if leb m 2 then 1 else 0) ≡ negsuc 0
      → year_in_era year m ≡ 399
      → civil_from_days (days_from_civil year m d) ≡ date
  unfolding quot ◌+ℤ◌ ◌-ℤ◌ ◌*ℤ◌
  first_date e k =
      let found = date-Found year m d h1 h2 h3 h in
      let days = days_at m d year (negsuc 0) (negsuc 0) e refl (sym k) in
      let same = ap (λ x. pos x +ℤ negsuc 0 *ℤ pos 400) k ∙ sym e in
      ap civil_from_days days
      ∙ first_found (day_of_era (year_in_era year m) (day_of_year m d)) doe
      ∙ date_in_era_lem (negsuc 0) year m d h1 h2 h3 found same

early_year : (n m : ℕ) → leb m 2 ≡ true → year_in_era (suc n) m ≡ n % 400
unfolding year_in_era
early_year n m p = rw p (omega arith)

first_year : (m : ℕ) → leb m 2 ≡ true → year_in_era 0 m ≡ 399
unfolding year_in_era
first_year m p = rw p refl

late_year : (year m : ℕ) → leb m 2 ≡ false → year_in_era year m ≡ year % 400
unfolding year_in_era
late_year year m p = rw p (omega arith)

-- The date that FormatRFC3339Nano finds for the days that DaysFromCivil gives for a date of the
-- calendar, from the year 0 on, is that date.
pub civil_from_days-days_from_civil :
    (year m d : ℕ)
    → 1 ≤ m
    → m ≤ 12
    → 1 ≤ d
    → d ≤ days_in_month year m
    → civil_from_days (days_from_civil year m d) ≡ record { year = pos year; month = m; day = d }
civil_from_days-days_from_civil year m d h1 h2 h3 h = elim (Bool-cases (leb m 2)) [
  | inl p ↦ early year h p
  | inr p ↦ later_date year m d h1 h2 h3 h year (rw p (ground arith)) (late_year year m p)
]
  where
    early :
        (year : ℕ)
        → d ≤ days_in_month year m
        → leb m 2 ≡ true
        → civil_from_days (days_from_civil year m d)
          ≡ record { year = pos year; month = m; day = d }
    early zero h p = first_date 0 m d h1 h2 h3 h (rw p refl) (first_year m p)
    early (suc n) h p = later_date (suc n) m d h1 h2 h3 h n (rw p (ground arith)) (early_year n m p)
