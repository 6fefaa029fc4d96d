-- ===== src/Rfc3339/Format/Calendar.antt =====
-- The calendar of src/detail/rfc3339.cc.
use protowire_cpp.Common.{
  ℕ, zero, suc, ◌+◌, ◌-◌, ◌*◌, ◌/◌, ◌%◌, ◌≤◌, ◌<◌, ◌≡◌, ◌≢◌, ◌⊎◌, inl, inr, refl, arith, Bool, true,
  false, ltb, leb, ◌==◌, not, ◌&&◌, ◌||◌, tested, Bool-cases, if◌then◌else◌,
}
use native.Mathlib.Decide.{dec_lt}
use protowire_cpp.Common.Int.{ℤ, pos, sub_ℕ, ◌+ℤ◌, ◌*ℤ◌}
use protowire_cpp.Rfc3339.{days_in_month}
use protowire_cpp.Rfc3339.Format.{date_in_era}

-- The days of an era of 400 years, from 1 March.
abbrev pub day_of_era : ℕ → ℕ → ℕ
day_of_era yoe doy = yoe * 365 + yoe / 4 - yoe / 100 + doy

-- The last day of a year from March on is the 29 February of a leap year.
abbrev pub InYear : ℕ → ℕ → Type 0
InYear yoe doy = (doy ≤ 364) ⊎ ((doy ≡ 365) × (yoe % 4 ≡ 3) × ((yoe ≡ 399) ⊎ (yoe % 100 ≢ 99)))

year_of_era :
    (yoe doy : ℕ)
    → yoe < 400
    → InYear yoe doy
    → (day_of_era yoe doy
          - day_of_era yoe doy / 1460
          + day_of_era yoe doy / 36524
          - day_of_era yoe doy / 146096)
        / 365
      ≡ yoe
year_of_era yoe doy hy (inl h) = omega arith
year_of_era yoe doy hy (inr (h, k, (inl l))) = omega arith
year_of_era yoe doy hy (inr (h, k, (inr l))) = omega arith

-- A month counted from March on, its day in the year, and the year in the era.
unfoldable pub month_from_march : ℕ → ℕ
month_from_march m = if ltb 2 m then m - 3 else m + 9

unfoldable pub day_of_year : ℕ → ℕ → ℕ
unfolding month_from_march
day_of_year m d = (153 * month_from_march m + 2) / 5 + d - 1

unfoldable pub year_in_era : ℕ → ℕ → ℕ
year_in_era year m = (year + 400 - (if leb m 2 then 1 else 0)) % 400

-- A day of February, with the test on the year of days_in_month.
february :
    (year d : ℕ)
    → d ≤ 28 + (if year % 4 == 0 && (not (year % 100 == 0) || year % 400 == 0) then 1 else 0)
    → (d ≤ 28) ⊎ ((d ≤ 29) × (year % 4 ≡ 0) × ((year % 400 ≡ 0) ⊎ (year % 100 ≢ 0)))
february year d =
    tested
      (λ n.
        d ≤ 28 + n → (d ≤ 28) ⊎ ((d ≤ 29) × (year % 4 ≡ 0) × ((year % 400 ≡ 0) ⊎ (year % 100 ≢ 0))))
      (year % 4 == 0 && (not (year % 100 == 0) || year % 400 == 0))
      (λ t h. elim (Bool-cases (year % 400 == 0)) [
        | inl z ↦ inr (omega arith, ground arith, inl (ground arith))
        | inr z ↦ inr (omega arith, ground arith, inr (λ e. ground (arith, e)))
      ])
      (λ t h. inl (omega arith))

february-InYear :
    (year d : ℕ)
    → 1 ≤ d
    → (d ≤ 28) ⊎ ((d ≤ 29) × (year % 4 ≡ 0) × ((year % 400 ≡ 0) ⊎ (year % 100 ≢ 0)))
    → InYear (year_in_era year 2) (day_of_year 2 d)
unfolding day_of_year month_from_march year_in_era
february-InYear year d h (inl k) = inl (omega arith)
february-InYear year d h (inr (k, e, c)) = elim (dec_lt d 29) [
  | yes p ↦ inl (omega arith)
  | no p ↦ inr (
    omega arith,
    omega arith,
    elim c [ inl z ↦ inl (omega arith) | inr z ↦ inr (λ x. z (omega arith)) ],
  )
]

february-found : (d : ℕ) → 1 ≤ d → d ≤ 29 → (5 * day_of_year 2 d + 2) / 153 ≡ month_from_march 2
unfolding day_of_year month_from_march
february-found d h k = omega arith

february_days :
    (year d : ℕ)
    → (d ≤ 28) ⊎ ((d ≤ 29) × (year % 4 ≡ 0) × ((year % 400 ≡ 0) ⊎ (year % 100 ≢ 0)))
    → d ≤ 29
february_days year d (inl h) = omega arith
february_days year d (inr (h, k, c)) = h

-- The day of a date is in the year, and its month is found from it.
abbrev pub Found : ℕ → ℕ → ℕ → Type 0
Found year m d =
    InYear (year_in_era year m) (day_of_year m d)
    × ((5 * day_of_year m d + 2) / 153 ≡ month_from_march m)

pub date-Found : (year m d : ℕ) → 1 ≤ m → m ≤ 12 → 1 ≤ d → d ≤ days_in_month year m → Found year m d
unfolding days_in_month day_of_year month_from_march year_in_era
date-Found year zero d h1 h2 h3 h4 = absurd (omega arith)
date-Found year (suc zero) d h1 h2 h3 h4 = (inl (omega arith), omega arith)
date-Found year (suc (suc zero)) d h1 h2 h3 h4 =
    let k = february year d h4 in
    (february-InYear year d h3 k, february-found d h3 (february_days year d k))
date-Found year (suc (suc (suc zero))) d h1 h2 h3 h4 = (inl (omega arith), omega arith)
date-Found year (suc (suc (suc (suc zero)))) d h1 h2 h3 h4 = (inl (omega arith), omega arith)
date-Found year (suc (suc (suc (suc (suc zero))))) d h1 h2 h3 h4 = (inl (omega arith), omega arith)
date-Found year (suc (suc (suc (suc (suc (suc zero)))))) d h1 h2 h3 h4 =
    (inl (omega arith), omega arith)
date-Found year (suc (suc (suc (suc (suc (suc (suc zero))))))) d h1 h2 h3 h4 =
    (inl (omega arith), omega arith)
date-Found year (suc (suc (suc (suc (suc (suc (suc (suc zero)))))))) d h1 h2 h3 h4 =
    (inl (omega arith), omega arith)
date-Found year (suc (suc (suc (suc (suc (suc (suc (suc (suc zero))))))))) d h1 h2 h3 h4 =
    (inl (omega arith), omega arith)
date-Found year (suc (suc (suc (suc (suc (suc (suc (suc (suc (suc zero)))))))))) d h1 h2 h3 h4 =
    (inl (omega arith), omega arith)
date-Found year (suc (suc (suc (suc (suc (suc (suc (suc (suc (suc (suc zero))))))))))) d h1 h2 h3
      h4 =
    (inl (omega arith), omega arith)
date-Found year (suc (suc (suc (suc (suc (suc (suc (suc (suc (suc (suc (suc zero)))))))))))) d h1 h2
      h3 h4 =
    (inl (omega arith), omega arith)
date-Found year (suc (suc (suc (suc (suc (suc (suc (suc (suc (suc (suc (suc (suc m))))))))))))) d h1
      h2 h3 h4 =
    absurd (omega arith)

year_back :
    (early : Bool) (year : ℕ)
    → (if early
        then sub_ℕ year (if early then 1 else 0) +ℤ pos 1
        else sub_ℕ year (if early then 1 else 0))
      ≡ pos year
unfolding ◌+ℤ◌
year_back true zero = refl
year_back true (suc n) = ground arith
year_back false year = ground arith

month_back :
    (m : ℕ)
    → 1 ≤ m
    → m ≤ 12
    → (if ltb (month_from_march m) 10 then month_from_march m + 3 else month_from_march m - 9) ≡ m
unfolding month_from_march
month_back m h k = ground arith

day_back : (m d : ℕ) → 1 ≤ d → day_of_year m d - (153 * month_from_march m + 2) / 5 + 1 ≡ d
unfolding day_of_year
day_back m d h = omega arith

pub year_in_era-lt : (year m : ℕ) → year_in_era year m < 400
unfolding year_in_era
year_in_era-lt year m = omega arith

-- The day of the era gives the date back.
pub date_in_era_lem :
    (era : ℤ) (year m d : ℕ)
    → 1 ≤ m
    → m ≤ 12
    → 1 ≤ d
    → Found year m d
    → pos (year_in_era year m) +ℤ era *ℤ pos 400 ≡ sub_ℕ year (if leb m 2 then 1 else 0)
    → date_in_era era (day_of_era (year_in_era year m) (day_of_year m d))
      ≡ record { year = pos year; month = m; day = d }
unfolding date_in_era
date_in_era_lem era year m d h1 h2 h3 (k, f) e =
    let yoe = year_in_era year m in
    let doy = day_of_year m d in
    let doe = day_of_era yoe doy in
    let y = year_of_era yoe doy (year_in_era-lt year m) k in
    let back : doe - (365 * yoe + yoe / 4 - yoe / 100) ≡ doy = omega arith in
    rw (y, back, f, month_back m h1 h2, e, year_back (leb m 2) year, day_back m d h3) refl
