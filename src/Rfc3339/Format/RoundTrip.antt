-- ===== src/Rfc3339/Format/RoundTrip.antt =====
-- ParseRFC3339 of src/detail/rfc3339.cc on what FormatRFC3339Nano writes.
use protowire_cpp.Common.{
  ℕ, ◌+◌, ◌*◌, ◌/◌, ◌%◌, ◌^◌, ◌≤◌, ◌<◌, ◌≡◌, refl, ap, ◌∙◌, arith, true, false, some, List, [], ◌∷◌,
  length, ltb, if◌then◌else◌,
}
use protowire_cpp.Common.Int.{ℤ, pos, negsuc, pos_part, is_neg, quot, rem, ◌+ℤ◌, ◌-ℤ◌, ◌*ℤ◌}
use protowire_cpp.Common.Text.{is_digit}
use protowire_cpp.Rfc3339.{
  days_in_month, days_from_civil, out_of_range, zone, fraction, parse_rfc3339,
}
use protowire_cpp.Rfc3339.Format.{civil_from_days, padded_year, trim_nanos, format_rfc3339}
use protowire_cpp.Rfc3339.Format.Calendar.{Found, date-Found, day_of_year, month_from_march}
use protowire_cpp.Rfc3339.Format.Dates.{civil_from_days-days_from_civil}
use protowire_cpp.Rfc3339.Format.Text.{
  two_digits, four_digits, read_two, read_four, trim_nanos-Trimmed, ending, fraction-ending,
  ending_some,
}

abbrev two : ℕ → List ℕ → List ℕ
two n s = (b'0' + n / 10) ∷ (b'0' + n % 10) ∷ s

abbrev four : ℕ → List ℕ → List ℕ
four n s = (b'0' + n / 1000) ∷ (b'0' + n / 100 % 10) ∷ (b'0' + n / 10 % 10) ∷ (b'0' + n % 10) ∷ s

-- The text of a time, up to its seconds, and an end.
abbrev text : ℕ → ℕ → ℕ → ℕ → List ℕ → List ℕ
text year m d t end = four year (
    b'-'
    ∷ two m
        (b'-' ∷ two d (b'T' ∷ two (t / 3600) (b':' ∷ two (t / 60 % 60) (b':' ∷ two (t % 60) end)))))

in_range :
    (year m d t : ℕ)
    → 1 ≤ m
    → m ≤ 12
    → 1 ≤ d
    → d ≤ days_in_month year m
    → t < 86400
    → out_of_range year m d (t / 3600) (t / 60 % 60) (t % 60) ≡ false
unfolding out_of_range
in_range year m d t h1 h2 h3 h4 ht =
    let t1 : ltb m 1 ≡ false = ground arith in
    let t2 : ltb 12 m ≡ false = ground arith in
    let t3 : ltb d 1 ≡ false = ground arith in
    let t4 : ltb (days_in_month year m) d ≡ false = ground arith in
    let t5 : ltb 23 (t / 3600) ≡ false = ground arith in
    let t6 : ltb 59 (t / 60 % 60) ≡ false = ground arith in
    let t7 : ltb 59 (t % 60) ≡ false = ground arith in rw (t1, t2, t3, t4, t5, t6, t7) refl

read_text :
    (year m d t nanos : ℕ) (end : List ℕ)
    → year ≤ 9999
    → 1 ≤ m
    → m ≤ 12
    → 1 ≤ d
    → d ≤ days_in_month year m
    → d ≤ 31
    → t < 86400
    → 1 ≤ length end
    → fraction end ≡ (nanos, b'Z' ∷ [])
    → parse_rfc3339 (text year m d t end)
      ≡ some (
        days_from_civil year m d *ℤ pos 86400
            +ℤ pos (t / 3600 * 3600 + t / 60 % 60 * 60 + t % 60)
            -ℤ pos 0,
        nanos,
      )
unfolding parse_rfc3339 zone
read_text year m d t nanos end hy h1 h2 h3 h4 h5 ht he hf =
    let s = text year m d t end in
    let long : ltb (length s) 19 ≡ false = ground arith in
    let digit : is_digit (b'0' + t / 3600 % 10) ≡ true = ground arith in
    let longer : ltb (length s) 20 ≡ false = ground arith in
    let range : out_of_range year m d (t / 3600) (t / 60 % 60) (t % 60) ≡ false =
      in_range year m d t h1 h2 h3 h4 ht in
    rw
      (
        long,
        digit,
        longer,
        read_four year (omega arith),
        read_two m (omega arith),
        read_two d (omega arith),
        read_two (t / 3600) (omega arith),
        read_two (t / 60 % 60) (omega arith),
        read_two (t % 60) (omega arith),
        hf,
        range,
      )
      refl

-- The day and the second of the day of a time, also of one before 1970.
day_found :
    (days : ℤ) (t : ℕ)
    → t < 86400
    → (if is_neg (rem (days *ℤ pos 86400 +ℤ pos t) 86400)
        then quot (days *ℤ pos 86400 +ℤ pos t) 86400 -ℤ pos 1
        else quot (days *ℤ pos 86400 +ℤ pos t) 86400)
      ≡ days
unfolding rem quot ◌+ℤ◌ ◌-ℤ◌ ◌*ℤ◌
day_found (pos n) t h = ground arith
day_found (negsuc n) t h = ground arith

second_found :
    (days : ℤ) (t : ℕ)
    → t < 86400
    → pos_part (
        if is_neg (rem (days *ℤ pos 86400 +ℤ pos t) 86400)
        then rem (days *ℤ pos 86400 +ℤ pos t) 86400 +ℤ pos 86400
        else rem (days *ℤ pos 86400 +ℤ pos t) 86400)
      ≡ t
unfolding rem ◌+ℤ◌ ◌*ℤ◌
second_found (pos n) t h = ground arith
second_found (negsuc n) t h = ground arith

written_text :
    (seconds days : ℤ) (year m d t nanos : ℕ)
    → (if is_neg (rem seconds 86400) then quot seconds 86400 -ℤ pos 1 else quot seconds 86400)
      ≡ days
    → pos_part
        (if is_neg (rem seconds 86400) then rem seconds 86400 +ℤ pos 86400 else rem seconds 86400)
      ≡ t
    → civil_from_days days ≡ record { year = pos year; month = m; day = d }
    → year ≤ 9999
    → m ≤ 12
    → d ≤ 31
    → t < 86400
    → format_rfc3339 seconds nanos ≡ text year m d t (ending nanos (trim_nanos 10 9 nanos))
unfolding format_rfc3339 padded_year ending
written_text seconds days year m d t nanos e1 e2 e3 hy hm hd ht =
    rw
      (
        e1,
        e2,
        e3,
        four_digits year (omega arith),
        two_digits m (omega arith),
        two_digits d (omega arith),
        two_digits (t / 3600) (omega arith),
        two_digits (t / 60 % 60) (omega arith),
        two_digits (t % 60) (omega arith),
      )
      refl

nothing_taken : (x : ℤ) → x -ℤ pos 0 ≡ x
unfolding ◌-ℤ◌
nothing_taken (pos n) = ground arith
nothing_taken (negsuc n) = ground arith

few_days : (year m d : ℕ) → 1 ≤ d → Found year m d → d ≤ 31
unfolding day_of_year month_from_march
few_days year m d h (k, e) = omega arith

-- ParseRFC3339 reads back what FormatRFC3339Nano wrote, for any second of any date of the calendar in
-- the years from 0 to 9999, and for any number of nanoseconds below a second. A time is given by its
-- date and the second `t` of the day.
pub parse_rfc3339-format_rfc3339 :
    (year m d t nanos : ℕ)
    → year ≤ 9999
    → 1 ≤ m
    → m ≤ 12
    → 1 ≤ d
    → d ≤ days_in_month year m
    → t < 86400
    → nanos < 10 ^ 9
    → parse_rfc3339 (format_rfc3339 (days_from_civil year m d *ℤ pos 86400 +ℤ pos t) nanos)
      ≡ some (days_from_civil year m d *ℤ pos 86400 +ℤ pos t, nanos)
parse_rfc3339-format_rfc3339 year m d t nanos hy h1 h2 h3 h4 ht hn =
    let days = days_from_civil year m d in
    let seconds = days *ℤ pos 86400 +ℤ pos t in
    let few = few_days year m d h3 (date-Found year m d h1 h2 h3 h4) in
    let r = trim_nanos 10 9 nanos in
    let end = ending nanos r in
    let parts : t / 3600 * 3600 + t / 60 % 60 * 60 + t % 60 ≡ t = omega arith in
    ap parse_rfc3339 (
      written_text seconds days year m d t nanos (day_found days t ht) (second_found days t ht)
        (civil_from_days-days_from_civil year m d h1 h2 h3 h4) hy h2 few ht)
    ∙ read_text year m d t nanos end hy h1 h2 h3 h4 few ht (ending_some nanos r)
        (fraction-ending nanos r (λ h. trim_nanos-Trimmed 10 9 nanos h hn))
    ∙ ap (λ x. some (days *ℤ pos 86400 +ℤ pos x -ℤ pos 0, nanos)) parts
    ∙ ap (λ x. some (x, nanos)) (nothing_taken seconds)
