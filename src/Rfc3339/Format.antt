-- ===== src/Rfc3339/Format.antt =====
-- FormatRFC3339Nano of src/detail/rfc3339.cc. The nanoseconds are not negative, as a Timestamp has them.
pub mod Calendar
pub mod Dates
pub mod Text
pub mod RoundTrip
mod Tests
use protowire_cpp.Common.{
  ℕ, zero, suc, ◌+◌, ◌-◌, ◌*◌, ◌/◌, ◌%◌, Bool, List, [], ◌∷◌, ◌++◌, ◌==◌, ltb, leb, if◌then◌else◌,
}
use protowire_cpp.Common.Int.{ℤ, pos, negsuc, pos_part, is_neg, quot, rem, ◌+ℤ◌, ◌-ℤ◌, ◌*ℤ◌}
use protowire_cpp.Common.Text.{codes, padded}

-- A date of the Gregorian calendar.
pub record Civil : Type 0 where
  pub year : ℤ
  pub month : ℕ
  pub day : ℕ

-- The date of a day in an era of 400 years.
pub date_in_era : ℤ → ℕ → Civil
date_in_era era doe =
    let yoe = (doe - doe / 1460 + doe / 36524 - doe / 146096) / 365 in
    let y = pos yoe +ℤ era *ℤ pos 400 in
    let doy = doe - (365 * yoe + yoe / 4 - yoe / 100) in
    let mp = (5 * doy + 2) / 153 in
    let m = if ltb mp 10 then mp + 3 else mp - 9 in
    record {
      year = (if leb m 2 then y +ℤ pos 1 else y);
      month = m;
      day = doy - (153 * mp + 2) / 5 + 1;
    }

-- The inverse of DaysFromCivil.
pub civil_from_days : ℤ → Civil
unfolding date_in_era
civil_from_days days =
    let z = days +ℤ pos 719468 in
    let era = quot (if is_neg z then z -ℤ pos 146096 else z) 146097 in
    date_in_era era (pos_part (z -ℤ era *ℤ pos 146097))

-- "%04lld": a minus sign is one of the four characters.
pub padded_year : ℤ → List ℕ
padded_year (pos n) = padded 4 n
padded_year (negsuc n) = b'-' ∷ padded 3 (n + 1)

-- The loop over the zeros at the end, of a number that is not 0: the number left and its width. An
-- int32 has ten digits at most.
pub trim_nanos : ℕ → ℕ → ℕ → ℕ × ℕ
trim_nanos zero width n = (width, n)
trim_nanos (suc fuel) width n =
    let more = trim_nanos fuel (width - 1) (n / 10) in if n % 10 == 0 then more else (width, n)

-- FormatRFC3339Nano
pub format_rfc3339 : ℤ → ℕ → List ℕ
format_rfc3339 seconds nanos =
    let tod = rem seconds 86400 in
    let days = quot seconds 86400 in
    let date = civil_from_days (if is_neg tod then days -ℤ pos 1 else days) in
    let t = pos_part (if is_neg tod then tod +ℤ pos 86400 else tod) in
    let (width, n) = trim_nanos 10 9 nanos in
    padded_year date.year
    ++ (b'-' ∷ padded 2 date.month
        ++ (b'-' ∷ padded 2 date.day
            ++ (b'T' ∷ padded 2 (t / 3600)
                ++ (b':' ∷ padded 2 ((t / 60) % 60)
                    ++ (b':' ∷ padded 2 (t % 60)
                        ++ ((if nanos == 0 then [] else b'.' ∷ padded width n) ++ codes "Z"))))))
