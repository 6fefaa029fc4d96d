-- ===== src/Rfc3339/Format/Tests.antt =====
-- FormatRFC3339Nano of src/detail/rfc3339.cc on concrete times.
use protowire_cpp.Common.{◌≡◌, ◌≤◌, refl, arith, some}
use protowire_cpp.Common.Int.{pos, negsuc, quot, rem, ◌+ℤ◌, ◌-ℤ◌, ◌*ℤ◌}
use protowire_cpp.Common.Text.{codes, decimal}
use protowire_cpp.Rfc3339.{days_from_civil, days_in_month, parse_rfc3339}
use protowire_cpp.Rfc3339.Format.RoundTrip.{parse_rfc3339-format_rfc3339}
use protowire_cpp.Rfc3339.Format.Dates.{civil_from_days-days_from_civil}
use protowire_cpp.Rfc3339.Format.{
  civil_from_days, date_in_era, padded_year, trim_nanos, format_rfc3339,
}

formatted :
    (format_rfc3339 (pos 1_700_000_000) 0 ≡ codes "2023-11-14T22:13:20Z")
    × (format_rfc3339 (negsuc 0) 120_000_000 ≡ codes "1969-12-31T23:59:59.12Z")
unfolding format_rfc3339 civil_from_days date_in_era padded_year trim_nanos decimal quot rem ◌+ℤ◌
    ◌-ℤ◌ ◌*ℤ◌
formatted = (refl, refl)

leap_day : 29 ≤ days_in_month 2024 2
leap_day = unfold days_in_month in omega arith

civil_from_days-days_from_civil_example :
    civil_from_days (days_from_civil 2024 2 29) ≡ record { year = pos 2024; month = 2; day = 29 }
civil_from_days-days_from_civil_example =
    civil_from_days-days_from_civil 2024 2 29 (omega arith) (omega arith) (omega arith) leap_day

-- 2024-02-29T01:01:01.12Z
parse_rfc3339-format_rfc3339_example :
    parse_rfc3339 (format_rfc3339 (days_from_civil 2024 2 29 *ℤ pos 86400 +ℤ pos 3661) 120_000_000)
    ≡ some (days_from_civil 2024 2 29 *ℤ pos 86400 +ℤ pos 3661, 120_000_000)
parse_rfc3339-format_rfc3339_example =
    parse_rfc3339-format_rfc3339 2024 2 29 3661 120_000_000 (omega arith) (omega arith)
      (omega arith) (omega arith) leap_day (omega arith) (omega arith)
