-- ===== src/Duration/Format/Tests.antt =====
-- FormatDuration of src/detail/duration.cc on concrete durations.
use protowire_cpp.Common.{◌≡◌, refl, some, true}
use protowire_cpp.Common.Int.{ℤ, pos, negsuc, quot, rem, ◌+ℤ◌, ◌*ℤ◌}
use protowire_cpp.Common.Text.{codes, decimal}
use protowire_cpp.Utf8.{utf8, encode_rune}
use protowire_cpp.Duration.{parse_duration}
use protowire_cpp.Duration.Format.RoundTrip.{parse_duration-format_duration}
use protowire_cpp.Duration.Format.{
  in_int64, trim_zeros, with_fraction, format_small, format_clock, format_duration,
}

formatted :
    (format_duration (pos 3_661) (pos 500_000_000) ≡ codes "1h1m1.5s")
    × (format_duration (pos 0) (pos 1_050) ≡ utf8 "1.05µs")
    × (format_duration (negsuc 9_223_372_035) (negsuc 854_775_807)
        ≡ codes "-2562047h47m16.854775808s")
unfolding format_duration in_int64 format_small format_clock with_fraction trim_zeros decimal ◌+ℤ◌
    ◌*ℤ◌ encode_rune
formatted = (refl, refl, refl)

-- 1h30m0.0000005s
abbrev nanos_read : ℤ
nanos_read = pos 5_400 *ℤ pos 1_000_000_000 +ℤ pos 500

parse_duration-format_duration_example :
    parse_duration (format_duration (pos 5_400) (pos 500))
    ≡ some (quot nanos_read 1_000_000_000, rem nanos_read 1_000_000_000)
parse_duration-format_duration_example =
    parse_duration-format_duration (pos 5_400) (pos 500) whole_fits sum_fits
  where
    whole_fits : in_int64 (pos 5_400 *ℤ pos 1_000_000_000) ≡ true
    whole_fits = unfold in_int64 ◌*ℤ◌ in refl

    sum_fits : in_int64 (pos 5_400 *ℤ pos 1_000_000_000 +ℤ pos 500) ≡ true
    sum_fits = unfold in_int64 ◌*ℤ◌ ◌+ℤ◌ in refl
