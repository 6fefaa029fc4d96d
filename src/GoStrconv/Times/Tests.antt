-- ===== src/GoStrconv/Times/Tests.antt =====
-- GoTimestampError of src/detail/go_strconv.cc on concrete strings.
use protowire_cpp.Common.{◌≡◌, refl}
use protowire_cpp.Common.Text.{codes}
use protowire_cpp.GoStrconv.Messages.{time_quote, time_quote_loop, skip_digits}
use protowire_cpp.GoStrconv.Times.{
  time_error, time_message, get_num, ◌>>=◌, literal, number_of, in_range, year_of, behind_fraction,
  offset_of, zone_of, days_of, no_extra, timestamp_stages, go_timestamp_error,
}

samples :
    (go_timestamp_error (codes "2026-02-29T10:00:00Z")
      ≡ codes "parsing time \"2026-02-29T10:00:00Z\": day out of range")
    × (go_timestamp_error (codes "2026-13-01T10:00:00Z")
        ≡ codes "parsing time \"2026-13-01T10:00:00Z\": month out of range")
    × (go_timestamp_error (codes "2026-01-02T10:00:00.5+01:00x")
        ≡ codes "parsing time \"2026-01-02T10:00:00.5+01:00x\": extra text: \"x\"")
    × (go_timestamp_error (codes "2026-1")
        ≡ codes
            "parsing time \"2026-1\" as \"2006-01-02T15:04:05Z07:00\": cannot parse \"1\" as \"01\"")
unfolding time_error time_message get_num ◌>>=◌ literal number_of in_range year_of behind_fraction
    offset_of zone_of days_of no_extra timestamp_stages go_timestamp_error time_quote
    time_quote_loop skip_digits
samples = (refl, refl, refl, refl)
