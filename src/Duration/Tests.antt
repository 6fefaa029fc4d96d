-- ===== src/Duration/Tests.antt =====
-- ParseDuration of src/detail/duration.cc on concrete strings.
use protowire_cpp.Common.{◌≡◌, refl, none, some}
use protowire_cpp.Common.Int.{pos, quot, rem, sub_ℕ}
use protowire_cpp.Common.Text.{codes}
use protowire_cpp.Duration.{
  parse_duration, unsigned_part, segments, segment, whole_part, next_whole, point_part, frac_part,
  unit_nanos, segment_nanos, mul_int64, add_int64, mul_u64, add_u64, finish,
}

samples :
    (parse_duration (codes "1.5ms") ≡ some (pos 0, pos 1_500_000))
    × (parse_duration (codes "5min") ≡ none)
unfolding parse_duration unsigned_part segments segment whole_part next_whole point_part frac_part
    unit_nanos segment_nanos mul_int64 add_int64 mul_u64 add_u64 finish quot rem sub_ℕ
samples = (refl, refl)
