-- ===== src/GoStrconv/Messages/Tests.antt =====
-- The messages of src/detail/go_strconv.cc on concrete strings.
use protowire_cpp.Common.{◌≡◌, refl, true, false}
use protowire_cpp.Common.Text.{codes, same_text}
use protowire_cpp.GoStrconv.Messages.{
  underscore_ok, underscore_loop, time_quote, time_quote_loop, leading_int, skip_digits,
  duration_unit, is_unit, duration_message, go_duration_error,
}

underscores : (underscore_ok (codes "0x_1F") ≡ true) × (underscore_ok (codes "1__0") ≡ false)
unfolding underscore_ok underscore_loop
underscores = (refl, refl)

messages :
    (go_duration_error (codes "1h2") ≡ codes "time: missing unit in duration \"1h2\"")
    × (go_duration_error (codes "-1h2x") ≡ codes "time: unknown unit \"x\" in duration \"-1h2x\"")
    × (go_duration_error (codes ".s") ≡ codes "time: invalid duration \".s\"")
unfolding go_duration_error duration_message leading_int skip_digits duration_unit is_unit
    time_quote time_quote_loop same_text
messages = (refl, refl, refl)
