-- ===== src/GoStrconv/Tests.antt =====
-- GoParseInt of src/detail/go_strconv.cc on concrete strings.
use protowire_cpp.Common.{◌≡◌, refl, arith, true, []}
use protowire_cpp.Common.Int.{pos, ◌-ℤ◌}
use protowire_cpp.Common.Text.{codes}
use protowire_cpp.GoStrconv.{number, go_parse_int, go_parse_uint, read_uint, read_loop}
use protowire_cpp.GoStrconv.Range.{value_from, go_parse_int-Digits}

go_parse_int-Digits_example : go_parse_int [] (codes "-128") 8 ≡ number (pos 0 -ℤ pos 128)
unfolding value_from
go_parse_int-Digits_example =
    go_parse_int-Digits [] true 8 (codes "128") (omega arith) (omega arith) (omega arith)
      (refl, (refl, (refl, tt)))

unsigned_byte : go_parse_uint [] (codes "255") 8 ≡ number 255
unfolding go_parse_uint read_uint read_loop
unsigned_byte = refl
