-- ===== src/Big/Unmarshal/Tests.antt =====
-- The Unmarshal functions of src/pb/big.cc, and ShiftRightRounded, on concrete values.
use protowire_cpp.Common.{ℕ, ◌≡◌, ◌^◌, ◌≤◌, refl, arith, List, [], ◌∷◌, true, false}
use protowire_cpp.Common.Int.{pos, ◌+ℤ◌, ◌-ℤ◌}
use protowire_cpp.Wire.{
  consume_tag, consume_varint, consume_varint_loop, consume_bytes, wire_type_of,
}
use protowire_cpp.Big.{
  Decimal, BigFloat, ok, trim_leading_zeros, int32_of, bit, some_bit, shift_right_loop,
  shifted_right, shift_right_rounded, shift_left, shift_left_loop, zero_bytes, bit_len, top_bits,
  add_u8, add_loop, push_carry,
}
use protowire_cpp.Big.Magnitudes.{value, IsCanonical}
use protowire_cpp.Big.Rounding.{shift_right_rounded-HalfEven, HalfEven}
use protowire_cpp.Big.Text.Decimals.{IsDecimal}
use protowire_cpp.Wire.{
  append_tag, append_bytes, append_varint, append_varint_loop, wire_type_value,
}
use protowire_cpp.Big.Marshal.{
  marshal_big_float, marshal_mantissa, append_float, whole, append_bytes_field, append_int_field,
  append_varint_field, append_flag, in_int32, uint64_of, past, narrowed, pow2_digits,
  big_float_prec_digits,
}
use protowire_cpp.Big.Unmarshal.{
  bytes_field, varint_field, int_field, decimal_field, float_field, one_field, read_fields,
  read_message, unmarshal_big_int, unmarshal_decimal, checked_decimal, positive_or,
  unmarshal_big_float, checked_float, rounded_float, with_mantissa,
}
use protowire_cpp.Big.Unmarshal.Accepted.{unmarshal_decimal-IsDecimal}
use protowire_cpp.Big.Unmarshal.FloatRoundTrip.{ReadBack, unmarshal_big_float-marshal_big_float}
use protowire_cpp.Big.Unmarshal.Floats.{Accepted, unmarshal_big_float-Accepted}

-- 23 / 4 is 5.75.
shift_right_rounded-HalfEven_example :
    IsCanonical (shift_right_rounded (23 ∷ []) 2)
    × HalfEven 23 (2 ^ 2) (value (shift_right_rounded (23 ∷ []) 2))
shift_right_rounded-HalfEven_example =
    shift_right_rounded-HalfEven (23 ∷ []) 2 (omega arith, tt) (omega arith)
      (unfold bit_len top_bits in omega arith)

rounds :
    (shift_right_rounded (23 ∷ []) 2 ≡ 6 ∷ [])
    × (shift_right_rounded (22 ∷ []) 2 ≡ 6 ∷ [])
    × (shift_right_rounded (18 ∷ []) 2 ≡ 4 ∷ [])
    × (shift_right_rounded (255 ∷ 255 ∷ []) 4 ≡ 16 ∷ 0 ∷ [])
unfolding shift_right_rounded bit some_bit shifted_right shift_right_loop trim_leading_zeros add_u8
    add_loop push_carry
rounds = (refl, refl, refl, refl)

-- A leading zero byte on the wire.
abbrev one_on_wire : List ℕ
one_on_wire = 10 ∷ 2 ∷ 0 ∷ 1 ∷ []

one_read : unmarshal_big_int one_on_wire ≡ ok record { abs = 1 ∷ []; negative = false }
unfolding unmarshal_big_int read_message read_fields one_field int_field bytes_field varint_field
    consume_tag consume_varint consume_varint_loop consume_bytes wire_type_of trim_leading_zeros
one_read = refl

abbrev fifteen_tenths : Decimal
fifteen_tenths = record { unscaled = 15 ∷ []; scale = pos 1; negative = false }

abbrev fifteen_on_wire : List ℕ
fifteen_on_wire = 10 ∷ 1 ∷ 15 ∷ 16 ∷ 1 ∷ []

fifteen_read : unmarshal_decimal fifteen_on_wire (pos 3) ≡ ok fifteen_tenths
unfolding unmarshal_decimal checked_decimal positive_or past read_message read_fields one_field
    decimal_field bytes_field varint_field consume_tag consume_varint consume_varint_loop
    consume_bytes wire_type_of trim_leading_zeros int32_of
fifteen_read = refl

unmarshal_decimal-IsDecimal_example :
    IsDecimal fifteen_tenths × (1 ≤ positive_or (pos 3) 4096) × (0 ≤ positive_or (pos 3) 4096)
unmarshal_decimal-IsDecimal_example =
    unmarshal_decimal-IsDecimal fifteen_on_wire (pos 3) fifteen_tenths
      (omega arith, (omega arith, (omega arith, (omega arith, (omega arith, tt))))) fifteen_read

-- 25 at a precision of three bits is 6 × 4.
abbrev six_by_four : BigFloat
six_by_four = record { mantissa = 6 ∷ []; exponent = pos 2; prec = 3; negative = false }

abbrev float_on_wire : List ℕ
float_on_wire = 10 ∷ 1 ∷ 25 ∷ 24 ∷ 3 ∷ []

float_read : unmarshal_big_float float_on_wire (pos 0) (pos 0) ≡ ok six_by_four
unfolding unmarshal_big_float checked_float rounded_float with_mantissa narrowed positive_or past
    read_message read_fields one_field float_field bytes_field varint_field consume_tag
    consume_varint consume_varint_loop consume_bytes wire_type_of trim_leading_zeros int32_of
    shift_right_rounded bit some_bit shifted_right shift_right_loop bit_len top_bits
    big_float_prec_digits pow2_digits ◌+ℤ◌
float_read = refl

unmarshal_big_float-Accepted_example : Accepted (positive_or (pos 0) 4096) six_by_four
unmarshal_big_float-Accepted_example =
    unmarshal_big_float-Accepted float_on_wire (pos 0) (pos 0) six_by_four
      (omega arith, (omega arith, (omega arith, (omega arith, (omega arith, tt))))) float_read

-- -25 at a precision of three bits is written as -6 × 4.
abbrev minus_25 : BigFloat
minus_25 = record { mantissa = 25 ∷ []; exponent = pos 0; prec = 3; negative = true }

abbrev minus_25_on_wire : List ℕ
minus_25_on_wire = 10 ∷ 1 ∷ 6 ∷ 16 ∷ 2 ∷ 24 ∷ 3 ∷ 32 ∷ 1 ∷ []

minus_25_written : marshal_big_float minus_25 [] ≡ ok minus_25_on_wire
unfolding marshal_big_float marshal_mantissa narrowed append_float whole append_bytes_field
    append_int_field append_varint_field append_flag append_tag append_bytes append_varint
    append_varint_loop wire_type_value in_int32 uint64_of past trim_leading_zeros
    shift_right_rounded bit some_bit shifted_right shift_right_loop shift_left shift_left_loop
    zero_bytes bit_len top_bits big_float_prec_digits pow2_digits ◌+ℤ◌ ◌-ℤ◌
minus_25_written = refl

unmarshal_big_float-marshal_big_float_example :
    (w : BigFloat) × (unmarshal_big_float minus_25_on_wire (pos 0) (pos 0) ≡ ok w)
    × ReadBack minus_25 w
unmarshal_big_float-marshal_big_float_example =
    unmarshal_big_float-marshal_big_float minus_25 minus_25_on_wire (omega arith, tt) (omega arith)
      minus_25_written
