-- ===== src/Big/Tests.antt =====
-- The big numbers of src/pb/big.cc on concrete values.
use protowire_cpp.Common.{
  ℕ, Bool, ◌≡◌, ◌≢◌, ◌⊎◌, ◌*◌, ◌%◌, ◌^◌, refl, arith, none, some, List, [], ◌∷◌, true, false,
  is_empty, ap,
}
use protowire_cpp.Common.Int.{pos}
use protowire_cpp.Common.Text.{codes}
use protowire_cpp.Big.{
  BigInt, Decimal, ok, trim_leading_zeros, parse_digits, digits_loop, mul_by_10, mul_loop, add_u8,
  add_loop, push_carry, format_magnitude, format_loop, div_by_10, div_loop, int32_of,
}
use protowire_cpp.Big.Magnitudes.{value, IsCanonical}
use protowire_cpp.Big.Text.{
  sign, find_dot, cut_at_dot, parse_whole, decimal_of, parse_big_int, parse_decimal, bound_literal,
  decimal_digits, format_big_int, format_decimal,
}
use protowire_cpp.Big.Text.Integers.{
  IsValue, Parses, literal_integer, parse_big_int-Parses, parse_big_int-format_big_int,
}
use protowire_cpp.Big.Text.Decimals.{IsDecimal, ReadDecimal, Signed, Cut, parse_decimal-ReadDecimal}
use protowire_cpp.Big.Text.Scaled.{parse_decimal-format_decimal}
use protowire_cpp.Wire.{
  IsShort, append_tag, append_bytes, append_varint, append_varint_loop, wire_type_value,
}
use protowire_cpp.Big.Reduce.{
  reduce, raise_loop, to_limbs, from_last, limb, limbs_of, lower_loop, divide_limbs, divide_loop,
  trim_back, from_limbs, bytes_of,
}
use protowire_cpp.Big.Reduce.Scale.{reduce_value}
use protowire_cpp.Big.Marshal.{
  marshal_big_int, marshal_decimal, written_decimal, past, append_flag, append_int_field,
  append_varint_field, append_bytes_field, uint64_of,
}
use protowire_cpp.Big.Unmarshal.{unmarshal_big_int, unmarshal_decimal}
use protowire_cpp.Big.Unmarshal.RoundTrip.{unmarshal_big_int-marshal_big_int}
use protowire_cpp.Big.Unmarshal.Decimals.{Decoded, unmarshal_decimal-marshal_decimal}

-- -256
abbrev minus_256 : BigInt
minus_256 = record { abs = 1 ∷ 0 ∷ []; negative = true }

minus_256-IsValue : IsValue minus_256
minus_256-IsValue = record {
  magnitude = ((omega arith, (omega arith, tt)), omega arith);
  sign = λ e. absurd (ground (arith, ap is_empty e));
}

-- 1.50
abbrev one_and_half : Decimal
one_and_half = record { unscaled = 150 ∷ []; scale = pos 2; negative = false }

one_and_half-IsDecimal : IsDecimal one_and_half
one_and_half-IsDecimal = record { magnitude = ((omega arith, tt), omega arith); sign = λ e. refl }

parse_big_int-Parses_example :
    Parses (parse_big_int (codes "-256")) (literal_integer (codes "-256"))
parse_big_int-Parses_example = parse_big_int-Parses (codes "-256")

parse_big_int-format_big_int_example :
    (s : List ℕ) × (format_big_int minus_256 ≡ ok s) × (parse_big_int s ≡ some minus_256)
parse_big_int-format_big_int_example =
    parse_big_int-format_big_int minus_256 minus_256-IsValue (omega arith)

parse_decimal-ReadDecimal_example :
    (negative : Bool) × (text : List ℕ) × (whole : List ℕ) × (part : List ℕ) × Signed
      (codes "-1.50")
      negative
      text
    × Cut text whole part
    × ReadDecimal (parse_decimal (codes "-1.50")) negative whole part
parse_decimal-ReadDecimal_example = parse_decimal-ReadDecimal (codes "-1.50")

parse_decimal-format_decimal_example :
    (s : List ℕ) × (format_decimal one_and_half ≡ ok s) × (parse_decimal s ≡ some one_and_half)
parse_decimal-format_decimal_example =
    parse_decimal-format_decimal one_and_half 2 one_and_half-IsDecimal refl (omega arith)
      (omega arith)

reduce_value_example :
    IsCanonical (reduce (150 ∷ []) (pos 2)).0
    × (value (reduce (150 ∷ []) (pos 2)).0 * 10 ^ 2
        ≡ 150 * 10 ^ 0 * 10 ^ (reduce (150 ∷ []) (pos 2)).1)
    × (((reduce (150 ∷ []) (pos 2)).1 ≡ 0) ⊎ (value (reduce (150 ∷ []) (pos 2)).0 % 10 ≢ 0))
reduce_value_example = reduce_value (150 ∷ []) (pos 2) (omega arith, tt)

unmarshal_big_int-marshal_big_int_example :
    unmarshal_big_int (marshal_big_int minus_256 []) ≡ ok minus_256
unmarshal_big_int-marshal_big_int_example =
    unmarshal_big_int-marshal_big_int minus_256 minus_256-IsValue (omega arith)

-- 15 at scale 1, with the fields 1 and 2.
abbrev fifteen : List ℕ
fifteen = 10 ∷ 1 ∷ 15 ∷ 16 ∷ 1 ∷ []

fifteen_written : marshal_decimal one_and_half [] ≡ ok fifteen
unfolding marshal_decimal written_decimal trim_leading_zeros reduce raise_loop to_limbs from_last
    limb limbs_of lower_loop divide_limbs divide_loop trim_back from_limbs bytes_of past append_flag
    append_int_field append_varint_field append_bytes_field uint64_of append_tag append_bytes
    append_varint append_varint_loop wire_type_value
fifteen_written = refl

magnitude-IsShort : IsShort (written_decimal (trim_leading_zeros (150 ∷ [])) (pos 2)).0
unfolding written_decimal trim_leading_zeros reduce raise_loop to_limbs from_last limb limbs_of
    lower_loop divide_limbs divide_loop trim_back from_limbs bytes_of
magnitude-IsShort = omega arith

unmarshal_decimal-marshal_decimal_example :
    (w : Decimal) × (unmarshal_decimal fifteen (pos 0) ≡ ok w) × Decoded one_and_half w
unmarshal_decimal-marshal_decimal_example =
    unmarshal_decimal-marshal_decimal one_and_half fifteen (omega arith, tt) magnitude-IsShort
      fifteen_written

-- A literal of each kind, with what is behind the sign and the dot.
samples :
    (parse_big_int (codes "+0070000") ≡ some record { abs = 1 ∷ 17 ∷ 112 ∷ []; negative = false })
    × (parse_big_int (codes "-0") ≡ some record { abs = []; negative = false })
    × (parse_big_int (codes "-") ≡ none)
    × (parse_big_int (codes "1x") ≡ none)
    × (format_big_int minus_256 ≡ ok (codes "-256"))
    × (parse_decimal (codes ".5")
        ≡ some record { unscaled = 5 ∷ []; scale = pos 1; negative = false })
    × (parse_decimal (codes ".") ≡ none)
    × (format_decimal one_and_half ≡ ok (codes "1.50"))
unfolding sign parse_big_int find_dot cut_at_dot parse_whole decimal_of parse_decimal bound_literal
    format_big_int decimal_digits format_decimal parse_digits digits_loop mul_by_10 mul_loop add_u8
    add_loop push_carry trim_leading_zeros format_magnitude format_loop div_by_10 div_loop int32_of
samples = (refl, refl, refl, refl, refl, refl, refl, refl)
