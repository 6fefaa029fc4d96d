-- ===== src/Big/Marshal.antt =====
-- MarshalBigIntMsg, MarshalDecimalMsg and MarshalBigFloatMsg of src/pb/big.cc, which append to `out`,
-- and the bound of include/protowire/detail/bigprec.h.
pub mod Appended
pub mod Decimals
pub mod Floats
pub mod Written
use protowire_cpp.Common.{
  ℕ, zero, suc, ◌+◌, ◌-◌, ◌*◌, ◌/◌, ◌%◌, ◌^◌, Bool, true, false, not, ◌&&◌, ◌||◌, Option, none,
  some, List, [], ◌∷◌, ◌++◌, ◌==◌, ltb, leb, if◌then◌else◌, is_empty, length, drop,
}
use protowire_cpp.Common.Int.{ℤ, pos, negsuc, pos_part, neg_part, ◌+ℤ◌, ◌-ℤ◌}
use protowire_cpp.Common.Text.{codes, decimal}
use protowire_cpp.Wire.{
  WireType, varint, bytes, append_tag, append_bytes, append_varint, consume_tag, consume_bytes,
  consume_varint,
}
use protowire_cpp.Wire.Skip.{consume_field_value}
use protowire_cpp.Big.{
  BigInt, Decimal, BigFloat, StatusOr, ok, error, int32_of, signed_decimal, trim_leading_zeros,
  bit_len, shift_right_rounded, shift_left,
}
use protowire_cpp.Big.Text.{max_literal_digits, scale_error}
use protowire_cpp.Big.Reduce.{reduce}

-- kMaxBigFloatExponent
abbrev pub max_float_exponent : ℕ
max_float_exponent = 16384

-- static_cast<uint64_t>
unfoldable pub uint64_of : ℤ → ℕ
uint64_of (pos n) = n % 2 ^ 64
uint64_of (negsuc n) = (2 ^ 64 - 1 - n % 2 ^ 64) % 2 ^ 64

-- Pow2Digits
unfoldable pub pow2_digits : ℕ → ℕ
pow2_digits p =
    let high = p * (0x4d104d427de7fbcc / 2 ^ 32) % 2 ^ 64 in
    let low = p * (0x4d104d427de7fbcc % 2 ^ 32) % 2 ^ 64 in
    (high + low / 2 ^ 32) % 2 ^ 64 / 2 ^ 32 + 1

-- BigFloatPrecDigits
unfoldable pub big_float_prec_digits : ℕ → ℕ
big_float_prec_digits prec = pow2_digits prec + 1

-- Whether a number is past a bound, on either side of 0.
unfoldable pub past : ℕ → ℤ → Bool
past bound n = ltb bound (pos_part n) || ltb bound (neg_part n)

-- A field of each kind, and a flag that is written when it is set.
unfoldable pub append_bytes_field : List ℕ → ℕ → List ℕ → List ℕ
append_bytes_field out num content = append_bytes (append_tag out num bytes) content

unfoldable pub append_varint_field : List ℕ → ℕ → ℕ → List ℕ
append_varint_field out num v = append_varint (append_tag out num varint) v

unfoldable pub append_flag : List ℕ → ℕ → Bool → List ℕ
append_flag out num b = if b then append_varint_field out num 1 else out

-- MarshalBigIntMsg
unfoldable pub marshal_big_int : BigInt → List ℕ → List ℕ
marshal_big_int v out =
    append_flag (if is_empty v.abs then out else append_bytes_field out 1 v.abs) 2 v.negative

-- The magnitude and the scale that MarshalDecimalMsg writes.
unfoldable pub written_decimal : List ℕ → ℤ → List ℕ × ℤ
written_decimal unscaled scale =
    let (unscaled', scale') = reduce unscaled scale in
    if leb (neg_part scale) max_literal_digits && not (pos_part scale == 0 && neg_part scale == 0)
    then (unscaled', pos scale')
    else (unscaled, scale)

unfoldable pub append_int_field : List ℕ → ℕ → ℤ → List ℕ
append_int_field out num n =
    if pos_part n == 0 && neg_part n == 0 then out else append_varint_field out num (uint64_of n)

-- MarshalDecimalMsg
unfoldable pub marshal_decimal : Decimal → List ℕ → StatusOr (List ℕ)
marshal_decimal v out =
    let (unscaled, scale) = written_decimal (trim_leading_zeros v.unscaled) v.scale in
    if is_empty (trim_leading_zeros v.unscaled)
    then ok out
    else if past max_literal_digits scale
    then error (scale_error scale)
    else ok
        (append_flag (append_int_field (append_bytes_field out 1 unscaled) 2 scale) 3 v.negative)

pub prec_error : ℕ → ℕ → List ℕ
prec_error prec bound =
    codes "pxf.BigFloat prec "
    ++ (decimal prec
        ++ (codes " implies "
            ++ (decimal (big_float_prec_digits prec)
                ++ (codes " digits; MaxNumericLiteralDigits=" ++ decimal bound))))

pub exponent_error : ℤ → ℕ → List ℕ
exponent_error binary bound =
    codes "pxf.BigFloat binary exponent "
    ++ (signed_decimal binary ++ (codes " exceeds MaxBigFloatExponent=" ++ decimal bound))

-- The end of MarshalBigFloatMsg.
unfoldable pub append_float : List ℕ → List ℕ → ℤ → ℕ → Bool → List ℕ
append_float out mantissa exponent prec negative =
    let out1 = if is_empty mantissa then out else append_bytes_field out 1 mantissa in
    append_flag (append_varint_field (append_int_field out1 2 exponent) 3 prec) 4 negative

-- The values of an int32.
unfoldable pub in_int32 : ℤ → Bool
in_int32 (pos n) = leb n (2 ^ 31 - 1)
in_int32 (negsuc n) = leb n (2 ^ 31 - 1)

-- `if (bits > prec)`: the mantissa narrowed, and the exponent. The products of int64 stay far from
-- its bounds, since an exponent is an int32 and a mantissa is shorter than 2 ^ 31 bytes.
unfoldable pub narrowed : List ℕ → ℤ → ℕ → List ℕ × ℤ
narrowed mantissa exponent prec =
    let bits = bit_len mantissa in
    if ltb prec bits
    then (shift_right_rounded mantissa (bits - prec), exponent +ℤ pos (bits - prec))
    else (mantissa, exponent)

-- The mantissa with as many bits as the precision.
unfoldable pub whole : List ℕ → ℕ → List ℕ
whole mantissa prec =
    let bits = bit_len mantissa in
    if ltb prec bits
    then shift_right_rounded mantissa (bits - prec)
    else shift_left mantissa (prec - bits)

-- MarshalBigFloatMsg for a mantissa that is not empty.
unfoldable pub marshal_mantissa : BigFloat → List ℕ → List ℕ → StatusOr (List ℕ)
marshal_mantissa v wide out =
    let (mantissa, exponent) = narrowed wide v.exponent v.prec in
    let bits = bit_len mantissa in
    let widened = exponent +ℤ pos bits -ℤ pos v.prec in
    let binary = widened +ℤ pos v.prec in
    if not (in_int32 widened)
    then error
        (codes "pxf.BigFloat exponent " ++ (signed_decimal widened ++ codes " does not fit int32"))
    else if past max_float_exponent binary
    then error (exponent_error binary max_float_exponent)
    else ok (append_float out (whole mantissa v.prec) widened v.prec v.negative)

-- MarshalBigFloatMsg
unfoldable pub marshal_big_float : BigFloat → List ℕ → StatusOr (List ℕ)
marshal_big_float v out =
    let mantissa = trim_leading_zeros v.mantissa in
    if v.prec == 0
    then ok (append_flag out 4 v.negative)
    else if ltb max_literal_digits (big_float_prec_digits v.prec)
    then error (prec_error v.prec max_literal_digits)
    else if is_empty mantissa
    then ok (append_float out [] (pos 0) v.prec v.negative)
    else marshal_mantissa v mantissa out
