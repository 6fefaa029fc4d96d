-- ===== src/Big/Unmarshal.antt =====
-- UnmarshalBigIntMsg, UnmarshalDecimalMsg and UnmarshalBigFloatMsg of src/pb/big.cc, with ReadFields.
pub mod Fields
pub mod RoundTrip
pub mod Kept
pub mod Accepted
pub mod Floats
pub mod FloatFields
pub mod FloatRoundTrip
mod Tests
pub mod Decimals
use protowire_cpp.Common.{
  ℕ, zero, suc, ◌+◌, ◌-◌, ◌*◌, ◌/◌, ◌%◌, ◌^◌, Bool, true, false, not, ◌&&◌, ◌||◌, Option, none,
  some, List, [], ◌∷◌, ◌++◌, ◌==◌, ltb, leb, if◌then◌else◌, is_empty, length, drop,
}
use protowire_cpp.Common.Int.{ℤ, pos, negsuc, pos_part, neg_part, ◌+ℤ◌, ◌-ℤ◌}
use protowire_cpp.Common.Text.{codes, decimal}
use protowire_cpp.Wire.{WireType, consume_tag, consume_bytes, consume_varint}
use protowire_cpp.Wire.Skip.{consume_field_value}
use protowire_cpp.Big.{
  BigInt, Decimal, BigFloat, StatusOr, ok, error, int32_of, signed_decimal, trim_leading_zeros,
  bit_len,
}
use protowire_cpp.Big.Text.{max_literal_digits}
use protowire_cpp.Big.Marshal.{
  max_float_exponent, big_float_prec_digits, past, prec_error, exponent_error, narrowed,
}

-- What the lambda of a message leaves of a field: the message and `consumed`, or its status.
abbrev pub Field : Type 0 → Type 0
Field A = StatusOr (A × ℕ)

-- A field of bytes and one of a varint, whatever its wire type says.
pub bytes_field : {A : Type 0} → List ℕ → List ℕ → (List ℕ → A) → Field A
bytes_field what span keep = elim (consume_bytes span) [
  | none ↦ error (codes "corrupt " ++ what)
  | some (b, n) ↦ ok (keep b, n)
]

pub varint_field : {A : Type 0} → List ℕ → List ℕ → (ℕ → A) → Field A
varint_field what span keep = elim (consume_varint span) [
  | none ↦ error (codes "corrupt " ++ what)
  | some (x, n) ↦ ok (keep x, n)
]

-- The lambda of UnmarshalBigIntMsg.
pub int_field : List ℕ → ℕ → BigInt → Field BigInt
int_field span num v =
    if num == 1
    then bytes_field (codes "abs in BigInt") span (λ b. record { abs = b; negative = v.negative })
    else if num == 2
    then varint_field (codes "negative in BigInt") span
        (λ x. record { abs = v.abs; negative = not (x == 0) })
    else ok (v, 0)

-- The lambda of UnmarshalDecimalMsg.
pub decimal_field : List ℕ → ℕ → Decimal → Field Decimal
decimal_field span num v =
    if num == 1
    then bytes_field (codes "unscaled in Decimal") span
        (λ b. record { unscaled = b; scale = v.scale; negative = v.negative })
    else if num == 2
    then varint_field (codes "scale in Decimal") span
        (λ x. record { unscaled = v.unscaled; scale = int32_of x; negative = v.negative })
    else if num == 3
    then varint_field (codes "negative in Decimal") span
        (λ x. record { unscaled = v.unscaled; scale = v.scale; negative = not (x == 0) })
    else ok (v, 0)

-- The lambda of UnmarshalBigFloatMsg.
pub float_field : List ℕ → ℕ → BigFloat → Field BigFloat
float_field span num v =
    if num == 1
    then bytes_field (codes "mantissa in BigFloat") span
        (λ b. record { mantissa = b; exponent = v.exponent; prec = v.prec; negative = v.negative })
    else if num == 2
    then varint_field (codes "exponent in BigFloat") span (λ x. record {
      mantissa = v.mantissa;
      exponent = int32_of x;
      prec = v.prec;
      negative = v.negative;
    })
    else if num == 3
    then varint_field (codes "prec in BigFloat") span (λ x. record {
      mantissa = v.mantissa;
      exponent = v.exponent;
      prec = x % 2 ^ 32;
      negative = v.negative;
    })
    else if num == 4
    then varint_field (codes "negative in BigFloat") span (λ x. record {
      mantissa = v.mantissa;
      exponent = v.exponent;
      prec = v.prec;
      negative = not (x == 0);
    })
    else ok (v, 0)

-- The body of the loop behind ConsumeTag: the message, and how much of the span it took.
pub one_field :
    {A : Type 0} → List ℕ → (List ℕ → ℕ → A → Field A) → ℕ → WireType → List ℕ → A → Field A
one_field message fn num type span out = elim (fn span num out) [
  | error msg ↦ error msg
  | ok (out', consumed) ↦
      if not (consumed == 0)
      then ok (out', consumed)
      else elim (consume_field_value span num type) [
        | none ↦ error (codes "corrupt field " ++ (decimal num ++ (codes " in " ++ message)))
        | some skipped ↦ ok (out', skipped)
      ]
]

-- ReadFields. Each round takes a byte at least, so `length span` rounds are enough, and the empty error
-- below is never reached from there.
pub read_fields : {A : Type 0} → List ℕ → (List ℕ → ℕ → A → Field A) → ℕ → List ℕ → A → StatusOr A
read_fields message fn rounds [] out = ok out
read_fields message fn zero span out = error []
read_fields message fn (suc rounds) (b ∷ rest) out = elim (consume_tag (b ∷ rest)) [
  | none ↦ error (codes "corrupt tag in " ++ message)
  | some (num, type, n) ↦ elim (one_field message fn num type (drop n (b ∷ rest)) out) [
    | error msg ↦ error msg
    | ok (out', consumed) ↦ read_fields message fn rounds (drop consumed (drop n (b ∷ rest))) out'
  ]
]

pub read_message : {A : Type 0} → List ℕ → (List ℕ → ℕ → A → Field A) → List ℕ → A → StatusOr A
read_message message fn span out = read_fields message fn (length span) span out

-- UnmarshalBigIntMsg
pub unmarshal_big_int : List ℕ → StatusOr BigInt
unmarshal_big_int span =
    elim (read_message (codes "BigInt") int_field span record { abs = []; negative = false }) [
      | error msg ↦ error msg
      | ok v ↦
          let abs = trim_leading_zeros v.abs in
          ok record { abs = abs; negative = v.negative && not (is_empty abs) }
    ]

-- A limit of 0 or less means the default.
pub positive_or : ℤ → ℕ → ℕ
positive_or limit default = if pos_part limit == 0 then default else pos_part limit

pub scale_past : ℤ → ℕ → List ℕ
scale_past scale bound =
    codes "pxf.Decimal scale "
    ++ (signed_decimal scale ++ (codes " exceeds MaxNumericLiteralDigits=" ++ decimal bound))

-- UnmarshalDecimalMsg behind ReadFields.
pub checked_decimal : ℕ → Decimal → StatusOr Decimal
checked_decimal max_digits v =
    let unscaled = trim_leading_zeros v.unscaled in
    if past max_digits v.scale
    then error (scale_past v.scale max_digits)
    else ok record {
      unscaled = unscaled;
      scale = v.scale;
      negative = v.negative && not (is_empty unscaled);
    }

-- UnmarshalDecimalMsg
pub unmarshal_decimal : List ℕ → ℤ → StatusOr Decimal
unmarshal_decimal span max_digits =
    elim (read_message (codes "Decimal") decimal_field span
      record { unscaled = []; scale = pos 0; negative = false }) [
        | error msg ↦ error msg
        | ok v ↦ checked_decimal (positive_or max_digits max_literal_digits) v
      ]

pub with_mantissa : BigFloat → List ℕ → ℤ → BigFloat
with_mantissa v mantissa exponent = record {
  mantissa = mantissa;
  exponent = exponent;
  prec = v.prec;
  negative = v.negative;
}

-- UnmarshalBigFloatMsg behind TrimLeadingZeros, for a mantissa that is not empty. The int64 sums are
-- of an int32 and of a bit length, and an int32 follows the last test.
pub rounded_float : ℕ → BigFloat → List ℕ → StatusOr BigFloat
rounded_float max_exponent v mantissa =
    let bits = bit_len mantissa in
    let binary = v.exponent +ℤ pos bits in
    let (mantissa', exponent) = narrowed mantissa v.exponent v.prec in
    if past max_exponent binary
    then error (exponent_error binary max_exponent)
    else if ltb (2 ^ 31 - 1) (pos_part (exponent +ℤ pos (bit_len mantissa')))
    then error (
        codes "pxf.BigFloat exponent "
        ++ (signed_decimal v.exponent
            ++ (codes " with a " ++ (decimal bits ++ codes "-bit mantissa overflows big.Float"))))
    else ok (with_mantissa v mantissa' exponent)

-- UnmarshalBigFloatMsg behind ReadFields.
pub checked_float : ℕ → ℕ → BigFloat → StatusOr BigFloat
checked_float max_exponent max_digits v =
    let mantissa = trim_leading_zeros v.mantissa in
    if v.prec == 0
    then ok (with_mantissa v [] (pos 0))
    else if ltb max_digits (big_float_prec_digits v.prec)
    then error (prec_error v.prec max_digits)
    else if bit_len mantissa == 0
    then ok (with_mantissa v mantissa (pos 0))
    else rounded_float max_exponent v mantissa

-- UnmarshalBigFloatMsg
pub unmarshal_big_float : List ℕ → ℤ → ℤ → StatusOr BigFloat
unmarshal_big_float span max_exponent max_digits =
    elim (read_message (codes "BigFloat") float_field span
      record { mantissa = []; exponent = pos 0; prec = 0; negative = false }) [
        | error msg ↦ error msg
        | ok v ↦
            checked_float (positive_or max_exponent max_float_exponent)
              (positive_or max_digits max_literal_digits) v
      ]
