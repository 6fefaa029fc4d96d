-- ===== src/Big/Text.antt =====
-- The decimal text of src/pb/big.cc: ParseBigInt, ParseDecimal, FormatBigInt and FormatDecimal.
pub mod Integers
pub mod Literals
pub mod Decimals
pub mod Scaled
use protowire_cpp.Common.{
  ℕ, zero, suc, ◌+◌, ◌-◌, ◌*◌, ◌%◌, ◌^◌, Bool, true, false, not, ◌&&◌, ◌||◌, Option, none, some,
  List, [], ◌∷◌, ◌++◌, ◌==◌, ltb, if◌then◌else◌, is_empty, length, take, drop,
}
use protowire_cpp.Common.Int.{ℤ, pos, negsuc, pos_part, neg_part, is_neg}
use protowire_cpp.Common.Text.{codes, is_digit, decimal, zeros}
use protowire_cpp.Big.{
  BigInt, Decimal, StatusOr, ok, error, int32_of, signed_decimal, trim_leading_zeros, digits_loop,
  parse_digits, format_magnitude,
}

-- kMaxNumericLiteralDigits
abbrev pub max_literal_digits : ℕ
max_literal_digits = 4096

-- The sign of a literal, and what is behind it.
unfoldable pub sign : List ℕ → Bool × List ℕ
sign [] = (false, [])
sign (c ∷ s) = if c == b'-' then (true, s) else if c == b'+' then (false, s) else (false, c ∷ s)

-- ParseBigInt
unfoldable pub parse_big_int : List ℕ → Option BigInt
parse_big_int s =
    let (negative, rest) = sign s in
    if is_empty s then none else elim (parse_digits rest []) [
      | none ↦ none
      | some abs ↦ some record { abs = abs; negative = negative && not (is_empty abs) }
    ]

-- `s.find('.', pos)`, counted from `pos`.
unfoldable pub find_dot : List ℕ → Option ℕ
find_dot [] = none
find_dot (c ∷ s) = elim (find_dot s) [
  | none ↦ if c == b'.' then some 0 else none
  | some i ↦ if c == b'.' then some 0 else some (suc i)
]

-- The text in front of the dot and behind it.
unfoldable pub cut_at_dot : List ℕ → List ℕ × List ℕ
cut_at_dot s = elim (find_dot s) [ none ↦ (s, []) | some i ↦ (take i s, drop (suc i) s) ]

-- `if (int_end > pos)`: the digits in front of the dot, if there are any.
unfoldable pub parse_whole : List ℕ → Option (List ℕ)
parse_whole whole = if is_empty whole then some [] else parse_digits whole []

-- The end of ParseDecimal, on what the digits left.
unfoldable pub decimal_of : Bool → List ℕ → List ℕ → List ℕ → Option Decimal
decimal_of negative whole part mag =
    let unscaled = trim_leading_zeros mag in
    if is_empty unscaled && (is_empty whole && is_empty part)
    then none
    else some record {
      unscaled = unscaled;
      scale = int32_of (length part);
      negative = negative && not (is_empty unscaled);
    }

-- ParseDecimal
unfoldable pub parse_decimal : List ℕ → Option Decimal
parse_decimal s =
    let (negative, rest) = sign s in
    let (whole, part) = cut_at_dot rest in
    if is_empty s then none else elim (parse_whole whole) [
      | none ↦ none
      | some mag ↦ elim (digits_loop mag part) [
        | none ↦ none
        | some mag' ↦ decimal_of negative whole part mag'
      ]
    ]

-- SignificantDigits, with the flag `leading`.
pub significant_digits : Bool → List ℕ → ℕ
significant_digits leading [] = 0
significant_digits leading (c ∷ s) =
    let skipped = significant_digits leading s in
    let counted = significant_digits false s in
    if not (is_digit c) || (leading && c == b'0') then skipped else suc counted

-- BoundLiteral
unfoldable pub bound_literal : List ℕ → List ℕ → StatusOr (List ℕ)
bound_literal kind literal =
    let n = significant_digits true literal in
    if ltb max_literal_digits (length literal) && ltb max_literal_digits n
    then error (
        kind
        ++ (codes " renders to "
            ++ (decimal n
                ++ (codes " digits; MaxNumericLiteralDigits=" ++ decimal max_literal_digits))))
    else ok literal

-- FormatBigInt
unfoldable pub format_big_int : BigInt → StatusOr (List ℕ)
format_big_int v =
    let digits = format_magnitude v.abs in
    bound_literal (codes "pxf.BigInt")
      (if v.negative && not (is_empty v.abs) then b'-' ∷ digits else digits)

pub scale_error : ℤ → List ℕ
scale_error scale =
    codes "pxf.Decimal scale "
    ++ (signed_decimal scale
        ++ (codes " exceeds MaxNumericLiteralDigits=" ++ decimal max_literal_digits))

-- The literal that FormatDecimal builds, by the sign of the scale.
unfoldable pub decimal_digits : List ℕ → ℤ → List ℕ
decimal_digits unscaled (negsuc n) =
    let digits = format_magnitude unscaled in
    if is_empty unscaled then digits else digits ++ zeros (suc n)
decimal_digits unscaled (pos zero) = format_magnitude unscaled
decimal_digits unscaled (pos (suc n)) =
    let digits = format_magnitude unscaled in
    let padded = zeros (suc n + 1 - length digits) ++ digits in
    let whole = length padded - suc n in take whole padded ++ (b'.' ∷ drop whole padded)

-- FormatDecimal
unfoldable pub format_decimal : Decimal → StatusOr (List ℕ)
format_decimal v =
    let digits = decimal_digits v.unscaled v.scale in
    if ltb max_literal_digits (pos_part v.scale) || ltb max_literal_digits (neg_part v.scale)
    then error (scale_error v.scale)
    else bound_literal (codes "pxf.Decimal")
        (if v.negative && not (is_empty v.unscaled) then b'-' ∷ digits else digits)
