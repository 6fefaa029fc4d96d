-- ===== src/Big/Text/Integers.antt =====
-- ParseBigInt and FormatBigInt of src/pb/big.cc: the integer that a literal stands for.
use protowire_cpp.Common.{
  ℕ, suc, ◌^◌, ◌≤◌, ◌<◌, ◌≡◌, refl, sym, ap, ◌∙◌, arith, List, [], ◌∷◌, ◌==◌, ◌&&◌, Option, none,
  some, Bool, true, false, not, is_empty, length, if◌then◌else◌,
}
use protowire_cpp.Common.Int.{ℤ, pos, negsuc, sub_ℕ}
use protowire_cpp.Common.Text.{is_digit}
use protowire_cpp.Big.{BigInt, ok, parse_digits, format_magnitude}
use protowire_cpp.Big.Magnitudes.{value, IsCanonical}
use protowire_cpp.Big.Digits.{
  number_from, all_digits, ReadTrimmed, parse_digits-ReadTrimmed, format_magnitude_number,
  all_digits-format_magnitude, length-format_magnitude, is_empty-format_magnitude,
}
use protowire_cpp.Big.Unique.{canonical_unique}
use protowire_cpp.Big.Text.{
  sign, parse_big_int, bound_literal, format_big_int, significant_digits, max_literal_digits,
}

-- The integer of a sign and a number.
abbrev pub signed : Bool → ℕ → ℤ
signed true n = sub_ℕ 0 n
signed false n = pos n

abbrev pub integer : BigInt → ℤ
integer v = signed v.negative (value v.abs)

-- The integer of one digit or more, and of no other text.
abbrev digits_integer : Bool → List ℕ → Option ℤ
digits_integer negative digits =
    if not (is_empty digits) && all_digits digits
    then some (signed negative (number_from 0 digits))
    else none

-- The integer of a literal: digits behind a '-' or a '+', or digits alone.
pub literal_integer : List ℕ → Option ℤ
literal_integer [] = none
literal_integer (c ∷ s) =
    if c == b'-'
    then digits_integer true s
    else if c == b'+'
    then digits_integer false s
    else digits_integer false (c ∷ s)

literal_integer-cut : (s : List ℕ) → literal_integer s ≡ digits_integer (sign s).0 (sign s).1
unfolding literal_integer sign
literal_integer-cut [] = refl
literal_integer-cut (c ∷ s) = ground arith

-- No leading zero byte, and no sign on a zero.
pub record IsValue (v : BigInt) : Type 0 where
  pub magnitude : IsCanonical v.abs
  pub sign : v.abs ≡ [] → v.negative ≡ false

abbrev pub Parses : Option BigInt → Option ℤ → Type 0
Parses none n = n ≡ none
Parses (some v) n = IsValue v × (n ≡ some (integer v))

and-false : (b : Bool) → (b && false) ≡ false
and-false true = refl
and-false false = refl

and-true : (b : Bool) → (b && true) ≡ b
and-true true = refl
and-true false = refl

signed_zero : (b : Bool) (n : ℕ) → 0 ≡ n → signed b n ≡ pos 0
signed_zero true n e = rw (sym e) refl
signed_zero false n e = rw (sym e) refl

parsed_Parses :
    (negative : Bool) (digits : Bool) (n : ℕ) (o : Option (List ℕ))
    → ReadTrimmed o digits n
    → Parses
        (elim o [
          | none ↦ none
          | some abs ↦ some record { abs = abs; negative = negative && not (is_empty abs) }
        ])
        (if digits then some (signed negative n) else none)
parsed_Parses negative digits n none k = rw k refl
parsed_Parses negative digits n (some []) (k, t, v) = rw k (
  record { magnitude = t; sign = λ e. and-false negative },
  ap some (signed_zero negative n v ∙ sym (signed_zero (negative && false) 0 refl)),
)
parsed_Parses negative digits n (some (b ∷ abs)) (k, t, v) = rw k (
  record { magnitude = t; sign = λ e. ground arith },
  ap some (rw (and-true negative) (ap (signed negative) (sym v))),
)

-- ParseBigInt accepts one digit or more, alone or behind a '-' or a '+', and nothing else, and it
-- returns the integer that this stands for, negative behind the '-', in the one form with no leading zero byte and no sign on a zero.
pub parse_big_int-Parses : (s : List ℕ) → Parses (parse_big_int s) (literal_integer s)
unfolding parse_big_int
parse_big_int-Parses [] = unfold literal_integer in refl
parse_big_int-Parses (c ∷ s) = rw (literal_integer-cut (c ∷ s)) (
    parsed_Parses (sign (c ∷ s)).0 _ _ (parse_digits (sign (c ∷ s)).1 [])
      (parse_digits-ReadTrimmed (sign (c ∷ s)).1 [] 0 record { bytes = tt; number = refl }))

minus : ℤ → ℕ
minus (negsuc n) = suc n
minus (pos n) = 0

minus-signed : (m : ℕ) → minus (signed true m) ≡ m
unfolding minus
minus-signed m = ground arith

signed_injective :
    (a b : Bool) (m n : ℕ)
    → (m ≡ 0 → a ≡ false)
    → (n ≡ 0 → b ≡ false)
    → signed a m ≡ signed b n
    → (a ≡ b) × (m ≡ n)
unfolding minus
signed_injective true true m n h k e = (refl, sym (minus-signed m) ∙ ap minus e ∙ minus-signed n)
signed_injective true false m n h k e =
    absurd (ground (arith, h (sym (minus-signed m) ∙ ap minus e)))
signed_injective false true m n h k e =
    absurd (ground (arith, k (sym (minus-signed n) ∙ ap minus (sym e))))
signed_injective false false m n h k e = (refl, ground arith)

zero_value : (v : BigInt) → IsValue v → value v.abs ≡ 0 → v.negative ≡ false
zero_value v h e = h.sign (canonical_unique v.abs [] h.magnitude (tt, tt) e)

value_unique : (v w : BigInt) → IsValue v → IsValue w → integer v ≡ integer w → v ≡ w
value_unique v w hv hw e =
    let (k1, k2) =
      signed_injective v.negative w.negative (value v.abs) (value w.abs) (zero_value v hv)
        (zero_value w hw) e in
    let same = canonical_unique v.abs w.abs hv.magnitude hw.magnitude k2 in
    λ i. record { abs = same i; negative = k1 i }

pub bound_literal-ok : (kind literal s : List ℕ) → bound_literal kind literal ≡ ok s → s ≡ literal
unfolding bound_literal
bound_literal-ok kind literal s e = ground arith

-- Whether a literal starts with a digit.
abbrev pub digit_first : List ℕ → Bool
digit_first [] = false
digit_first (c ∷ s) = is_digit c

sign-digits : (s : List ℕ) → digit_first s ≡ true → sign s ≡ (false, s)
unfolding sign
sign-digits [] h = absurd (ground arith)
sign-digits (c ∷ s) h = ground arith

pub digit_first-all_digits :
    (s : List ℕ) → is_empty s ≡ false → all_digits s ≡ true → digit_first s ≡ true
digit_first-all_digits [] h k = absurd (ground arith)
digit_first-all_digits (c ∷ s) h k = ground arith

-- A literal of a sign and digits, by what `sign` makes of it.
literal_integer-sign :
    (s digits : List ℕ) (b : Bool)
    → sign s ≡ (b, digits)
    → is_empty digits ≡ false
    → all_digits digits ≡ true
    → literal_integer s ≡ some (signed b (number_from 0 digits))
literal_integer-sign s digits b e h k = rw (literal_integer-cut s, e, h, k) refl

-- The sign in front of the digits, as the formatters write it.
pub sign-written :
    (negative : Bool) (mag digits : List ℕ)
    → (mag ≡ [] → negative ≡ false)
    → digit_first digits ≡ true
    → sign (if negative && not (is_empty mag) then b'-' ∷ digits else digits) ≡ (negative, digits)
unfolding sign
sign-written true [] digits h k = absurd (ground (arith, h refl))
sign-written true (b ∷ rest) digits h k = refl
sign-written false mag digits h k = sign-digits digits k

-- A literal that FormatBigInt gives is read back.
read_back :
    (v : BigInt) (s : List ℕ) → IsValue v → format_big_int v ≡ ok s → parse_big_int s ≡ some v
unfolding format_big_int
read_back v s h e =
    let digits = format_magnitude v.abs in
    let some_digit = is_empty-format_magnitude v.abs in
    let all = all_digits-format_magnitude v.abs (h.magnitude.0) in
    let number = format_magnitude_number v.abs (h.magnitude.0) in
    let written = bound_literal-ok _ _ s e in
    let read =
      literal_integer-sign s digits v.negative
        (ap sign written
          ∙ sign-written v.negative v.abs digits h.sign
              (digit_first-all_digits digits some_digit all))
        some_digit all in
    parsed_value (parse_big_int s) (literal_integer s) v (parse_big_int-Parses s) h
      (read ∙ ap (λ n. some (signed v.negative n)) number)
  where
    parsed_value :
        (o : Option BigInt) (n : Option ℤ) (v : BigInt)
        → Parses o n
        → IsValue v
        → n ≡ some (integer v)
        → o ≡ some v
    parsed_value none n v k hv e = absurd (ground arith)
    parsed_value (some w) n v (kw, k) hv e = ap some (value_unique w v kw hv (ground arith))

pub significant_digits-le : (b : Bool) (s : List ℕ) → significant_digits b s ≤ length s
unfolding significant_digits
significant_digits-le b [] = omega arith
significant_digits-le b (c ∷ s) =
    ground (arith, significant_digits-le b s, significant_digits-le false s)

pub bound_literal-small :
    (kind literal : List ℕ)
    → significant_digits true literal ≤ max_literal_digits
    → bound_literal kind literal ≡ ok literal
unfolding bound_literal
bound_literal-small kind literal h = ground arith

-- A sign is no digit.
pub signed_digits-le :
    (b : Bool) (digits : List ℕ) (k : ℕ)
    → significant_digits true digits ≤ k
    → significant_digits true (if b then b'-' ∷ digits else digits) ≤ k
unfolding significant_digits
signed_digits-le true digits k h = h
signed_digits-le false digits k h = h

-- An integer in its one form whose magnitude has at most 4096 decimal digits has a literal, and
-- ParseBigInt reads the integer back from the literal that FormatBigInt gives.
pub parse_big_int-format_big_int :
    (v : BigInt)
    → IsValue v
    → value v.abs < 10 ^ max_literal_digits
    → (s : List ℕ) × (format_big_int v ≡ ok s) × (parse_big_int s ≡ some v)
unfolding format_big_int
parse_big_int-format_big_int v h hv =
    let few = length-format_magnitude max_literal_digits v.abs h.magnitude (omega arith) hv in
    let e = bound_literal-small _ _ (
      signed_digits-le (v.negative && not (is_empty v.abs)) (format_magnitude v.abs)
        max_literal_digits
        (omega (arith, few, significant_digits-le true (format_magnitude v.abs)))) in
    (_, e, read_back v _ h e)
