-- ===== src/Big/Text/Scaled.antt =====
-- FormatDecimal of src/pb/big.cc, and ParseDecimal behind it.
use protowire_cpp.Common.{
  ℕ, zero, suc, ◌+◌, ◌-◌, ◌^◌, ◌≤◌, ◌<◌, ◌≡◌, refl, sym, ap, ◌∙◌, arith, List, [], ◌∷◌, ◌++◌, ◌&&◌,
  append-nil, Option, none, some, Bool, true, false, not, is_empty, length, take, drop,
  length-append, length-drop, take-append-drop, if◌then◌else◌, inl, inr,
}
use protowire_cpp.Common.Int.{pos}
use protowire_cpp.Common.Text.{zeros, codes}
use protowire_cpp.Big.{Decimal, ok, int32_of, format_magnitude}
use protowire_cpp.Big.Magnitudes.{value, IsBytes}
use protowire_cpp.Big.Digits.{
  number_from, all_digits, format_magnitude_number, all_digits-format_magnitude,
  is_empty-format_magnitude, length-format_magnitude,
}
use protowire_cpp.Big.Unique.{canonical_unique}
use protowire_cpp.Big.Text.{
  sign, cut_at_dot, parse_decimal, bound_literal, decimal_digits, format_decimal,
  significant_digits, max_literal_digits,
}
use protowire_cpp.Big.Text.Literals.{
  all_digits-append, zeros_number, all_digits-zeros, length-zeros, significant_digits-zeros,
  significant_digits-dot, cut_at_dot-digits, cut_at_dot-append,
}
use protowire_cpp.Big.Text.Decimals.{IsDecimal, ReadDecimal, parse_decimal-cut}
use protowire_cpp.Big.Text.Integers.{
  digit_first, digit_first-all_digits, sign-written, significant_digits-le, signed_digits-le,
  bound_literal-small,
}

-- The digits and the dot that FormatDecimal writes for a scale of 0 or more.
record Written (unscaled : List ℕ) (n : ℕ) (text whole part : List ℕ) : Type 0 where
  first : digit_first text ≡ true
  cut : cut_at_dot text ≡ (whole, part)
  all : all_digits (whole ++ part) ≡ true
  some_digit : is_empty (whole ++ part) ≡ false
  number : number_from 0 (whole ++ part) ≡ value unscaled
  places : length part ≡ n
  few : (k : ℕ) → length (format_magnitude unscaled) ≤ k → significant_digits true text ≤ k

first_taken :
    (s t : List ℕ) (w : ℕ)
    → 1 ≤ w
    → w ≤ length s
    → all_digits s ≡ true
    → digit_first (take w s ++ t) ≡ true
first_taken s t zero h k e = absurd (omega arith)
first_taken [] t (suc w) h k e = absurd (omega arith)
first_taken (c ∷ s) t (suc w) h k e = ground arith

and-left : (a b : Bool) → (a && b) ≡ true → a ≡ true
and-left true b e = refl
and-left false b e = e

with_dot :
    (unscaled padded : List ℕ) (w n : ℕ)
    → w + n ≡ length padded
    → 1 ≤ w
    → all_digits padded ≡ true
    → number_from 0 padded ≡ value unscaled
    → significant_digits true padded ≤ length (format_magnitude unscaled)
    → Written unscaled n (take w padded ++ (b'.' ∷ drop w padded)) (take w padded) (drop w padded)
with_dot unscaled padded w n e h k1 k2 k3 =
    let whole = take w padded in
    let part = drop w padded in
    let joined : whole ++ part ≡ padded = take-append-drop w padded in
    let digits = and-left _ _ (sym (all_digits-append whole part) ∙ ap all_digits joined ∙ k1) in
    record {
      first = first_taken padded (b'.' ∷ part) w h (omega arith) k1;
      cut = cut_at_dot-append whole part digits;
      all = ap all_digits joined ∙ k1;
      some_digit = ap is_empty joined ∙ filled padded (omega arith);
      number = ap (number_from 0) joined ∙ k2;
      places = omega (arith, length-drop w padded (omega arith));
      few = λ k hk.
          omega
            (arith, significant_digits-dot true whole part, ap (significant_digits true) joined);
    }
  where
    filled : (s : List ℕ) → 1 ≤ length s → is_empty s ≡ false
    filled [] h = absurd (omega arith)
    filled (c ∷ s) h = refl

decimal_digits-Written :
    (unscaled : List ℕ) (n : ℕ)
    → IsBytes unscaled
    → (whole : List ℕ) × (part : List ℕ) × Written unscaled n
        (decimal_digits unscaled (pos n))
        whole
        part
unfolding decimal_digits
decimal_digits-Written unscaled zero h =
    let digits = format_magnitude unscaled in
    let all = all_digits-format_magnitude unscaled h in
    let some_digit = is_empty-format_magnitude unscaled in
    let same = append-nil digits in
    (
      digits,
      [],
      record {
        first = digit_first-all_digits digits some_digit all;
        cut = cut_at_dot-digits digits all;
        all = ap all_digits same ∙ all;
        some_digit = ap is_empty same ∙ some_digit;
        number = ap (number_from 0) same ∙ format_magnitude_number unscaled h;
        places = refl;
        few = λ k hk. omega (arith, significant_digits-le true digits);
      },
    )
decimal_digits-Written unscaled (suc n) h =
    let digits = format_magnitude unscaled in
    let k = suc n + 1 - length digits in
    (
      _,
      _,
      with_dot unscaled (zeros k ++ digits) (length (zeros k ++ digits) - suc n) (suc n)
          (omega (arith, length-append (zeros k) digits, length-zeros k))
          (omega (arith, length-append (zeros k) digits, length-zeros k))
          (all_digits-zeros k digits (all_digits-format_magnitude unscaled h))
          (zeros_number k digits ∙ format_magnitude_number unscaled h)
          (omega (arith, significant_digits-zeros k digits, significant_digits-le true digits)),
    )

kept_sign : (b : Bool) (mag : List ℕ) → (mag ≡ [] → b ≡ false) → (b && not (is_empty mag)) ≡ b
kept_sign true [] h = sym (h refl)
kept_sign true (x ∷ mag) h = refl
kept_sign false mag h = refl

-- A decimal is its digits, its scale and its sign.
decimal_unique :
    (o : Option Decimal) (v : Decimal) (negative : Bool) (whole part : List ℕ)
    → IsDecimal v
    → ReadDecimal o negative whole part
    → is_empty (whole ++ part) ≡ false
    → all_digits (whole ++ part) ≡ true
    → number_from 0 (whole ++ part) ≡ value v.unscaled
    → int32_of (length part) ≡ v.scale
    → negative ≡ v.negative
    → o ≡ some v
decimal_unique none v negative whole part h (inl k) e1 e2 e3 e4 e5 = absurd (ground arith)
decimal_unique none v negative whole part h (inr k) e1 e2 e3 e4 e5 = absurd (ground arith)
decimal_unique (some w) v negative whole part h (kw, k1, k2, k3, k4, k5) e1 e2 e3 e4 e5 =
    let same = canonical_unique w.unscaled v.unscaled kw.magnitude h.magnitude (k3 ∙ e3) in
    let sign : w.negative ≡ v.negative =
      k5
      ∙ ap (λ m. negative && not (is_empty m)) same
      ∙ ap (λ b. b && not (is_empty v.unscaled)) e5
      ∙ kept_sign v.negative v.unscaled h.sign in
    ap some λ i. record { unscaled = same i; scale = (k4 ∙ e4) i; negative = sign i }

small_int32 : (n : ℕ) → n ≤ max_literal_digits → int32_of n ≡ pos n
unfolding int32_of
small_int32 n h = ground arith

in_bounds :
    (v : Decimal) (n : ℕ)
    → v.scale ≡ pos n
    → n ≤ max_literal_digits
    → format_decimal v
      ≡ bound_literal (codes "pxf.Decimal") (
          if v.negative && not (is_empty v.unscaled)
          then b'-' ∷ decimal_digits v.unscaled (pos n)
          else decimal_digits v.unscaled (pos n))
unfolding format_decimal
in_bounds v n e h = rw e (ground arith)

-- What ParseDecimal leaves of a literal, by its sign and its cut.
read_parts :
    (literal text whole part : List ℕ) (b : Bool)
    → sign literal ≡ (b, text)
    → cut_at_dot text ≡ (whole, part)
    → ReadDecimal (parse_decimal literal) b whole part
read_parts literal text whole part b e k = rw (e, k) at (parse_decimal-cut literal)

-- A decimal in its one form of a scale from 0 to 4096 and of at most 4096 decimal digits has a
-- literal, and ParseDecimal reads the decimal back, its scale included, from what FormatDecimal gives.
pub parse_decimal-format_decimal :
    (v : Decimal) (n : ℕ)
    → IsDecimal v
    → v.scale ≡ pos n
    → n ≤ max_literal_digits
    → value v.unscaled < 10 ^ max_literal_digits
    → (s : List ℕ) × (format_decimal v ≡ ok s) × (parse_decimal s ≡ some v)
unfolding format_decimal
parse_decimal-format_decimal v n h e hn hv =
    let (whole, part, k) = decimal_digits-Written v.unscaled n h.magnitude.0 in
    let text = decimal_digits v.unscaled (pos n) in
    let literal = (if v.negative && not (is_empty v.unscaled) then b'-' ∷ text else text) in
    let length_lem =
      length-format_magnitude max_literal_digits v.unscaled h.magnitude (omega arith) hv in
    let few =
      signed_digits-le (v.negative && not (is_empty v.unscaled)) text max_literal_digits
        (k.few max_literal_digits length_lem) in
    let read = sign-written v.negative v.unscaled text h.sign k.first in
    (
      literal,
      in_bounds v n e hn ∙ bound_literal-small _ _ few,
      decimal_unique (parse_decimal literal) v v.negative whole part h
          (read_parts literal text whole part v.negative read k.cut) k.some_digit k.all k.number
          (rw (k.places, e) (small_int32 n hn)) refl,
    )
