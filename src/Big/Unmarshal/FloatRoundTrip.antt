-- ===== src/Big/Unmarshal/FloatRoundTrip.antt =====
-- UnmarshalBigFloatMsg of src/pb/big.cc on what MarshalBigFloatMsg writes.
use protowire_cpp.Common.{
  ℕ, ◌+◌, ◌-◌, ◌*◌, ◌^◌, ◌≤◌, ◌<◌, ◌≡◌, refl, sym, ap, ◌∙◌, arith, Bool, true, false, ◌⊎◌, inl, inr,
  List, [], ◌∷◌, ltb, ◌==◌, is_empty, length,
}
use native.Mathlib.Nat.{pow-le-pow_right}
use protowire_cpp.Common.Int.{ℤ, pos, pos_part, ◌+ℤ◌}
use protowire_cpp.Big.{BigFloat, ok, bit_len, trim_leading_zeros}
use protowire_cpp.Big.Magnitudes.{value, IsBytes, IsCanonical, trim_same, trim_value}
use protowire_cpp.Big.Text.{max_literal_digits}
use protowire_cpp.Big.Marshal.{
  append_flag, in_int32, past, max_float_exponent, big_float_prec_digits, narrowed, append_float,
  marshal_big_float,
}
use protowire_cpp.Big.Marshal.Floats.{bit_len_exact}
use protowire_cpp.Big.Marshal.Written.{Rounded, unset, nothing, number, marshal_big_float-Written}
use protowire_cpp.Big.Unmarshal.{
  unmarshal_big_float, checked_float, rounded_float, with_mantissa, positive_or,
}
use protowire_cpp.Big.Unmarshal.FloatFields.{
  float_with, read_float, read_number, read_nothing, read_unset,
}

-- A mantissa of `prec` bits has fewer bytes.
few_bytes : (w : List ℕ) (prec : ℕ) → bit_len w ≡ prec → 8 * length w ≤ prec + 8
unfolding bit_len
few_bytes [] prec e = omega arith
few_bytes (b ∷ rest) prec e = omega arith

decoded_float :
    (span w : List ℕ) (n : ℤ) (prec : ℕ) (b : Bool)
    → read_float span (float_with [] (pos 0) 0 false) ≡ ok (float_with w n prec b)
    → checked_float max_float_exponent max_literal_digits (float_with w n prec b)
      ≡ ok (float_with w n prec b)
    → unmarshal_big_float span (pos 0) (pos 0) ≡ ok (float_with w n prec b)
unfolding unmarshal_big_float positive_or
decoded_float span w n prec b e k = rw (unmarshal_big_float, e) k

-- UnmarshalBigFloatMsg keeps a mantissa of as many bits as the precision.
narrowed_same : (w : List ℕ) (n : ℤ) (prec : ℕ) → bit_len w ≡ prec → narrowed w n prec ≡ (w, n)
unfolding narrowed
narrowed_same w n prec e = let same : ltb prec (bit_len w) ≡ false = ground arith in rw same refl

in_bound : (n : ℤ) → past max_float_exponent n ≡ false → ltb (2 ^ 31 - 1) (pos_part n) ≡ false
unfolding past
in_bound n h = ground arith

rounded_same :
    (w : List ℕ) (v : BigFloat)
    → bit_len w ≡ v.prec
    → past max_float_exponent (v.exponent +ℤ pos v.prec) ≡ false
    → rounded_float max_float_exponent v w ≡ ok (with_mantissa v w v.exponent)
unfolding rounded_float
rounded_same w v e h =
    rw (rounded_float, narrowed_same w v.exponent v.prec e, e, h, in_bound _ h) refl

checked_same :
    (w : List ℕ) (n : ℤ) (prec : ℕ) (b : Bool)
    → IsCanonical w
    → bit_len w ≡ prec
    → 1 ≤ prec
    → big_float_prec_digits prec ≤ max_literal_digits
    → past max_float_exponent (n +ℤ pos prec) ≡ false
    → checked_float max_float_exponent max_literal_digits (float_with w n prec b)
      ≡ ok (float_with w n prec b)
unfolding checked_float with_mantissa
checked_same w n prec b c e hp few h =
    let some : (prec == 0) ≡ false = ground arith in
    let short : ltb max_literal_digits (big_float_prec_digits prec) ≡ false = ground arith in
    let filled : (bit_len w == 0) ≡ false = ground arith in
    rw (checked_float, some, short, trim_same w c.1, filled)
      (rounded_same w (float_with w n prec b) e h)

checked_zero :
    (prec : ℕ) (b : Bool)
    → big_float_prec_digits prec ≤ max_literal_digits
    → checked_float max_float_exponent max_literal_digits (float_with [] (pos 0) prec b)
      ≡ ok (float_with [] (pos 0) prec b)
unfolding checked_float with_mantissa trim_leading_zeros bit_len
checked_zero prec b few = ground arith

checked_unset :
    (b : Bool)
    → checked_float max_float_exponent max_literal_digits (float_with [] (pos 0) 0 b)
      ≡ ok (float_with [] (pos 0) 0 b)
unfolding checked_float with_mantissa
checked_unset b = refl

-- The float that comes back: of the same precision and sign, with no mantissa for a zero or for
-- precision 0, and else with the number rounded to the precision.
pub record ReadBack (v w : BigFloat) : Type 0 where
  pub prec : w.prec ≡ v.prec
  pub sign : w.negative ≡ v.negative
  pub zero : (v.prec ≡ 0) ⊎ (value v.mantissa ≡ 0) → (w.mantissa ≡ []) × (w.exponent ≡ pos 0)
  pub number :
      1 ≤ v.prec
      → 1 ≤ value v.mantissa
      → Rounded (trim_leading_zeros v.mantissa) v.exponent v.prec w.mantissa w.exponent

abbrev Returned : BigFloat → List ℕ → Type 0
Returned v span = (w : BigFloat) × (unmarshal_big_float span (pos 0) (pos 0) ≡ ok w) × ReadBack v w

zero-Returned :
    (v : BigFloat) (span : List ℕ)
    → (v.prec ≡ 0) ⊎ (value v.mantissa ≡ 0)
    → unmarshal_big_float span (pos 0) (pos 0) ≡ ok (float_with [] (pos 0) v.prec v.negative)
    → Returned v span
zero-Returned v span none e = (
  float_with [] (pos 0) v.prec v.negative,
  e,
  record {
    prec = refl;
    sign = refl;
    zero = λ x. (refl, refl);
    number = λ hp some. elim none [ inl z ↦ absurd (omega arith) | inr z ↦ absurd (omega arith) ];
  },
)

number-Returned :
    (v : BigFloat) (w : List ℕ) (n : ℤ)
    → v.prec < 2 ^ 32
    → 1 ≤ v.prec
    → big_float_prec_digits v.prec ≤ max_literal_digits
    → 1 ≤ value (trim_leading_zeros v.mantissa)
    → Rounded (trim_leading_zeros v.mantissa) v.exponent v.prec w n
    → in_int32 n ≡ true
    → past max_float_exponent (n +ℤ pos v.prec) ≡ false
    → Returned v (append_float [] w n v.prec v.negative)
number-Returned v w n hw hp few some k hn h =
    let one : 2 ≤ 2 ^ v.prec = pow-le-pow_right {n = 2} (omega arith) {i = 1} {j = v.prec} hp in
    let filled = k.full in
    let bits = bit_len_exact w v.prec k.magnitude (omega arith) k.full k.fits in
    let bytes = few_bytes w v.prec bits in
    (
      float_with w n v.prec v.negative,
      decoded_float (append_float [] w n v.prec v.negative) w n v.prec v.negative
          (read_number w n v.prec v.negative (omega arith) (some_byte w (omega arith)) hn hw)
          (checked_same w n v.prec v.negative k.magnitude bits hp few h),
      record { prec = refl; sign = refl; zero = λ x. absurd (nonzero x); number = λ hp' some'. k },
    )
  where
    some_byte : (mag : List ℕ) → 1 ≤ value mag → is_empty mag ≡ false
    some_byte [] h = absurd (omega arith)
    some_byte (b ∷ rest) h = refl

    nonzero : (v.prec ≡ 0) ⊎ (value v.mantissa ≡ 0) → ⊥
    nonzero (inl z) = omega arith
    nonzero (inr z) = omega (arith, trim_value v.mantissa)

-- UnmarshalBigFloatMsg accepts what MarshalBigFloatMsg wrote. The float it leaves has the precision
-- and the sign of the one that was written. A zero, or precision 0, comes back with no mantissa and
-- exponent 0. Any other number comes back rounded half to even to the bits of the precision, exactly
-- where it has no more of them, as a mantissa with just these bits and no leading zero byte. The
-- precision is a uint32.
pub unmarshal_big_float-marshal_big_float :
    (v : BigFloat) (span : List ℕ)
    → IsBytes v.mantissa
    → v.prec < 2 ^ 32
    → marshal_big_float v [] ≡ ok span
    → (w : BigFloat) × (unmarshal_big_float span (pos 0) (pos 0) ≡ ok w) × ReadBack v w
unmarshal_big_float-marshal_big_float v span h hw e = elim (marshal_big_float-Written v span h e) [
  | unset z q ↦ rw q (
      zero-Returned v (append_flag [] 4 v.negative) (inl z) (
        rw z (
          decoded_float (append_flag [] 4 v.negative) [] (pos 0) 0 v.negative
            (read_unset v.negative) (checked_unset v.negative))))
  | nothing hp few z q ↦ rw q (
      zero-Returned v (append_float [] [] (pos 0) v.prec v.negative)
        (inr (sym (trim_value v.mantissa) ∙ ap value z))
        (decoded_float (append_float [] [] (pos 0) v.prec v.negative) [] (pos 0) v.prec v.negative
          (read_nothing v.prec v.negative hw) (checked_zero v.prec v.negative few)))
  | number w n hp few some k hn past q ↦ rw q (number-Returned v w n hw hp few some k hn past)
]
