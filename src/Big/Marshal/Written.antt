-- ===== src/Big/Marshal/Written.antt =====
-- MarshalBigFloatMsg of src/pb/big.cc: what it writes for a float, in each of its branches.
use protowire_cpp.Common.{
  ℕ, ◌+◌, ◌-◌, ◌*◌, ◌^◌, ◌≤◌, ◌<◌, ◌≡◌, refl, sym, ap, ◌∙◌, arith, true, false, not, List, [], ◌∷◌,
  ltb, ◌==◌, is_empty, tested,
}
use protowire_cpp.Common.Int.{ℤ, pos, pos_part, neg_part, ◌+ℤ◌, ◌-ℤ◌}
use protowire_cpp.Big.{BigFloat, StatusOr, ok, bit_len, trim_leading_zeros}
use protowire_cpp.Big.Digits.{le-value_from}
use protowire_cpp.Big.Magnitudes.{value, IsBytes, IsCanonical, trim-IsCanonical}
use protowire_cpp.Big.Shifts.{two_split}
use protowire_cpp.Big.Rounding.{HalfEven}
use protowire_cpp.Big.Text.{max_literal_digits}
use protowire_cpp.Big.Marshal.{
  narrowed, whole, marshal_mantissa, marshal_big_float, append_float, append_flag, in_int32, past,
  max_float_exponent, big_float_prec_digits,
}
use protowire_cpp.Big.Marshal.Floats.{narrowed-Narrowed, whole-Whole, plus_parts, minus_parts}

-- The number `m` × 2 ^ exponent, rounded half to even where it has more than `prec` bits, as a
-- mantissa of `prec` bits and its exponent. The powers are on the sides where they do not divide.
pub record Rounded (m : List ℕ) (exponent : ℤ) (prec : ℕ) (w : List ℕ) (widened : ℤ) : Type 0 where
  pub kept : ℕ
  pub nearest : HalfEven (value m) (2 ^ (bit_len m - prec)) kept
  pub same :
      value w * (2 ^ pos_part widened * 2 ^ neg_part exponent)
      ≡ kept * (2 ^ (bit_len m - prec) * 2 ^ pos_part exponent * 2 ^ neg_part widened)
  pub magnitude : IsCanonical w
  pub full : 2 ^ prec ≤ 2 * value w
  pub fits : value w < 2 ^ prec

-- The exponent that goes with the mantissa of `prec` bits.
abbrev pub widened : List ℕ × ℤ → ℕ → ℤ
widened r prec = r.1 +ℤ pos (bit_len r.0) -ℤ pos prec

rounded_lem :
    (m : List ℕ) (exponent : ℤ) (prec : ℕ)
    → IsCanonical m
    → 1 ≤ value m
    → 1 ≤ prec
    → Rounded m exponent prec
        (whole (narrowed m exponent prec).0 prec)
        (widened (narrowed m exponent prec) prec)
rounded_lem m exponent prec h some hp =
    let r = narrowed m exponent prec in
    let n = bit_len m - prec in
    let k = narrowed-Narrowed m exponent prec h hp in
    let w = whole-Whole r.0 prec k.magnitude hp (k.some some) k.most in
    let up = plus_parts r.1 (bit_len r.0) in
    let down = minus_parts (r.1 +ℤ pos (bit_len r.0)) prec in
    let wide = widened r prec in
    let a = pos_part wide + neg_part exponent in
    let b = n + pos_part exponent + neg_part wide in
    let e : a + prec ≡ b + bit_len r.0 = omega (arith, up, down, k.point) in
    record {
      kept = value r.0;
      nearest = k.nearest;
      same =
          ap (λ p. value (whole r.0 prec) * p) (sym (two_split (pos_part wide) (neg_part exponent)))
          ∙ w.scaled a b e
          ∙ ap (λ p. value r.0 * p)
              (two_split (n + pos_part exponent) (neg_part wide)
                ∙ ap (λ p. p * 2 ^ neg_part wide) (two_split n (pos_part exponent)));
      magnitude = w.magnitude;
      full = w.full;
      fits = w.fits;
    }

-- The three things that are written.
pub data Written (v : BigFloat) (span : List ℕ) : Type 0 where
  unset : v.prec ≡ 0 → span ≡ append_flag [] 4 v.negative → Written v span
  nothing :
      1 ≤ v.prec
      → big_float_prec_digits v.prec ≤ max_literal_digits
      → trim_leading_zeros v.mantissa ≡ []
      → span ≡ append_float [] [] (pos 0) v.prec v.negative
      → Written v span
  number :
      (w : List ℕ) (exponent : ℤ)
      → 1 ≤ v.prec
      → big_float_prec_digits v.prec ≤ max_literal_digits
      → 1 ≤ value (trim_leading_zeros v.mantissa)
      → Rounded (trim_leading_zeros v.mantissa) v.exponent v.prec w exponent
      → in_int32 exponent ≡ true
      → past max_float_exponent (exponent +ℤ pos v.prec) ≡ false
      → span ≡ append_float [] w exponent v.prec v.negative
      → Written v span

some_value : (mag : List ℕ) → IsCanonical mag → is_empty mag ≡ false → 1 ≤ value mag
some_value [] h p = absurd (ground arith)
some_value (b ∷ rest) (h, t) p = omega (arith, le-value_from rest (0 * 256 + b))

no_bytes : (mag : List ℕ) → is_empty mag ≡ true → mag ≡ []
no_bytes [] p = refl
no_bytes (b ∷ rest) p = absurd (ground arith)

mantissa-Written :
    (v : BigFloat) (span : List ℕ)
    → IsBytes v.mantissa
    → 1 ≤ v.prec
    → big_float_prec_digits v.prec ≤ max_literal_digits
    → is_empty (trim_leading_zeros v.mantissa) ≡ false
    → marshal_mantissa v (trim_leading_zeros v.mantissa) [] ≡ ok span
    → Written v span
unfolding marshal_mantissa
mantissa-Written v span h hp few p =
    let m = trim_leading_zeros v.mantissa in
    let c = trim-IsCanonical v.mantissa h in
    let some = some_value m c p in
    let r = narrowed m v.exponent v.prec in
    let wide = widened r v.prec in
    tested (λ o. o ≡ ok span → Written v span) (not (in_int32 wide))
      (λ t e. absurd (ground (arith, e)))
      (λ t.
        tested (λ o. o ≡ ok span → Written v span) (past max_float_exponent (wide +ℤ pos v.prec))
          (λ q e. absurd (ground (arith, e)))
          (λ q e.
            number (whole r.0 v.prec) wide hp few some (rounded_lem m v.exponent v.prec c some hp)
              (ground arith) q (ground (arith, e))))

pub marshal_big_float-Written :
    (v : BigFloat) (span : List ℕ)
    → IsBytes v.mantissa
    → marshal_big_float v [] ≡ ok span
    → Written v span
unfolding marshal_big_float
marshal_big_float-Written v span h =
    let m = trim_leading_zeros v.mantissa in
    let written = λ (o : StatusOr (List ℕ)). o ≡ ok span → Written v span in
    tested written (v.prec == 0) (λ z e. unset (ground arith) (ground (arith, e)))
      (λ z.
        tested written (ltb max_literal_digits (big_float_prec_digits v.prec))
          (λ t e. absurd (ground (arith, e)))
          (λ t.
            tested written (is_empty m)
              (λ p e. nothing (ground arith) (ground arith) (no_bytes m p) (ground (arith, e)))
              (λ p. mantissa-Written v span h (ground arith) (ground arith) p)))
