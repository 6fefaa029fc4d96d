-- ===== src/Big/Unmarshal/Floats.antt =====
-- The big floats that UnmarshalBigFloatMsg of src/pb/big.cc returns.
use protowire_cpp.Common.{
  ℕ, ◌-◌, ◌^◌, ◌≤◌, ◌≡◌, refl, ap, arith, false, inl, inr, List, [], ◌==◌, ltb, tested,
}
use mathlib.Core.Path.{subst}
use native.Mathlib.Nat.{one-le-pow}
use protowire_cpp.Common.Int.{ℤ, pos, pos_part, ◌+ℤ◌}
use protowire_cpp.Common.Text.{codes}
use protowire_cpp.Big.{BigFloat, StatusOr, ok, bit_len, trim_leading_zeros}
use protowire_cpp.Big.Bits.{bit_len_bounds}
use protowire_cpp.Big.Magnitudes.{value, IsBytes, IsCanonical, trim-IsCanonical}
use protowire_cpp.Big.Text.{max_literal_digits}
use protowire_cpp.Big.Marshal.{past, big_float_prec_digits, max_float_exponent, narrowed}
use protowire_cpp.Big.Marshal.Floats.{narrowed-Narrowed}
use protowire_cpp.Big.Unmarshal.{
  float_field, read_message, unmarshal_big_float, checked_float, rounded_float, with_mantissa,
  positive_or,
}
use protowire_cpp.Big.Unmarshal.Fields.{StatusOr-cases}
use protowire_cpp.Big.Unmarshal.Kept.{read_message-Result}
use protowire_cpp.Big.Unmarshal.Accepted.{ok_same, float_field-Result}

-- What a big float that is accepted has: a zero of precision 0, or a precision within the bound.
pub record Accepted (max_digits : ℕ) (v : BigFloat) : Type 0 where
  pub magnitude : IsCanonical v.mantissa
  pub zero : v.prec ≡ 0 → (v.mantissa ≡ []) × (v.exponent ≡ pos 0)
  pub few : 1 ≤ v.prec → big_float_prec_digits v.prec ≤ max_digits
  pub fits : 1 ≤ v.prec → value v.mantissa ≤ 2 ^ v.prec

no_bits : (mag : List ℕ) → IsCanonical mag → bit_len mag ≡ 0 → value mag ≡ 0
no_bits mag c e =
    let (k1, k2) = bit_len_bounds mag c in
    let one : 2 ^ bit_len mag ≡ 1 = ap (λ x. 2 ^ x) e in omega (arith, k1, one)

checked_float-Accepted :
    (max_exponent max_digits : ℕ) (w v : BigFloat)
    → IsBytes w.mantissa
    → checked_float max_exponent max_digits w ≡ ok v
    → Accepted max_digits v
unfolding checked_float rounded_float with_mantissa
checked_float-Accepted max_exponent max_digits w v h =
    let mantissa = trim_leading_zeros w.mantissa in
    let c = trim-IsCanonical w.mantissa h in
    let accepted = λ (o : StatusOr BigFloat). o ≡ ok v → Accepted max_digits v in
    let same = λ (u : BigFloat) (k : Accepted max_digits u) (e : ok u ≡ ok v).
      subst (Accepted max_digits) (ok_same u v e) k in
    tested accepted (w.prec == 0)
      (λ z. same _ record {
        magnitude = (tt, tt);
        zero = λ x. (refl, refl);
        few = λ x. absurd (ground arith);
        fits = λ x. absurd (ground arith);
      })
      (λ z.
        tested accepted (ltb max_digits (big_float_prec_digits w.prec))
          (λ p e. absurd (ground (arith, e)))
          (λ p.
            tested accepted (bit_len mantissa == 0)
              (λ t. same _ record {
                magnitude = c;
                zero = λ x. absurd (ground arith);
                few = λ x. ground arith;
                fits = λ x.
                    omega
                      (arith, one-le-pow w.prec 2 (omega arith), no_bits mantissa c (ground arith));
              })
              (λ t.
                tested accepted (past max_exponent (w.exponent +ℤ pos (bit_len mantissa)))
                  (λ q e. absurd (ground (arith, e)))
                  (λ q.
                    let k = narrowed-Narrowed mantissa w.exponent w.prec c (ground arith) in
                    let r = narrowed mantissa w.exponent w.prec in
                    tested accepted (ltb (2 ^ 31 - 1) (pos_part (r.1 +ℤ pos (bit_len r.0))))
                      (λ r e. absurd (ground (arith, e)))
                      (λ r. same _ record {
                        magnitude = k.magnitude;
                        zero = λ x. absurd (ground arith);
                        few = λ x. ground arith;
                        fits = λ x. k.most;
                      })))))

-- A list of bytes is accepted as a big float only with no leading zero byte in the mantissa. At
-- precision 0 it is a zero with exponent 0; above that the digits of the precision are within the
-- bound, which is max_digits, or 4096 where that is 0 or less, and the mantissa has no more bits than
-- the precision, or is the next power of two, which a round up gives.
pub unmarshal_big_float-Accepted :
    (span : List ℕ) (max_exponent max_digits : ℤ) (v : BigFloat)
    → IsBytes span
    → unmarshal_big_float span max_exponent max_digits ≡ ok v
    → Accepted (positive_or max_digits max_literal_digits) v
unfolding unmarshal_big_float
unmarshal_big_float-Accepted span max_exponent max_digits v h e =
    let start : BigFloat = record { mantissa = []; exponent = pos 0; prec = 0; negative = false } in
    let kept =
      read_message-Result (λ w. IsBytes w.mantissa) (codes "BigFloat") float_field
        float_field-Result span start h tt in
    elim (StatusOr-cases (read_message (codes "BigFloat") float_field span start)) [
      | inl (msg, p) ↦ absurd (ground (arith, rw (unmarshal_big_float, p) at e))
      | inr (w, p) ↦
          checked_float-Accepted (positive_or max_exponent max_float_exponent) _ w v (rw p at kept)
            (rw (unmarshal_big_float, p) at e)
    ]
