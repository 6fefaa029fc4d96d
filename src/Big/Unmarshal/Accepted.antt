-- ===== src/Big/Unmarshal/Accepted.antt =====
-- The numbers that the Unmarshal functions of src/pb/big.cc return.
use protowire_cpp.Common.{
  ℕ, ◌≤◌, ◌≡◌, refl, ap, arith, Bool, true, false, not, ◌&&◌, inl, inr, List, [], ◌==◌, is_empty,
  tested,
}
use mathlib.Core.Path.{subst}
use protowire_cpp.Common.Int.{ℤ, pos, pos_part, neg_part}
use protowire_cpp.Common.Text.{codes}
use protowire_cpp.Big.{BigInt, Decimal, BigFloat, StatusOr, ok, error, trim_leading_zeros}
use protowire_cpp.Big.Magnitudes.{IsBytes, trim-IsCanonical}
use protowire_cpp.Big.Text.Integers.{IsValue}
use protowire_cpp.Big.Text.Decimals.{IsDecimal}
use protowire_cpp.Big.Text.{max_literal_digits}
use protowire_cpp.Big.Marshal.{past}
use protowire_cpp.Big.Unmarshal.Fields.{StatusOr-cases}
use protowire_cpp.Big.Unmarshal.Kept.{
  Result, bytes_field-Result, varint_field-Result, read_message-Result,
}
use protowire_cpp.Big.Unmarshal.{
  int_field, decimal_field, float_field, read_message, unmarshal_big_int, unmarshal_decimal,
  checked_decimal, positive_or,
}

int_field-Result :
    (span : List ℕ) (num : ℕ) (v : BigInt)
    → IsBytes span
    → IsBytes v.abs
    → Result (λ r. IsBytes r.0.abs) (int_field span num v)
unfolding int_field
int_field-Result span num v h k =
    tested (Result {A = BigInt × ℕ} (λ r. IsBytes r.0.abs)) (num == 1)
      (λ e. bytes_field-Result (λ w. IsBytes w.abs) (codes "abs in BigInt") span _ h (λ b hb. hb))
      (λ e.
        tested (Result {A = BigInt × ℕ} (λ r. IsBytes r.0.abs)) (num == 2)
          (λ t.
            varint_field-Result (λ w. IsBytes w.abs) (codes "negative in BigInt") span _ (λ x. k))
          (λ t. k))

from_ok : {A : Type 0} → A → StatusOr A → A
from_ok d (ok a) = a
from_ok d (error msg) = d

pub ok_same : {A : Type 0} (a b : A) → ok a ≡ ok b → a ≡ b
unfolding from_ok
ok_same a b e = ap (from_ok a) e

no_sign : (b : Bool) (mag : List ℕ) → mag ≡ [] → (b && not (is_empty mag)) ≡ false
no_sign true mag e = rw e refl
no_sign false mag e = refl

one-IsValue :
    (w v : BigInt)
    → IsBytes w.abs
    → ok (record {
      abs = trim_leading_zeros w.abs;
      negative = w.negative && not (is_empty (trim_leading_zeros w.abs));
    })
      ≡ ok v
    → IsValue v
one-IsValue w v h e = subst IsValue (ok_same _ v e) record {
  magnitude = trim-IsCanonical w.abs h;
  sign = no_sign w.negative (trim_leading_zeros w.abs);
}

-- A list of bytes is accepted only as an integer in its one form: no leading zero byte, and no sign on
-- a zero.
pub unmarshal_big_int-IsValue :
    (span : List ℕ) (v : BigInt) → IsBytes span → unmarshal_big_int span ≡ ok v → IsValue v
unfolding unmarshal_big_int
unmarshal_big_int-IsValue span v h e =
    let start : BigInt = record { abs = []; negative = false } in
    let kept =
      read_message-Result (λ w. IsBytes w.abs) (codes "BigInt") int_field int_field-Result span
        start h tt in
    elim (StatusOr-cases (read_message (codes "BigInt") int_field span start)) [
      | inl (msg, p) ↦ absurd (ground (arith, rw (unmarshal_big_int, p) at e))
      | inr (w, p) ↦ one-IsValue w v (rw p at kept) (rw (unmarshal_big_int, p) at e)
    ]

decimal_field-Result :
    (span : List ℕ) (num : ℕ) (v : Decimal)
    → IsBytes span
    → IsBytes v.unscaled
    → Result (λ r. IsBytes r.0.unscaled) (decimal_field span num v)
unfolding decimal_field
decimal_field-Result span num v h k =
    let kept = λ (w : Decimal). IsBytes w.unscaled in
    tested (Result {A = Decimal × ℕ} (λ r. kept r.0)) (num == 1)
      (λ e. bytes_field-Result kept (codes "unscaled in Decimal") span _ h (λ b hb. hb))
      (λ e.
        tested (Result {A = Decimal × ℕ} (λ r. kept r.0)) (num == 2)
          (λ t. varint_field-Result kept (codes "scale in Decimal") span _ (λ x. k))
          (λ t.
            tested (Result {A = Decimal × ℕ} (λ r. kept r.0)) (num == 3)
              (λ t. varint_field-Result kept (codes "negative in Decimal") span _ (λ x. k))
              (λ t. k)))

pub float_field-Result :
    (span : List ℕ) (num : ℕ) (v : BigFloat)
    → IsBytes span
    → IsBytes v.mantissa
    → Result (λ r. IsBytes r.0.mantissa) (float_field span num v)
unfolding float_field
float_field-Result span num v h k =
    let kept = λ (w : BigFloat). IsBytes w.mantissa in
    tested (Result {A = BigFloat × ℕ} (λ r. kept r.0)) (num == 1)
      (λ e. bytes_field-Result kept (codes "mantissa in BigFloat") span _ h (λ b hb. hb))
      (λ e.
        tested (Result {A = BigFloat × ℕ} (λ r. kept r.0)) (num == 2)
          (λ t. varint_field-Result kept (codes "exponent in BigFloat") span _ (λ x. k))
          (λ t.
            tested (Result {A = BigFloat × ℕ} (λ r. kept r.0)) (num == 3)
              (λ t. varint_field-Result kept (codes "prec in BigFloat") span _ (λ x. k))
              (λ t.
                tested (Result {A = BigFloat × ℕ} (λ r. kept r.0)) (num == 4)
                  (λ t. varint_field-Result kept (codes "negative in BigFloat") span _ (λ x. k))
                  (λ t. k))))

checked_decimal-IsDecimal :
    (bound : ℕ) (w v : Decimal)
    → IsBytes w.unscaled
    → checked_decimal bound w ≡ ok v
    → IsDecimal v × (pos_part v.scale ≤ bound) × (neg_part v.scale ≤ bound)
unfolding checked_decimal past
checked_decimal-IsDecimal bound w v h =
    tested (λ o. o ≡ ok v → IsDecimal v × (pos_part v.scale ≤ bound) × (neg_part v.scale ≤ bound))
      (past bound w.scale) (λ p e. absurd (ground (arith, e)))
      (λ p e.
        subst (λ u. IsDecimal u × (pos_part u.scale ≤ bound) × (neg_part u.scale ≤ bound))
          (ok_same _ v e)
          (
            record {
              magnitude = trim-IsCanonical w.unscaled h;
              sign = no_sign w.negative (trim_leading_zeros w.unscaled);
            },
            ground arith,
            ground arith,
          ))

-- A list of bytes is accepted only as a decimal in its one form, and only at a scale within the bound
-- on either side of 0: max_digits, or 4096 where that is 0 or less.
pub unmarshal_decimal-IsDecimal :
    (span : List ℕ) (max_digits : ℤ) (v : Decimal)
    → IsBytes span
    → unmarshal_decimal span max_digits ≡ ok v
    → IsDecimal v
      × (pos_part v.scale ≤ positive_or max_digits max_literal_digits)
      × (neg_part v.scale ≤ positive_or max_digits max_literal_digits)
unfolding unmarshal_decimal
unmarshal_decimal-IsDecimal span max_digits v h e =
    let start : Decimal = record { unscaled = []; scale = pos 0; negative = false } in
    let kept =
      read_message-Result (λ w. IsBytes w.unscaled) (codes "Decimal") decimal_field
        decimal_field-Result span start h tt in
    elim (StatusOr-cases (read_message (codes "Decimal") decimal_field span start)) [
      | inl (msg, p) ↦ absurd (ground (arith, rw (unmarshal_decimal, p) at e))
      | inr (w, p) ↦ checked_decimal-IsDecimal _ w v (rw p at kept) (rw (unmarshal_decimal, p) at e)
    ]
