-- ===== src/Big/Marshal/Decimals.antt =====
-- MarshalDecimalMsg of src/pb/big.cc: the magnitude and the scale that it writes.
use protowire_cpp.Common.{
  ℕ, zero, suc, ◌+◌, ◌*◌, ◌%◌, ◌^◌, ◌≤◌, ◌≡◌, ◌≢◌, refl, arith, false, not, ◌&&◌, ◌⊎◌, inl, List,
  [], ◌∷◌, ◌==◌, leb, is_empty, tested,
}
use native.Mathlib.Nat.{one-le-pow, one-le-mul}
use protowire_cpp.Common.Int.{ℤ, pos, negsuc, pos_part, neg_part}
use protowire_cpp.Big.Magnitudes.{value, IsCanonical}
use protowire_cpp.Big.Digits.{le-value_from}
use protowire_cpp.Big.Text.{max_literal_digits}
use protowire_cpp.Big.Reduce.{reduce}
use protowire_cpp.Big.Reduce.Scale.{reduce_value}
use protowire_cpp.Big.Marshal.{past, written_decimal}

-- What is written for a decimal: the same value at the smallest scale from 0.
pub record Reduced (unscaled : List ℕ) (scale : ℤ) (r : List ℕ × ℤ) : Type 0 where
  pub places : ℕ
  pub at_places : r.1 ≡ pos places
  pub few : places ≤ max_literal_digits
  pub magnitude : IsCanonical r.0
  pub same : value r.0 * 10 ^ pos_part scale ≡ value unscaled * 10 ^ neg_part scale * 10 ^ places
  pub smallest : (places ≡ 0) ⊎ (value r.0 % 10 ≢ 0)

unreduced :
    (unscaled : List ℕ) (scale : ℤ)
    → IsCanonical unscaled
    → (leb (neg_part scale) max_literal_digits && not (pos_part scale == 0 && neg_part scale == 0))
      ≡ false
    → past max_literal_digits scale ≡ false
    → Reduced unscaled scale (unscaled, scale)
unfolding past
unreduced unscaled (pos zero) h p e = record {
  places = 0;
  at_places = refl;
  few = omega arith;
  magnitude = h;
  same = omega arith;
  smallest = inl refl;
}
unreduced unscaled (pos (suc n)) h p e = absurd (ground arith)
unreduced unscaled (negsuc n) h p e = absurd (ground arith)

pub written_decimal-Reduced :
    (unscaled : List ℕ) (scale : ℤ)
    → IsCanonical unscaled
    → past max_literal_digits (written_decimal unscaled scale).1 ≡ false
    → Reduced unscaled scale (written_decimal unscaled scale)
unfolding written_decimal past
written_decimal-Reduced unscaled scale h =
    let (k1, k2, k3) = reduce_value unscaled scale h.0 in
    tested {A = List ℕ × ℤ} (λ r. past max_literal_digits r.1 ≡ false → Reduced unscaled scale r)
      (leb (neg_part scale) max_literal_digits && not (pos_part scale == 0 && neg_part scale == 0))
      (λ p e. record {
        places = (reduce unscaled scale).1;
        at_places = refl;
        few = ground arith;
        magnitude = k1;
        same = k2;
        smallest = k3;
      })
      (λ p e. unreduced unscaled scale h p e)

-- A magnitude that is not 0 is written as one.
pub written-is_empty :
    (b : ℕ) (rest : List ℕ) (scale : ℤ) (r : List ℕ × ℤ)
    → IsCanonical (b ∷ rest)
    → Reduced (b ∷ rest) scale r
    → is_empty r.0 ≡ false
written-is_empty b rest scale r h k =
    filled r.0 (value (b ∷ rest) * 10 ^ neg_part scale * 10 ^ k.places) k.same (
      one-le-mul
        (one-le-mul (omega (arith, le-value_from rest (0 * 256 + b)))
          (one-le-pow (neg_part scale) 10 (omega arith)))
        (one-le-pow k.places 10 (omega arith)))
  where
    filled :
        (mag : List ℕ) (n : ℕ) → value mag * 10 ^ pos_part scale ≡ n → 1 ≤ n → is_empty mag ≡ false
    filled [] n e h = absurd (omega arith)
    filled (x ∷ mag) n e h = refl
