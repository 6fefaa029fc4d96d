-- ===== src/Big/Unmarshal/Decimals.antt =====
-- UnmarshalDecimalMsg of src/pb/big.cc on what MarshalDecimalMsg writes.
use protowire_cpp.Common.{
  ℕ, zero, suc, ◌*◌, ◌%◌, ◌^◌, ◌≤◌, ◌<◌, ◌≡◌, ◌≢◌, refl, sym, ap, ◌∙◌, arith, Bool, true, false,
  not, ◌&&◌, ◌⊎◌, inl, inr, List, [], ◌∷◌, ◌++◌, append_assoc, ◌==◌, if◌then◌else◌, is_empty,
  Bool-cases,
}
use protowire_cpp.Common.Int.{ℤ, pos, pos_part, neg_part}
use protowire_cpp.Common.Text.{codes}
use protowire_cpp.Wire.{IsShort}
use protowire_cpp.Big.{Decimal, StatusOr, ok, int32_of, trim_leading_zeros}
use protowire_cpp.Big.Magnitudes.{
  value, IsBytes, IsCanonical, trim-IsCanonical, trim_value, trim_same,
}
use protowire_cpp.Big.Text.{max_literal_digits}
use protowire_cpp.Big.Text.Decimals.{IsDecimal}
use protowire_cpp.Big.Marshal.{
  append_bytes_field, append_flag, append_int_field, uint64_of, marshal_decimal, written_decimal,
  past,
}
use protowire_cpp.Big.Marshal.Appended.{append_flag-out, append_int_field-out, int32_of-uint64_of}
use protowire_cpp.Big.Marshal.Decimals.{Reduced, written_decimal-Reduced, written-is_empty}
use protowire_cpp.Big.Unmarshal.{
  decimal_field, read_fields, read_message, unmarshal_decimal, checked_decimal, positive_or,
}
use protowire_cpp.Big.Unmarshal.Fields.{read_message-bytes, read_message-int, read_message-flag}

abbrev decimal_with : List ℕ → ℤ → Bool → Decimal
decimal_with unscaled scale negative = record {
  unscaled = unscaled;
  scale = scale;
  negative = negative;
}

set_scale :
    (u : List ℕ) (k : ℕ)
    → k < 2 ^ 31
    → (if k == 0 && 0 == 0
        then decimal_with u (pos 0) false
        else decimal_with u (int32_of (uint64_of (pos k))) false)
      ≡ decimal_with u (pos k) false
set_scale u zero h = refl
set_scale u (suc k) h =
    let some_places : (suc k == 0) ≡ false = ground arith in
    rw (some_places, int32_of-uint64_of (suc k) h) refl

set_flag :
    (u : List ℕ) (n : ℤ) (b : Bool)
    → (if b then decimal_with u n true else decimal_with u n false) ≡ decimal_with u n b
set_flag u n true = refl
set_flag u n false = refl

read_decimal :
    (u : List ℕ) (k : ℕ) (b : Bool)
    → IsShort u
    → k < 2 ^ 31
    → read_message
        (codes "Decimal")
        decimal_field
        (append_bytes_field [] 1 u ++ (append_int_field [] 2 (pos k) ++ append_flag [] 3 b))
        (decimal_with [] (pos 0) false)
      ≡ ok (decimal_with u (pos k) b)
unfolding decimal_field
read_decimal u k b hu hk =
    read_message-bytes (codes "Decimal") decimal_field 1 u
      (append_int_field [] 2 (pos k) ++ append_flag [] 3 b) (codes "unscaled in Decimal") _
      (λ s. decimal_with s (pos 0) false) (omega arith) (omega arith) hu refl
    ∙ read_message-int (codes "Decimal") decimal_field 2 (pos k) (append_flag [] 3 b)
        (codes "scale in Decimal") _ (λ x. decimal_with u (int32_of x) false) (omega arith)
        (omega arith) (λ value. refl)
    ∙ ap (λ v. read_message (codes "Decimal") decimal_field (append_flag [] 3 b) v)
        (set_scale u k hk)
    ∙ read_message-flag (codes "Decimal") decimal_field 3 b (codes "negative in Decimal") _
        (λ x. decimal_with u (pos k) (not (x == 0))) (omega arith) (omega arith) refl
    ∙ ap (λ v. ok v) (set_flag u (pos k) b)

-- The same decimal, by its value, at the smallest scale from 0, and of the same sign.
pub record Decoded (v w : Decimal) : Type 0 where
  pub one_form : IsDecimal w
  pub places : ℕ
  pub at_places : w.scale ≡ pos places
  pub few : places ≤ max_literal_digits
  pub same :
      value w.unscaled * 10 ^ pos_part v.scale
      ≡ value v.unscaled * 10 ^ neg_part v.scale * 10 ^ places
  pub smallest : (places ≡ 0) ⊎ (value w.unscaled % 10 ≢ 0)
  pub sign : w.unscaled ≢ [] → w.negative ≡ v.negative

in_bound : (k : ℕ) → k ≤ max_literal_digits → past max_literal_digits (pos k) ≡ false
unfolding past
in_bound k h = ground arith

decoded_decimal :
    (span u : List ℕ) (k : ℕ) (b : Bool)
    → read_message (codes "Decimal") decimal_field span (decimal_with [] (pos 0) false)
      ≡ ok (decimal_with u (pos k) b)
    → k ≤ max_literal_digits
    → trim_leading_zeros u ≡ u
    → unmarshal_decimal span (pos 0) ≡ ok (decimal_with u (pos k) (b && not (is_empty u)))
unfolding unmarshal_decimal checked_decimal positive_or
decoded_decimal span u k b e h t = rw (unmarshal_decimal, e, in_bound k h, t) refl

-- The branches of MarshalDecimalMsg.
fields :
    (u : List ℕ) (k : ℕ) (b : Bool)
    → append_flag (append_int_field (append_bytes_field [] 1 u) 2 (pos k)) 3 b
      ≡ append_bytes_field [] 1 u ++ (append_int_field [] 2 (pos k) ++ append_flag [] 3 b)
fields u k b =
    let front = append_bytes_field [] 1 u in
    append_flag-out (append_int_field front 2 (pos k)) 3 b (omega arith)
    ∙ ap (λ s. s ++ append_flag [] 3 b) (append_int_field-out front 2 (pos k) (omega arith))
    ∙ append_assoc front (append_int_field [] 2 (pos k)) (append_flag [] 3 b)

module _ (v : Decimal) where
  abbrev trimmed : List ℕ
  trimmed = trim_leading_zeros v.unscaled

  abbrev written : List ℕ × ℤ
  written = written_decimal trimmed v.scale

  marshal_zero : is_empty trimmed ≡ true → marshal_decimal v [] ≡ ok []
  unfolding marshal_decimal
  marshal_zero p = rw (marshal_decimal, p) refl

  marshal_past :
      is_empty trimmed ≡ false
      → past max_literal_digits written.1 ≡ true
      → (span : List ℕ) → marshal_decimal v [] ≡ ok span
      → ⊥
  unfolding marshal_decimal
  marshal_past p q span e = ground (arith, rw (marshal_decimal, p, q) at e)

  marshal_fields :
      is_empty trimmed ≡ false
      → past max_literal_digits written.1 ≡ false
      → marshal_decimal v []
        ≡ ok (
            append_flag
              (append_int_field (append_bytes_field [] 1 written.0) 2 written.1)
              3
              v.negative)
  unfolding marshal_decimal
  marshal_fields p q = rw (marshal_decimal, p, q) refl

written_as : (s t : List ℕ) (o : StatusOr (List ℕ)) → o ≡ ok s → o ≡ ok t → t ≡ s
written_as s t o e k = ground arith

empty_value : (mag : List ℕ) → is_empty mag ≡ true → value mag ≡ 0
empty_value [] h = refl
empty_value (b ∷ rest) h = absurd (ground arith)

zero_decoded :
    (v : Decimal) (span : List ℕ)
    → IsBytes v.unscaled
    → is_empty (trimmed v) ≡ true
    → span ≡ []
    → (w : Decimal) × (unmarshal_decimal span (pos 0) ≡ ok w) × Decoded v w
unfolding unmarshal_decimal checked_decimal positive_or past read_message read_fields
    trim_leading_zeros
zero_decoded v span h p e =
    let nothing : value v.unscaled ≡ 0 = sym (trim_value v.unscaled) ∙ empty_value (trimmed v) p in
    (
      decimal_with [] (pos 0) false,
      rw e refl,
      record {
        one_form = record { magnitude = (tt, tt); sign = λ x. refl };
        places = 0;
        at_places = refl;
        few = omega arith;
        same = rw nothing (omega arith);
        smallest = inl refl;
        sign = λ x. absurd (x refl);
      },
    )

signed_lem : (u : List ℕ) (b : Bool) → is_empty u ≡ false → (b && not (is_empty u)) ≡ b
signed_lem u true h = rw h refl
signed_lem u false h = refl

written_some :
    (mag : List ℕ) (scale : ℤ) (r : List ℕ × ℤ)
    → IsCanonical mag
    → is_empty mag ≡ false
    → Reduced mag scale r
    → is_empty r.0 ≡ false
written_some [] scale r h p k = absurd (ground arith)
written_some (b ∷ rest) scale r h p k = written-is_empty b rest scale r h k

fields_decoded :
    (v : Decimal) (span : List ℕ)
    → IsBytes v.unscaled
    → IsShort (written v).0
    → is_empty (trimmed v) ≡ false
    → Reduced (trimmed v) v.scale (written v)
    → span
      ≡ append_flag
          (append_int_field (append_bytes_field [] 1 (written v).0) 2 (written v).1)
          3
          v.negative
    → (w : Decimal) × (unmarshal_decimal span (pos 0) ≡ ok w) × Decoded v w
fields_decoded v span h hu p k e =
    let u = (written v).0 in
    let some_byte =
      written_some (trimmed v) v.scale (written v) (trim-IsCanonical v.unscaled h) p k in
    let shape =
      e
      ∙ ap (λ n. append_flag (append_int_field (append_bytes_field [] 1 u) 2 n) 3 v.negative)
          k.at_places
      ∙ fields u k.places v.negative in
    let few = k.few in
    let read =
      ap (λ s. read_message (codes "Decimal") decimal_field s (decimal_with [] (pos 0) false)) shape
      ∙ read_decimal u k.places v.negative hu (omega arith) in
    (
      decimal_with u (pos k.places) v.negative,
      decoded_decimal span u k.places v.negative read k.few (trim_same u k.magnitude.1)
          ∙ ap (λ b. ok (decimal_with u (pos k.places) b)) (signed_lem u v.negative some_byte),
      record {
        one_form = record {
          magnitude = k.magnitude;
          sign = λ x. absurd (ground (arith, ap is_empty x));
        };
        places = k.places;
        at_places = refl;
        few = k.few;
        same = k.same ∙ ap (λ n. n * 10 ^ neg_part v.scale * 10 ^ k.places) (trim_value v.unscaled);
        smallest = k.smallest;
        sign = λ x. refl;
      },
    )

-- UnmarshalDecimalMsg accepts what MarshalDecimalMsg wrote, and the decimal it leaves has the value of
-- the one that was written, at the smallest scale from 0 that holds it, in the form with no leading
-- zero byte and no sign on a zero. The magnitude that is written is shorter than 2 ^ 31 - 32 bytes.
pub unmarshal_decimal-marshal_decimal :
    (v : Decimal) (span : List ℕ)
    → IsBytes v.unscaled
    → IsShort (written_decimal (trim_leading_zeros v.unscaled) v.scale).0
    → marshal_decimal v [] ≡ ok span
    → (w : Decimal) × (unmarshal_decimal span (pos 0) ≡ ok w) × Decoded v w
unmarshal_decimal-marshal_decimal v span h hu e = elim (Bool-cases (is_empty (trimmed v))) [
  | inl p ↦ zero_decoded v span h p (written_as _ _ _ (marshal_zero v p) e)
  | inr p ↦ elim (Bool-cases (past max_literal_digits (written v).1)) [
    | inl q ↦ absurd (marshal_past v p q span e)
    | inr q ↦
        let k = written_decimal-Reduced (trimmed v) v.scale (trim-IsCanonical v.unscaled h) q in
        fields_decoded v span h hu p k (written_as _ _ _ (marshal_fields v p q) e)
  ]
]
