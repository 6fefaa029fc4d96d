-- ===== src/Big/Unmarshal/RoundTrip.antt =====
-- The Unmarshal functions of src/pb/big.cc on what the Marshal functions write.
use protowire_cpp.Common.{
  ℕ, ◌≡◌, refl, ap, ◌∙◌, arith, Bool, true, false, not, ◌&&◌, List, [], ◌∷◌, ◌++◌, ◌==◌,
  if◌then◌else◌, is_empty,
}
use protowire_cpp.Common.Text.{codes}
use protowire_cpp.Wire.{IsShort}
use protowire_cpp.Big.{BigInt, ok, trim_leading_zeros}
use protowire_cpp.Big.Magnitudes.{IsCanonical, trim_same}
use protowire_cpp.Big.Text.Integers.{IsValue}
use protowire_cpp.Big.Marshal.{append_bytes_field, append_flag, marshal_big_int}
use protowire_cpp.Big.Marshal.Appended.{append_flag-out}
use protowire_cpp.Big.Unmarshal.{int_field, read_fields, read_message, unmarshal_big_int}
use protowire_cpp.Big.Unmarshal.Fields.{read_message-bytes, read_message-flag}

abbrev int_with : List ℕ → Bool → BigInt
int_with abs b = record { abs = abs; negative = b }

set_flag :
    (abs : List ℕ) (b : Bool)
    → (if b then int_with abs true else int_with abs false) ≡ int_with abs b
set_flag abs true = refl
set_flag abs false = refl

read_int :
    (abs : List ℕ) (b : Bool)
    → IsShort abs
    → read_message
        (codes "BigInt")
        int_field
        (append_bytes_field [] 1 abs ++ append_flag [] 2 b)
        (int_with [] false)
      ≡ ok (int_with abs b)
unfolding int_field
read_int abs b h =
    read_message-bytes (codes "BigInt") int_field 1 abs (append_flag [] 2 b) (codes "abs in BigInt")
      _ (λ s. int_with s false) (omega arith) (omega arith) h refl
    ∙ read_message-flag (codes "BigInt") int_field 2 b (codes "negative in BigInt") _
        (λ x. int_with abs (not (x == 0))) (omega arith) (omega arith) refl
    ∙ ap (λ v. ok v) (set_flag abs b)

-- UnmarshalBigIntMsg behind ReadFields.
int_decoded :
    (span abs : List ℕ) (b : Bool)
    → read_message (codes "BigInt") int_field span (int_with [] false) ≡ ok (int_with abs b)
    → trim_leading_zeros abs ≡ abs
    → is_empty abs ≡ false
    → unmarshal_big_int span ≡ ok (int_with abs b)
unfolding unmarshal_big_int
int_decoded span abs b e t k =
    rw (unmarshal_big_int, e, t, k) (ap (λ c. ok (int_with abs c)) (and-true b))
  where
    and-true : (b : Bool) → (b && true) ≡ b
    and-true true = refl
    and-true false = refl

int_read_back :
    (abs : List ℕ) (b : Bool)
    → IsCanonical abs
    → (abs ≡ [] → b ≡ false)
    → IsShort abs
    → unmarshal_big_int (marshal_big_int (int_with abs b) []) ≡ ok (int_with abs b)
unfolding unmarshal_big_int marshal_big_int append_flag read_message read_fields trim_leading_zeros
int_read_back [] b h k hl = let e = k refl in rw e refl
int_read_back (x ∷ abs) b h k hl =
    let written = append_flag-out (append_bytes_field [] 1 (x ∷ abs)) 2 b (omega arith) in
    let trimmed = trim_same (x ∷ abs) h.1 in
    int_decoded (marshal_big_int (int_with (x ∷ abs) b) []) (x ∷ abs) b
      (ap (λ s. read_message (codes "BigInt") int_field s (int_with [] false)) written
        ∙ read_int (x ∷ abs) b hl)
      trimmed refl

-- UnmarshalBigIntMsg reads back the integer that MarshalBigIntMsg wrote, for an integer in its one
-- form whose magnitude is shorter than 2 ^ 31 - 32 bytes.
pub unmarshal_big_int-marshal_big_int :
    (v : BigInt) → IsValue v → IsShort v.abs → unmarshal_big_int (marshal_big_int v []) ≡ ok v
unmarshal_big_int-marshal_big_int v h hl = int_read_back v.abs v.negative h.magnitude h.sign hl
