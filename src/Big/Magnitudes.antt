-- ===== src/Big/Magnitudes.antt =====
-- Magnitudes as numbers: what the operations of src/pb/big.cc do to the value.
use protowire_cpp.Common.{
  ℕ, ◌+◌, ◌*◌, ◌/◌, ◌%◌, ◌^◌, ◌≤◌, ◌<◌, bit_or, ◌≡◌, refl, ap, ◌∙◌, arith, List, [], ◌∷◌, All, ltb,
  ◌==◌, Bool-cases, inl, inr, tested,
}
use protowire_cpp.Common.Bits.{bit_or-add_left}
use protowire_cpp.Wire.{IsByte}
use protowire_cpp.Big.{
  push_carry, mul_loop, mul_by_10, add_loop, add_u8, trim_leading_zeros, div_loop, div_by_10,
}

-- The number behind `a` when the bytes follow it.
abbrev pub value_from : ℕ → List ℕ → ℕ
value_from a [] = a
value_from a (b ∷ rest) = value_from (a * 256 + b) rest

abbrev pub value : List ℕ → ℕ
value mag = value_from 0 mag

abbrev pub IsBytes : List ℕ → Type 0
IsBytes mag = All IsByte mag

-- No leading zero byte.
abbrev pub IsTrimmed : List ℕ → Type 0
IsTrimmed [] = Unit
IsTrimmed (b ∷ rest) = 1 ≤ b

abbrev pub IsCanonical : List ℕ → Type 0
IsCanonical mag = IsBytes mag × IsTrimmed mag

-- A magnitude of bytes that stands for `n`.
pub record Holds (mag : List ℕ) (n : ℕ) : Type 0 where
  pub bytes : IsBytes mag
  pub number : value mag ≡ n

-- The same number in front of the same bytes.
same_front : (mag : List ℕ) {a b : ℕ} → a ≡ b → value_from a mag ≡ value_from b mag
same_front mag e = ap (λ x. value_from x mag) e

-- The same number, written another way.
pub Holds-≡ : {mag : List ℕ} {a b : ℕ} → Holds mag a → a ≡ b → Holds mag b
Holds-≡ k e = record { bytes = k.bytes; number = k.number ∙ e }

push_carry-Holds :
    (carry : ℕ) (mag : List ℕ)
    → carry < 2 ^ 16
    → IsBytes mag
    → Holds (push_carry 2 carry mag) (value_from carry mag)
unfolding push_carry
push_carry-Holds carry mag h hm =
    tested (λ m. Holds m (value_from carry mag)) (ltb 0 carry)
      (λ p.
        tested (λ m. Holds m (value_from carry mag)) (ltb 0 (carry / 256))
          (λ q. record {
            bytes = (omega arith, (omega arith, hm));
            number = same_front mag (omega arith);
          })
          (λ q. record { bytes = (omega arith, hm); number = same_front mag (ground arith) }))
      (λ p. record { bytes = hm; number = same_front mag (ground arith) })

mul_loop_value :
    (mag : List ℕ)
    → IsBytes mag
    → IsBytes (mul_loop mag).0
      × ((mul_loop mag).1 < 10)
      × ((a : ℕ) → value_from (10 * a + (mul_loop mag).1) (mul_loop mag).0 ≡ 10 * value_from a mag)
unfolding mul_loop
mul_loop_value [] h = (tt, omega arith, λ a. omega arith)
mul_loop_value (b ∷ rest) (hb, h) =
    let (k1, k2, k3) = mul_loop_value rest h in
    (
      (omega arith, k1),
      omega arith,
      λ a. same_front (mul_loop rest).0 (omega arith) ∙ k3 (a * 256 + b),
    )

-- MulBy10 multiplies by ten.
pub mul_by_10-Holds : (mag : List ℕ) → IsBytes mag → Holds (mul_by_10 mag) (10 * value mag)
unfolding mul_by_10
mul_by_10-Holds mag h =
    let (k1, k2, k3) = mul_loop_value mag h in
    Holds-≡ (push_carry-Holds (mul_loop mag).1 (mul_loop mag).0 (omega arith) k1)
      (same_front (mul_loop mag).0 (omega arith) ∙ k3 0)

add_loop_value :
    (mag : List ℕ) (v : ℕ)
    → IsBytes mag
    → v < 256
    → IsBytes (add_loop mag v).0
      × ((add_loop mag v).1 < 256)
      × ((a : ℕ) → value_from (a + (add_loop mag v).1) (add_loop mag v).0 ≡ value_from a mag + v)
unfolding add_loop
add_loop_value [] v h hv = (tt, hv, λ a. refl)
add_loop_value (b ∷ rest) v (hb, h) hv =
    let (k1, k2, k3) = add_loop_value rest v h hv in
    tested {A = List ℕ × ℕ}
      (λ r.
        IsBytes r.0
        × (r.1 < 256)
        × ((a : ℕ) → value_from (a + r.1) r.0 ≡ value_from (a * 256 + b) rest + v))
      ((add_loop rest v).1 == 0)
      (λ p. (
        (hb, k1),
        omega arith,
        λ a. same_front (add_loop rest v).0 (ground arith) ∙ k3 (a * 256 + b),
      ))
      (λ p. (
        (omega arith, k1),
        omega arith,
        λ a. same_front (add_loop rest v).0 (omega arith) ∙ k3 (a * 256 + b),
      ))

-- AddU8 adds a byte.
pub add_u8-Holds :
    (mag : List ℕ) (v : ℕ) → IsBytes mag → v < 256 → Holds (add_u8 mag v) (value mag + v)
unfolding add_u8
add_u8-Holds mag v h hv =
    let (k1, k2, k3) = add_loop_value mag v h hv in
    Holds-≡ (push_carry-Holds (add_loop mag v).1 (add_loop mag v).0 (omega arith) k1)
      (same_front (add_loop mag v).0 (omega arith) ∙ k3 0)

-- Trimming keeps the value, and leaves no leading zero.
pub trim-IsCanonical : (mag : List ℕ) → IsBytes mag → IsCanonical (trim_leading_zeros mag)
unfolding trim_leading_zeros
trim-IsCanonical [] h = (tt, tt)
trim-IsCanonical (b ∷ rest) (hb, h) = elim (Bool-cases (b == 0)) [
  | inl p ↦ rw p (trim-IsCanonical rest h)
  | inr p ↦ rw p ((hb, h), ground arith)
]

pub trim_value : (mag : List ℕ) → value (trim_leading_zeros mag) ≡ value mag
unfolding trim_leading_zeros
trim_value [] = refl
trim_value (b ∷ rest) = elim (Bool-cases (b == 0)) [
  | inl p ↦ rw p (trim_value rest ∙ same_front rest (ground arith))
  | inr p ↦ rw p refl
]

-- A canonical magnitude is left as it is.
pub trim_same : (mag : List ℕ) → IsTrimmed mag → trim_leading_zeros mag ≡ mag
unfolding trim_leading_zeros
trim_same [] h = refl
trim_same (b ∷ rest) h = elim (Bool-cases (b == 0)) [
  | inl p ↦ absurd (ground arith)
  | inr p ↦ rw p refl
]

div_loop_value :
    (mag : List ℕ) (q r : ℕ)
    → IsBytes mag
    → r < 10
    → IsBytes (div_loop r mag).0
      × ((div_loop r mag).1 < 10)
      × (10 * value_from q (div_loop r mag).0 + (div_loop r mag).1 ≡ value_from (10 * q + r) mag)
unfolding div_loop
div_loop_value [] q r h hr = (tt, hr, refl)
div_loop_value (b ∷ rest) q r (hb, h) hr =
    let e : bit_or (r * 2 ^ 8) b ≡ r * 2 ^ 8 + b = bit_or-add_left 8 r b hb in
    let cur = (r * 2 ^ 8 + b) % 2 ^ 16 in
    let (k1, k2, k3) = div_loop_value rest (q * 256 + cur / 10) (cur % 10) h (omega arith) in
    let low : q * 256 + cur / 10 % 256 ≡ q * 256 + cur / 10 = omega arith in
    let all : 10 * (q * 256 + cur / 10) + cur % 10 ≡ (10 * q + r) * 256 + b = omega arith in
    rw e (
      (omega arith, k1),
      k2,
      omega (arith, k3, same_front (div_loop (cur % 10) rest).0 low, same_front rest all),
    )

-- DivBy10 gives the quotient, trimmed, and the remainder.
pub div_by_10_value :
    (mag : List ℕ)
    → IsBytes mag
    → IsCanonical (div_by_10 mag).0
      × ((div_by_10 mag).1 < 10)
      × (10 * value (div_by_10 mag).0 + (div_by_10 mag).1 ≡ value mag)
unfolding div_by_10
div_by_10_value mag h =
    let (k1, k2, k3) = div_loop_value mag 0 0 h (omega arith) in
    (
      trim-IsCanonical (div_loop 0 mag).0 k1,
      omega arith,
      omega (arith, k3, trim_value (div_loop 0 mag).0),
    )

pub trim-Holds :
    (mag : List ℕ) (n : ℕ)
    → Holds mag n
    → IsCanonical (trim_leading_zeros mag) × (value (trim_leading_zeros mag) ≡ n)
trim-Holds mag n k = (trim-IsCanonical mag k.bytes, trim_value mag ∙ k.number)
