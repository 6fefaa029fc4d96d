-- ===== src/Big/Bits.antt =====
-- BitLen of src/pb/big.cc.
use protowire_cpp.Common.{
  ℕ, zero, suc, ◌+◌, ◌*◌, ◌/◌, ◌%◌, ◌^◌, ◌≤◌, ◌<◌, ◌≡◌, refl, sym, ap, ◌∙◌, arith, false, List, [],
  ◌∷◌, ◌==◌, length, Bool-cases, inl, inr, tested,
}
use native.Mathlib.Nat.{pow-suc, mul-le-mul_left, div-add-mod, mod-lt, one-le-pow}
use protowire_cpp.Big.{top_bits, bit_len}
use protowire_cpp.Big.Magnitudes.{value_from, value, IsCanonical}
use protowire_cpp.Big.Shifts.{shifted_off, two_split, byte_power}

top_bits_zero : (rounds : ℕ) → top_bits rounds 0 ≡ 0
unfolding top_bits
top_bits_zero zero = refl
top_bits_zero (suc rounds) = refl

top_bits-le : (rounds b : ℕ) → top_bits rounds b ≤ rounds
unfolding top_bits
top_bits-le zero b = omega arith
top_bits-le (suc rounds) b = ground (arith, top_bits-le rounds (b / 2))

-- No more bits than those of the bytes.
pub bit_len-le : (mag : List ℕ) → bit_len mag ≤ 8 * length mag
unfolding bit_len
bit_len-le [] = omega arith
bit_len-le (b ∷ rest) = omega (arith, top_bits-le 8 b)

doubled :
    (rounds b : ℕ)
    → (b == 0) ≡ false
    → 1 ≤ b
    → (1 ≤ b / 2 → 2 ^ top_bits rounds (b / 2) ≤ 2 * (b / 2))
    → 2 ^ suc (top_bits rounds (b / 2)) ≤ 2 * b
doubled rounds b e k more = elim (Bool-cases (b / 2 == 0)) [
  | inl z ↦ let half : b / 2 ≡ 0 = ground arith in rw (half, top_bits_zero rounds) (omega arith)
  | inr z ↦
      let half = more (ground arith) in omega (arith, half, pow-suc 2 (top_bits rounds (b / 2)))
]

top_bits_bounds :
    (rounds b : ℕ)
    → b < 2 ^ rounds
    → (b < 2 ^ top_bits rounds b) × (1 ≤ b → 2 ^ top_bits rounds b ≤ 2 * b)
unfolding top_bits
top_bits_bounds zero b h = (h, λ k. omega arith)
top_bits_bounds (suc rounds) b h =
    let (k1, k2) = top_bits_bounds rounds (b / 2) (omega (arith, pow-suc 2 rounds)) in
    tested (λ t. (b < 2 ^ t) × (1 ≤ b → 2 ^ t ≤ 2 * b)) (b == 0)
      (λ e. (ground arith, λ k. absurd (ground arith)))
      (λ e. (omega (arith, k1, pow-suc 2 (top_bits rounds (b / 2))), λ k. doubled rounds b e k k2))

-- BitLen of a magnitude with no leading zero byte is its number of bits.
pub bit_len_bounds :
    (mag : List ℕ)
    → IsCanonical mag
    → (value mag < 2 ^ bit_len mag) × (1 ≤ value mag → 2 ^ bit_len mag ≤ 2 * value mag)
unfolding bit_len
bit_len_bounds [] h = (omega arith, λ k. absurd (omega arith))
bit_len_bounds (b ∷ rest) ((hb, h), t) =
    let n = length rest in
    let top = top_bits 8 b in
    let (k1, k2) = top_bits_bounds 8 b hb in
    let p = 256 ^ n in
    let v = value_from (0 * 256 + b) rest in
    let off = shifted_off rest (0 * 256 + b) h in
    let parts = div-add-mod v p in
    let high : v ≡ p * b + v % p = omega (arith, parts, ap (λ x. p * x) off) in
    let low : v % p < p = mod-lt v (one-le-pow n 256 (omega arith)) in
    let e : n * 8 + top ≡ 8 * n + top = omega arith in
    let power : 2 ^ (n * 8 + top) ≡ p * 2 ^ top =
      ap (λ x. 2 ^ x) e ∙ two_split (8 * n) top ∙ ap (λ x. x * 2 ^ top) (sym (byte_power n)) in
    let less : p * suc b ≤ p * 2 ^ top = mul-le-mul_left p k1 in
    let most : p * 2 ^ top ≤ p * (2 * b) = mul-le-mul_left p (k2 t) in
    rw power (bounded p b v (v % p) (2 ^ top) high low less most)
  where
    more : (p b : ℕ) → p * suc b ≡ p * b + p
    more p b = omega arith

    twice : (p b : ℕ) → p * (2 * b) ≡ 2 * (p * b)
    twice p b = omega arith

    bounded :
        (p b v r t : ℕ)
        → v ≡ p * b + r
        → r < p
        → p * suc b ≤ p * t
        → p * t ≤ p * (2 * b)
        → (v < p * t) × (1 ≤ v → p * t ≤ 2 * v)
    bounded p b v r t e h less most =
        (omega (arith, more p b), λ k. omega (arith, e, most, twice p b))
