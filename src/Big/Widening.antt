-- ===== src/Big/Widening.antt =====
-- ShiftLeft of src/pb/big.cc multiplies by a power of two.
use protowire_cpp.Common.{
  ℕ, zero, suc, ◌+◌, ◌*◌, ◌/◌, ◌%◌, ◌^◌, ◌≤◌, ◌<◌, bit_or, ◌≡◌, ap, ◌∙◌, arith, List, [], ◌∷◌, ◌++◌,
  get_or, ◌==◌, if◌then◌else◌, tested,
}
use native.Mathlib.Nat.{pow-suc, one-le-pow, one-le-mul, pow-le-pow_right, mul-le-mul_right}
use protowire_cpp.Common.Bits.{bit_or-add_left}
use protowire_cpp.Big.{shift_left_loop, zero_bytes, shift_left}
use protowire_cpp.Big.Magnitudes.{value_from, value, IsBytes, IsTrimmed, IsCanonical, Holds}
use protowire_cpp.Big.Shifts.{value_from-append, two_split, byte_power}

value-zero_bytes : (k a : ℕ) → value_from a (zero_bytes k) ≡ a * 256 ^ k
unfolding zero_bytes
value-zero_bytes zero a = omega arith
value-zero_bytes (suc k) a =
    value-zero_bytes k (a * 256 + 0) ∙ omega (arith, pow-suc 256 k, ap (λ p. a * p) (pow-suc 256 k))

carry_small : (b p c : ℕ) → b < 256 → c < p → (b * p + c) / 256 < p
carry_small b p c hb hc = let most : suc b * p ≤ 256 * p = mul-le-mul_right p hb in omega arith

-- The loop multiplies, and leaves a carry below the power.
shift_left_loop_value :
    (s : ℕ) (mag : List ℕ)
    → IsBytes mag
    → IsBytes (shift_left_loop s mag).0
      × ((shift_left_loop s mag).1 < 2 ^ s)
      × ((a : ℕ)
          → value_from (a * 2 ^ s + (shift_left_loop s mag).1) (shift_left_loop s mag).0
            ≡ value_from a mag * 2 ^ s)
unfolding shift_left_loop
shift_left_loop_value s [] h = (tt, one-le-pow s 2 (omega arith), λ a. omega arith)
shift_left_loop_value s (b ∷ rest) (hb, h) =
    let (k1, k2, k3) = shift_left_loop_value s rest h in
    let (rest', carry) = shift_left_loop s rest in
    let p = 2 ^ s in
    rw (bit_or-add_left s b carry k2) (
      (omega arith, k1),
      carry_small b p carry hb k2,
      λ a. ap (λ x. value_from x rest') (omega arith) ∙ k3 (a * 256 + b),
    )

under_byte : (s : ℕ) → s < 8 → 2 ^ s ≤ 256
under_byte s hs = pow-le-pow_right {n = 2} (omega arith) {i = s} {j = 8} (omega arith)

-- The bytes in front of the zeros.
moved : List ℕ → ℕ → List ℕ
moved mag s =
    let (mag', carry) = shift_left_loop s mag in
    if s == 0 then mag else if carry == 0 then mag' else (carry % 256) ∷ mag'

moved-Holds : (s : ℕ) (mag : List ℕ) → s < 8 → IsBytes mag → Holds (moved mag s) (value mag * 2 ^ s)
unfolding moved
moved-Holds s mag hs h =
    let (k1, k2, k3) = shift_left_loop_value s mag h in
    let (mag', carry) = shift_left_loop s mag in
    let small = under_byte s hs in
    tested (λ m. Holds m (value mag * 2 ^ s)) (s == 0)
      (λ e. let z : s ≡ 0 = ground arith in record { bytes = h; number = rw z (omega arith) })
      (λ e.
        tested (λ m. Holds m (value mag * 2 ^ s)) (carry == 0)
          (λ t. record { bytes = k1; number = ap (λ x. value_from x mag') (ground arith) ∙ k3 0 })
          (λ t. record {
            bytes = (omega arith, k1);
            number = ap (λ x. value_from x mag') (omega arith) ∙ k3 0;
          }))

-- ShiftLeft multiplies by 2 ^ n.
pub shift_left-Holds :
    (mag : List ℕ) (n : ℕ) → IsBytes mag → Holds (shift_left mag n) (value mag * 2 ^ n)
unfolding shift_left moved zero_bytes
shift_left-Holds mag n h =
    let front = moved mag (n % 8) in
    let k = moved-Holds (n % 8) mag (omega arith) h in
    let e : 8 * (n / 8) + n % 8 ≡ n = omega arith in
    let power : 2 ^ (n % 8) * 256 ^ (n / 8) ≡ 2 ^ n = omega (
      arith,
      ap (λ x. 2 ^ (n % 8) * x) (byte_power (n / 8)),
      two_split (8 * (n / 8)) (n % 8),
      ap (λ x. 2 ^ x) e,
    ) in
    record {
      bytes = zeros-IsBytes front (n / 8) k.bytes;
      number =
          value_from-append front (zero_bytes (n / 8)) 0
          ∙ value-zero_bytes (n / 8) (value front)
          ∙ ap (λ x. x * 256 ^ (n / 8)) k.number
          ∙ times (value mag) (2 ^ (n % 8)) (256 ^ (n / 8))
          ∙ ap (λ x. value mag * x) power;
    }
  where
    zeros-IsBytes : (mag : List ℕ) (k : ℕ) → IsBytes mag → IsBytes (mag ++ zero_bytes k)
    zeros-IsBytes [] zero h = tt
    zeros-IsBytes [] (suc k) h = (omega arith, zeros-IsBytes [] k tt)
    zeros-IsBytes (b ∷ mag) k (hb, h) = (hb, zeros-IsBytes mag k h)

    times : (v p q : ℕ) → v * p * q ≡ v * (p * q)
    times v p q = omega arith

leads : (mag ys : List ℕ) → 1 ≤ get_or mag 0 0 → IsTrimmed (mag ++ ys)
leads [] ys h = absurd (omega arith)
leads (b ∷ mag) ys h = h

moved-leads :
    (s b : ℕ) (rest : List ℕ)
    → s < 8
    → IsBytes (b ∷ rest)
    → 1 ≤ b
    → 1 ≤ get_or (moved (b ∷ rest) s) 0 0
unfolding moved shift_left_loop
moved-leads s b rest hs (hb, h) hl =
    let (k1, k2, k3) = shift_left_loop_value s rest h in
    let (j1, j2, j3) = shift_left_loop_value s (b ∷ rest) (hb, h) in
    let carry = (shift_left_loop s rest).1 in
    let v = bit_or (b * 2 ^ s) carry in
    let small = under_byte s hs in
    let some : 1 ≤ b * 2 ^ s = one-le-mul hl (one-le-pow s 2 (omega arith)) in
    let sum = bit_or-add_left s b carry k2 in
    tested {A = List ℕ} (λ m. 1 ≤ get_or m 0 0) (s == 0) (λ e. hl)
      (λ e.
        tested {A = List ℕ} (λ m. 1 ≤ get_or m 0 0) (v / 2 ^ 8 == 0) (λ t. ground arith)
          (λ t. ground arith))

-- A magnitude that is not 0 has no leading zero byte when it is shifted.
pub shift_left-IsCanonical :
    (b : ℕ) (rest : List ℕ) (n : ℕ) → IsCanonical (b ∷ rest) → IsCanonical (shift_left (b ∷ rest) n)
unfolding shift_left moved
shift_left-IsCanonical b rest n (h, hl) = (
  (shift_left-Holds (b ∷ rest) n h).bytes,
  leads (moved (b ∷ rest) (n % 8)) (zero_bytes (n / 8))
      (moved-leads (n % 8) b rest (omega arith) h hl),
)
