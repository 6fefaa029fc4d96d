-- ===== src/Big/Reduce/Limbs.antt =====
-- ToLimbs, FromLimbs, MultiplyLimbs and DivideLimbs of src/pb/big.cc: the number that limbs stand for.
use protowire_cpp.Common.{
  ℕ, ◌+◌, ◌*◌, ◌/◌, ◌%◌, ◌^◌, ◌≤◌, ◌<◌, ◌≡◌, refl, ap, ◌∙◌, arith, true, not, ◌&&◌, List, [], ◌∷◌,
  ◌==◌, is_empty, All, tested,
}
use native.Mathlib.Nat.{mul-le-mul_right, div-add-mod, mod-lt, div-lt_iff_lt-mul}
use protowire_cpp.Common.Bits.{bit_or-add, bit_or-add_left}
use protowire_cpp.Big.Magnitudes.{
  value_from, value, IsBytes, IsCanonical, trim-IsCanonical, trim_value,
}
use protowire_cpp.Big.Reduce.{
  from_last, limb, limbs_of, to_limbs, bytes_of, from_limbs, multiply_loop, multiply_limbs,
  divide_loop, trim_back, divide_limbs,
}

-- The number of the bytes and of the limbs with the least significant first.
abbrev pub little_value : List ℕ → ℕ
little_value [] = 0
little_value (b ∷ rest) = b + 256 * little_value rest

abbrev pub limb_value : List ℕ → ℕ
limb_value [] = 0
limb_value (l ∷ limbs) = l + 2 ^ 32 * limb_value limbs

abbrev pub IsLimb : ℕ → Type 0
IsLimb l = l < 2 ^ 32

from_last_value :
    (mag acc : List ℕ) → little_value (from_last acc mag) ≡ value_from (little_value acc) mag
unfolding from_last
from_last_value [] acc = refl
from_last_value (b ∷ rest) acc =
    from_last_value rest (b ∷ acc) ∙ ap (λ a. value_from a rest) (omega arith)

value-from_last : (mag acc : List ℕ) → value (from_last acc mag) ≡ value_from (little_value mag) acc
unfolding from_last
value-from_last [] acc = refl
value-from_last (b ∷ rest) acc =
    value-from_last rest (b ∷ acc) ∙ ap (λ a. value_from a acc) (omega arith)

from_last-IsBytes : (mag acc : List ℕ) → IsBytes mag → IsBytes acc → IsBytes (from_last acc mag)
unfolding from_last
from_last-IsBytes [] acc h k = k
from_last-IsBytes (b ∷ rest) acc (hb, h) k = from_last-IsBytes rest (b ∷ acc) h (hb, k)

limb_lem :
    (b0 b1 b2 b3 : ℕ)
    → b0 < 256
    → b1 < 256
    → b2 < 256
    → b3 < 256
    → limb b0 b1 b2 b3 ≡ b0 + b1 * 2 ^ 8 + b2 * 2 ^ 16 + b3 * 2 ^ 24
unfolding limb
limb_lem b0 b1 b2 b3 h0 h1 h2 h3 = ground (
  arith,
  bit_or-add 8 b0 b1 (omega arith),
  bit_or-add 16 (b0 + b1 * 2 ^ 8) b2 (omega arith),
  bit_or-add 24 (b0 + b1 * 2 ^ 8 + b2 * 2 ^ 16) b3 (omega arith),
)

limbs_of_value :
    (bytes : List ℕ)
    → IsBytes bytes
    → All IsLimb (limbs_of bytes) × (limb_value (limbs_of bytes) ≡ little_value bytes)
unfolding limbs_of
limbs_of_value [] h = (tt, refl)
limbs_of_value (b0 ∷ []) (h0, h) =
    let e = limb_lem b0 0 0 0 h0 (omega arith) (omega arith) (omega arith) in
    ((omega (arith, e), tt), omega (arith, e))
limbs_of_value (b0 ∷ b1 ∷ []) (h0, (h1, h)) =
    let e = limb_lem b0 b1 0 0 h0 h1 (omega arith) (omega arith) in
    ((omega (arith, e), tt), omega (arith, e))
limbs_of_value (b0 ∷ b1 ∷ b2 ∷ []) (h0, (h1, (h2, h))) =
    let e = limb_lem b0 b1 b2 0 h0 h1 h2 (omega arith) in ((omega (arith, e), tt), omega (arith, e))
limbs_of_value (b0 ∷ b1 ∷ b2 ∷ b3 ∷ rest) (h0, (h1, (h2, (h3, h)))) =
    let e = limb_lem b0 b1 b2 b3 h0 h1 h2 h3 in
    let (k1, k2) = limbs_of_value rest h in ((omega (arith, e), k1), omega (arith, e, k2))

bytes_of_value :
    (limbs : List ℕ)
    → All IsLimb limbs
    → IsBytes (bytes_of limbs) × (little_value (bytes_of limbs) ≡ limb_value limbs)
unfolding bytes_of
bytes_of_value [] h = (tt, refl)
bytes_of_value (l ∷ limbs) (hl, h) =
    let (k1, k2) = bytes_of_value limbs h in
    ((omega arith, (omega arith, (omega arith, (omega arith, k1)))), omega (arith, k2))

multiply_loop_value :
    (limbs : List ℕ) (factor carry : ℕ)
    → All IsLimb limbs
    → factor < 2 ^ 31
    → carry < 2 ^ 32
    → All IsLimb (multiply_loop limbs factor carry)
      × (limb_value (multiply_loop limbs factor carry) ≡ limb_value limbs * factor + carry)
unfolding multiply_loop
multiply_loop_value [] factor carry h hf hc =
    tested (λ r. All IsLimb r × (limb_value r ≡ 0 * factor + carry)) (not (carry == 0))
      (λ p. ((omega arith, tt), omega arith)) (λ p. (tt, ground arith))
multiply_loop_value (l ∷ limbs) factor carry (hl, h) hf hc =
    let product : l * factor ≤ 4294967295 * factor = mul-le-mul_right factor (omega arith) in
    let v = (l * factor + carry) % 2 ^ 64 in
    let (k1, k2) = multiply_loop_value limbs factor (v / 2 ^ 32) h hf (omega arith) in
    ((omega arith, k1), omega (arith, k2))

divide_loop_value :
    (limbs : List ℕ) (d : ℕ)
    → All IsLimb limbs
    → 1 ≤ d
    → d < 2 ^ 32
    → All IsLimb (divide_loop limbs d).0
      × ((divide_loop limbs d).1 < d)
      × (limb_value (divide_loop limbs d).0 * d + (divide_loop limbs d).1 ≡ limb_value limbs)
unfolding divide_loop
divide_loop_value [] d h h1 h2 = (tt, h1, omega arith)
divide_loop_value (l ∷ limbs) d (hl, h) h1 h2 =
    let (k1, k2, k3) = divide_loop_value limbs d h h1 h2 in
    let (quotient, rem) = divide_loop limbs d in
    let e = bit_or-add_left 32 rem l hl in
    let cur = rem * 2 ^ 32 + l in
    let small : rem * 2 ^ 32 % 2 ^ 64 ≡ rem * 2 ^ 32 = omega arith in
    let whole = div-add-mod cur d in
    let less : cur / d < 2 ^ 32 = (div-lt_iff_lt-mul h1).1 (omega arith) in
    let low : cur / d % 2 ^ 32 ≡ cur / d = omega arith in
    rw (small, e, low) ((less, k1), mod-lt cur h1, omega (arith, k3, whole))

trim_back_value :
    (limbs : List ℕ)
    → All IsLimb limbs
    → All IsLimb (trim_back limbs) × (limb_value (trim_back limbs) ≡ limb_value limbs)
unfolding trim_back
trim_back_value [] h = (tt, refl)
trim_back_value (l ∷ limbs) (hl, h) =
    let (k1, k2) = trim_back_value limbs h in
    tested (λ r. All IsLimb r × (limb_value r ≡ l + 2 ^ 32 * limb_value limbs))
      (is_empty (trim_back limbs) && l == 0)
      (λ p. (tt, nothing (trim_back limbs) l p (limb_value limbs) k2))
      (λ p. ((hl, k1), omega (arith, k2)))
  where
    nothing :
        (limbs : List ℕ) (l : ℕ)
        → (is_empty limbs && l == 0) ≡ true
        → (n : ℕ) → limb_value limbs ≡ n
        → 0 ≡ l + 2 ^ 32 * n
    nothing [] l p n e = ground arith
    nothing (x ∷ limbs) l p n e = absurd (ground arith)

-- A magnitude in limbs stands for the same number, and its bytes are again those of the limbs.
pub to_limbs_value :
    (mag : List ℕ)
    → IsBytes mag
    → All IsLimb (to_limbs mag) × (limb_value (to_limbs mag) ≡ value mag)
unfolding to_limbs
to_limbs_value mag h =
    let (k1, k2) = limbs_of_value (from_last [] mag) (from_last-IsBytes mag [] h tt) in
    (k1, k2 ∙ from_last_value mag [])

pub from_limbs_value :
    (limbs : List ℕ)
    → All IsLimb limbs
    → IsCanonical (from_limbs limbs) × (value (from_limbs limbs) ≡ limb_value limbs)
unfolding from_limbs
from_limbs_value limbs h =
    let (k1, k2) = bytes_of_value limbs h in
    let mag = from_last [] (bytes_of limbs) in
    (
      trim-IsCanonical mag (from_last-IsBytes (bytes_of limbs) [] k1 tt),
      trim_value mag ∙ value-from_last (bytes_of limbs) [] ∙ k2,
    )

-- MultiplyLimbs multiplies.
pub multiply_limbs_value :
    (limbs : List ℕ) (factor : ℕ)
    → All IsLimb limbs
    → factor < 2 ^ 31
    → All IsLimb (multiply_limbs limbs factor)
      × (limb_value (multiply_limbs limbs factor) ≡ limb_value limbs * factor)
unfolding multiply_limbs
multiply_limbs_value limbs factor h hf =
    let (k1, k2) = multiply_loop_value limbs factor 0 h hf (omega arith) in (k1, omega (arith, k2))

-- DivideLimbs gives the quotient and the remainder.
pub divide_limbs_value :
    (limbs : List ℕ) (d : ℕ)
    → All IsLimb limbs
    → 1 ≤ d
    → d < 2 ^ 32
    → All IsLimb (divide_limbs limbs d).0
      × ((divide_limbs limbs d).1 < d)
      × (limb_value (divide_limbs limbs d).0 * d + (divide_limbs limbs d).1 ≡ limb_value limbs)
unfolding divide_limbs
divide_limbs_value limbs d h h1 h2 =
    let (k1, k2, k3) = divide_loop_value limbs d h h1 h2 in
    let (t1, t2) = trim_back_value (divide_loop limbs d).0 k1 in
    let low : (divide_loop limbs d).1 % 2 ^ 32 ≡ (divide_loop limbs d).1 = omega arith in
    rw (low, t2) (t1, k2, k3)
