-- ===== src/Big/Reduce.antt =====
-- Reduce of src/pb/big.cc, on limbs of base 2 ^ 32 with the least significant first.
pub mod Limbs
pub mod Scale
use protowire_cpp.Common.{
  ℕ, zero, suc, ◌+◌, ◌-◌, ◌*◌, ◌/◌, ◌%◌, ◌^◌, bit_or, Bool, true, false, not, ◌&&◌, List, [], ◌∷◌,
  ◌++◌, ◌==◌, ltb, leb, if◌then◌else◌, is_empty,
}
use protowire_cpp.Common.Int.{ℤ, pos, pos_part, neg_part}
use protowire_cpp.Big.{trim_leading_zeros}

-- The bytes from the other end, in front of `acc`: a magnitude is read and written from its last
-- byte, `mag[mag.size() - 1 - i]`.
unfoldable pub from_last : List ℕ → List ℕ → List ℕ
from_last acc [] = acc
from_last acc (b ∷ rest) = from_last (b ∷ acc) rest

-- Four bytes, `|=` into a limb of 0; a byte that is missing is 0.
unfoldable pub limb : ℕ → ℕ → ℕ → ℕ → ℕ
limb b0 b1 b2 b3 = bit_or (bit_or (bit_or b0 (b1 * 2 ^ 8)) (b2 * 2 ^ 16)) (b3 * 2 ^ 24)

-- The loop of ToLimbs, a limb at a time.
unfoldable pub limbs_of : List ℕ → List ℕ
limbs_of [] = []
limbs_of (b0 ∷ []) = limb b0 0 0 0 ∷ []
limbs_of (b0 ∷ b1 ∷ []) = limb b0 b1 0 0 ∷ []
limbs_of (b0 ∷ b1 ∷ b2 ∷ []) = limb b0 b1 b2 0 ∷ []
limbs_of (b0 ∷ b1 ∷ b2 ∷ b3 ∷ rest) = limb b0 b1 b2 b3 ∷ limbs_of rest

-- ToLimbs
unfoldable pub to_limbs : List ℕ → List ℕ
to_limbs mag = limbs_of (from_last [] mag)

-- The loop of FromLimbs, a limb at a time.
unfoldable pub bytes_of : List ℕ → List ℕ
bytes_of [] = []
bytes_of (l ∷ limbs) =
    (l % 256) ∷ (l / 2 ^ 8 % 256) ∷ (l / 2 ^ 16 % 256) ∷ (l / 2 ^ 24 % 256) ∷ bytes_of limbs

-- FromLimbs
unfoldable pub from_limbs : List ℕ → List ℕ
from_limbs limbs = trim_leading_zeros (from_last [] (bytes_of limbs))

-- MultiplyLimbs, with the carry into the first limb.
pub multiply_loop : List ℕ → ℕ → ℕ → List ℕ
multiply_loop [] factor carry = if not (carry == 0) then carry % 2 ^ 32 ∷ [] else []
multiply_loop (l ∷ limbs) factor carry =
    let v = (l * factor + carry) % 2 ^ 64 in (v % 2 ^ 32) ∷ multiply_loop limbs factor (v / 2 ^ 32)

pub multiply_limbs : List ℕ → ℕ → List ℕ
multiply_limbs limbs factor = multiply_loop limbs factor 0

-- The loop of DivideLimbs, from the last limb: the quotient and the remainder.
unfoldable pub divide_loop : List ℕ → ℕ → List ℕ × ℕ
divide_loop [] divisor = ([], 0)
divide_loop (l ∷ limbs) divisor =
    let (quotient, rem) = divide_loop limbs divisor in
    let cur = bit_or (rem * 2 ^ 32 % 2 ^ 64) l in
    ((cur / divisor % 2 ^ 32) ∷ quotient, cur % divisor)

-- `while (!quotient.empty() && quotient.back() == 0)`
unfoldable pub trim_back : List ℕ → List ℕ
trim_back [] = []
trim_back (l ∷ limbs) =
    let trimmed = trim_back limbs in if is_empty trimmed && l == 0 then [] else l ∷ trimmed

-- DivideLimbs
unfoldable pub divide_limbs : List ℕ → ℕ → List ℕ × ℕ
divide_limbs limbs divisor =
    let (quotient, rem) = divide_loop limbs divisor in (trim_back quotient, rem % 2 ^ 32)

-- kBatchDigits
abbrev pub batch_digits : ℕ
batch_digits = 9

-- kPow10, the table of the first ten powers of ten.
abbrev pub pow10 : ℕ → ℕ
pow10 step = 10 ^ step

-- `while (scale < 0)`, at scale -m: every round raises it by one at least, so m rounds end it.
unfoldable pub raise_loop : ℕ → List ℕ → ℕ → List ℕ
raise_loop zero limbs m = limbs
raise_loop (suc rounds) limbs m =
    let step = if ltb batch_digits m then batch_digits else m in
    let more = raise_loop rounds (multiply_limbs limbs (pow10 step)) (m - step) in
    if ltb 0 m then more else limbs

-- `while (scale >= step && DivideLimbs(...) == 0)`: every round lowers the scale.
unfoldable pub lower_loop : ℕ → ℕ → List ℕ → ℕ → List ℕ × ℕ
lower_loop step zero limbs scale = (limbs, scale)
lower_loop step (suc rounds) limbs scale =
    let (quotient, rem) = divide_limbs limbs (pow10 step) in
    let more = lower_loop step rounds quotient (scale - step) in
    if leb step scale && rem == 0 then more else (limbs, scale)

-- Reduce: the magnitude and the scale, which is 0 or more.
unfoldable pub reduce : List ℕ → ℤ → List ℕ × ℕ
reduce unscaled scale =
    let raised = raise_loop (neg_part scale) (to_limbs unscaled) (neg_part scale) in
    let (limbs, s) = lower_loop batch_digits (pos_part scale) raised (pos_part scale) in
    let (limbs', s') = lower_loop 1 s limbs s in (from_limbs limbs', s')
