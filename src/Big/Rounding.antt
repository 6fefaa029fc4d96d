-- ===== src/Big/Rounding.antt =====
-- ShiftRightRounded of src/pb/big.cc rounds half to even.
use protowire_cpp.Common.{
  ℕ, zero, suc, ◌+◌, ◌-◌, ◌*◌, ◌/◌, ◌%◌, ◌^◌, ◌≤◌, ◌<◌, ◌≡◌, sym, ap, ◌∙◌, arith, Bool, true, false,
  not, ◌&&◌, ◌||◌, List, [], ◌∷◌, length, get_or, ◌==◌, if◌then◌else◌, tested,
}
use mathlib.Core.Path.{subst}
use native.Mathlib.Nat.{pow-suc, one-le-pow, div-add-mod, mod-lt}
use protowire_cpp.Big.{bit, bit_len, some_bit, shifted_right, shift_right_rounded, add_u8}
use protowire_cpp.Big.Magnitudes.{
  value, IsBytes, IsCanonical, Holds, Holds-≡, trim-Holds, add_u8-Holds,
}
use protowire_cpp.Big.Shifts.{
  shifted_right-Holds, low_bits, bit_value, some_bit_value, byte_from_end,
}
use protowire_cpp.Big.Bits.{bit_len-le}

-- Rounding to a multiple of `unit`, half to even: no further from the number than half of a unit, and
-- even at the half.
pub record HalfEven (v unit q : ℕ) : Type 0 where
  pub above : 2 * v ≤ 2 * (q * unit) + unit
  pub below : 2 * (q * unit) ≤ 2 * v + unit
  pub even_above : 2 * v ≡ 2 * (q * unit) + unit → q % 2 ≡ 0
  pub even_below : 2 * (q * unit) ≡ 2 * v + unit → q % 2 ≡ 0

rounded : Bool → Bool → Bool → ℕ → ℕ
rounded half sticky odd q = if half && (sticky || odd) then q + 1 else q

rounded-HalfEven :
    (v p q b low : ℕ)
    → v ≡ q * (p * 2) + p * b + low
    → low < p
    → b < 2
    → HalfEven v (p * 2) (rounded (not (b == 0)) (not (low == 0)) (not (q % 2 == 0)) q)
unfolding rounded
rounded-HalfEven v p q zero low e h hb = record {
  above = omega arith;
  below = omega arith;
  even_above = λ x. absurd (omega arith);
  even_below = λ x. absurd (omega arith);
}
rounded-HalfEven v p q (suc zero) low e h hb =
    tested (λ r. HalfEven v (p * 2) r) (not (low == 0) || not (q % 2 == 0))
      (λ t. record {
        above = omega arith;
        below = omega arith;
        even_above = λ x. absurd (omega arith);
        even_below = λ x. ground arith;
      })
      (λ t. record {
        above = ground arith;
        below = omega arith;
        even_above = λ x. ground arith;
        even_below = λ x. absurd (omega arith);
      })
rounded-HalfEven v p q (suc (suc b)) low e h hb = absurd (omega arith)

last_bit :
    (mag : List ℕ) (n : ℕ) → IsBytes mag → value mag ≡ n → get_or mag (length mag - 1) 0 % 2 ≡ n % 2
last_bit [] n h e = omega arith
last_bit (b ∷ rest) n h e =
    let i : length (b ∷ rest) - 1 - 0 ≡ length (b ∷ rest) - 1 = omega arith in
    omega (arith, ap (λ x. get_or (b ∷ rest) x 0) i, byte_from_end (b ∷ rest) 0 h (omega arith))

one_more :
    (b : Bool) (mag : List ℕ) (q : ℕ)
    → Holds mag q
    → Holds (if b then add_u8 mag 1 else mag) (if b then q + 1 else q)
one_more true mag q k = Holds-≡ (add_u8-Holds mag 1 k.bytes (omega arith)) (omega (arith, k.number))
one_more false mag q k = k

-- ShiftRightRounded, for a count of bits above 0 and below the bit length of the magnitude, divides by
-- that power of two and rounds half to even, and it leaves no leading zero byte.
pub shift_right_rounded-HalfEven :
    (mag : List ℕ) (n : ℕ)
    → IsBytes mag
    → 1 ≤ n
    → n < bit_len mag
    → IsCanonical (shift_right_rounded mag n)
      × HalfEven (value mag) (2 ^ n) (value (shift_right_rounded mag n))
unfolding shift_right_rounded rounded
shift_right_rounded-HalfEven mag zero h h1 hn = absurd (omega arith)
shift_right_rounded-HalfEven mag (suc m) h h1 hn =
    let v = value mag in
    let bits = bit_len-le mag in
    let mag' = shifted_right mag (suc m) in
    let k = shifted_right-Holds mag (suc m) h (omega arith) in
    let at : suc m - 1 ≡ m = omega arith in
    let half = ap (bit mag) at ∙ bit_value mag m h (omega arith) in
    let sticky = ap (some_bit mag) at ∙ some_bit_value mag m h (omega arith) in
    let odd = ap (λ x. not (x == 0)) (last_bit mag' (v / 2 ^ suc m) k.bytes k.number) in
    let up =
      bit mag (suc m - 1)
      && (some_bit mag (suc m - 1) || not (get_or mag' (length mag' - 1) 0 % 2 == 0)) in
    let (t, e) =
      trim-Holds (if up then add_u8 mag' 1 else mag') _ (one_more up mag' (v / 2 ^ suc m) k) in
    let power : 2 ^ suc m ≡ 2 ^ m * 2 = omega (arith, pow-suc 2 m) in
    let parts : v ≡ v / 2 ^ suc m * (2 ^ m * 2) + 2 ^ m * (v / 2 ^ m % 2) + v % 2 ^ m =
      omega (arith, low_bits v m, div-add-mod v (2 ^ suc m), ap (λ p. p * (v / 2 ^ suc m)) power) in
    let near =
      rounded-HalfEven v (2 ^ m) (v / 2 ^ suc m) (v / 2 ^ m % 2) (v % 2 ^ m) parts
        (mod-lt v (one-le-pow m 2 (omega arith))) (omega arith) in
    (
      t,
      rw (e, half, sticky, odd)
          (subst
            (λ u. HalfEven v u (
              rounded (not (v / 2 ^ m % 2 == 0)) (not (v % 2 ^ m == 0))
                (not (v / 2 ^ suc m % 2 == 0)) (v / 2 ^ suc m)))
            (sym power) near),
    )
