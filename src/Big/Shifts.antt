-- ===== src/Big/Shifts.antt =====
-- The shift to the right of src/pb/big.cc, and the bits of a magnitude.
use protowire_cpp.Common.{
  ℕ, zero, suc, ◌+◌, ◌-◌, ◌*◌, ◌/◌, ◌%◌, ◌^◌, ◌≤◌, ◌<◌, bit_or, ◌≡◌, refl, sym, ap, ◌∙◌, arith, not,
  ◌||◌, List, [], ◌∷◌, ◌++◌, length, take, drop, get_or, ◌==◌, tested, take-append-drop,
  length-drop,
}
use native.Mathlib.Nat.{pow-suc, one-le-pow, div-div-eq-div-mul, zero-div, div-add-mod}
use protowire_cpp.Common.Bits.{bit_or-add_left}
use protowire_cpp.Big.{bit, some_bit, shift_right_loop, shifted_right}
use protowire_cpp.Big.Magnitudes.{value_from, value, IsBytes, Holds}

pub value_from-append :
    (xs ys : List ℕ) (a : ℕ) → value_from a (xs ++ ys) ≡ value_from (value_from a xs) ys
value_from-append [] ys a = refl
value_from-append (x ∷ xs) ys a = value_from-append xs ys (a * 256 + x)

pub All-drop : (n : ℕ) (mag : List ℕ) → IsBytes mag → IsBytes (drop n mag)
All-drop zero mag h = h
All-drop (suc n) [] h = tt
All-drop (suc n) (b ∷ rest) (hb, h) = All-drop n rest h

pub All-take : (n : ℕ) (mag : List ℕ) → IsBytes mag → IsBytes (take n mag)
All-take zero mag h = tt
All-take (suc n) [] h = tt
All-take (suc n) (b ∷ rest) (hb, h) = (hb, All-take n rest h)

-- A right shift takes whole bytes off the end.
pub shifted_off : (ys : List ℕ) (a : ℕ) → IsBytes ys → value_from a ys / 256 ^ length ys ≡ a
shifted_off [] a h = omega arith
shifted_off (y ∷ ys) a (hy, h) =
    let n = length ys in
    let power : 256 ^ suc n ≡ 256 ^ n * 256 = omega (arith, pow-suc 256 n) in
    ap (λ p. value_from (a * 256 + y) ys / p) power
    ∙ sym (div-div-eq-div-mul (value_from (a * 256 + y) ys) (256 ^ n) 256)
    ∙ ap (λ x. x / 256) (shifted_off ys (a * 256 + y) h)
    ∙ omega arith

value-take :
    (mag : List ℕ) (k : ℕ)
    → IsBytes mag
    → k ≤ length mag
    → value (take (length mag - k) mag) ≡ value mag / 256 ^ k
value-take mag k h hk =
    let m = length mag - k in
    let front = take m mag in
    let back = drop m mag in
    let joined : front ++ back ≡ mag = take-append-drop m mag in
    let low = length-drop m mag (omega arith) in
    let few : length back ≡ k = omega arith in
    sym (shifted_off back (value front) (All-drop m mag h))
    ∙ ap (λ x. x / 256 ^ length back) (sym (value_from-append front back 0) ∙ ap value joined)
    ∙ ap (λ x. value mag / 256 ^ x) few

-- One byte of the loop of ShiftRightRounded, at each of the shifts by less than a byte.
byte_shifted :
    (s v b : ℕ)
    → s < 8
    → b < 256
    → v / 2 ^ s * 256 + (v % 256 * 2 ^ 8 + b) / 2 ^ s % 256 ≡ (v * 256 + b) / 2 ^ s
byte_shifted zero v b hs h = omega arith
byte_shifted (suc zero) v b hs h = omega arith
byte_shifted (suc (suc zero)) v b hs h = omega arith
byte_shifted (suc (suc (suc zero))) v b hs h = omega arith
byte_shifted (suc (suc (suc (suc zero)))) v b hs h = omega arith
byte_shifted (suc (suc (suc (suc (suc zero))))) v b hs h = omega arith
byte_shifted (suc (suc (suc (suc (suc (suc zero)))))) v b hs h = omega arith
byte_shifted (suc (suc (suc (suc (suc (suc (suc zero))))))) v b hs h = omega arith
byte_shifted (suc (suc (suc (suc (suc (suc (suc (suc s)))))))) v b hs h = absurd (omega arith)

shift_right_loop_value :
    (s : ℕ) (mag : List ℕ) (high v : ℕ)
    → s < 8
    → IsBytes mag
    → high ≡ v % 256
    → value_from (v / 2 ^ s) (shift_right_loop s high mag) ≡ value_from v mag / 2 ^ s
unfolding shift_right_loop
shift_right_loop_value s [] high v hs h e = refl
shift_right_loop_value s (b ∷ rest) high v hs (hb, h) e =
    let whole = bit_or-add_left 8 high b hb in
    let front : v / 2 ^ s * 256 + bit_or (high * 2 ^ 8) b / 2 ^ s % 256 ≡ (v * 256 + b) / 2 ^ s =
      rw (whole, e) (byte_shifted s v b hs hb) in
    ap (λ a. value_from a (shift_right_loop s b rest)) front
    ∙ shift_right_loop_value s rest b (v * 256 + b) hs h (omega arith)

shift_right_loop-IsBytes : (s : ℕ) (mag : List ℕ) (high : ℕ) → IsBytes (shift_right_loop s high mag)
unfolding shift_right_loop
shift_right_loop-IsBytes s [] high = tt
shift_right_loop-IsBytes s (b ∷ rest) high = (omega arith, shift_right_loop-IsBytes s rest b)

pub two_split : (m n : ℕ) → 2 ^ (m + n) ≡ 2 ^ m * 2 ^ n
two_split zero n = let e : 0 + n ≡ n = omega arith in rw e (omega arith)
two_split (suc m) n =
    let e : suc m + n ≡ suc (m + n) = omega arith in
    rw (e, pow-suc 2 (m + n), pow-suc 2 m, two_split m n) (omega arith)

pub byte_power : (k : ℕ) → 256 ^ k ≡ 2 ^ (8 * k)
byte_power zero = refl
byte_power (suc k) =
    let e : 8 * suc k ≡ 8 + 8 * k = omega arith in
    rw (e, two_split 8 (8 * k)) (omega (arith, pow-suc 256 k, byte_power k))

-- Whole bytes and then bits.
divided : (v n : ℕ) → v / 256 ^ (n / 8) / 2 ^ (n % 8) ≡ v / 2 ^ n
divided v n =
    let e : 8 * (n / 8) + n % 8 ≡ n = omega arith in
    div-div-eq-div-mul v (256 ^ (n / 8)) (2 ^ (n % 8))
    ∙ ap (λ p. v / (p * 2 ^ (n % 8))) (byte_power (n / 8))
    ∙ ap (λ p. v / p) (sym (two_split (8 * (n / 8)) (n % 8)) ∙ ap (λ k. 2 ^ k) e)

pub shifted_right-Holds :
    (mag : List ℕ) (n : ℕ)
    → IsBytes mag
    → n / 8 ≤ length mag
    → Holds (shifted_right mag n) (value mag / 2 ^ n)
unfolding shifted_right
shifted_right-Holds mag n h hn =
    let kept = take (length mag - n / 8) mag in
    let bytes = All-take (length mag - n / 8) mag h in
    let high = value-take mag (n / 8) h hn in
    tested (λ m. Holds m (value mag / 2 ^ n)) (n % 8 == 0)
      (λ p. record {
        bytes = bytes;
        number = high ∙ whole (value mag) (ground arith) ∙ divided (value mag) n;
      })
      (λ p. record {
        bytes = shift_right_loop-IsBytes (n % 8) kept 0;
        number = moved kept bytes ∙ ap (λ x. x / 2 ^ (n % 8)) high ∙ divided (value mag) n;
      })
  where
    whole : (v : ℕ) → n % 8 ≡ 0 → v / 256 ^ (n / 8) ≡ v / 256 ^ (n / 8) / 2 ^ (n % 8)
    whole v e = rw e (omega arith)

    moved :
        (kept : List ℕ)
        → IsBytes kept
        → value (shift_right_loop (n % 8) 0 kept) ≡ value kept / 2 ^ (n % 8)
    moved kept bytes =
        ap (λ a. value_from a (shift_right_loop (n % 8) 0 kept)) (sym (zero-div (2 ^ (n % 8))))
        ∙ shift_right_loop_value (n % 8) kept 0 0 (omega arith) bytes (omega arith)

-- The byte at an index is the last of the bytes up to it.
byte_at :
    (m : ℕ) (mag : List ℕ) (a : ℕ)
    → m < length mag
    → value_from a (take (suc m) mag) ≡ value_from a (take m mag) * 256 + get_or mag m 0
byte_at m [] a h = absurd (omega arith)
byte_at zero (b ∷ rest) a h = refl
byte_at (suc m) (b ∷ rest) a h = byte_at m rest (a * 256 + b) (omega arith)

get_or-IsByte : (m : ℕ) (mag : List ℕ) → IsBytes mag → get_or mag m 0 < 256
get_or-IsByte m [] h = omega arith
get_or-IsByte zero (b ∷ rest) (hb, h) = hb
get_or-IsByte (suc m) (b ∷ rest) (hb, h) = get_or-IsByte m rest h

pub byte_from_end :
    (mag : List ℕ) (j : ℕ)
    → IsBytes mag
    → j < length mag
    → get_or mag (length mag - 1 - j) 0 ≡ value mag / 256 ^ j % 256
byte_from_end mag j h hj =
    let m = length mag - 1 - j in
    let e : length mag - j ≡ suc m = omega arith in
    let front = ap (λ x. value (take x mag)) (sym e) ∙ value-take mag j h (omega arith) in
    omega (arith, byte_at m mag 0 (omega arith), get_or-IsByte m mag h, front)

bit_of_byte : (s x : ℕ) → s < 8 → x % 256 / 2 ^ s % 2 ≡ x / 2 ^ s % 2
bit_of_byte zero x hs = omega arith
bit_of_byte (suc zero) x hs = omega arith
bit_of_byte (suc (suc zero)) x hs = omega arith
bit_of_byte (suc (suc (suc zero))) x hs = omega arith
bit_of_byte (suc (suc (suc (suc zero)))) x hs = omega arith
bit_of_byte (suc (suc (suc (suc (suc zero))))) x hs = omega arith
bit_of_byte (suc (suc (suc (suc (suc (suc zero)))))) x hs = omega arith
bit_of_byte (suc (suc (suc (suc (suc (suc (suc zero))))))) x hs = omega arith
bit_of_byte (suc (suc (suc (suc (suc (suc (suc (suc s)))))))) x hs = absurd (omega arith)

pub bit_value :
    (mag : List ℕ) (i : ℕ)
    → IsBytes mag
    → i < 8 * length mag
    → bit mag i ≡ not (value mag / 2 ^ i % 2 == 0)
unfolding bit
bit_value mag i h hi =
    let byte = byte_from_end mag (i / 8) h (omega arith) in
    rw byte (
      ap (λ x. not (x == 0))
        (bit_of_byte (i % 8) (value mag / 256 ^ (i / 8)) (omega arith)
          ∙ ap (λ x. x % 2) (divided (value mag) i)))

-- The low bits with one more.
pub low_bits : (v m : ℕ) → v % 2 ^ suc m ≡ v % 2 ^ m + 2 ^ m * (v / 2 ^ m % 2)
low_bits v m =
    let p = 2 ^ m in
    let q = v / p in
    let power : 2 ^ suc m ≡ p * 2 = omega (arith, pow-suc 2 m) in
    let halved : q ≡ q / 2 * 2 + q % 2 = omega arith in
    rw power (
      omega (
        arith,
        div-add-mod v p,
        div-add-mod v (p * 2),
        ap (λ x. p * 2 * x) (sym (div-div-eq-div-mul v p 2)),
        ap (λ x. p * x) halved,
      ))

either : (low p b : ℕ) → 1 ≤ p → b < 2 → (not (low == 0) || not (b == 0)) ≡ not (low + p * b == 0)
either low p zero hp hb = ground arith
either low p (suc zero) hp hb = ground arith
either low p (suc (suc b)) hp hb = absurd (omega arith)

pub some_bit_value :
    (mag : List ℕ) (n : ℕ)
    → IsBytes mag
    → n ≤ 8 * length mag
    → some_bit mag n ≡ not (value mag % 2 ^ n == 0)
unfolding some_bit
some_bit_value mag zero h hn = ground arith
some_bit_value mag (suc n) h hn =
    rw
      (
        some_bit_value mag n h (omega arith),
        bit_value mag n h (omega arith),
        low_bits (value mag) n,
      )
      (either (value mag % 2 ^ n) (2 ^ n) (value mag / 2 ^ n % 2) (one-le-pow n 2 (omega arith))
        (omega arith))
