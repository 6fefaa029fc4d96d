-- ===== src/Common/Bits.antt =====
-- The bit operations as arithmetic. A mask is a remainder, and `|` of numbers that share no bit
-- is a sum.
use Prim.Native.Nat.{
  ℕ, zero, suc, ◌+◌, ◌*◌, ◌/◌, ◌%◌, ◌^◌, ◌≤◌, ◌<◌, max, bit_or, bit_xor, digits, differ,
  bit_or-bitwise, bit_xor-bitwise,
}
use mathlib.Core.Path.{◌≡◌, refl, ap, ◌∙◌}
use mathlib.Core.Bool.{Bool, true, false}
use protowire_cpp.Common.Tests.{◌==◌, if◌then◌else◌}
use native.Mathlib.Omega.{arith}
use native.Mathlib.Nat.{pow-suc}

abbrev or_digits : ℕ → ℕ → ℕ → ℕ
or_digits n a b = digits (λ b. b) max n a b

or_digits_fuel : (n m a b : ℕ) → a ≤ n → a ≤ m → or_digits n a b ≡ or_digits m a b
or_digits_fuel zero zero a b p q = refl
or_digits_fuel zero (suc m) zero b p q = refl
or_digits_fuel zero (suc m) (suc a) b p q = absurd (omega arith)
or_digits_fuel (suc n) zero zero b p q = refl
or_digits_fuel (suc n) zero (suc a) b p q = absurd (omega arith)
or_digits_fuel (suc n) (suc m) zero b p q = refl
or_digits_fuel (suc n) (suc m) (suc a) b p q =
    omega (arith, or_digits_fuel n m (suc a / 2) (b / 2) (omega arith) (omega arith))

pub zero-bit_or : (b : ℕ) → bit_or 0 b ≡ b
zero-bit_or b = bit_or-bitwise 0 b

-- The law for the lowest digit.
pub bit_or_step : (a b : ℕ) → bit_or a b ≡ bit_or (a / 2) (b / 2) * 2 + max (a % 2) (b % 2)
bit_or_step zero b = omega (arith, zero-bit_or b, zero-bit_or (b / 2))
bit_or_step (suc a) b = omega (
  arith,
  bit_or-bitwise (suc a) b,
  bit_or-bitwise (suc a / 2) (b / 2),
  or_digits_fuel a (suc a / 2) (suc a / 2) (b / 2) (omega arith) (omega arith),
)

half_shift : (k c : ℕ) → c * 2 ^ suc k ≡ 2 * (c * 2 ^ k)
half_shift k c = omega (arith, ap (λ (t : ℕ). c * t) (pow-suc 2 k))

-- `a | (c << k)` for `a` below `2 ^ k`.
pub bit_or-add : (k a c : ℕ) → a < 2 ^ k → bit_or a (c * 2 ^ k) ≡ a + c * 2 ^ k
bit_or-add zero a c h = let e : a ≡ 0 = omega arith in rw e (zero-bit_or (c * 2 ^ 0) ∙ omega arith)
bit_or-add (suc k) a c h = rw (half_shift k c) (
    let ih : bit_or (a / 2) (c * 2 ^ k) ≡ a / 2 + c * 2 ^ k =
      bit_or-add k (a / 2) c (omega (arith, pow-suc 2 k)) in
    bit_or_step a (2 * (c * 2 ^ k))
    ∙ (let e : 2 * (c * 2 ^ k) / 2 ≡ c * 2 ^ k = omega arith in rw (e, ih) (omega arith)))

bit_or-zero_fuel : (n a : ℕ) → a ≤ n → bit_or a 0 ≡ a
bit_or-zero_fuel n zero h = zero-bit_or 0
bit_or-zero_fuel zero (suc a) h = absurd (omega arith)
bit_or-zero_fuel (suc n) (suc a) h =
    omega (arith, bit_or_step (suc a) 0, bit_or-zero_fuel n (suc a / 2) (omega arith))

pub bit_or-zero : (a : ℕ) → bit_or a 0 ≡ a
bit_or-zero a = bit_or-zero_fuel a a (omega arith)

-- `(a << k) | c` for `c` below `2 ^ k`.
pub bit_or-add_left : (k a c : ℕ) → c < 2 ^ k → bit_or (a * 2 ^ k) c ≡ a * 2 ^ k + c
bit_or-add_left zero a c h =
    let e : c ≡ 0 = omega arith in rw e (bit_or-zero (a * 2 ^ 0) ∙ omega arith)
bit_or-add_left (suc k) a c h = rw (half_shift k a) (
    let ih : bit_or (a * 2 ^ k) (c / 2) ≡ a * 2 ^ k + c / 2 =
      bit_or-add_left k a (c / 2) (omega (arith, pow-suc 2 k)) in
    bit_or_step (2 * (a * 2 ^ k)) c
    ∙ (let e : 2 * (a * 2 ^ k) / 2 ≡ a * 2 ^ k = omega arith in rw (e, ih) (omega arith)))

-- Over a small range, two functions agree if evaluation says so.
module _ (f g : ℕ → ℕ) where
  agree_below : ℕ → Bool
  agree_below zero = true
  agree_below (suc n) = if f n == g n then agree_below n else false

  agree_below→eq : (n : ℕ) → agree_below n ≡ true → (i : ℕ) → i < n → f i ≡ g i
  unfolding agree_below
  agree_below→eq zero e i h = absurd (omega arith)
  agree_below→eq (suc n) e i h = ground (arith, agree_below→eq n (ground arith) i)

-- `x | 0x80` on a byte.
pub set_top_bit : (b : ℕ) → b < 256 → bit_or b 0x80 ≡ b % 128 + 128
unfolding agree_below
set_top_bit = agree_below→eq _ _ 256 refl

abbrev xor_digits : ℕ → ℕ → ℕ → ℕ
xor_digits n a b = digits (λ b. b) differ n a b

xor_digits_fuel : (n m a b : ℕ) → a ≤ n → a ≤ m → xor_digits n a b ≡ xor_digits m a b
xor_digits_fuel zero zero a b p q = refl
xor_digits_fuel zero (suc m) zero b p q = refl
xor_digits_fuel zero (suc m) (suc a) b p q = absurd (omega arith)
xor_digits_fuel (suc n) zero zero b p q = refl
xor_digits_fuel (suc n) zero (suc a) b p q = absurd (omega arith)
xor_digits_fuel (suc n) (suc m) zero b p q = refl
xor_digits_fuel (suc n) (suc m) (suc a) b p q =
    omega (arith, xor_digits_fuel n m (suc a / 2) (b / 2) (omega arith) (omega arith))

zero-bit_xor : (b : ℕ) → bit_xor 0 b ≡ b
zero-bit_xor b = bit_xor-bitwise 0 b

differ_small : (x y : ℕ) → x < 2 → y < 2 → differ x y ≡ (x + y) % 2
differ_small zero y h k = omega arith
differ_small (suc zero) zero h k = refl
differ_small (suc zero) (suc zero) h k = refl
differ_small (suc zero) (suc (suc y)) h k = absurd (omega arith)
differ_small (suc (suc x)) y h k = absurd (omega arith)

differ_bits : (a b : ℕ) → differ (a % 2) (b % 2) ≡ (a + b) % 2
differ_bits a b = differ_small (a % 2) (b % 2) (omega arith) (omega arith) ∙ omega arith

bit_xor_step : (a b : ℕ) → bit_xor a b ≡ bit_xor (a / 2) (b / 2) * 2 + (a + b) % 2
bit_xor_step zero b = omega (arith, zero-bit_xor b, zero-bit_xor (b / 2))
bit_xor_step (suc a) b = omega (
  arith,
  bit_xor-bitwise (suc a) b,
  bit_xor-bitwise (suc a / 2) (b / 2),
  differ_bits (suc a) b,
  xor_digits_fuel a (suc a / 2) (suc a / 2) (b / 2) (omega arith) (omega arith),
)

-- `a ^ 0`, and `a ^ (2 ^ k - 1)` for `a` below `2 ^ k`.
pub bit_xor-zero : (k a : ℕ) → a < 2 ^ k → bit_xor a 0 ≡ a
bit_xor-zero zero a h = let e : a ≡ 0 = omega arith in rw e (zero-bit_xor 0)
bit_xor-zero (suc k) a h =
    omega (arith, bit_xor_step a 0, bit_xor-zero k (a / 2) (omega (arith, pow-suc 2 k)))

pub bit_xor-ones : (k a m : ℕ) → a < 2 ^ k → m + 1 ≡ 2 ^ k → bit_xor a m + a ≡ m
bit_xor-ones zero a m h e =
    let e1 : a ≡ 0 = omega arith in
    let e2 : m ≡ 0 = omega arith in rw (e1, e2) (omega (arith, zero-bit_xor 0))
bit_xor-ones (suc k) a m h e = omega (
  arith,
  bit_xor_step a m,
  pow-suc 2 k,
  bit_xor-ones k (a / 2) (m / 2) (omega (arith, pow-suc 2 k)) (omega (arith, pow-suc 2 k)),
)
