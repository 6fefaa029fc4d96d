-- ===== src/Big/Digits.antt =====
-- ParseDigits and FormatMagnitude of src/pb/big.cc: decimal text and the number it stands for.
use protowire_cpp.Common.{
  ℕ, zero, suc, ◌+◌, ◌-◌, ◌*◌, ◌%◌, ◌^◌, ◌≤◌, ◌<◌, ◌≡◌, refl, ap, ◌∙◌, arith, List, [], ◌∷◌, ◌&&◌,
  Option, none, some, Bool, true, false, not, is_empty, length, if◌then◌else◌, Bool-cases, inl, inr,
}
use native.Mathlib.Nat.{pow-suc}
use protowire_cpp.Common.Text.{is_digit}
use protowire_cpp.Big.{
  mul_by_10, add_u8, trim_leading_zeros, div_by_10, digits_loop, parse_digits, format_loop,
  format_magnitude,
}
use protowire_cpp.Big.Magnitudes.{
  value_from, value, IsBytes, IsCanonical, Holds, Holds-≡, trim-Holds, mul_by_10-Holds,
  add_u8-Holds, div_by_10_value,
}

abbrev pub IsDigit : ℕ → Type 0
IsDigit c = is_digit c ≡ true

-- The number behind `a` when the digits follow it.
abbrev pub number_from : ℕ → List ℕ → ℕ
number_from a [] = a
number_from a (c ∷ s) = number_from (a * 10 + (c - b'0')) s

abbrev pub all_digits : List ℕ → Bool
all_digits [] = true
all_digits (c ∷ s) = if is_digit c then all_digits s else false

same_number : (s : List ℕ) {a b : ℕ} → a ≡ b → number_from a s ≡ number_from b s
same_number s e = ap (λ x. number_from x s) e

-- What the digits leave: a magnitude that stands for `n`, exactly when all are digits.
abbrev pub Read : Option (List ℕ) → Bool → ℕ → Type 0
Read none digits n = digits ≡ false
Read (some mag) digits n = (digits ≡ true) × Holds mag n

next_digit :
    (mag : List ℕ) (n c : ℕ)
    → Holds mag n
    → IsDigit c
    → Holds (add_u8 (mul_by_10 mag) ((c - b'0') % 256)) (n * 10 + (c - b'0'))
next_digit mag n c k h =
    let tens = mul_by_10-Holds mag k.bytes in
    let digit : (c - b'0') < 10 = ground arith in
    let sum = add_u8-Holds (mul_by_10 mag) ((c - b'0') % 256) tens.bytes (omega arith) in
    Holds-≡ sum (omega (arith, tens.number, k.number))

pub digits_loop-Read :
    (s mag : List ℕ) (n : ℕ)
    → Holds mag n
    → Read (digits_loop mag s) (all_digits s) (number_from n s)
unfolding digits_loop
digits_loop-Read [] mag n k = (refl, k)
digits_loop-Read (c ∷ s) mag n k = elim (Bool-cases (is_digit c)) [
  | inl p ↦ rw p (digits_loop-Read s _ _ (next_digit mag n c k p))
  | inr p ↦ rw p refl
]

-- The digits that the loop of FormatMagnitude puts in front stand for the magnitude, when the rounds
-- are enough for its decimal digits.
pub format_loop_number :
    (rounds : ℕ) (mag digits : List ℕ)
    → IsBytes mag
    → value mag < 10 ^ rounds
    → number_from 0 (format_loop rounds mag digits) ≡ number_from (value mag) digits
unfolding format_loop
format_loop_number zero mag digits h hr = same_number digits (omega arith)
format_loop_number (suc rounds) [] digits h hr = refl
format_loop_number (suc rounds) (b ∷ rest) digits h hr =
    let (k1, k2, k3) = div_by_10_value (b ∷ rest) h in
    let (mag', rem) = div_by_10 (b ∷ rest) in
    format_loop_number rounds mag' ((b'0' + rem) ∷ digits) k1.0
      (omega (arith, pow-suc 10 rounds, k3))
    ∙ same_number digits (omega (arith, k3))

-- A byte adds less than three decimal digits.
value_from-lt :
    (mag : List ℕ) (a n m : ℕ)
    → IsBytes mag
    → a < 10 ^ n
    → m ≡ n + 3 * length mag
    → value_from a mag < 10 ^ m
value_from-lt [] a n m h ha e = let same : m ≡ n = omega arith in rw same ha
value_from-lt (b ∷ rest) a n m (hb, h) ha e =
    let more : a * 256 + b < 10 ^ suc (suc (suc n)) =
      omega (arith, pow-suc 10 n, pow-suc 10 (suc n), pow-suc 10 (suc (suc n))) in
    value_from-lt rest (a * 256 + b) (suc (suc (suc n))) m h more (omega arith)

-- The digits of FormatMagnitude stand for the magnitude.
pub format_magnitude_number :
    (mag : List ℕ) → IsBytes mag → number_from 0 (format_magnitude mag) ≡ value mag
unfolding format_magnitude
format_magnitude_number [] h = refl
format_magnitude_number (b ∷ rest) h =
    format_loop_number (3 * length (b ∷ rest)) (b ∷ rest) [] h
      (value_from-lt (b ∷ rest) 0 0 (3 * length (b ∷ rest)) h (omega arith) (omega arith))

all_digits-format_loop :
    (rounds : ℕ) (mag digits : List ℕ)
    → IsBytes mag
    → all_digits digits ≡ true
    → all_digits (format_loop rounds mag digits) ≡ true
unfolding format_loop
all_digits-format_loop zero mag digits h k = k
all_digits-format_loop (suc rounds) [] digits h k = k
all_digits-format_loop (suc rounds) (b ∷ rest) digits h k =
    let (k1, k2, k3) = div_by_10_value (b ∷ rest) h in
    let (mag', rem) = div_by_10 (b ∷ rest) in
    all_digits-format_loop rounds mag' ((b'0' + rem) ∷ digits) k1.0 (ground arith)

pub all_digits-format_magnitude :
    (mag : List ℕ) → IsBytes mag → all_digits (format_magnitude mag) ≡ true
unfolding format_magnitude
all_digits-format_magnitude [] h = refl
all_digits-format_magnitude (b ∷ rest) h =
    all_digits-format_loop (3 * length (b ∷ rest)) (b ∷ rest) [] h refl

is_empty-format_loop :
    (rounds : ℕ) (mag digits : List ℕ)
    → is_empty digits ≡ false
    → is_empty (format_loop rounds mag digits) ≡ false
unfolding format_loop
is_empty-format_loop zero mag digits k = k
is_empty-format_loop (suc rounds) [] digits k = k
is_empty-format_loop (suc rounds) (b ∷ rest) digits k =
    let (mag', rem) = div_by_10 (b ∷ rest) in
    is_empty-format_loop rounds mag' ((b'0' + rem) ∷ digits) refl

pub is_empty-format_magnitude : (mag : List ℕ) → is_empty (format_magnitude mag) ≡ false
unfolding format_magnitude format_loop
is_empty-format_magnitude [] = refl
is_empty-format_magnitude (b ∷ rest) =
    let (mag', rem) = div_by_10 (b ∷ rest) in
    let rounds : 3 * length (b ∷ rest) ≡ suc (suc (3 * length rest) + 1) = omega arith in
    rw rounds (is_empty-format_loop (suc (3 * length rest) + 1) mag' ((b'0' + rem) ∷ []) refl)

pub le-value_from : (mag : List ℕ) (a : ℕ) → a ≤ value_from a mag
le-value_from [] a = omega arith
le-value_from (b ∷ rest) a = omega (arith, le-value_from rest (a * 256 + b))

-- A number below 10 ^ k has k digits at most.
length-format_loop :
    (rounds k : ℕ) (mag digits : List ℕ)
    → IsCanonical mag
    → value mag < 10 ^ k
    → length (format_loop rounds mag digits) ≤ k + length digits
unfolding format_loop
length-format_loop zero k mag digits h hk = omega arith
length-format_loop (suc rounds) k [] digits h hk = omega arith
length-format_loop (suc rounds) zero (b ∷ rest) digits (h, t) hk =
    absurd (omega (arith, le-value_from rest (0 * 256 + b)))
length-format_loop (suc rounds) (suc k) (b ∷ rest) digits (h, t) hk =
    let (k1, k2, k3) = div_by_10_value (b ∷ rest) h in
    let (mag', rem) = div_by_10 (b ∷ rest) in
    omega (
      arith,
      length-format_loop rounds k mag' ((b'0' + rem) ∷ digits) k1 (omega (arith, pow-suc 10 k, k3)),
    )

pub length-format_magnitude :
    (k : ℕ) (mag : List ℕ)
    → IsCanonical mag
    → 1 ≤ k
    → value mag < 10 ^ k
    → length (format_magnitude mag) ≤ k
unfolding format_magnitude
length-format_magnitude k [] h hk hv = hk
length-format_magnitude k (b ∷ rest) h hk hv =
    omega (arith, length-format_loop (3 * length (b ∷ rest)) k (b ∷ rest) [] h hv)

-- The same, with no leading zero.
abbrev pub ReadTrimmed : Option (List ℕ) → Bool → ℕ → Type 0
ReadTrimmed none digits n = digits ≡ false
ReadTrimmed (some mag) digits n = (digits ≡ true) × IsCanonical mag × (value mag ≡ n)

-- ParseDigits refuses text that is empty or has another character in it, and its magnitude has no
-- leading zero and stands for the number behind `n` of the text.
pub parse_digits-ReadTrimmed :
    (s mag : List ℕ) (n : ℕ)
    → Holds mag n
    → ReadTrimmed (parse_digits s mag) (not (is_empty s) && all_digits s) (number_from n s)
unfolding parse_digits digits_loop
parse_digits-ReadTrimmed [] mag n k = refl
parse_digits-ReadTrimmed (c ∷ s) mag n k =
    parsed (digits_loop mag (c ∷ s)) (digits_loop-Read (c ∷ s) mag n k)
  where
    parsed :
        (o : Option (List ℕ))
        → Read o (all_digits (c ∷ s)) (number_from n (c ∷ s))
        → ReadTrimmed
            (elim o [ none ↦ none | some mag' ↦ some (trim_leading_zeros mag') ])
            (all_digits (c ∷ s))
            (number_from n (c ∷ s))
    parsed none h = h
    parsed (some mag') (h, k') = let (t, v) = trim-Holds mag' _ k' in (h, t, v)
