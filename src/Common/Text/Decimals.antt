-- ===== src/Common/Text/Decimals.antt =====
-- Decimal text, from the last digit.
use protowire_cpp.Common.{
  ℕ, zero, suc, ◌+◌, ◌-◌, ◌*◌, ◌/◌, ◌%◌, ◌^◌, ◌≤◌, ◌<◌, ◌≡◌, refl, sym, ap, ◌∙◌, arith, true, false,
  List, [], ◌∷◌, ◌++◌, append_assoc, length, length-append, ltb, Bool-cases, inl, inr, All,
  All-append,
}
use native.Mathlib.Nat.{pow-suc, pow-le-pow_right}
use protowire_cpp.Common.Text.{decimal, decimal_digits, padded, zeros, is_digit}

decimal_digits-tail :
    (fuel n : ℕ) (tail : List ℕ) → decimal_digits fuel n tail ≡ decimal_digits fuel n [] ++ tail
unfolding decimal_digits
decimal_digits-tail zero n tail = refl
decimal_digits-tail (suc fuel) n tail = elim (Bool-cases (ltb n 10)) [
  | inl p ↦ rw p refl
  | inr p ↦ rw p (
      decimal_digits-tail fuel (n / 10) ((b'0' + n % 10) ∷ tail)
      ∙ sym (append_assoc (decimal_digits fuel (n / 10) []) ((b'0' + n % 10) ∷ []) tail)
      ∙ ap (λ s. s ++ tail) (sym (decimal_digits-tail fuel (n / 10) ((b'0' + n % 10) ∷ []))))
]

decimal_digits_fuel :
    (fuel n : ℕ) (tail : List ℕ)
    → n < 10 ^ suc fuel
    → decimal_digits (suc fuel) n tail ≡ decimal_digits fuel n tail
unfolding decimal_digits
decimal_digits_fuel zero n tail h = ground arith
decimal_digits_fuel (suc fuel) n tail h = elim (Bool-cases (ltb n 10)) [
  | inl p ↦ rw p refl
  | inr p ↦ rw p (
      decimal_digits_fuel fuel (n / 10) ((b'0' + n % 10) ∷ tail)
        (omega (arith, pow-suc 10 (suc fuel))))
]

-- The last digit of a number of two digits or more.
pub decimal_last :
    (n : ℕ) → 10 ≤ n → n < 10 ^ 19 → decimal n ≡ decimal (n / 10) ++ ((b'0' + n % 10) ∷ [])
unfolding decimal decimal_digits
decimal_last n h k =
    let p : ltb n 10 ≡ false = ground arith in
    rw p (
      sym (decimal_digits_fuel 18 (n / 10) ((b'0' + n % 10) ∷ []) (omega arith))
      ∙ decimal_digits-tail 19 (n / 10) ((b'0' + n % 10) ∷ []))

zeros-suc : (n : ℕ) → zeros (suc n) ≡ zeros n ++ (b'0' ∷ [])
zeros-suc zero = refl
zeros-suc (suc n) = ap (λ s. b'0' ∷ s) (zeros-suc n)

one_digit : (n : ℕ) → n < 10 → decimal n ≡ (b'0' + n) ∷ []
unfolding decimal decimal_digits
one_digit n h = ground arith

-- The last of so many digits.
pub padded_last :
    (w n : ℕ) → 1 ≤ w → n < 10 ^ 19 → padded (suc w) n ≡ padded w (n / 10) ++ ((b'0' + n % 10) ∷ [])
padded_last zero n hw h = absurd (omega arith)
padded_last (suc w) n hw h = elim (Bool-cases (ltb n 10)) [
  | inl p ↦
      let z : n / 10 ≡ 0 = ground arith in
      let r : n % 10 ≡ n = ground arith in
      let s1 : suc (suc w) - 1 ≡ suc w = omega arith in
      let s2 : suc w - 1 ≡ w = omega arith in
      rw (z, r, one_digit n (ground arith), one_digit 0 (omega arith), s1, s2)
        (ap (λ s. s ++ ((b'0' + n) ∷ [])) (zeros-suc w))
  | inr p ↦
      let e = decimal_last n (ground arith) h in
      let high = decimal (n / 10) in
      let count : suc (suc w) - length (decimal n) ≡ suc w - length high =
        omega (arith, ap length e, length-append high ((b'0' + n % 10) ∷ [])) in
      rw (count, e) (sym (append_assoc (zeros (suc w - length high)) high ((b'0' + n % 10) ∷ [])))
]

-- The number that digits stand for, behind another.
abbrev pub number_from : ℕ → List ℕ → ℕ
number_from f [] = f
number_from f (c ∷ s) = number_from (f * 10 + (c - b'0')) s

number_from-append :
    (xs ys : List ℕ) (f : ℕ) → number_from f (xs ++ ys) ≡ number_from (number_from f xs) ys
number_from-append [] ys f = refl
number_from-append (x ∷ xs) ys f = number_from-append xs ys (f * 10 + (x - b'0'))

-- So many digits, that stand for a number.
pub record Digits (w n : ℕ) (s : List ℕ) : Type 0 where
  pub all : All (λ c. is_digit c ≡ true) s
  pub count : length s ≡ w
  pub number : number_from 0 s ≡ n

pub padded-Digits : (w n : ℕ) → n < 10 ^ suc w → suc w ≤ 18 → Digits (suc w) n (padded (suc w) n)
padded-Digits zero n h k =
    rw (one_digit n h) record { all = (ground arith, tt); count = refl; number = ground arith }
padded-Digits (suc w) n h k =
    let ih = padded-Digits w (n / 10) (omega (arith, pow-suc 10 (suc w))) (omega arith) in
    let front = padded (suc w) (n / 10) in
    let back = (b'0' + n % 10) ∷ [] in
    let most = pow-le-pow_right {n = 10} (omega arith) {i = suc (suc w)} {j = 18} k in
    rw (padded_last (suc w) n (omega arith) (omega arith)) record {
      all = All-append (λ c. is_digit c ≡ true) front back ih.all (ground arith, tt);
      count = omega (arith, length-append front back, ih.count);
      number = number_from-append front back 0 ∙ omega (arith, ih.number);
    }

-- Decimal text is digits, one at least, that stand for the number.
pub record IsDecimalText (n : ℕ) (s : List ℕ) : Type 0 where
  pub all : All (λ c. is_digit c ≡ true) s
  pub some : 1 ≤ length s
  pub number : number_from 0 s ≡ n

pub decimal-IsDecimalText : (w n : ℕ) → n < 10 ^ suc w → w ≤ 17 → IsDecimalText n (decimal n)
decimal-IsDecimalText zero n h k =
    rw (one_digit n h)
      record { all = (ground arith, tt); some = omega arith; number = ground arith }
decimal-IsDecimalText (suc w) n h k = elim (Bool-cases (ltb n 10)) [
  | inl p ↦
      rw (one_digit n (ground arith))
        record { all = (ground arith, tt); some = omega arith; number = ground arith }
  | inr p ↦
      let most = pow-le-pow_right {n = 10} (omega arith) {i = suc (suc w)} {j = 18} (omega arith) in
      let ih = decimal-IsDecimalText w (n / 10) (omega (arith, pow-suc 10 (suc w))) (omega arith) in
      let front = decimal (n / 10) in
      let back = (b'0' + n % 10) ∷ [] in
      rw (decimal_last n (ground arith) (omega arith)) record {
        all = All-append (λ c. is_digit c ≡ true) front back ih.all (ground arith, tt);
        some = omega (arith, length-append front back);
        number = number_from-append front back 0 ∙ omega (arith, ih.number);
      }
]

pub le-number_from : (s : List ℕ) (v : ℕ) → v ≤ number_from v s
le-number_from [] v = omega arith
le-number_from (c ∷ s) v = omega (arith, le-number_from s (v * 10 + (c - b'0')))
