-- ===== src/Rfc3339/Format/Text.antt =====
-- What FormatRFC3339Nano of src/detail/rfc3339.cc writes, and ParseRFC3339 reads, digit by digit.
use protowire_cpp.Common.{
  ℕ, zero, suc, ◌+◌, ◌-◌, ◌*◌, ◌/◌, ◌%◌, ◌^◌, ◌≤◌, ◌<◌, ◌≡◌, refl, ap, ◌∙◌, arith, true, false,
  some, List, [], ◌∷◌, ◌++◌, length, get_or, All, ◌==◌, tested, not, if◌then◌else◌,
}
use native.Mathlib.Nat.{pow-suc}
use protowire_cpp.Common.Text.{decimal, padded, is_digit}
use protowire_cpp.Common.Text.Decimals.{number_from, padded-Digits}
use protowire_cpp.Rfc3339.{parse_uint, parse_uint_loop, frac_loop, pad_frac, fraction}
use protowire_cpp.Rfc3339.Format.{trim_nanos}

pub two_digits : (n : ℕ) → n < 100 → padded 2 n ≡ (b'0' + n / 10) ∷ (b'0' + n % 10) ∷ []
unfolding decimal
two_digits n h = ground arith

pub four_digits :
    (n : ℕ)
    → n < 10000
    → padded 4 n
      ≡ (b'0' + n / 1000) ∷ (b'0' + n / 100 % 10) ∷ (b'0' + n / 10 % 10) ∷ (b'0' + n % 10) ∷ []
unfolding decimal
four_digits n h = ground arith

pub read_two : (n : ℕ) → n < 100 → parse_uint ((b'0' + n / 10) ∷ (b'0' + n % 10) ∷ []) ≡ some n
unfolding parse_uint parse_uint_loop
read_two n h = ground arith

pub read_four :
    (n : ℕ)
    → n < 10000
    → parse_uint
        ((b'0' + n / 1000) ∷ (b'0' + n / 100 % 10) ∷ (b'0' + n / 10 % 10) ∷ (b'0' + n % 10) ∷ [])
      ≡ some n
unfolding parse_uint parse_uint_loop
read_four n h = ground arith

-- The fraction of at most nine digits, up to the Z.
read_frac :
    (s : List ℕ) (f k : ℕ)
    → All (λ c. is_digit c ≡ true) s
    → k + length s ≤ 9
    → frac_loop f k (s ++ (b'Z' ∷ [])) ≡ (number_from f s, k + length s, b'Z' ∷ [])
unfolding frac_loop
read_frac [] f k h hk = ap (λ n. (f, n, b'Z' ∷ [])) (omega arith)
read_frac (c ∷ s) f k (p, h) hk =
    let counts : not (k == 9) ≡ true = ground arith in
    let e : k + 1 + length s ≡ k + suc (length s) = omega arith in
    rw (p, counts)
      (read_frac s (f * 10 + (c - b'0')) (k + 1) h (omega arith)
        ∙ ap (λ n. (number_from (f * 10 + (c - b'0')) s, n, b'Z' ∷ [])) e)

pad_frac_value : (r f : ℕ) → pad_frac r f ≡ f * 10 ^ r
unfolding pad_frac
pad_frac_value zero f = omega arith
pad_frac_value (suc r) f = pad_frac_value r (f * 10) ∙ omega (arith, ap (λ p. f * p) (pow-suc 10 r))

first_digit :
    (s rest : List ℕ) (w : ℕ)
    → All (λ c. is_digit c ≡ true) s
    → length s ≡ suc w
    → is_digit (get_or (s ++ rest) 0 0) ≡ true
first_digit [] rest w h e = absurd (omega arith)
first_digit (c ∷ s) rest w (p, h) e = p

fraction_read :
    (w n : ℕ)
    → w ≤ 8
    → n < 10 ^ suc w
    → fraction (b'.' ∷ (padded (suc w) n ++ (b'Z' ∷ []))) ≡ (n * 10 ^ (8 - w), b'Z' ∷ [])
unfolding fraction
fraction_read w n hw h =
    let k = padded-Digits w n h (omega arith) in
    let s = padded (suc w) n in
    let read = read_frac s 0 0 k.all (omega (arith, k.count)) in
    let left : 9 - (0 + length s) ≡ 8 - w = omega (arith, k.count) in
    rw (first_digit s (b'Z' ∷ []) w k.all k.count, read, left, k.number, pad_frac_value (8 - w) n)
      refl

-- The nanoseconds without the zeros at the end, in so many digits.
pub record Trimmed (width n : ℕ) (r : ℕ × ℕ) : Type 0 where
  pub less : ℕ
  pub digits : r.0 ≡ suc less
  pub within : suc less ≤ width
  pub small : r.1 < 10 ^ suc less
  pub same : r.1 * 10 ^ (width - suc less) ≡ n

untrimmed : (width n : ℕ) → 1 ≤ n → n < 10 ^ width → Trimmed width n (width, n)
untrimmed zero n h k = absurd (omega arith)
untrimmed (suc v) n h k =
    let z : suc v - suc v ≡ 0 = omega arith in
    record { less = v; digits = refl; within = omega arith; small = k; same = rw z (omega arith) }

one_less : (v n : ℕ) (r : ℕ × ℕ) → n % 10 ≡ 0 → Trimmed v (n / 10) r → Trimmed (suc v) n r
one_less v n r e k =
    let fits = k.within in
    let power : suc v - suc k.less ≡ suc (v - suc k.less) = omega arith in
    record {
      less = k.less;
      digits = k.digits;
      within = omega arith;
      small = k.small;
      same =
          rw (power, pow-suc 10 (v - suc k.less)) (omega (arith, k.same, ap (λ x. x * 10) k.same));
    }

pub trim_nanos-Trimmed :
    (fuel width n : ℕ) → 1 ≤ n → n < 10 ^ width → Trimmed width n (trim_nanos fuel width n)
unfolding trim_nanos
trim_nanos-Trimmed zero width n h k = untrimmed width n h k
trim_nanos-Trimmed (suc fuel) zero n h k = absurd (omega arith)
trim_nanos-Trimmed (suc fuel) (suc v) n h k =
    let e : suc v - 1 ≡ v = omega arith in
    tested (Trimmed (suc v) n) (n % 10 == 0)
      (λ t. rw e (
        one_less v n (trim_nanos fuel v (n / 10)) (ground arith)
          (trim_nanos-Trimmed fuel v (n / 10) (ground arith) (omega (arith, pow-suc 10 v)))))
      (λ t. untrimmed (suc v) n h k)

-- The end of the text, which holds the nanoseconds.
unfoldable pub ending : ℕ → ℕ × ℕ → List ℕ
ending nanos r = (if nanos == 0 then [] else b'.' ∷ padded r.0 r.1) ++ (b'Z' ∷ [])

Trimmed-read :
    (nanos : ℕ) (r : ℕ × ℕ)
    → Trimmed 9 nanos r
    → fraction (b'.' ∷ (padded r.0 r.1 ++ (b'Z' ∷ []))) ≡ (nanos, b'Z' ∷ [])
Trimmed-read nanos r t =
    let few = t.within in
    let power : 8 - t.less ≡ 9 - suc t.less = omega arith in
    ap (λ w. fraction (b'.' ∷ (padded w r.1 ++ (b'Z' ∷ [])))) t.digits
    ∙ fraction_read t.less r.1 (omega arith) t.small
    ∙ ap (λ p. (r.1 * 10 ^ p, b'Z' ∷ [])) power
    ∙ ap (λ n. (n, b'Z' ∷ [])) t.same

pub fraction-ending :
    (nanos : ℕ) (r : ℕ × ℕ)
    → (1 ≤ nanos → Trimmed 9 nanos r)
    → fraction (ending nanos r) ≡ (nanos, b'Z' ∷ [])
unfolding ending fraction
fraction-ending zero r h = refl
fraction-ending (suc k) r h =
    let some : (suc k == 0) ≡ false = ground arith in
    rw some (Trimmed-read (suc k) r (h (omega arith)))

pub ending_some : (nanos : ℕ) (r : ℕ × ℕ) → 1 ≤ length (ending nanos r)
unfolding ending
ending_some zero r = omega arith
ending_some (suc k) r = let some : (suc k == 0) ≡ false = ground arith in rw some (omega arith)
