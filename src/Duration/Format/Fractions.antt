-- ===== src/Duration/Format/Fractions.antt =====
-- ParseDuration of src/detail/duration.cc on the digits that FormatDuration writes, and on those of a
-- fraction without the zeros at its end.
use protowire_cpp.Common.{
  ℕ, suc, ◌+◌, ◌-◌, ◌*◌, ◌^◌, ◌≤◌, ◌≡◌, refl, sym, ap, ◌∙◌, arith, true, false, some, List, [], ◌∷◌,
  ◌++◌, length, All, ltb, ◌==◌, if◌then◌else◌, tested,
}
use native.Mathlib.Nat.{pow-suc, pow-le-pow_right}
use protowire_cpp.Common.Text.{is_digit}
use protowire_cpp.Common.Text.Decimals.{IsDecimalText, number_from, le-number_from}
use protowire_cpp.Duration.{max_int64, mul_int64, add_int64, next_whole, whole_part, frac_part}
use protowire_cpp.Duration.Format.{trim_zeros}

abbrev pub AllDigits : List ℕ → Type 0
AllDigits s = All (λ c. is_digit c ≡ true) s

-- A text that does not open with a digit.
abbrev pub Stops : List ℕ → Type 0
Stops [] = Unit
Stops (c ∷ s) = is_digit c ≡ false

pub next_small :
    (v c : ℕ) → v * 10 + (c - b'0') ≤ max_int64 → next_whole v c ≡ some (v * 10 + (c - b'0'))
unfolding next_whole mul_int64 add_int64
next_small v c h = ground arith

pub whole_read :
    (s rest : List ℕ) (v : ℕ)
    → AllDigits s
    → number_from v s ≤ max_int64
    → Stops rest
    → whole_part v true (s ++ rest) ≡ some (number_from v s, true, rest)
unfolding whole_part
whole_read [] [] v h k r = refl
whole_read [] (c ∷ rest) v h k r = rw r refl
whole_read (c ∷ s) rest v (p, h) k r =
    let low = le-number_from s (v * 10 + (c - b'0')) in
    rw (p, next_small v c (omega arith)) (whole_read s rest (v * 10 + (c - b'0')) h k r)

pub whole_first :
    (s rest : List ℕ) (n : ℕ)
    → IsDecimalText n s
    → n ≤ max_int64
    → Stops rest
    → whole_part 0 false (s ++ rest) ≡ some (n, true, rest)
unfolding whole_part
whole_first [] rest n t k r = absurd (let one = t.some in omega arith)
whole_first (c ∷ s) rest n t k r =
    let (p, h) = t.all in
    let e = t.number in
    let low = le-number_from s (0 * 10 + (c - b'0')) in
    rw (p, next_small 0 c (omega arith))
      (whole_read s rest (0 * 10 + (c - b'0')) h (omega arith) r ∙ ap (λ x. some (x, true, rest)) e)

-- Nine digits at most count, and each of these does.
pub frac_read :
    (s rest : List ℕ) (num k : ℕ)
    → AllDigits s
    → k + length s ≤ 9
    → Stops rest
    → frac_part num (10 ^ k) true (s ++ rest) ≡ (number_from num s, 10 ^ (k + length s), true, rest)
unfolding frac_part
frac_read [] [] num k h hk r = ap (λ n. (num, 10 ^ n, true, [])) (omega arith)
frac_read [] (c ∷ rest) num k h hk r = rw r (ap (λ n. (num, 10 ^ n, true, c ∷ rest)) (omega arith))
frac_read (c ∷ s) rest num k (p, h) hk r =
    let most = pow-le-pow_right {n = 10} (omega arith) {i = k} {j = 8} (omega arith) in
    let counts : ltb (10 ^ k) 1_000_000_000 ≡ true = ground arith in
    let e : suc k + length s ≡ k + suc (length s) = omega arith in
    let next = num * 10 + (c - b'0') in
    rw (p, counts, sym (pow-suc 10 k))
      (frac_read s rest next (suc k) h (omega arith) r
        ∙ ap (λ n. (number_from next s, 10 ^ n, true, rest)) e)

-- Digits without the zeros at their end.
pub record TrimmedText (s t : List ℕ) : Type 0 where
  pub all : AllDigits t
  pub short : length t ≤ length s
  pub same : (f : ℕ) → number_from f s ≡ number_from f t * 10 ^ (length s - length t)

pub trim_one :
    (c : ℕ) (s t : List ℕ)
    → is_digit c ≡ true
    → TrimmedText s t
    → TrimmedText (c ∷ s) (elim t [ [] ↦ if c == b'0' then [] else c ∷ [] | c' ∷ s' ↦ c ∷ c' ∷ s' ])
trim_one c s [] p k =
    tested (TrimmedText (c ∷ s)) (c == b'0')
      (λ z. record {
        all = tt;
        short = omega arith;
        same = λ f.
            let zero : c - b'0' ≡ 0 = ground arith in
            let len : length s - 0 ≡ length s = omega arith in
            let len' : suc (length s) - 0 ≡ suc (length s) = omega arith in
            k.same (f * 10 + (c - b'0'))
            ∙ rw (zero, len, len', pow-suc 10 (length s)) (omega arith);
      })
      (λ z. record {
        all = (p, tt);
        short = omega arith;
        same = λ f.
            let len : suc (length s) - 1 ≡ length s - 0 = omega arith in
            k.same (f * 10 + (c - b'0')) ∙ ap (λ n. (f * 10 + (c - b'0')) * 10 ^ n) (sym len);
      })
trim_one c s (c' ∷ s') p k =
    let short = k.short in
    record {
      all = (p, k.all);
      short = omega arith;
      same = λ f.
          let len : suc (length s) - suc (suc (length s')) ≡ length s - suc (length s') =
            omega arith in
          k.same (f * 10 + (c - b'0'))
          ∙ ap (λ n. number_from (f * 10 + (c - b'0')) (c' ∷ s') * 10 ^ n) (sym len);
    }

pub trim_zeros-TrimmedText : (s : List ℕ) → AllDigits s → TrimmedText s (trim_zeros s)
unfolding trim_zeros
trim_zeros-TrimmedText [] h = record { all = tt; short = omega arith; same = λ f. omega arith }
trim_zeros-TrimmedText (c ∷ s) (p, h) = trim_one c s (trim_zeros s) p (trim_zeros-TrimmedText s h)
