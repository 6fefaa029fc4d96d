-- ===== src/GoStrconv/Range.antt =====
-- GoParseUint and GoParseInt on digits: the number in its range, and a refusal outside it.
use protowire_cpp.Common.{
  ℕ, suc, ◌+◌, ◌-◌, ◌*◌, ◌/◌, ◌%◌, ◌^◌, ◌≤◌, ◌<◌, ◌≡◌, ◌∙◌, refl, ap, arith, Bool, true, false, not,
  ◌&&◌, ◌||◌, none, List, [], ◌∷◌, ◌==◌, ltb, leb, if◌then◌else◌, length, All, tested,
}
use native.Mathlib.Decide.{dec_lt}
use native.Mathlib.Nat.{pow-le-pow_right, one-le-pow, two-pow-succ}
use protowire_cpp.Common.Int.{pos, ◌-ℤ◌}
use protowire_cpp.Common.Text.{codes, is_digit}
use protowire_cpp.GoStrconv.{
  num_error, range_error, read, in_excess, read_loop, read_uint, number, refused, signed_int,
  go_parse_int,
}

-- The number that digits stand for, behind a number that was read before them.
unfoldable pub value_from : ℕ → List ℕ → ℕ
value_from n [] = n
value_from n (c ∷ s) = value_from (n * 10 + (c - 48)) s

abbrev pub Digits : List ℕ → Type 0
Digits s = All (λ c. is_digit c ≡ true) s

le-value_from : (n : ℕ) (s : List ℕ) → n ≤ value_from n s
unfolding value_from
le-value_from n [] = omega arith
le-value_from n (c ∷ s) = omega (arith, le-value_from (n * 10 + (c - 48)) s)

-- The loop tells the number from one that is out of range, though its arithmetic wraps around.
read_loop-Digits :
    (max n : ℕ) (s : List ℕ)
    → max < 2 ^ 64
    → n ≤ max
    → Digits s
    → read_loop max n s
      ≡ (if leb (value_from n s) max then read (value_from n s) else in_excess max)
unfolding read_loop value_from
read_loop-Digits max n [] h k d = ground (arith, k)
read_loop-Digits max n (c ∷ s) h k (digit, d) =
    let n' = n * 10 + (c - 48) in
    let low = le-value_from n' s in
    tested (λ r. r ≡ (if leb (value_from n' s) max then read (value_from n' s) else in_excess max))
      (not (is_digit c)) (λ e. absurd (ground (arith, e, digit)))
      (λ _.
        tested
          (λ r. r ≡ (if leb (value_from n' s) max then read (value_from n' s) else in_excess max))
          (leb ((2 ^ 64 - 1) / 10 + 1) n) (λ e. ground (arith, e, low, h))
          (λ e.
            let small : n ≤ 1844674407370955161 = ground (arith, e) in
            let nine : c - 48 ≤ 9 = ground (arith, digit) in
            let tens : n * 10 % 2 ^ 64 ≡ n * 10 = omega (arith, small) in
            rw tens (elim (dec_lt n' (2 ^ 64)) [
              | yes fits ↦
                  let same : n' % 2 ^ 64 ≡ n' = omega (arith, fits) in
                  rw same (
                    tested
                      (λ r. r ≡ (
                        if leb (value_from n' s) max
                        then read (value_from n' s)
                        else in_excess max))
                      (ltb n' (n * 10) || ltb max n') (λ f. ground (arith, f, low))
                      (λ f. read_loop-Digits max n' s h (ground (arith, f)) d))
              | no wraps ↦
                  let less : n' % 2 ^ 64 < n * 10 = omega (arith, wraps, small, nine) in
                  ground (arith, less, wraps, low, h)
            ])))

max_of : (bits : ℕ) → (if bits == 64 then 2 ^ 64 - 1 else 2 ^ bits - 1) ≡ 2 ^ bits - 1
max_of bits =
    tested (λ m. m ≡ 2 ^ bits - 1) (bits == 64)
      (λ e. let same : bits ≡ 64 = ground (arith, e) in rw same refl) (λ _. refl)

read_uint-Digits :
    (bits : ℕ) (s : List ℕ)
    → bits ≤ 64
    → 1 ≤ length s
    → Digits s
    → read_uint s bits ≡ (
        if ltb (value_from 0 s) (2 ^ bits) then read (value_from 0 s) else in_excess (2 ^ bits - 1))
unfolding read_uint
read_uint-Digits bits s h one d =
    let top : 2 ^ bits ≤ 2 ^ 64 = pow-le-pow_right (omega arith) h in
    let some_bits : 1 ≤ 2 ^ bits = one-le-pow bits 2 (omega arith) in
    let v = value_from 0 s in
    tested (λ r. r ≡ (if ltb v (2 ^ bits) then read v else in_excess (2 ^ bits - 1)))
      (length s == 0) (λ e. absurd (ground (arith, e, one)))
      (λ _. rw (max_of bits) (
        read_loop-Digits (2 ^ bits - 1) 0 s (omega (arith, top, some_bits)) (omega arith) d
        ∙ ground (arith, some_bits)))

-- The sign in front of digits.
abbrev pub with_sign : Bool → List ℕ → List ℕ
with_sign neg s = if neg then b'-' ∷ s else s

in_range :
    (table : List (ℕ × ℕ)) (text : List ℕ) (neg : Bool) (bits v : ℕ)
    → signed_int table text neg bits (read v) ≡ (
        if (if neg then leb v (2 ^ (bits - 1)) else ltb v (2 ^ (bits - 1)))
        then number (if neg then pos 0 -ℤ pos v else pos v)
        else refused none (num_error table (codes "ParseInt") text range_error))
unfolding signed_int
in_range table text true bits v = ground arith
in_range table text false bits v = ground arith

-- The range of a signed number, with one more below zero than above.
signed_int_range :
    (table : List (ℕ × ℕ)) (text : List ℕ) (neg : Bool) (bits v : ℕ)
    → 1 ≤ bits
    → signed_int table text neg bits (if ltb v (2 ^ bits) then read v else in_excess (2 ^ bits - 1))
      ≡ (if (if neg then leb v (2 ^ (bits - 1)) else ltb v (2 ^ (bits - 1)))
          then number (if neg then pos 0 -ℤ pos v else pos v)
          else refused none (num_error table (codes "ParseInt") text range_error))
unfolding signed_int
signed_int_range table text neg bits v some_bits =
    let one_more : bits ≡ suc (bits - 1) = omega (arith, some_bits) in
    let half : 2 ^ bits ≡ 2 ^ (bits - 1) + 2 ^ (bits - 1) =
      ap (λ b. 2 ^ b) one_more ∙ two-pow-succ (bits - 1) in
    let top = 2 ^ (bits - 1) in
    let goal =
      (if (if neg then leb v top else ltb v top)
        then number (if neg then pos 0 -ℤ pos v else pos v)
        else refused none (num_error table (codes "ParseInt") text range_error)) in
    tested (λ r. signed_int table text neg bits r ≡ goal) (ltb v (2 ^ bits))
      (λ e. in_range table text neg bits v)
      (λ e.
        let positive = one-le-pow (bits - 1) 2 (omega arith) in ground (arith, e, half, positive))

-- Digits of any number, with or without a minus sign: GoParseInt returns the number they stand for where
-- it is in the range of so many bits, and refuses it as out of range elsewhere, also where the digits
-- overflow a uint64.
pub go_parse_int-Digits :
    (table : List (ℕ × ℕ)) (neg : Bool) (bits : ℕ) (s : List ℕ)
    → 1 ≤ bits
    → bits ≤ 64
    → 1 ≤ length s
    → Digits s
    → go_parse_int table (with_sign neg s) bits ≡ (
        if (if neg
          then leb (value_from 0 s) (2 ^ (bits - 1))
          else ltb (value_from 0 s) (2 ^ (bits - 1)))
        then number (if neg then pos 0 -ℤ pos (value_from 0 s) else pos (value_from 0 s))
        else refused none (num_error table (codes "ParseInt") (with_sign neg s) range_error))
unfolding go_parse_int
go_parse_int-Digits table neg bits [] some_bits h one d = absurd (omega (arith, one))
go_parse_int-Digits table true bits (c ∷ s) some_bits h one d =
    let signed : ltb 0 (length (b'-' ∷ c ∷ s)) ≡ true = ground arith in
    rw signed (
      ap (signed_int table (b'-' ∷ c ∷ s) true bits) (read_uint-Digits bits (c ∷ s) h one d)
      ∙ signed_int_range table (b'-' ∷ c ∷ s) true bits (value_from 0 (c ∷ s)) some_bits)
go_parse_int-Digits table false bits (c ∷ s) some_bits h one (digit, d) =
    let unsigned : (ltb 0 (length (c ∷ s)) && (c == b'+' || c == b'-')) ≡ false =
      ground (arith, digit) in
    rw unsigned (
      ap (signed_int table (c ∷ s) false bits) (read_uint-Digits bits (c ∷ s) h one (digit, d))
      ∙ signed_int_range table (c ∷ s) false bits (value_from 0 (c ∷ s)) some_bits)
