-- ===== src/Duration/Format/RoundTrip.antt =====
-- ParseDuration of src/detail/duration.cc on what FormatDuration writes.
use protowire_cpp.Common.{
  ℕ, zero, suc, ◌+◌, ◌/◌, ◌%◌, ◌^◌, ◌≤◌, ◌<◌, ◌≡◌, refl, ap, ◌∙◌, arith, Bool, true, false, some,
  List, [], ◌∷◌, length, ltb, ◌==◌, ◌&&◌, ◌||◌, get_or, if◌then◌else◌, Bool-cases, inl, inr, tested,
}
use protowire_cpp.Common.Int.{
  ℤ, pos, negsuc, pos_part, neg_part, is_neg, quot, rem, sub_ℕ, ◌+ℤ◌, ◌*ℤ◌,
}
use protowire_cpp.Common.Text.{codes, decimal}
use protowire_cpp.Utf8.{utf8}
use protowire_cpp.Duration.{
  max_int64, mul_int64, add_int64, unit_nanos, next_whole, whole_part, point_part, segment,
  segments, unsigned_part, finish, parse_duration,
}
use protowire_cpp.Duration.Format.{format_small, format_clock, format_duration, in_int64}
use protowire_cpp.Duration.Format.Segment.{whole_segment}
use protowire_cpp.Duration.Format.Texts.{
  last_segment, seconds-IsUnit, OpensDigit, decimal-OpensDigit, fraction-OpensDigit, small_read,
  clock_read,
}

small-OpensDigit : (n : ℕ) → n < 1_000_000_000 → OpensDigit (format_small n)
unfolding format_small
small-OpensDigit n h =
    tested OpensDigit (ltb n 1_000) (λ p. decimal-OpensDigit n (codes "ns") (omega arith))
      (λ p.
        tested OpensDigit (ltb n 1_000_000)
          (λ q. fraction-OpensDigit (n / 1_000) 3 (n % 1_000) (utf8 "µs") (omega arith))
          (λ q. fraction-OpensDigit (n / 1_000_000) 6 (n % 1_000_000) (codes "ms") (omega arith)))

-- A text of segments that opens with a digit, read to its end.
abbrev Reads : List ℕ → ℕ → Type 0
Reads s n = ((fuel : ℕ) → length s ≤ fuel → segments fuel 0 s ≡ some n) × OpensDigit s

written_read :
    (n : ℕ) → n ≤ 2 ^ 63 → Reads (if ltb n 1_000_000_000 then format_small n else format_clock n) n
written_read n h =
    tested (λ s. Reads s n) (ltb n 1_000_000_000)
      (λ p. (small_read n (ground arith), small-OpensDigit n (ground arith))) (λ p. clock_read n h)

zero_alone : (n : ℕ) → segments 1 0 (b'0' ∷ []) ≡ some n → ⊥
unfolding segments segment whole_part next_whole mul_int64 add_int64 point_part unit_nanos
zero_alone n e = ground (arith, e)

unsigned_read : (neg : Bool) (s : List ℕ) (n : ℕ) → Reads s n → unsigned_part neg s ≡ finish neg n
unfolding unsigned_part
unsigned_read neg [] n (k, (c, rest, p, e)) = absurd (ground (arith, ap length e))
unsigned_read neg (c ∷ s) n (k, o) = elim (Bool-cases (c == b'0' && length s == 0)) [
  | inl p ↦ absurd (alone c s (k 1) p)
  | inr p ↦ rw (p, k (length (c ∷ s)) (omega arith)) refl
]
  where
    alone :
        (c : ℕ) (s : List ℕ)
        → (length (c ∷ s) ≤ 1 → segments 1 0 (c ∷ s) ≡ some n)
        → (c == b'0' && length s == 0) ≡ true
        → ⊥
    alone c [] k p = let z : c ≡ b'0' = ground arith in zero_alone n (rw z at (k (omega arith)))
    alone c (d ∷ s) k p = ground arith

positive_read : (s : List ℕ) (n : ℕ) → Reads s n → parse_duration s ≡ finish false n
unfolding parse_duration
positive_read [] n (k, (c, rest, p, e)) = absurd (ground (arith, ap length e))
positive_read (c ∷ s) n (k, (d, rest, p, e)) =
    let same : c ≡ d = ap (λ l. get_or l 0 0) e in
    let sign : (c == b'-' || c == b'+') ≡ false = ground (arith, same) in
    rw sign (unsigned_read false (c ∷ s) n (k, (d, rest, p, e)))

negative_read : (s : List ℕ) (n : ℕ) → Reads s n → parse_duration (b'-' ∷ s) ≡ finish true n
unfolding parse_duration
negative_read s n r = unsigned_read true s n r

-- The seconds and the nanoseconds of a signed number of nanoseconds.
abbrev split_nanos : ℤ → ℤ × ℤ
split_nanos z = (quot z 1_000_000_000, rem z 1_000_000_000)

finish_positive : (n : ℕ) → in_int64 (pos n) ≡ true → finish false n ≡ some (split_nanos (pos n))
unfolding finish in_int64
finish_positive n h = let t : ltb max_int64 n ≡ false = ground arith in rw t refl

finish_negative :
    (n : ℕ) → in_int64 (negsuc n) ≡ true → finish true (suc n) ≡ some (split_nanos (negsuc n))
unfolding finish in_int64
finish_negative n h =
    let t : ltb (max_int64 + 1) (suc n) ≡ false = ground arith in
    let e : sub_ℕ 0 (suc n) ≡ negsuc n = ground arith in rw (t, e) refl

positive_bound : (n : ℕ) → in_int64 (pos n) ≡ true → n ≤ 2 ^ 63
unfolding in_int64
positive_bound n h = ground arith

negative_bound : (n : ℕ) → in_int64 (negsuc n) ≡ true → suc n ≤ 2 ^ 63
unfolding in_int64
negative_bound n h = ground arith

zero_read : Reads (codes "0s") 0
unfolding decimal
zero_read = (
  λ fuel hf.
      last_segment fuel 0 0 (codes "0s")
        (whole_segment 0 0 (10 ^ 9) (codes "s") [] seconds-IsUnit (omega arith) (omega arith)) hf,
  (b'0', codes "s", refl, refl),
)

-- ParseDuration reads back what FormatDuration wrote: the seconds and the nanoseconds of the same
-- number of nanoseconds, both of its sign, wherever the seconds in nanoseconds and that number are
-- within the range of an int64.
pub parse_duration-format_duration :
    (seconds nanos : ℤ)
    → in_int64 (seconds *ℤ pos 1_000_000_000) ≡ true
    → in_int64 (seconds *ℤ pos 1_000_000_000 +ℤ nanos) ≡ true
    → parse_duration (format_duration seconds nanos)
      ≡ some (
        quot (seconds *ℤ pos 1_000_000_000 +ℤ nanos) 1_000_000_000,
        rem (seconds *ℤ pos 1_000_000_000 +ℤ nanos) 1_000_000_000,
      )
unfolding format_duration
parse_duration-format_duration seconds nanos h k =
    rw (h, k) (signed (seconds *ℤ pos 1_000_000_000 +ℤ nanos) k)
  where
    signed :
        (z : ℤ)
        → in_int64 z ≡ true
        → parse_duration (
            if pos_part z + neg_part z == 0
            then codes "0s"
            else if is_neg z
            then b'-'
              ∷ (if ltb (pos_part z + neg_part z) 1_000_000_000
                  then format_small (pos_part z + neg_part z)
                  else format_clock (pos_part z + neg_part z))
            else if ltb (pos_part z + neg_part z) 1_000_000_000
            then format_small (pos_part z + neg_part z)
            else format_clock (pos_part z + neg_part z))
          ≡ some (split_nanos z)
    signed (pos zero) k = positive_read (codes "0s") 0 zero_read ∙ finish_positive 0 k
    signed (pos (suc n)) k =
        let e : suc n + 0 ≡ suc n = omega arith in
        let some_nanos : (suc n == 0) ≡ false = ground arith in
        rw (e, some_nanos)
          (positive_read
              (if ltb (suc n) 1_000_000_000 then format_small (suc n) else format_clock (suc n))
              (suc n) (written_read (suc n) (positive_bound (suc n) k))
            ∙ finish_positive (suc n) k)
    signed (negsuc n) k =
        let e : 0 + suc n ≡ suc n = omega arith in
        let some_nanos : (suc n == 0) ≡ false = ground arith in
        rw (e, some_nanos)
          (negative_read
              (if ltb (suc n) 1_000_000_000 then format_small (suc n) else format_clock (suc n))
              (suc n) (written_read (suc n) (negative_bound n k))
            ∙ finish_negative n k)
