-- ===== src/Duration/Format/Segment.antt =====
-- One segment of ParseDuration of src/detail/duration.cc, as FormatDuration writes it.
use protowire_cpp.Common.{
  ℕ, zero, suc, ◌+◌, ◌-◌, ◌*◌, ◌/◌, ◌^◌, ◌≤◌, ◌<◌, ◌≡◌, refl, sym, ap, ◌∙◌, arith, Bool, true,
  false, some, List, ◌∷◌, ◌++◌, length, ltb, ◌==◌, tested, drop-append, append_assoc,
}
use native.Mathlib.Nat.{
  pow-suc, pow-le-pow_right, one-le-pow, le-div_iff_mul-le, mul-div_cancel, mul-le-mul_left,
}
use protowire_cpp.Common.Text.{decimal, padded}
use protowire_cpp.Common.Text.Decimals.{number_from, padded-Digits, decimal-IsDecimalText}
use protowire_cpp.Duration.{
  max_int64, max_uint64, mul_int64, mul_u64, add_u64, unit_nanos, point_part, segment_nanos,
  segment,
}
use protowire_cpp.Duration.Format.{trim_zeros, with_fraction}
use protowire_cpp.Duration.Format.Fractions.{Stops, whole_first, frac_read, trim_zeros-TrimmedText}

pub mul_small : (a b : ℕ) → a * b ≤ max_int64 → mul_int64 a b ≡ some (a * b)
unfolding mul_int64
mul_small a b h = ground arith

pub mul_fits : (a b : ℕ) → a * b ≤ max_uint64 → mul_u64 a b ≡ some (a * b)
unfolding mul_u64
mul_fits zero b h = refl
mul_fits (suc a) b h =
    let bound = le-div_iff_mul-le {k = suc a} {x = b} {y = max_uint64} (omega arith) in
    let fits : b ≤ max_uint64 / suc a = bound.1 (omega (arith, h)) in
    let t : ltb (max_uint64 / suc a) b ≡ false = ground arith in
    let some : (suc a == 0) ≡ false = ground arith in rw (some, t) refl

pub add_fits : (a b : ℕ) → a + b ≤ max_uint64 → add_u64 a b ≡ some (a + b)
unfolding add_u64
add_fits a b h = ground arith

-- A whole number of a unit.
pub whole_nanos :
    (whole unit : ℕ)
    → whole * unit ≤ max_uint64
    → segment_nanos whole 0 1 unit ≡ some (whole * unit)
unfolding segment_nanos
whole_nanos whole unit h = rw (mul_fits whole unit h) refl

pub ten_split : (m n : ℕ) → 10 ^ (m + n) ≡ 10 ^ m * 10 ^ n
ten_split zero n = let e : 0 + n ≡ n = omega arith in rw e (omega arith)
ten_split (suc m) n =
    let e : suc m + n ≡ suc (m + n) = omega arith in
    rw (e, pow-suc 10 (m + n), pow-suc 10 m, ten_split m n) (omega arith)

pub regroup : (a p q : ℕ) → a * (p * q) ≡ a * q * p
regroup a p q = omega arith

-- Some digits of a fraction of a unit of so many places.
pub part_nanos :
    (whole num w left : ℕ)
    → 1 ≤ num
    → num * 10 ^ (w + left) ≤ max_int64
    → whole * 10 ^ (w + left) + num * 10 ^ left ≤ max_uint64
    → segment_nanos whole num (10 ^ w) (10 ^ (w + left))
      ≡ some (whole * 10 ^ (w + left) + num * 10 ^ left)
unfolding segment_nanos
part_nanos whole num w left h1 h2 h3 =
    let some : ltb 0 num ≡ true = ground arith in
    let div : num * 10 ^ (w + left) / 10 ^ w ≡ num * 10 ^ left =
      ap (λ p. num * p / 10 ^ w) (ten_split w left)
      ∙ ap (λ x. x / 10 ^ w) (regroup num (10 ^ w) (10 ^ left))
      ∙ mul-div_cancel (num * 10 ^ left) (one-le-pow w 10 (omega arith)) in
    rw
      (
        mul_fits whole (10 ^ (w + left)) (omega (arith, h3)),
        some,
        mul_small num (10 ^ (w + left)) h2,
        div,
      )
      (add_fits (whole * 10 ^ (w + left)) (num * 10 ^ left) h3)

-- What a unit is written as: it does not open with a digit or a point, and is read as so many
-- nanoseconds, whatever comes behind it.
pub record IsUnit (unit : List ℕ) (nanos : ℕ) (rest : List ℕ) : Type 0 where
  pub stops : Stops (unit ++ rest)
  pub no_point : (any : Bool) → point_part any (unit ++ rest) ≡ (0, 1, any, unit ++ rest)
  pub read : unit_nanos (unit ++ rest) ≡ some (nanos, length unit)

-- A segment with no fraction.
pub whole_segment :
    (total whole nanos : ℕ) (unit rest : List ℕ)
    → IsUnit unit nanos rest
    → whole < 10 ^ 18
    → total + whole * nanos ≤ max_uint64
    → segment total (decimal whole ++ (unit ++ rest)) ≡ some (total + whole * nanos, rest)
unfolding segment
whole_segment total whole nanos unit rest u h k =
    let t = decimal-IsDecimalText 17 whole h (omega arith) in
    rw
      (
        whole_first (decimal whole) (unit ++ rest) whole t (omega arith) u.stops,
        u.no_point true,
        u.read,
        whole_nanos whole nanos (omega (arith, k)),
        add_fits total (whole * nanos) k,
        drop-append (length unit) unit rest refl,
      )
      refl

-- A segment with a fraction of `w` places.
pub part_segment :
    (total whole part w : ℕ) (unit rest : List ℕ)
    → IsUnit unit (10 ^ suc w) rest
    → whole < 10 ^ 18
    → 1 ≤ part
    → part < 10 ^ suc w
    → suc w ≤ 9
    → total + (whole * 10 ^ suc w + part) ≤ max_uint64
    → segment total (decimal whole ++ (b'.' ∷ (trim_zeros (padded (suc w) part) ++ (unit ++ rest))))
      ≡ some (total + (whole * 10 ^ suc w + part), rest)
unfolding segment point_part
part_segment total whole part w unit rest u h hp1 hp hw k =
    let text = decimal-IsDecimalText 17 whole h (omega arith) in
    let ds = padded-Digits w part hp (omega arith) in
    let s = padded (suc w) part in
    let t = trim_zeros s in
    let trimmed = trim_zeros-TrimmedText s ds.all in
    let short = trimmed.short in
    let count = ds.count in
    let left = suc w - length t in
    let width : length t + left ≡ suc w = omega arith in
    let num = number_from 0 t in
    let same : num * 10 ^ left ≡ part =
      ap (λ n. num * 10 ^ (n - length t)) (sym count) ∙ sym (trimmed.same 0) ∙ ds.number in
    let some_num : 1 ≤ num = nonzero num (10 ^ left) (omega (arith, same)) in
    let most = pow-le-pow_right {n = 10} (omega arith) {i = suc w} {j = 9} hw in
    let fraction = frac_read t (unit ++ rest) 0 0 trimmed.all (omega arith) u.stops in
    let small : num ≤ part = at_most num (10 ^ left) part same (one-le-pow left 10 (omega arith)) in
    let bound : num * 10 ^ suc w ≤ max_int64 = product num (10 ^ suc w) (omega arith) most in
    let nanos : segment_nanos whole num (10 ^ length t) (10 ^ suc w)
        ≡ some (whole * 10 ^ suc w + part) =
      ap (λ n. segment_nanos whole num (10 ^ length t) (10 ^ n)) (sym width)
      ∙ part_nanos whole num (length t) left some_num
          (omega (arith, bound, ap (λ n. num * 10 ^ n) width))
          (omega (arith, k, same, ap (λ n. whole * 10 ^ n) width))
      ∙ ap (λ n. some (whole * 10 ^ n + num * 10 ^ left)) width
      ∙ ap (λ x. some (whole * 10 ^ suc w + x)) same in
    let places : 0 + length t ≡ length t = omega arith in
    rw
      (
        whole_first (decimal whole) (b'.' ∷ (t ++ (unit ++ rest))) whole text (omega arith) refl,
        fraction,
        places,
        u.read,
        nanos,
        add_fits total (whole * 10 ^ suc w + part) k,
        drop-append (length unit) unit rest refl,
      )
      refl
  where
    nonzero : (a p : ℕ) → 1 ≤ a * p → 1 ≤ a
    nonzero zero p h = absurd (omega arith)
    nonzero (suc a) p h = omega arith

    at_most : (a p b : ℕ) → a * p ≡ b → 1 ≤ p → a ≤ b
    at_most a p b e h = let more : a * 1 ≤ a * p = mul-le-mul_left a h in omega (arith, more)

    product : (a b : ℕ) → a < 10 ^ 9 → b ≤ 10 ^ 9 → a * b ≤ max_int64
    product a b h k = let one : a * b ≤ a * 10 ^ 9 = mul-le-mul_left a k in omega (arith, one)

-- A number with a fraction that may be 0.
pub fraction_segment :
    (total whole part w : ℕ) (unit rest : List ℕ)
    → IsUnit unit (10 ^ suc w) rest
    → whole < 10 ^ 18
    → part < 10 ^ suc w
    → suc w ≤ 9
    → total + (whole * 10 ^ suc w + part) ≤ max_uint64
    → segment total (with_fraction whole (suc w) part unit ++ rest)
      ≡ some (total + (whole * 10 ^ suc w + part), rest)
unfolding with_fraction
fraction_segment total whole part w unit rest u h hp hw k =
    tested (λ s. segment total (s ++ rest) ≡ some (total + (whole * 10 ^ suc w + part), rest))
      (part == 0)
      (λ z.
        let none : whole * 10 ^ suc w ≡ whole * 10 ^ suc w + part = ground arith in
        ap (segment total) (append_assoc (decimal whole) unit rest)
        ∙ whole_segment total whole (10 ^ suc w) unit rest u h (omega (arith, k, none))
        ∙ ap (λ n. some (total + n, rest)) none)
      (λ z.
        let t = trim_zeros (padded (suc w) part) in
        ap (segment total) (
          append_assoc (decimal whole) (b'.' ∷ (t ++ unit)) rest
          ∙ ap (λ s. decimal whole ++ (b'.' ∷ s)) (append_assoc t unit rest))
        ∙ part_segment total whole part w unit rest u h (ground arith) hp hw k)
