-- ===== src/Duration/Format.antt =====
-- FormatDuration of src/detail/duration.cc. The product and the sum are checked for the range of an
-- int64, as MulOverflow and AddOverflow do.
pub mod Fractions
pub mod Segment
pub mod Texts
pub mod RoundTrip
mod Tests
use protowire_cpp.Common.{
  ℕ, zero, suc, ◌+◌, ◌-◌, ◌*◌, ◌/◌, ◌%◌, ◌^◌, Bool, true, false, not, ◌||◌, List, [], ◌∷◌, ◌++◌,
  ◌==◌, ltb, leb, if◌then◌else◌,
}
use protowire_cpp.Common.Int.{ℤ, pos, negsuc, pos_part, neg_part, is_neg, ◌+ℤ◌, ◌*ℤ◌}
use protowire_cpp.Common.Text.{codes, decimal, padded}
use protowire_cpp.Utf8.{utf8}

-- The values of an int64.
pub in_int64 : ℤ → Bool
in_int64 (pos n) = leb n (2 ^ 63 - 1)
in_int64 (negsuc n) = leb n (2 ^ 63 - 1)

-- The digits without the zeros at the end.
pub trim_zeros : List ℕ → List ℕ
trim_zeros [] = []
trim_zeros (c ∷ s) = elim (trim_zeros s) [
  | [] ↦ if c == b'0' then [] else c ∷ []
  | c' ∷ s' ↦ c ∷ c' ∷ s'
]

-- A number with a fraction of `width` digits, where the fraction is not 0, and the unit.
pub with_fraction : ℕ → ℕ → ℕ → List ℕ → List ℕ
with_fraction whole width part unit =
    if part == 0
    then decimal whole ++ unit
    else decimal whole ++ (b'.' ∷ trim_zeros (padded width part) ++ unit)

-- Less than a second, in the smallest unit that fits.
pub format_small : ℕ → List ℕ
format_small n =
    if ltb n 1_000
    then decimal n ++ codes "ns"
    else if ltb n 1_000_000
    then with_fraction (n / 1_000) 3 (n % 1_000) (utf8 "µs")
    else with_fraction (n / 1_000_000) 6 (n % 1_000_000) (codes "ms")

-- Hours, minutes and seconds.
pub format_clock : ℕ → List ℕ
format_clock n =
    let s = n / 1_000_000_000 in
    let h = s / 3600 in
    let m = (s / 60) % 60 in
    (if ltb 0 h then decimal h ++ codes "h" else [])
    ++ ((if ltb 0 h || ltb 0 m then decimal m ++ codes "m" else [])
        ++ with_fraction (s % 60) 9 (n % 1_000_000_000) (codes "s"))

-- FormatDuration
pub format_duration : ℤ → ℤ → List ℕ
format_duration seconds nanos =
    let product = seconds *ℤ pos 1_000_000_000 in
    let scaled = product +ℤ nanos in
    let total = pos_part scaled + neg_part scaled in
    let out = if ltb total 1_000_000_000 then format_small total else format_clock total in
    if not (in_int64 product) || not (in_int64 scaled)
    then codes "<duration overflow>"
    else if total == 0
    then codes "0s"
    else if is_neg scaled
    then b'-' ∷ out
    else out
