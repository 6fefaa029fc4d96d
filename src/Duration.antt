-- ===== src/Duration.antt =====
-- ParseDuration of src/detail/duration.cc, with the checked arithmetic of
-- include/protowire/detail/checked_arith.h. The magnitudes are int64 and uint64 values that are not
-- negative, so they are numbers here, with each overflow test written out.
pub mod Segments
pub mod Format
mod Tests
use protowire_cpp.Common.{
  ℕ, zero, suc, ◌+◌, ◌-◌, ◌*◌, ◌/◌, ◌^◌, Bool, true, false, not, ◌&&◌, ◌||◌, Option, none, some,
  List, [], ◌∷◌, ◌==◌, ltb, leb, if◌then◌else◌, length, get_or, drop,
}
use protowire_cpp.Common.Int.{ℤ, pos, sub_ℕ, quot, rem}
use protowire_cpp.Common.Text.{is_digit}

infixl 5 ◌>>=◌
abbrev ◌>>=◌ {ℓ κ} : {A : Type ℓ} {B : Type κ} → Option A → (A → Option B) → Option B
none >>= f = none
some a >>= f = f a

abbrev max_int64 : ℕ
max_int64 = 2 ^ 63 - 1

abbrev max_uint64 : ℕ
max_uint64 = 2 ^ 64 - 1

-- MulOverflow and AddOverflow on values that are not negative: `none` on overflow.
pub mul_int64 : ℕ → ℕ → Option ℕ
mul_int64 a b = if ltb max_int64 (a * b) then none else some (a * b)

pub add_int64 : ℕ → ℕ → Option ℕ
add_int64 a b = if ltb max_int64 (a + b) then none else some (a + b)

-- The lambdas mul_u64 and add_u64.
pub mul_u64 : ℕ → ℕ → Option ℕ
mul_u64 a b = if not (a == 0) && ltb (max_uint64 / a) b then none else some (a * b)

pub add_u64 : ℕ → ℕ → Option ℕ
add_u64 a b = if ltb (max_uint64 - b) a then none else some (a + b)

-- UnitNanos: the nanoseconds of the unit that `s` opens with, and its length in bytes.
pub unit_nanos : List ℕ → Option (ℕ × ℕ)
unit_nanos s =
    let c = λ (i : ℕ). get_or s i 0 in
    let n = length s in
    let two = leb 2 n in
    if n == 0
    then none
    else if two
        && (((c 0 == 0xC2 && c 1 == 0xB5) || (c 0 == 0xCE && c 1 == 0xBC))
            && (leb 3 n && c 2 == b's'))
    then some (1_000, 3)
    else if two && (c 0 == b'n' && c 1 == b's')
    then some (1, 2)
    else if two && (c 0 == b'u' && c 1 == b's')
    then some (1_000, 2)
    else if two && (c 0 == b'm' && c 1 == b's')
    then some (1_000_000, 2)
    else if c 0 == b's'
    then some (1_000_000_000, 1)
    else if c 0 == b'm'
    then some (60 * 1_000_000_000, 1)
    else if c 0 == b'h'
    then some (3600 * 1_000_000_000, 1)
    else none

-- One more digit of the integer part, with the two overflow tests.
pub next_whole : ℕ → ℕ → Option ℕ
next_whole whole c = do tens ← mul_int64 whole 10; add_int64 tens (c - b'0')

-- The loop over the integer part: the value, whether there was a digit, and what follows.
pub whole_part : ℕ → Bool → List ℕ → Option (ℕ × Bool × List ℕ)
whole_part whole any [] = some (whole, any, [])
whole_part whole any (c ∷ s) =
    let later = λ (next : ℕ). whole_part next true s in
    if is_digit c
    then elim (next_whole whole c) [ none ↦ none | some next ↦ later next ]
    else some (whole, any, c ∷ s)

-- The loop over the digits behind a '.': nine of them count.
pub frac_part : ℕ → ℕ → Bool → List ℕ → ℕ × ℕ × Bool × List ℕ
frac_part num div any [] = (num, div, any, [])
frac_part num div any (c ∷ s) =
    let counts = ltb div 1_000_000_000 in
    let later =
      frac_part (if counts then num * 10 + (c - b'0') else num) (if counts then div * 10 else div)
        true s in
    if is_digit c then later else (num, div, any, c ∷ s)

pub point_part : Bool → List ℕ → ℕ × ℕ × Bool × List ℕ
point_part any [] = (0, 1, any, [])
point_part any (c ∷ s) = if c == b'.' then frac_part 0 1 any s else (0, 1, any, c ∷ s)

-- The nanoseconds of one segment.
pub segment_nanos : ℕ → ℕ → ℕ → ℕ → Option ℕ
segment_nanos whole num div unit = do
  v ← mul_u64 whole unit
  if ltb 0 num then (do part ← mul_int64 num unit; add_u64 v (part / div)) else some v

-- One round of `while (!s.empty())`: the new total and what follows the segment.
pub segment : ℕ → List ℕ → Option (ℕ × List ℕ)
segment total s = do
  (whole, any, s1) ← whole_part 0 false s
  let (num, div, any', s2) = point_part any s1
  (unit, unit_len) ← (if any' then unit_nanos s2 else none)
  v ← segment_nanos whole num div unit
  total' ← add_u64 total v
  some (total', drop unit_len s2)

-- The loop. A segment takes a byte at least.
pub segments : ℕ → ℕ → List ℕ → Option ℕ
segments fuel total [] = some total
segments zero total (c ∷ s) = none
segments (suc fuel) total (c ∷ s) = elim (segment total (c ∷ s)) [
  | none ↦ none
  | some (total', rest) ↦ segments fuel total' rest
]

-- The sign is applied, and the total split towards zero.
pub finish : Bool → ℕ → Option (ℤ × ℤ)
finish neg total =
    let signed = if neg then sub_ℕ 0 total else pos total in
    if ltb (if neg then max_int64 + 1 else max_int64) total
    then none
    else some (quot signed 1_000_000_000, rem signed 1_000_000_000)

pub unsigned_part : Bool → List ℕ → Option (ℤ × ℤ)
unsigned_part neg [] = none
unsigned_part neg (c ∷ s) =
    if c == b'0' && length s == 0
    then some (pos 0, pos 0)
    else (do total ← segments (length (c ∷ s)) 0 (c ∷ s); finish neg total)

-- ParseDuration: the seconds and the nanoseconds.
unfoldable pub parse_duration : List ℕ → Option (ℤ × ℤ)
parse_duration [] = none
parse_duration (c ∷ s) =
    if c == b'-' || c == b'+' then unsigned_part (c == b'-') s else unsigned_part false (c ∷ s)
