-- ===== src/Rfc3339.antt =====
-- ParseRFC3339 of src/detail/rfc3339.cc. A string is the list of its bytes; a byte past the end reads
-- as 0, which no test takes.
pub mod Format
use protowire_cpp.Common.{
  ℕ, zero, suc, ◌+◌, ◌-◌, ◌*◌, ◌/◌, ◌%◌, Bool, true, false, not, ◌&&◌, ◌||◌, Option, none, some,
  List, [], ◌∷◌, ◌==◌, ltb, leb, if◌then◌else◌, length, get_or, take, drop,
}
use protowire_cpp.Common.Int.{ℤ, pos, sub_ℕ, quot, pos_part, is_neg, ◌+ℤ◌, ◌-ℤ◌, ◌*ℤ◌}
use protowire_cpp.Common.Text.{is_digit}

infixl 5 ◌>>=◌ ◌>>◌
abbrev ◌>>=◌ {ℓ κ} : {A : Type ℓ} {B : Type κ} → Option A → (A → Option B) → Option B
none >>= f = none
some a >>= f = f a

abbrev ◌>>◌ {ℓ} : {B : Type ℓ} → Option (Unit {0}) → Option B → Option B
m >> k = m >>= λ _. k

-- `if (refused) return std::nullopt`
abbrev refuse_if : Bool → Option (Unit {0})
refuse_if true = none
refuse_if false = some tt

-- DaysFromCivil: the days from 1970-01-01. `year` is moved by one in January and February.
pub days_from_civil : ℕ → ℕ → ℕ → ℤ
days_from_civil year m d =
    let y = sub_ℕ year (if leb m 2 then 1 else 0) in
    let era = quot (if is_neg y then y -ℤ pos 399 else y) 400 in
    let yoe = pos_part (y -ℤ era *ℤ pos 400) in
    let doy = (153 * (if ltb 2 m then m - 3 else m + 9) + 2) / 5 + d - 1 in
    let doe = yoe * 365 + yoe / 4 - yoe / 100 + doy in era *ℤ pos 146097 +ℤ pos doe -ℤ pos 719468

-- ParseUInt on at most four characters, which an int holds.
parse_uint_loop : ℕ → List ℕ → Option ℕ
parse_uint_loop v [] = some v
parse_uint_loop v (c ∷ s) =
    let later = parse_uint_loop (v * 10 + (c - b'0')) s in if is_digit c then later else none

pub parse_uint : List ℕ → Option ℕ
unfolding parse_uint_loop
parse_uint s = parse_uint_loop 0 s

-- The loop over the digits of the fraction: nine of them count. The value, how many counted, and
-- what follows.
frac_loop : ℕ → ℕ → List ℕ → ℕ × ℕ × List ℕ
frac_loop frac digits [] = (frac, digits, [])
frac_loop frac digits (c ∷ s) =
    let counts = not (digits == 9) in
    let later =
      frac_loop (if counts then frac * 10 + (c - b'0') else frac)
        (if counts then digits + 1 else digits) s in
    if is_digit c then later else (frac, digits, c ∷ s)

-- `for (; digits < 9; ++digits) frac *= 10`
pad_frac : ℕ → ℕ → ℕ
pad_frac zero frac = frac
pad_frac (suc rounds) frac = pad_frac rounds (frac * 10)

-- The nanoseconds that `s`, from `pos` on, opens with, and what follows.
pub fraction : List ℕ → ℕ × List ℕ
unfolding frac_loop pad_frac
fraction [] = (0, [])
fraction (c ∷ s) =
    if (c == b'.' || c == b',') && is_digit (get_or s 0 0)
    then (let (frac, digits, rest) = frac_loop 0 0 s in (pad_frac (9 - digits) frac, rest))
    else (0, c ∷ s)

-- The offset in seconds behind a '+' or '-', on the whole designator.
pub offset_seconds : List ℕ → Option ℕ
unfolding parse_uint
offset_seconds tz = do
  refuse_if (not (length tz == 6) || not (get_or tz 3 0 == b':'))
  oh ← parse_uint (take 2 (drop 1 tz))
  om ← parse_uint (take 2 (drop 4 tz))
  refuse_if (ltb 24 oh || ltb 60 om)
  some (oh * 3600 + om * 60)

-- The timezone designator, to which nothing may be added.
pub zone : List ℕ → Option ℤ
unfolding offset_seconds
zone [] = none
zone (c ∷ s) =
    if c == b'Z'
    then (if length s == 0 then some (pos 0) else none)
    else if c == b'+'
    then (do o ← offset_seconds (c ∷ s); some (pos o))
    else if c == b'-'
    then (do o ← offset_seconds (c ∷ s); some (sub_ℕ 0 o))
    else none

-- kDays, with the leap day.
pub days_in_month : ℕ → ℕ → ℕ
days_in_month year month =
    let leap = month == 2 && (year % 4 == 0 && (not (year % 100 == 0) || year % 400 == 0)) in
    get_or (31 ∷ 28 ∷ 31 ∷ 30 ∷ 31 ∷ 30 ∷ 31 ∷ 31 ∷ 30 ∷ 31 ∷ 30 ∷ 31 ∷ []) (month - 1) 0
    + (if leap then 1 else 0)

pub out_of_range : ℕ → ℕ → ℕ → ℕ → ℕ → ℕ → Bool
unfolding days_in_month
out_of_range year month day hour minute second =
    ltb month 1
    || (ltb 12 month
        || (ltb day 1
            || (ltb (days_in_month year month) day
                || (ltb 23 hour || (ltb 59 minute || ltb 59 second)))))

-- ParseRFC3339: the seconds since 1970 and the nanoseconds.
unfoldable pub parse_rfc3339 : List ℕ → Option (ℤ × ℕ)
unfolding parse_uint fraction zone out_of_range days_from_civil
parse_rfc3339 s = do
  let c = λ (i : ℕ). get_or s i 0
  refuse_if (ltb (length s) 19)
  refuse_if (not (c 4 == b'-') || (not (c 7 == b'-') || not (c 10 == b'T')))
  let hour_digits = if is_digit (c 12) then 2 else 1
  let minutes = 11 + hour_digits + 1
  refuse_if (
      ltb (length s) (minutes + 6)
      || (not (c (minutes - 1) == b':') || not (c (minutes + 2) == b':')))
  year ← parse_uint (take 4 s)
  month ← parse_uint (take 2 (drop 5 s))
  day ← parse_uint (take 2 (drop 8 s))
  hour ← parse_uint (take hour_digits (drop 11 s))
  minute ← parse_uint (take 2 (drop minutes s))
  second ← parse_uint (take 2 (drop (minutes + 3) s))
  let (nanos, rest) = fraction (drop (minutes + 5) s)
  offset ← zone rest
  refuse_if (out_of_range year month day hour minute second)
  let days = days_from_civil year month day
  some (days *ℤ pos 86400 +ℤ pos (hour * 3600 + minute * 60 + second) -ℤ offset, nanos)
