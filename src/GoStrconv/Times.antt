-- ===== src/GoStrconv/Times.antt =====
-- GoTimestampError of src/detail/go_strconv.cc, the message of Go's package time for a timestamp that
-- it refuses.
mod Tests
use protowire_cpp.Common.{
  ℕ, zero, suc, ◌+◌, ◌-◌, ◌*◌, ◌%◌, Bool, true, false, not, ◌&&◌, ◌||◌, Option, none, some, List,
  [], ◌∷◌, ◌++◌, ◌==◌, ltb, leb, if◌then◌else◌, is_empty, length, get_or, take, drop,
}
use protowire_cpp.Common.Text.{codes, is_digit}
use protowire_cpp.GoStrconv.Messages.{time_quote, skip_digits}

-- kLayout
abbrev pub layout : List ℕ
layout = codes "2006-01-02T15:04:05Z07:00"

-- TimeError
pub time_error : List ℕ → List ℕ → List ℕ → List ℕ
time_error value rest elem =
    codes "parsing time "
    ++ (time_quote value
        ++ (codes " as "
            ++ (time_quote layout
                ++ (codes ": cannot parse "
                    ++ (time_quote rest ++ (codes " as " ++ time_quote elem))))))

-- TimeMessage
pub time_message : List ℕ → List ℕ → List ℕ
time_message value message = codes "parsing time " ++ (time_quote value ++ message)

-- GetNum: the number and what is behind it.
pub get_num : Bool → List ℕ → Option (ℕ × List ℕ)
get_num fixed s =
    let first = get_or s 0 0 in
    let second = get_or s 1 0 in
    if is_empty s || not (is_digit first)
    then none
    else if ltb (length s) 2 || not (is_digit second)
    then (if fixed then none else some (first - b'0', drop 1 s))
    else some ((first - b'0') * 10 + (second - b'0'), drop 2 s)

-- A step of GoTimestampError: it goes on, or returns its message.
pub data Stage (A : Type 0) : Type 0 where
  on : A → Stage A
  message : List ℕ → Stage A

infixl 5 ◌>>=◌
pub ◌>>=◌ : {A B : Type 0} → Stage A → (A → Stage B) → Stage B
on a >>= f = f a
message m >>= f = message m

-- `if (!literal(c)) return TimeError(v, value, elem)`
pub literal : List ℕ → ℕ → List ℕ → Stage (List ℕ)
literal v c value =
    if not (is_empty value) && get_or value 0 0 == c
    then on (drop 1 value)
    else message (time_error v value (c ∷ []))

-- `if (!GetNum(&value, fixed, &n)) return TimeError(v, hold, elem)`
pub number_of : List ℕ → Bool → List ℕ → List ℕ → Stage (ℕ × List ℕ)
number_of v fixed elem value = elim (get_num fixed value) [
  | none ↦ message (time_error v value elem)
  | some r ↦ on r
]

-- `range(what)`, when a number is out of its bounds.
pub in_range : List ℕ → List ℕ → Bool → Stage (List ℕ)
in_range v what bad =
    if bad then message (time_message v (codes ": " ++ (what ++ codes " out of range"))) else on []

-- The year: four digits.
pub year_of : List ℕ → Stage (ℕ × List ℕ)
year_of v =
    let d = λ (i : ℕ). get_or v i 0 - b'0' in
    let digit = λ (i : ℕ). is_digit (get_or v i 0) in
    if leb 4 (length v) && (digit 0 && (digit 1 && (digit 2 && digit 3)))
    then on (((d 0 * 10 + d 1) * 10 + d 2) * 10 + d 3, drop 4 v)
    else message (time_error v v (codes "2006"))

-- The fraction of a second, which is passed over.
pub behind_fraction : List ℕ → List ℕ
behind_fraction s =
    let mark = get_or s 0 0 in
    if leb 2 (length s) && ((mark == b'.' || mark == b',') && is_digit (get_or s 1 0))
    then skip_digits (drop 2 s)
    else s

-- The hours and the minutes of an offset, and whether both are numbers.
pub offset_of : List ℕ → Bool × ℕ × ℕ
offset_of s = elim (get_num true (take 2 (drop 1 s))) [
  | none ↦ (false, 0, 0)
  | some (hours, _) ↦ elim (get_num true (take 2 (drop 4 s))) [
    | none ↦ (false, hours, 0)
    | some (minutes, _) ↦ (true, hours, minutes)
  ]
]

-- The zone: what is behind it.
pub zone_of : List ℕ → List ℕ → Stage (List ℕ)
zone_of v s =
    let (both, hours, minutes) = offset_of s in
    let sign = get_or s 0 0 in
    let bad = message (time_error v s (codes "Z07:00")) in
    if not (is_empty s) && get_or s 0 0 == b'Z'
    then on (drop 1 s)
    else if ltb (length s) 6 || not (get_or s 3 0 == b':')
    then bad
    else do
      h ← in_range v (codes "time zone offset hour") (ltb 24 hours)
      m ← in_range v (codes "time zone offset minute") (ltb 60 minutes)
      if not both || not (sign == b'+' || sign == b'-') then bad else on (drop 6 s)

-- kDays, from January.
abbrev pub month_days : List ℕ
month_days = 31 ∷ 28 ∷ 31 ∷ 30 ∷ 31 ∷ 30 ∷ 31 ∷ 31 ∷ 30 ∷ 31 ∷ 30 ∷ 31 ∷ []

pub days_of : ℕ → ℕ → ℕ
days_of year month =
    let leap = month == 2 && (year % 4 == 0 && (not (year % 100 == 0) || year % 400 == 0)) in
    get_or month_days (month - 1) 0 + (if leap then 1 else 0)

-- Nothing may be behind the zone.
pub no_extra : List ℕ → List ℕ → Stage (List ℕ)
no_extra v s =
    if is_empty s then on [] else message (time_message v (codes ": extra text: " ++ time_quote s))

-- The steps of GoTimestampError, and its last message.
pub timestamp_stages : List ℕ → Stage (List ℕ)
timestamp_stages v = do
  (year, s1) ← year_of v
  s2 ← literal v b'-' s1
  (month, s3) ← number_of v true (codes "01") s2
  r1 ← in_range v (codes "month") (month == 0 || ltb 12 month)
  s4 ← literal v b'-' s3
  (day, s5) ← number_of v true (codes "02") s4
  s6 ← literal v b'T' s5
  (hour, s7) ← number_of v false (codes "15") s6
  r2 ← in_range v (codes "hour") (leb 24 hour)
  s8 ← literal v b':' s7
  (minute, s9) ← number_of v true (codes "04") s8
  r3 ← in_range v (codes "minute") (leb 60 minute)
  s10 ← literal v b':' s9
  (second, s11) ← number_of v true (codes "05") s10
  r4 ← in_range v (codes "second") (leb 60 second)
  s12 ← zone_of v (behind_fraction s11)
  r5 ← no_extra v s12
  r6 ← in_range v (codes "day") (day == 0 || ltb (days_of year month) day)
  on (time_message v (codes ": extra text: \"\""))

-- GoTimestampError
pub go_timestamp_error : List ℕ → List ℕ
go_timestamp_error v = elim (timestamp_stages v) [ on m ↦ m | message m ↦ m ]
