-- ===== src/Big.antt =====
-- The big numbers of include/protowire/pb_big.h and src/pb/big.cc: the three structs, and the
-- operations on a magnitude, a list of bytes from the most significant. What a function stores in
-- its out parameter is in its result, and what it leaves there on failure is not read by a caller.

pub mod Text
pub mod Reduce
pub mod Marshal
pub mod Unmarshal
mod Tests
pub mod Magnitudes
pub mod Digits
pub mod Unique
pub mod Shifts
pub mod Widening
pub mod Rounding
pub mod Bits
use protowire_cpp.Common.{
  ℕ, zero, suc, ◌+◌, ◌-◌, ◌*◌, ◌/◌, ◌%◌, ◌^◌, bit_or, Bool, true, false, not, ◌&&◌, ◌||◌, Option,
  none, some, List, [], ◌∷◌, ◌++◌, ◌==◌, ltb, leb, if◌then◌else◌, is_empty, length, get_or, take,
}
use protowire_cpp.Common.Int.{ℤ, pos, negsuc}
use protowire_cpp.Common.Text.{is_digit, decimal, zeros}

pub record BigInt : Type 0 where
  pub abs : List ℕ
  pub negative : Bool

pub record Decimal : Type 0 where
  pub unscaled : List ℕ
  pub scale : ℤ
  pub negative : Bool

pub record BigFloat : Type 0 where
  pub mantissa : List ℕ
  pub exponent : ℤ
  pub prec : ℕ
  pub negative : Bool

-- Status with its value, or its message.
pub data StatusOr (A : Type 0) : Type 0 where
  ok : A → StatusOr A
  error : List ℕ → StatusOr A

-- static_cast<int32_t>
unfoldable pub int32_of : ℕ → ℤ
int32_of v = let w = v % 2 ^ 32 in if ltb w (2 ^ 31) then pos w else negsuc (2 ^ 32 - 1 - w)

-- `std::to_string` of a signed number.
pub signed_decimal : ℤ → List ℕ
signed_decimal (pos n) = decimal n
signed_decimal (negsuc n) = b'-' ∷ decimal (suc n)

-- `while (carry > 0)`: two rounds end it, since a uint16 has two bytes.
unfoldable pub push_carry : ℕ → ℕ → List ℕ → List ℕ
push_carry zero carry mag = mag
push_carry (suc rounds) carry mag =
    let more = push_carry rounds (carry / 2 ^ 8) ((carry % 256) ∷ mag) in
    if ltb 0 carry then more else mag

-- The loop of MulBy10, from the last byte: the bytes and the carry into the byte in front.
pub mul_loop : List ℕ → List ℕ × ℕ
mul_loop [] = ([], 0)
mul_loop (b ∷ rest) =
    let (rest', carry) = mul_loop rest in
    let v = (b * 10 + carry) % 2 ^ 16 in ((v % 256) ∷ rest', v / 2 ^ 8)

-- MulBy10
pub mul_by_10 : List ℕ → List ℕ
mul_by_10 mag = let (mag', carry) = mul_loop mag in push_carry 2 carry mag'

-- The loop of AddU8, from the last byte; it stops at a carry of 0.
unfoldable pub add_loop : List ℕ → ℕ → List ℕ × ℕ
add_loop [] v = ([], v)
add_loop (b ∷ rest) v =
    let (rest', carry) = add_loop rest v in
    let s = (b + carry) % 2 ^ 16 in
    if carry == 0 then (b ∷ rest', 0) else ((s % 256) ∷ rest', s / 2 ^ 8)

-- AddU8
unfoldable pub add_u8 : List ℕ → ℕ → List ℕ
add_u8 mag v = let (mag', carry) = add_loop mag v in push_carry 2 carry mag'

-- TrimLeadingZeros, which other functions write as a loop on `mag.front() == 0`.
unfoldable pub trim_leading_zeros : List ℕ → List ℕ
trim_leading_zeros [] = []
trim_leading_zeros (b ∷ rest) =
    let trimmed = trim_leading_zeros rest in if b == 0 then trimmed else b ∷ rest

-- The loop of DivBy10: the quotient's bytes and the last remainder.
pub div_loop : ℕ → List ℕ → List ℕ × ℕ
div_loop rem [] = ([], rem)
div_loop rem (b ∷ rest) =
    let cur = bit_or (rem * 2 ^ 8) b % 2 ^ 16 in
    let (rest', rem') = div_loop (cur % 10) rest in ((cur / 10 % 256) ∷ rest', rem')

-- DivBy10: the quotient and the remainder.
pub div_by_10 : List ℕ → List ℕ × ℕ
div_by_10 mag = let (mag', rem) = div_loop 0 mag in (trim_leading_zeros mag', rem % 256)

-- The loop over the digits, in ParseDigits and in ParseDecimal's fraction.
pub digits_loop : List ℕ → List ℕ → Option (List ℕ)
digits_loop mag [] = some mag
digits_loop mag (c ∷ s) =
    let rest = digits_loop (add_u8 (mul_by_10 mag) ((c - b'0') % 256)) s in
    if not (is_digit c) then none else rest

-- ParseDigits, on the characters from `pos` to `end`.
pub parse_digits : List ℕ → List ℕ → Option (List ℕ)
parse_digits s mag = elim (digits_loop mag s) [
  | none ↦ none
  | some mag' ↦ if is_empty s then none else some (trim_leading_zeros mag')
]

-- The loop of BitLen over the first byte; eight rounds shift a byte out.
unfoldable pub top_bits : ℕ → ℕ → ℕ
top_bits zero top = 0
top_bits (suc rounds) top = let more = top_bits rounds (top / 2) in if top == 0 then 0 else suc more

-- BitLen
unfoldable pub bit_len : List ℕ → ℕ
bit_len [] = 0
bit_len (top ∷ rest) = length rest * 8 + top_bits 8 top

-- The lambda `bit` of ShiftRightRounded.
unfoldable pub bit : List ℕ → ℕ → Bool
bit mag i = not (get_or mag (length mag - 1 - i / 8) 0 / 2 ^ (i % 8) % 2 == 0)

-- `sticky`: whether one of the low `n` bits is set.
unfoldable pub some_bit : List ℕ → ℕ → Bool
some_bit mag zero = false
some_bit mag (suc n) = some_bit mag n || bit mag n

-- The loop of ShiftRightRounded. It runs from the last byte, so `high` is the byte in front as it was.
unfoldable pub shift_right_loop : ℕ → ℕ → List ℕ → List ℕ
shift_right_loop shift high [] = []
shift_right_loop shift high (b ∷ rest) =
    (bit_or (high * 2 ^ 8) b / 2 ^ shift % 256) ∷ shift_right_loop shift b rest

-- The bytes before rounding.
unfoldable pub shifted_right : List ℕ → ℕ → List ℕ
shifted_right mag n =
    let kept = take (length mag - n / 8) mag in
    if n % 8 == 0 then kept else shift_right_loop (n % 8) 0 kept

-- ShiftRightRounded, for n above 0 and below the bit length.
unfoldable pub shift_right_rounded : List ℕ → ℕ → List ℕ
shift_right_rounded mag n =
    let half = bit mag (n - 1) in
    let sticky = some_bit mag (n - 1) in
    let mag' = shifted_right mag n in
    let odd = not (get_or mag' (length mag' - 1) 0 % 2 == 0) in
    trim_leading_zeros (if half && (sticky || odd) then add_u8 mag' 1 else mag')

-- The loop of ShiftLeft, from the last byte.
pub shift_left_loop : ℕ → List ℕ → List ℕ × ℕ
shift_left_loop shift [] = ([], 0)
shift_left_loop shift (b ∷ rest) =
    let (rest', carry) = shift_left_loop shift rest in
    let v = bit_or (b * 2 ^ shift) carry in ((v % 256) ∷ rest', v / 2 ^ 8)

pub zero_bytes : ℕ → List ℕ
zero_bytes zero = []
zero_bytes (suc n) = 0 ∷ zero_bytes n

-- ShiftLeft
pub shift_left : List ℕ → ℕ → List ℕ
shift_left mag n =
    let (moved, carry) = shift_left_loop (n % 8) mag in
    let mag' = if n % 8 == 0 then mag else if carry == 0 then moved else (carry % 256) ∷ moved in
    mag' ++ zero_bytes (n / 8)

-- The loop of FormatMagnitude and the reversal behind it: each digit goes in front of the others.
pub format_loop : ℕ → List ℕ → List ℕ → List ℕ
format_loop zero mag digits = digits
format_loop (suc rounds) [] digits = digits
format_loop (suc rounds) (b ∷ rest) digits =
    let (mag', rem) = div_by_10 (b ∷ rest) in format_loop rounds mag' ((b'0' + rem) ∷ digits)

-- FormatMagnitude. A byte has fewer than three digits more, so three rounds for each are enough.
pub format_magnitude : List ℕ → List ℕ
format_magnitude [] = b'0' ∷ []
format_magnitude mag = format_loop (3 * length mag) mag []
