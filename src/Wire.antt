-- ===== src/Wire.antt =====
-- The wire primitives of include/protowire/detail/wire.h, function by function. A byte is a number
-- below 256, a span is a list of bytes, and an unsigned word is its value. `x << k` is
-- `x * 2 ^ k`, `x >> k` is `x / 2 ^ k`, `x & (2 ^ k - 1)` is `x % 2 ^ k`, and a narrowing to w bits
-- is `% 2 ^ w`. A `Consume…` function returns the count of bytes and an out parameter, or -1: here
-- a pair of the value and the count, or `none`.
pub mod Varint
pub mod ZigZag
pub mod Fields
pub mod Skip
mod Tests
use protowire_cpp.Common.{
  ℕ, zero, suc, ◌+◌, ◌-◌, ◌*◌, ◌/◌, ◌%◌, ◌^◌, ◌≤◌, ◌<◌, bit_or, bit_xor, Bool, true, false, ◌&&◌,
  ◌||◌, Option, none, some, List, [], ◌∷◌, ◌++◌, ◌==◌, ltb, leb, if◌then◌else◌, length, get_or,
  take, drop,
}

abbrev pub IsByte : ℕ → Type 0
IsByte b = b < 256

abbrev pub IsU64 : ℕ → Type 0
IsU64 v = v < 2 ^ 64

-- A content of a message whose size an `int` holds, with 32 bytes for the rest of the message.
abbrev pub IsShort : List ℕ → Type 0
IsShort bs = length bs < 2 ^ 31 - 32

infixl 5 ◌>>=◌
abbrev pub ◌>>=◌ {ℓ κ} : {A : Type ℓ} {B : Type κ} → Option A → (A → Option B) → Option B
none >>= f = none
some a >>= f = f a

-- The loop of AppendVarint: seven bits a round, at most `fuel` rounds behind the first. A uint64
-- takes ten rounds.
unfoldable pub append_varint_loop : ℕ → List ℕ → ℕ → List ℕ
append_varint_loop zero out v = out ++ (v % 256 ∷ [])
append_varint_loop (suc fuel) out v =
    let more = append_varint_loop fuel (out ++ (bit_or (v % 256) 0x80 ∷ [])) (v / 2 ^ 7) in
    if leb 0x80 v then more else out ++ (v % 256 ∷ [])

unfoldable pub append_varint : List ℕ → ℕ → List ℕ
append_varint out v = append_varint_loop 9 out v

-- An int64 is its two's-complement bits; `v >> 63` on one is all ones or zero.
pub sign_mask : ℕ → ℕ
sign_mask w = if leb (2 ^ 63) w then 2 ^ 64 - 1 else 0

pub encode_zigzag : ℕ → ℕ
unfolding sign_mask
encode_zigzag w = bit_xor (w * 2 ^ 1 % 2 ^ 64) (sign_mask w)

pub decode_zigzag : ℕ → ℕ
decode_zigzag v = bit_xor (v / 2 ^ 1) ((2 ^ 64 - v % 2) % 2 ^ 64)

-- WireType, by its values in the enum.
pub data WireType : Type 0 where
  varint fixed64 bytes start_group end_group fixed32 : WireType
  -- `static_cast<WireType>` of 6 or 7
  unnamed : ℕ → WireType

unfoldable pub wire_type_value : WireType → ℕ
wire_type_value varint = 0
wire_type_value fixed64 = 1
wire_type_value bytes = 2
wire_type_value start_group = 3
wire_type_value end_group = 4
wire_type_value fixed32 = 5
wire_type_value (unnamed n) = n

unfoldable pub wire_type_of : ℕ → WireType
wire_type_of n =
    if n == 0
    then varint
    else if n == 1
    then fixed64
    else if n == 2
    then bytes
    else if n == 3
    then start_group
    else if n == 4
    then end_group
    else if n == 5
    then fixed32
    else unnamed n

unfoldable pub append_tag : List ℕ → ℕ → WireType → List ℕ
append_tag out num type = append_varint out (bit_or (num * 2 ^ 3 % 2 ^ 64) (wire_type_value type))

pub append_fixed32 : List ℕ → ℕ → List ℕ
append_fixed32 out v = out ++ (v % 256 ∷ v / 2 ^ 8 % 256 ∷ v / 2 ^ 16 % 256 ∷ v / 2 ^ 24 % 256 ∷ [])

-- `for (int i = 0; i < 8; ++i)`: `rounds` are left, and `i` is the next.
append_fixed64_loop : ℕ → ℕ → List ℕ → ℕ → List ℕ
append_fixed64_loop zero i out v = out
append_fixed64_loop (suc rounds) i out v =
    append_fixed64_loop rounds (i + 1) (out ++ (v / 2 ^ (i * 8) % 256 ∷ [])) v

unfoldable pub append_fixed64 : List ℕ → ℕ → List ℕ
unfolding append_fixed64_loop
append_fixed64 out v = append_fixed64_loop 8 0 out v

unfoldable pub append_bytes : List ℕ → List ℕ → List ℕ
append_bytes out bs = append_varint out (length bs) ++ bs

-- The loop of ConsumeVarint at index `i`; the list is what the loop has not reached.
unfoldable pub consume_varint_loop : List ℕ → ℕ → ℕ → Option (ℕ × ℕ)
consume_varint_loop [] i v = none
consume_varint_loop (b ∷ rest) i v =
    let v' = bit_or v (b % 2 ^ 7 * 2 ^ (i * 7) % 2 ^ 64) in
    let more = consume_varint_loop rest (i + 1) v' in
    if ltb i 10
    then (if i == 9 && ltb 1 b then none else if b / 2 ^ 7 % 2 == 0 then some (v', i + 1) else more)
    else none

unfoldable pub consume_varint : List ℕ → Option (ℕ × ℕ)
consume_varint span = consume_varint_loop span 0 0

-- The field number, the type and the count.
unfoldable pub consume_tag : List ℕ → Option (ℕ × WireType × ℕ)
consume_tag span = do
  (v, n) ← consume_varint span
  let field = v / 2 ^ 3
  if field == 0 || ltb 0x7fffffff field then none else some (field, wire_type_of (v % 2 ^ 3), n)

-- `size() < 4`, and then the four bytes.
pub consume_fixed32 : List ℕ → Option (ℕ × ℕ)
consume_fixed32 (b0 ∷ b1 ∷ b2 ∷ b3 ∷ _) =
    some (bit_or (bit_or (bit_or b0 (b1 * 2 ^ 8)) (b2 * 2 ^ 16)) (b3 * 2 ^ 24), 4)
consume_fixed32 _ = none

consume_fixed64_loop : ℕ → ℕ → List ℕ → ℕ → ℕ
consume_fixed64_loop zero i span v = v
consume_fixed64_loop (suc rounds) i span v =
    consume_fixed64_loop rounds (i + 1) span (bit_or v (get_or span i 0 * 2 ^ (i * 8)))

unfoldable pub consume_fixed64 : List ℕ → Option (ℕ × ℕ)
unfolding consume_fixed64_loop
consume_fixed64 span =
    if ltb (length span) 8 then none else some (consume_fixed64_loop 8 0 span 0, 8)

-- The content and the count, on its domain of spans shorter than 2 ^ 31 bytes: there
-- `static_cast<int>(len)` keeps the value of a `len` that the span holds.
unfoldable pub consume_bytes : List ℕ → Option (List ℕ × ℕ)
consume_bytes span = do
  (len, n) ← consume_varint span
  if ltb (length span - n) len then none else some (take len (drop n span), n + len)
