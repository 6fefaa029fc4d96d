-- ===== src/GoStrconv.antt =====
-- The integers of src/detail/go_strconv.cc, GoParseUint and GoParseInt. What a call stores in *out and *err is in its result.
pub mod Range
pub mod Messages
pub mod Times
pub mod Floats
mod Tests
use protowire_cpp.Common.{
  ℕ, zero, suc, ◌+◌, ◌-◌, ◌*◌, ◌/◌, ◌%◌, ◌^◌, Bool, true, false, not, ◌&&◌, ◌||◌, Option, none,
  some, List, [], ◌∷◌, ◌++◌, ◌==◌, ltb, leb, within, if◌then◌else◌, length, get_or, drop,
}
use protowire_cpp.Common.Int.{ℤ, pos, ◌-ℤ◌}
use protowire_cpp.Common.Text.{codes, is_digit}
use protowire_cpp.GoQuote.{go_quote}

-- NumError
pub num_error : List (ℕ × ℕ) → List ℕ → List ℕ → List ℕ → List ℕ
num_error table fn s why =
    codes "strconv." ++ (fn ++ (codes ": parsing " ++ (go_quote table s ++ (codes ": " ++ why))))

abbrev pub syntax_error : List ℕ
syntax_error = codes "invalid syntax"

abbrev pub range_error : List ℕ
range_error = codes "value out of range"

-- enum Uint, with what ReadUint stores.
pub data Uint : Type 0 where
  read in_excess : ℕ → Uint
  bad_syntax : Uint

-- The loop of ReadUint, on uint64 numbers.
pub read_loop : ℕ → ℕ → List ℕ → Uint
read_loop max n [] = read n
read_loop max n (c ∷ s) =
    let tens = n * 10 % 2 ^ 64 in
    let n1 = (tens + (c - b'0')) % 2 ^ 64 in
    let rest = read_loop max n1 s in
    if not (is_digit c)
    then bad_syntax
    else if leb ((2 ^ 64 - 1) / 10 + 1) n
    then in_excess max
    else if ltb n1 tens || ltb max n1
    then in_excess max
    else rest

-- ReadUint
pub read_uint : List ℕ → ℕ → Uint
read_uint s bits =
    let max = (if bits == 64 then 2 ^ 64 - 1 else 2 ^ bits - 1) in
    if length s == 0 then bad_syntax else read_loop max 0 s

-- What GoParseUint and GoParseInt leave: the number, or what is stored all the same and the message.
pub data Parsed (A : Type 0) : Type 0 where
  number : A → Parsed A
  refused : Option A → List ℕ → Parsed A

-- GoParseUint
pub go_parse_uint : List (ℕ × ℕ) → List ℕ → ℕ → Parsed ℕ
unfolding num_error
go_parse_uint table s bits = elim (read_uint s bits) [
  | read n ↦ number n
  | bad_syntax ↦ refused none (num_error table (codes "ParseUint") s syntax_error)
  | in_excess max ↦ refused (some max) (num_error table (codes "ParseUint") s range_error)
]

-- GoParseInt behind its sign.
pub signed_int : List (ℕ × ℕ) → List ℕ → Bool → ℕ → Uint → Parsed ℤ
unfolding num_error
signed_int table s neg bits bad_syntax =
    refused none (num_error table (codes "ParseInt") s syntax_error)
signed_int table s neg bits (in_excess max) =
    refused none (num_error table (codes "ParseInt") s range_error)
signed_int table s neg bits (read un) =
    let cutoff = 2 ^ (bits - 1) in
    if not neg && leb cutoff un || neg && ltb cutoff un
    then refused none (num_error table (codes "ParseInt") s range_error)
    else number (if neg then pos 0 -ℤ pos un else pos un)

-- GoParseInt
pub go_parse_int : List (ℕ × ℕ) → List ℕ → ℕ → Parsed ℤ
go_parse_int table s bits =
    let first = get_or s 0 0 in
    let signed = ltb 0 (length s) && (first == b'+' || first == b'-') in
    let digits = (if signed then drop 1 s else s) in
    signed_int table s (signed && first == b'-') bits (read_uint digits bits)
