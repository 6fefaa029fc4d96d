-- ===== src/Utf8.antt =====
-- UTF-8: IsValidUTF8 of include/protowire/detail/utf8.h, and EncodeRune and IsValidRune of
-- src/pxf/lexer.cc. A string is the list of its bytes.
pub mod Encode
pub mod Rounds
pub mod Decode
pub mod Accepts
mod Tests
use Prim.Native.Char.{code}
use Prim.Native.String.{String}
use protowire_cpp.Common.{
  ℕ, zero, suc, ◌+◌, ◌-◌, ◌/◌, ◌%◌, ◌^◌, bit_or, Bool, true, false, ◌&&◌, ◌||◌, Option, none, some,
  List, [], ◌∷◌, ◌++◌, ◌==◌, ltb, leb, within, if◌then◌else◌, length, get_or, drop,
}

-- What the loop of IsValidUTF8 learns from a first byte that is not ASCII: the length of the
-- sequence and the bounds of its second byte.
pub lead : ℕ → Option (ℕ × ℕ × ℕ)
lead c =
    if within 0xC2 0xDF c
    then some (2, 0x80, 0xBF)
    else if within 0xE0 0xEF c
    then some (3, (if c == 0xE0 then 0xA0 else 0x80), (if c == 0xED then 0x9F else 0xBF))
    else if within 0xF0 0xF4 c
    then some (4, (if c == 0xF0 then 0x90 else 0x80), (if c == 0xF4 then 0x8F else 0xBF))
    else none

-- `for (size_t k = 2; k < len; ++k)`, with `rounds` left, on the bytes from the third on.
continues : ℕ → List ℕ → Bool
continues zero s = true
continues (suc rounds) [] = false
continues (suc rounds) (ck ∷ s) = within 0x80 0xBF ck && continues rounds s

-- The tests on one sequence of `len` bytes. (The source also computes a code point that it does not
-- use.)
sequence_ok : ℕ × ℕ × ℕ → List ℕ → Bool
unfolding continues
sequence_ok (len, lo, hi) s =
    leb len (length s) && (within lo hi (get_or s 1 0) && continues (len - 2) (drop 2 s))

-- `while (i < n)`, on the bytes from `i` on. Each round takes a byte at least.
pub utf8_loop : ℕ → List ℕ → Bool
utf8_loop fuel [] = true
utf8_loop zero (c ∷ s) = false
utf8_loop (suc fuel) (c ∷ s) =
    let ascii = utf8_loop fuel s in
    if ltb c 0x80 then ascii else elim (lead c) [
      | none ↦ false
      | some (len, lo, hi) ↦
          let rest = utf8_loop fuel (drop len (c ∷ s)) in
          if sequence_ok (len, lo, hi) (c ∷ s) then rest else false
    ]

unfoldable pub is_valid_utf8 : List ℕ → Bool
unfolding utf8_loop sequence_ok continues lead
is_valid_utf8 s = utf8_loop (length s) s

unfoldable pub is_valid_rune : ℕ → Bool
is_valid_rune r = leb r 0x10FFFF && (ltb r 0xD800 || ltb 0xDFFF r)

-- What EncodeRune appends.
unfoldable pub encode_rune : ℕ → List ℕ
encode_rune r =
    if leb r 0x7F
    then r ∷ []
    else if leb r 0x7FF
    then bit_or 0xC0 (r / 2 ^ 6) ∷ bit_or 0x80 (r % 2 ^ 6) ∷ []
    else if leb r 0xFFFF
    then bit_or 0xE0 (r / 2 ^ 12) ∷ bit_or 0x80 (r / 2 ^ 6 % 2 ^ 6) ∷ bit_or 0x80 (r % 2 ^ 6) ∷ []
    else bit_or 0xF0 (r / 2 ^ 18)
      ∷ bit_or 0x80 (r / 2 ^ 12 % 2 ^ 6)
      ∷ bit_or 0x80 (r / 2 ^ 6 % 2 ^ 6)
      ∷ bit_or 0x80 (r % 2 ^ 6)
      ∷ []

-- The bytes of a text literal.
abbrev pub utf8 : String → List ℕ
utf8 String.[] = []
utf8 (String.◌∷◌ c s) = encode_rune (code c) ++ utf8 s
