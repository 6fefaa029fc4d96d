-- ===== src/GoQuote.antt =====
-- src/detail/go_quote.cc. The table of printable runes, which src/detail/go_isprint.inc holds, is an
-- argument: ranges in order, each with its bounds.
pub mod Runes
pub mod Unquote
mod Tests
use protowire_cpp.Common.{
  ◌≤◌, arith, ℕ, zero, suc, ◌+◌, ◌-◌, ◌*◌, ◌/◌, ◌%◌, ◌^◌, bit_or, Bool, true, false, ◌&&◌, ◌||◌,
  List, [], ◌∷◌, ◌++◌, ◌==◌, ltb, leb, within, if◌then◌else◌, length, get_or, take, drop,
}
use protowire_cpp.Common.Text.{codes}

-- The lambda `cont` of DecodeRune.
cont : List ℕ → ℕ → ℕ → ℕ → Bool
cont s i lo hi = ltb i (length s) && within lo hi (get_or s i 0)

-- DecodeRune: whether the string opens with valid UTF-8 above ASCII, the rune and the width.
pub decode_rune : List ℕ → Bool × ℕ × ℕ
unfolding cont
decode_rune s =
    let b = λ (i : ℕ). get_or s i 0 in
    let c = b 0 in
    if within 0xC2 0xDF c && cont s 1 0x80 0xBF
    then (true, bit_or (c % 2 ^ 5 * 2 ^ 6) (b 1 % 2 ^ 6), 2)
    else if within 0xE0 0xEF c
    then (if cont s 1 (if c == 0xE0 then 0xA0 else 0x80) (if c == 0xED then 0x9F else 0xBF)
          && cont s 2 0x80 0xBF
        then (true, bit_or (bit_or (c % 2 ^ 4 * 2 ^ 12) (b 1 % 2 ^ 6 * 2 ^ 6)) (b 2 % 2 ^ 6), 3)
        else (false, c, 1))
    else if within 0xF0 0xF4 c
        && (cont s 1 (if c == 0xF0 then 0x90 else 0x80) (if c == 0xF4 then 0x8F else 0xBF)
            && (cont s 2 0x80 0xBF && cont s 3 0x80 0xBF))
    then (
      true,
      bit_or (bit_or (bit_or (c % 2 ^ 3 * 2 ^ 18) (b 1 % 2 ^ 6 * 2 ^ 12)) (b 2 % 2 ^ 6 * 2 ^ 6))
          (b 3 % 2 ^ 6),
      4,
    )
    else (false, c, 1)

-- AppendHex: the digits, the highest first.
pub hex_digits : ℕ → ℕ → List ℕ
hex_digits v zero = []
hex_digits v (suc digits) =
    let d = v / 2 ^ (digits * 4) % 2 ^ 4 in
    (if ltb d 10 then b'0' + d else b'a' + (d - 10)) ∷ hex_digits v digits

-- GoIsPrint: the first range that does not end below the rune decides.
pub go_is_print : List (ℕ × ℕ) → ℕ → Bool
go_is_print [] rune = false
go_is_print ((lo, hi) ∷ table) rune =
    let later = go_is_print table rune in if ltb hi rune then later else leb lo rune

-- AppendEscaped: what it appends.
pub escaped : List (ℕ × ℕ) → ℕ → List ℕ → ℕ → List ℕ
unfolding go_is_print hex_digits
escaped table r raw quote =
    if r == quote || r == b'\\'
    then b'\\' ∷ r ∷ []
    else if go_is_print table r
    then raw
    else if r == 7
    then codes "\\a"
    else if r == 8
    then codes "\\b"
    else if r == 12
    then codes "\\f"
    else if r == 10
    then codes "\\n"
    else if r == 13
    then codes "\\r"
    else if r == 9
    then codes "\\t"
    else if r == 11
    then codes "\\v"
    else if ltb r 0x20 || r == 0x7F
    then codes "\\x" ++ hex_digits r 2
    else if ltb r 0x10000
    then codes "\\u" ++ hex_digits r 4
    else codes "\\U" ++ hex_digits r 8

-- The loop of GoQuote, on what is left of the string. A round takes a byte at least.
pub quote_loop : List (ℕ × ℕ) → ℕ → List ℕ → List ℕ
unfolding decode_rune escaped
quote_loop table fuel [] = []
quote_loop table zero (c ∷ s) = []
quote_loop table (suc fuel) (c ∷ s) =
    let (ok, rune, width) = if leb 0x80 c then decode_rune (c ∷ s) else (true, c, 1) in
    let later = quote_loop table fuel (drop width (c ∷ s)) in
    if ok
    then escaped table rune (take width (c ∷ s)) b'"' ++ later
    else (codes "\\x" ++ hex_digits c 2) ++ later

-- GoQuote
pub go_quote : List (ℕ × ℕ) → List ℕ → List ℕ
unfolding quote_loop
go_quote table s = b'"' ∷ (quote_loop table (length s) s ++ (b'"' ∷ []))

-- GoIllegalRune on a string that is not empty: the text and the width.
unfoldable pub go_illegal_rune : List (ℕ × ℕ) → List ℕ → List ℕ × ℕ
unfolding decode_rune escaped hex_digits
go_illegal_rune table s =
    let c = get_or s 0 0 in
    let (ok, rune, width) = if leb 0x80 c then decode_rune s else (true, c, 1) in
    if ok
    then (
      codes "unexpected character '" ++ (escaped table rune (take width s) b'\'' ++ codes "'"),
      width,
    )
    else (codes "unexpected byte 0x" ++ hex_digits c 2, 1)

-- The rune that GoIllegalRune names takes a byte at least.
pub go_illegal_rune_width : (table : List (ℕ × ℕ)) (s : List ℕ) → 1 ≤ (go_illegal_rune table s).1
unfolding go_illegal_rune decode_rune
go_illegal_rune_width table s = ground arith
