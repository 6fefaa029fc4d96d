-- ===== src/Lexer/Strings.antt =====
-- Strings and bytes literals of src/pxf/lexer.cc: escapes, LexString, LexTripleString with Dedent,
-- and LexBytes.
pub mod Braces
pub mod Kept
use protowire_cpp.Common.{
  ℕ, zero, suc, ◌+◌, ◌-◌, ◌*◌, ◌/◌, ◌%◌, ◌^◌, bit_or, Bool, true, false, not, ◌&&◌, ◌||◌, Option,
  none, some, List, [], ◌∷◌, ◌++◌, ◌==◌, ltb, leb, within, if◌then◌else◌, length, get_or, take,
  drop,
}
use protowire_cpp.Common.Text.{codes, same_text, is_digit, decimal}
use protowire_cpp.Utf8.{encode_rune, is_valid_rune}
use protowire_cpp.Base64.Go.{Decoded, bytes, error_at, decode_lenient}
use protowire_cpp.Lexer.{
  Lexer, Position, Token, TokenKind, illegal, string, token, current_pos, peek, report, advance,
  advance_by, skip_loop, skip_while, between,
}

-- HexVal and OctVal
hex_val : ℕ → Option ℕ
hex_val c =
    if is_digit c
    then some (c - b'0')
    else if within b'a' b'f' c
    then some (c - b'a' + 10)
    else if within b'A' b'F' c
    then some (c - b'A' + 10)
    else none

oct_val : ℕ → Option ℕ
oct_val c = if within b'0' b'7' c then some (c - b'0') else none

both : Option ℕ → Option ℕ → Option (ℕ × ℕ)
both (some a) (some b) = some (a, b)
both none b = none
both (some a) none = none

-- ReadHexByte
pub read_hex_byte : Lexer → Lexer × Option ℕ
unfolding both hex_val
read_hex_byte lx =
    if ltb (length lx.rest) 2
    then (lx, none)
    else elim (both (hex_val (peek lx 0)) (hex_val (peek lx 1))) [
      | none ↦ (lx, none)
      | some (hi, lo) ↦ (advance_by 2 lx, some (bit_or (hi * 2 ^ 4) lo))
    ]

-- The loop of ReadHexRune: the digits before a bad one stay consumed.
pub hex_rune_loop : ℕ → ℕ → Lexer → Lexer × Option ℕ
hex_rune_loop zero r lx = (lx, some r)
hex_rune_loop (suc n) r lx = elim (hex_val (peek lx 0)) [
  | none ↦ (lx, none)
  | some h ↦ hex_rune_loop n (bit_or (r * 2 ^ 4 % 2 ^ 32) h) (advance lx)
]

pub read_hex_rune : ℕ → Lexer → Lexer × Option ℕ
read_hex_rune n lx = if ltb (length lx.rest) n then (lx, none) else hex_rune_loop n 0 lx

-- ReadOctRest
pub read_oct_rest : ℕ → Lexer → Lexer × Option ℕ
unfolding both oct_val
read_oct_rest first lx =
    if ltb (length lx.rest) 2
    then (lx, none)
    else elim (both (oct_val (peek lx 0)) (oct_val (peek lx 1))) [
      | none ↦ (lx, none)
      | some (d1, d2) ↦
          (advance_by 2 lx, some (bit_or (bit_or ((first - b'0') * 2 ^ 6) (d1 * 2 ^ 3)) d2 % 256))
    ]

-- What an escape stands for, or the text of its error and what tolerant mode keeps of it.
pub data Escape : Type 0 where
  stands_for : List ℕ → Escape
  bad_escape : List ℕ → List ℕ → Escape

-- The escapes that are one character.
pub simple_escape : ℕ → Option ℕ
simple_escape esc =
    if esc == b'"' || (esc == b'\\' || (esc == b'\'' || esc == b'?'))
    then some esc
    else if esc == b'a'
    then some 7
    else if esc == b'b'
    then some 8
    else if esc == b'f'
    then some 12
    else if esc == b'n'
    then some 10
    else if esc == b'r'
    then some 13
    else if esc == b't'
    then some 9
    else if esc == b'v'
    then some 11
    else none

byte_escape : Lexer × Option ℕ → List ℕ → List ℕ → Lexer × Escape
byte_escape (lx, some b) msg kept = (lx, stands_for (b ∷ []))
byte_escape (lx, none) msg kept = (lx, bad_escape msg kept)

rune_escape : Lexer × Option ℕ → List ℕ → List ℕ → Lexer × Escape
rune_escape (lx, none) msg kept = (lx, bad_escape msg kept)
rune_escape (lx, some r) msg kept =
    (lx, if is_valid_rune r then stands_for (encode_rune r) else bad_escape msg kept)

-- The cases of the switch with digits behind them, on the lexer in front of those.
pub hex_escape : Lexer → Lexer × Escape
unfolding byte_escape
hex_escape lx =
    byte_escape (read_hex_byte lx) (codes "invalid \\x escape: expected 2 hex digits") (codes "\\x")

pub octal_escape : ℕ → Lexer → Lexer × Escape
unfolding byte_escape
octal_escape esc lx =
    byte_escape (read_oct_rest esc lx) (codes "invalid octal escape: expected 3 octal digits")
      (b'\\' ∷ esc ∷ [])

pub short_rune : Lexer → Lexer × Escape
unfolding rune_escape
short_rune lx =
    rune_escape (read_hex_rune 4 lx)
      (codes "invalid \\u escape: expected 4 hex digits forming a valid codepoint") (codes "\\u")

pub long_rune : Lexer → Lexer × Escape
unfolding rune_escape
long_rune lx =
    rune_escape (read_hex_rune 8 lx)
      (codes "invalid \\U escape: expected 8 hex digits forming a valid codepoint") (codes "\\U")

-- The switch behind the cases of one character.
pub long_escape : ℕ → Lexer → Lexer × Escape
long_escape esc lx =
    if esc == b'x'
    then hex_escape lx
    else if within b'0' b'3' esc
    then octal_escape esc lx
    else if esc == b'u'
    then short_rune lx
    else if esc == b'U'
    then long_rune lx
    else (lx, bad_escape (codes "unknown escape sequence \\" ++ encode_rune esc) (b'\\' ∷ esc ∷ []))

-- The switch on the character behind a backslash, which `lx` stands behind.
pub read_escape : ℕ → Lexer → Lexer × Escape
unfolding long_escape simple_escape
read_escape esc lx = elim (simple_escape esc) [
  | some c ↦ (lx, stands_for (c ∷ []))
  | none ↦ long_escape esc lx
]

-- A recovery in tolerant mode: the error and a token that is kept; otherwise an illegal token.
unfoldable pub recover : Lexer → Position → List ℕ → Token → List ℕ → Lexer × Token
recover lx pos msg kept refusal =
    if lx.tolerant then (report lx pos msg, kept) else (lx, token illegal refusal pos)

-- One round of LexString: the string so far (`none` while it is the text from the opening quote on),
-- or the token.
pub data Round : Type 0 where
  goes_on : Option (List ℕ) → Lexer → Round
  ends : Lexer × Token → Round

so_far : Lexer → Option (List ℕ) → Lexer → List ℕ
so_far from none lx = between from lx
so_far from (some sb) lx = sb

abbrev finish : Position → Lexer → Option (List ℕ) → Lexer → Token
finish pos from sb lx = token string (so_far from sb lx) pos

-- The round at a backslash, on the lexer behind it.
pub escape_round : Position → List ℕ → Lexer → Round
escape_round pos sb lx =
    let (after, esc) = read_escape (peek lx 0) (advance lx) in
    if length lx.rest == 0
    then ends (
        recover lx pos (codes "unterminated escape sequence") (token string sb pos)
          (codes "unterminated escape sequence"))
    else elim esc [
      | stands_for s ↦ goes_on (some (sb ++ s)) after
      | bad_escape msg kept ↦
          if lx.tolerant
          then goes_on (some (sb ++ kept)) (report after (current_pos lx) msg)
          else ends (after, token illegal msg pos)
    ]

pub string_round : Position → Lexer → Option (List ℕ) → Lexer → Round
unfolding so_far escape_round
string_round pos from sb lx =
    let c = peek lx 0 in
    if length lx.rest == 0
    then ends (
        recover lx pos (codes "unterminated string") (finish pos from sb lx)
          (codes "unterminated string"))
    else if c == b'"'
    then ends (advance lx, finish pos from sb lx)
    else if c == b'\\'
    then escape_round pos (so_far from sb lx) (advance lx)
    else if c == b'\n'
    then ends (
        recover lx pos (codes "unterminated string: ended at newline") (finish pos from sb lx) (
          codes
            "newline in string literal: write it as \\n, or use a \"\"\"triple-quoted\"\"\" string"))
    else goes_on (elim sb [ none ↦ none | some t ↦ some (t ++ (c ∷ [])) ]) (advance lx)

-- A round that goes on takes a byte, so that the length of the rest and one more are enough. The
-- last clause is not reached.
pub string_loop : ℕ → Position → Lexer → Option (List ℕ) → Lexer → Lexer × Token
string_loop zero pos from sb lx = (lx, finish pos from sb lx)
string_loop (suc fuel) pos from sb lx = elim (string_round pos from sb lx) [
  | ends r ↦ r
  | goes_on sb' lx' ↦ string_loop fuel pos from sb' lx'
]

-- LexString
pub lex_string : Position → Lexer → Lexer × Token
lex_string pos lx = let from = advance lx in string_loop (length from.rest + 1) pos from none from
