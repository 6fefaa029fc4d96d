-- ===== src/Lexer/Literals.antt =====
-- Triple-quoted strings with Dedent, and bytes literals, of src/pxf/lexer.cc.
pub mod Braces
pub mod Kept
use protowire_cpp.Common.{
  ℕ, zero, suc, ◌+◌, ◌-◌, ◌*◌, ◌/◌, ◌^◌, bit_or, Bool, true, false, not, ◌&&◌, ◌||◌, Option, none,
  some, List, [], ◌∷◌, ◌++◌, ◌==◌, ltb, leb, within, if◌then◌else◌, length, get_or, take, drop,
}
use protowire_cpp.Common.Text.{codes, same_text, decimal}
use protowire_cpp.Base64.Go.{Decoded, error_at, decode_lenient}
use protowire_cpp.Lexer.{
  Lexer, Position, Token, illegal, string, bytes, token, peek, report, advance, advance_by,
  skip_while, between,
}
use protowire_cpp.Lexer.Strings.{recover}

-- The length of the White_Space rune that the string opens with, and 0 for none.
pub blank_width : List ℕ → ℕ
blank_width s =
    let byte = λ (k : ℕ). get_or s k 0 in
    let c = byte 0 in
    let r = bit_or (bit_or (c * 2 ^ 16) (byte 1 * 2 ^ 8)) (byte 2) in
    if ltb c 0x80
    then (if c == b' ' || within b'\t' b'\r' c then 1 else 0)
    else if c == 0xC2 && (byte 1 == 0x85 || byte 1 == 0xA0)
    then 2
    else if leb (length s) 2
    then 0
    else if r == 0xE19A80
        || (within 0xE28080 0xE2808A r
            || (r == 0xE280A8
                || (r == 0xE280A9 || (r == 0xE280AF || (r == 0xE2819F || r == 0xE38080)))))
    then 3
    else 0

-- IsBlank: a round takes a byte at least.
pub blank_loop : ℕ → List ℕ → Bool
blank_loop fuel [] = true
blank_loop zero (c ∷ s) = false
blank_loop (suc fuel) (c ∷ s) =
    let width = blank_width (c ∷ s) in
    let later = blank_loop fuel (drop width (c ∷ s)) in if width == 0 then false else later

pub is_blank : List ℕ → Bool
is_blank s = blank_loop (length s) s

-- The lines of a text: the last, and those in front of it.
pub split_lines : List ℕ → List ℕ → List (List ℕ) × List ℕ
split_lines line [] = ([], line)
split_lines line (c ∷ s) = elim (c == b'\n') [
  | true ↦ (let (lines, last) = split_lines [] s in (line ∷ lines, last))
  | false ↦ split_lines (line ++ (c ∷ [])) s
]

-- A line without the indent, where it opens with it.
strip : List ℕ → List ℕ → List ℕ
strip indent line =
    if not (length indent == 0)
      && (leb (length indent) (length line) && same_text (take (length indent) line) indent)
    then drop (length indent) line
    else line

join_lines : List ℕ → List (List ℕ) → List ℕ
join_lines indent [] = []
join_lines indent (line ∷ []) = strip indent line
join_lines indent (line ∷ next ∷ lines) =
    strip indent line ++ (b'\n' ∷ join_lines indent (next ∷ lines))

-- Dedent
pub dedent : List ℕ → List ℕ
unfolding join_lines split_lines is_blank blank_loop
dedent raw =
    let opened = if get_or raw 0 0 == b'\n' then drop 1 raw else raw in
    let (lines, last) = split_lines [] opened in
    if length opened == 0
    then []
    else if is_blank last
    then join_lines last lines
    else join_lines [] (lines ++ (last ∷ []))

-- The test of LexTripleString's loop: three bytes are left, and they do not close the string.
pub open_triple : List ℕ → Bool
open_triple (a ∷ b ∷ c ∷ s) = not (a == b'"' && (b == b'"' && c == b'"'))
open_triple _ = false

-- LexTripleString
pub lex_triple_string : Position → Lexer → Lexer × Token
unfolding open_triple
lex_triple_string pos lx =
    let from = advance_by 3 lx in
    let at = skip_while open_triple from in
    let to_end = skip_while (λ s. ltb 0 (length s)) at in
    if leb 3 (length at.rest)
    then (advance_by 3 at, token string (dedent (between from at)) pos)
    else if lx.tolerant
    then (
      report to_end pos (codes "unterminated triple-quoted string"),
      token string (dedent (between from to_end)) pos,
    )
    else (at, token illegal (codes "unterminated triple-quoted string") pos)

decodes : Decoded → Bool
decodes (Decoded.bytes d) = true
decodes (error_at at) = false

-- The quote that closes a bytes literal.
pub close_bytes : Position → Lexer → Lexer → Lexer × Token
unfolding decodes
close_bytes pos from lx =
    let raw = between from lx in
    if not lx.tolerant && not (decodes (decode_lenient raw))
    then (advance lx, token illegal (codes "invalid base64 in bytes literal") pos)
    else (advance lx, token bytes raw pos)

-- One round of LexBytes: its token, or `none` to go on behind the byte.
pub bytes_round : Position → Lexer → Lexer → Option (Lexer × Token)
bytes_round pos from lx =
    let c = peek lx 0 in
    let unclosed = λ (msg : List ℕ).
      recover lx pos msg (token bytes (between from lx) pos) (codes "unterminated bytes literal") in
    if length lx.rest == 0
    then some (unclosed (codes "unterminated bytes literal"))
    else if ltb 0 lx.max_bytes && ltb lx.max_bytes ((lx.index - from.index) / 4 * 3)
    then some (
      lx,
      token illegal
          (codes "bytes literal decodes to more than MaxBytesLiteralLength="
            ++ (decimal lx.max_bytes ++ codes " bytes"))
          pos,
    )
    else if c == b'"'
    then some (close_bytes pos from lx)
    else if c == b'\n'
    then some (unclosed (codes "unterminated bytes literal: ended at newline"))
    else none

-- The rounds, one more than the bytes left. The first clause is not reached.
pub bytes_loop : ℕ → Position → Lexer → Lexer → Lexer × Token
bytes_loop zero pos from lx = (lx, token bytes (between from lx) pos)
bytes_loop (suc fuel) pos from lx = elim (bytes_round pos from lx) [
  | some r ↦ r
  | none ↦ bytes_loop fuel pos from (advance lx)
]

-- LexBytes
pub lex_bytes : Position → Lexer → Lexer × Token
lex_bytes pos lx =
    let quote = advance lx in
    let from = advance quote in
    if not (peek quote 0 == b'"')
    then (quote, token illegal (codes "expected '\"' after b") pos)
    else bytes_loop (length from.rest + 1) pos from from
