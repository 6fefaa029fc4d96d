-- ===== src/Lexer/Next.antt =====
-- Comments, identifiers and directives of src/pxf/lexer.cc, and Next, which chooses between all
-- tokens. `table` is the table of printable runes.
pub mod Braces
pub mod Kept
use protowire_cpp.Common.{
  ℕ, ◌+◌, Bool, true, false, not, ◌&&◌, ◌||◌, Option, none, some, List, [], ◌∷◌, ◌==◌, ltb, leb,
  if◌then◌else◌, length,
}
use protowire_cpp.Common.Text.{codes, same_text, is_digit}
use protowire_cpp.GoQuote.{go_illegal_rune}
use protowire_cpp.Lexer.{
  Lexer, Position, Token, TokenKind, end_of_input, illegal, line_end, comment, ident, bool, null,
  lbrace, rbrace, lbracket, rbracket, lparen, rparen, equals, colon, comma, at_type, at_directive,
  at_dataset, at_proto, token, current_pos, peek, report, advance, advance_by, skip_while, on_byte,
  between, is_ident_start, is_ident_part, skip_spaces,
}
use protowire_cpp.Lexer.Strings.{lex_string}
use protowire_cpp.Lexer.Literals.{lex_triple_string, lex_bytes}
use protowire_cpp.Lexer.Numbers.{lex_number}

-- LexLineComment
pub lex_line_comment : Position → Lexer → Lexer × Token
lex_line_comment pos lx =
    let to = skip_while (on_byte (λ c. not (c == b'\n'))) lx in
    (to, token comment (between lx to) pos)

-- The test of LexBlockComment's loop: two bytes are left, and they do not close the comment.
pub open_comment : List ℕ → Bool
open_comment (a ∷ b ∷ s) = not (a == b'*' && b == b'/')
open_comment _ = false

-- LexBlockComment
pub lex_block_comment : Position → Lexer → Lexer × Token
unfolding open_comment
lex_block_comment pos lx =
    let at = skip_while open_comment (advance_by 2 lx) in
    let to_end = skip_while (λ s. ltb 0 (length s)) at in
    if leb 2 (length at.rest)
    then (advance_by 2 at, token comment (between lx (advance_by 2 at)) pos)
    else if lx.tolerant
    then (
      report to_end pos (codes "unterminated block comment"),
      token comment (between lx to_end) pos,
    )
    else (at, token illegal (codes "unterminated block comment") pos)

directive_token : Position → List ℕ → Token
directive_token pos name =
    if length name == 0
    then token illegal (codes "\"@\" must be followed by a directive name") pos
    else if same_text name (codes "type")
    then token at_type (codes "@type") pos
    else if same_text name (codes "dataset")
    then token at_dataset (codes "@dataset") pos
    else if same_text name (codes "proto")
    then token at_proto (codes "@proto") pos
    else token at_directive name pos

-- LexDirective
pub lex_directive : Position → Lexer → Lexer × Token
unfolding directive_token
lex_directive pos lx =
    let from = advance lx in
    let to = skip_while (on_byte is_ident_part) from in (to, directive_token pos (between from to))

ident_token : Position → List ℕ → Token
ident_token pos v =
    if same_text v (codes "true") || same_text v (codes "false")
    then token bool v pos
    else if same_text v (codes "null")
    then token null v pos
    else token ident v pos

-- LexIdent
pub lex_ident : Position → Lexer → Lexer × Token
unfolding ident_token
lex_ident pos lx =
    let to = skip_while (on_byte is_ident_part) lx in (to, ident_token pos (between lx to))

-- The kinds of the tokens that are one character.
pub punctuation : ℕ → Option TokenKind
punctuation c =
    if c == b'{'
    then some lbrace
    else if c == b'}'
    then some rbrace
    else if c == b'['
    then some lbracket
    else if c == b']'
    then some rbracket
    else if c == b'('
    then some lparen
    else if c == b')'
    then some rparen
    else if c == b'='
    then some equals
    else if c == b':'
    then some colon
    else if c == b','
    then some comma
    else none

-- Next on a character that starts no token.
pub lex_illegal : List (ℕ × ℕ) → Position → Lexer → Lexer × Token
lex_illegal table pos lx =
    let (msg, width) = go_illegal_rune table lx.rest in (advance_by width lx, token illegal msg pos)

-- Next from the switch on.
pub next_other : List (ℕ × ℕ) → Position → Lexer → Lexer × Token
next_other table pos lx =
    let c = peek lx 0 in
    elim (punctuation c) [
      | some kind ↦ (advance lx, token kind (c ∷ []) pos)
      | none ↦
          if c == b'@'
          then lex_directive pos lx
          else if c == b'-' || (c == b'+' || is_digit c)
          then lex_number pos lx
          else if is_ident_start c
          then lex_ident pos lx
          else lex_illegal table pos lx
    ]

-- Next behind the spaces.
unfoldable pub next_token : List (ℕ × ℕ) → Position → Lexer → Lexer × Token
next_token table pos lx =
    let c = peek lx 0 in
    let c1 = peek lx 1 in
    if length lx.rest == 0
    then (lx, token end_of_input [] pos)
    else if c == b'\n'
    then (advance lx, token line_end [] pos)
    else if c == b'#' || c == b'/' && c1 == b'/'
    then lex_line_comment pos lx
    else if c == b'/' && c1 == b'*'
    then lex_block_comment pos lx
    else if c == b'"'
    then (if c1 == b'"' && peek lx 2 == b'"' then lex_triple_string pos lx else lex_string pos lx)
    else if c == b'b' && c1 == b'"'
    then lex_bytes pos lx
    else next_other table pos lx

-- Next
unfoldable pub next : List (ℕ × ℕ) → Lexer → Lexer × Token
next table lx = let at = skip_spaces lx in next_token table (current_pos at) at
