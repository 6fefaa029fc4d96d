-- ===== src/Lexer/Next/Braces.antt =====
-- Where Next returns an opening brace, it took that byte alone.
use protowire_cpp.Common.{ℕ, ◌+◌, ◌≤◌, ◌==◌, arith, List, ◌≡◌, refl, ◌⊎◌, inl, false, Option-cases}
use protowire_cpp.Lexer.{
  Lexer, Position, Token, TokenKind, kind_value, lbrace, advance, current_pos, peek, skip_spaces,
}
use protowire_cpp.Lexer.Kept.{NoBrace, List-cases}
use protowire_cpp.Lexer.Strings.{lex_string}
use protowire_cpp.Lexer.Literals.{lex_triple_string, lex_bytes}
use protowire_cpp.Lexer.Strings.Braces.{lex_string-NoBrace}
use protowire_cpp.Lexer.Literals.Braces.{lex_triple_string-NoBrace, lex_bytes-NoBrace}
use protowire_cpp.Lexer.Numbers.Braces.{lex_number-NoBrace}
use protowire_cpp.Lexer.Next.{
  lex_line_comment, lex_block_comment, directive_token, lex_directive, ident_token, lex_ident,
  punctuation, lex_illegal, next_other, next_token, next,
}

-- An opening brace starts at most one byte in front of the lexer.
abbrev pub AtBrace : Lexer × Token → Type 0
AtBrace r = ((kind_value r.1.kind == kind_value lbrace) ≡ false) ⊎ (r.0.index ≤ r.1.pos.offset + 1)

advance_index : (lx : Lexer) → (advance lx).index ≤ lx.index + 1
unfolding protowire_cpp.Lexer.advance
advance_index lx = ground (arith, List-cases lx.rest)

next_other-AtBrace :
    (table : List (ℕ × ℕ)) (lx : Lexer) → AtBrace (next_other table (current_pos lx) lx)
unfolding next_other lex_directive directive_token lex_ident ident_token lex_illegal
next_other-AtBrace table lx = ground (
  arith,
  Option-cases (punctuation (peek lx 0)),
  advance_index lx,
  lex_number-NoBrace (current_pos lx) lx,
)

lex_block_comment-NoBrace : (pos : Position) (lx : Lexer) → NoBrace (lex_block_comment pos lx)
unfolding lex_block_comment
lex_block_comment-NoBrace pos lx = ground arith

lex_line_comment-NoBrace : (pos : Position) (lx : Lexer) → NoBrace (lex_line_comment pos lx)
unfolding lex_line_comment
lex_line_comment-NoBrace pos lx = refl

next_token-AtBrace :
    (table : List (ℕ × ℕ)) (lx : Lexer) → AtBrace (next_token table (current_pos lx) lx)
unfolding next_token
next_token-AtBrace table lx =
    let plain : (r : Lexer × Token) → NoBrace r → AtBrace r = λ r h. inl h in
    ground (
      arith,
      plain (lex_line_comment (current_pos lx) lx) (lex_line_comment-NoBrace (current_pos lx) lx),
      plain (lex_block_comment (current_pos lx) lx) (lex_block_comment-NoBrace (current_pos lx) lx),
      plain (lex_triple_string (current_pos lx) lx) (lex_triple_string-NoBrace (current_pos lx) lx),
      plain (lex_string (current_pos lx) lx) (lex_string-NoBrace (current_pos lx) lx),
      plain (lex_bytes (current_pos lx) lx) (lex_bytes-NoBrace (current_pos lx) lx),
      next_other-AtBrace table lx,
    )

pub next-AtBrace : (table : List (ℕ × ℕ)) (lx : Lexer) → AtBrace (next table lx)
unfolding next
next-AtBrace table lx = next_token-AtBrace table (skip_spaces lx)
