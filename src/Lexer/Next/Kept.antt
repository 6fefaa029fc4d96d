-- ===== src/Lexer/Next/Kept.antt =====
-- Next changes a lexer by Advance and Report alone: what stays through those stays through Next.
use protowire_cpp.Common.{true, length, ◌≡◌, ◌≤◌, ◌-◌, ◌==◌, suc, not, ℕ, arith, Option-cases, List}
use native.Mathlib.Decide.{dec_lt}
use protowire_cpp.GoQuote.{go_illegal_rune, go_illegal_rune_width}
use protowire_cpp.Lexer.{
  is_ident_start, is_ident_part, advance_by, skip_spaces, current_pos, Lexer, Position, advance,
  report, peek,
}
use protowire_cpp.Lexer.Kept.{
  pick, After, advance_by-kept, skip_while-kept, skip_while_first, on_byte_first,
}
use protowire_cpp.Lexer.Strings.Kept.{lex_string-kept}
use protowire_cpp.Lexer.Literals.Kept.{lex_triple_string-kept, lex_bytes-kept}
use protowire_cpp.Lexer.Numbers.Kept.{lex_number-kept}
use protowire_cpp.Lexer.Next.{
  lex_line_comment, open_comment, lex_block_comment, lex_directive, lex_ident, punctuation,
  lex_illegal, next_other, next_token, next,
}

module _ (P : Lexer → Type 0) (adv : (lx : Lexer) → P lx → P (advance lx))
    (rep : (lx : Lexer) (pos : Position) (msg : List ℕ) → P lx → P (report lx pos msg)) where
  lex_line_comment-kept :
      (pos : Position) (lx : Lexer)
      → 1 ≤ length lx.rest
      → P (advance lx)
      → not (peek lx 0 == b'\n') ≡ true
      → After P (lex_line_comment pos lx)
  unfolding lex_line_comment
  lex_line_comment-kept pos lx one h c =
      skip_while_first P adv _ lx one (on_byte_first (λ c. not (c == b'\n')) lx one c) h

  lex_block_comment-kept :
      (pos : Position) (lx : Lexer) → P (advance lx) → After P (lex_block_comment pos lx)
  unfolding lex_block_comment advance_by
  lex_block_comment-kept pos lx h =
      let at = skip_while-kept P adv open_comment _ (adv (advance lx) h) in
      pick (After P) _ (advance_by-kept P adv 2 _ at)
        (pick (After P) lx.tolerant (rep _ pos _ (skip_while-kept P adv _ _ at)) at)

  lex_directive-kept :
      (pos : Position) (lx : Lexer) → P (advance lx) → After P (lex_directive pos lx)
  unfolding lex_directive
  lex_directive-kept pos lx h = skip_while-kept P adv _ (advance lx) h

  lex_ident-kept :
      (pos : Position) (lx : Lexer)
      → 1 ≤ length lx.rest
      → P (advance lx)
      → is_ident_start (peek lx 0) ≡ true
      → After P (lex_ident pos lx)
  unfolding lex_ident
  lex_ident-kept pos lx one h c =
      let part : is_ident_part (peek lx 0) ≡ true = unfold is_ident_part in ground (arith, c) in
      skip_while_first P adv _ lx one (on_byte_first is_ident_part lx one part) h

  lex_illegal-kept :
      (table : List (ℕ × ℕ)) (pos : Position) (lx : Lexer)
      → P (advance lx)
      → After P (lex_illegal table pos lx)
  unfolding lex_illegal
  lex_illegal-kept table pos lx h =
      let width = (go_illegal_rune table lx.rest).1 in
      let some_width : width ≡ suc (width - 1) =
        omega (arith, go_illegal_rune_width table lx.rest) in
      rw some_width (unfold advance_by in advance_by-kept P adv (width - 1) (advance lx) h)

  next_other-kept :
      (table : List (ℕ × ℕ)) (pos : Position) (lx : Lexer)
      → 1 ≤ length lx.rest
      → P (advance lx)
      → After P (next_other table pos lx)
  unfolding next_other
  next_other-kept table pos lx one h = ground (
    arith,
    Option-cases (punctuation (peek lx 0)),
    lex_directive-kept pos lx h,
    lex_number-kept P adv pos lx one h,
    lex_ident-kept pos lx one h,
    lex_illegal-kept table pos lx h,
  )

  -- At a byte that is no space, Next takes it first.
  pub next_token-kept :
      (table : List (ℕ × ℕ)) (pos : Position) (lx : Lexer)
      → 1 ≤ length lx.rest
      → P (advance lx)
      → After P (next_token table pos lx)
  unfolding next_token
  next_token-kept table pos lx one h = ground (
    arith,
    lex_line_comment-kept pos lx one h,
    lex_block_comment-kept pos lx h,
    lex_triple_string-kept P adv rep pos lx h,
    lex_string-kept P adv rep pos lx h,
    lex_bytes-kept P adv rep pos lx h,
    next_other-kept table pos lx one h,
  )

  next_token_stays :
      (table : List (ℕ × ℕ)) (pos : Position) (lx : Lexer)
      → length lx.rest ≡ 0
      → P lx
      → After P (next_token table pos lx)
  unfolding next_token
  next_token_stays table pos lx empty h = ground (arith, empty)

  -- What Advance and Report keep of a lexer, Next keeps, whatever the document and the mode.
  pub next-kept : (table : List (ℕ × ℕ)) (lx : Lexer) → P lx → P (next table lx).0
  unfolding next skip_spaces
  next-kept table lx h =
      let at = skip_spaces lx in
      let kept = skip_while-kept P adv _ lx h in
      elim (dec_lt 0 (length at.rest)) [
        | yes one ↦ next_token-kept table (current_pos at) at one (adv at kept)
        | no p ↦ next_token_stays table (current_pos at) at (omega arith) kept
      ]
