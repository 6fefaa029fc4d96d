-- ===== src/Lexer/Literals/Kept.antt =====
-- LexTripleString and LexBytes change a lexer by Advance and Report alone.
use protowire_cpp.Common.{arith, ℕ, ◌+◌, zero, suc, Option, none, some, List, length}
use protowire_cpp.Common.Text.{codes}
use protowire_cpp.Lexer.{Lexer, Position, Token, advance, advance_by, report}
use protowire_cpp.Lexer.Kept.{pick, After, advance_by-kept, skip_while-kept}
use protowire_cpp.Lexer.Strings.{recover}
use protowire_cpp.Lexer.Literals.{
  open_triple, lex_triple_string, close_bytes, bytes_round, bytes_loop, lex_bytes,
}

module _ (P : Lexer → Type 0) (adv : (lx : Lexer) → P lx → P (advance lx))
    (rep : (lx : Lexer) (pos : Position) (msg : List ℕ) → P lx → P (report lx pos msg)) where
  pub lex_triple_string-kept :
      (pos : Position) (lx : Lexer) → P (advance lx) → After P (lex_triple_string pos lx)
  unfolding lex_triple_string advance_by
  lex_triple_string-kept pos lx h =
      let from = advance_by-kept P adv 2 (advance lx) h in
      let at = skip_while-kept P adv open_triple (advance_by 3 lx) from in
      pick (After P) _ (advance_by-kept P adv 3 _ at)
        (pick (After P) lx.tolerant (rep _ pos _ (skip_while-kept P adv _ _ at)) at)

  close_bytes-kept : (pos : Position) (from lx : Lexer) → P lx → After P (close_bytes pos from lx)
  unfolding close_bytes
  close_bytes-kept pos from lx h = pick (After P) _ (adv lx h) (adv lx h)

  abbrev KeptRound : Option (Lexer × Token) → Type 0
  KeptRound none = Unit
  KeptRound (some r) = P r.0

  bytes_round-kept : (pos : Position) (from lx : Lexer) → P lx → KeptRound (bytes_round pos from lx)
  unfolding bytes_round recover
  bytes_round-kept pos from lx h = ground (
    arith,
    h,
    close_bytes-kept pos from lx h,
    rep lx pos (codes "unterminated bytes literal") h,
    rep lx pos (codes "unterminated bytes literal: ended at newline") h,
  )

  bytes_loop-kept :
      (f : ℕ) (pos : Position) (from lx : Lexer) → P lx → After P (bytes_loop f pos from lx)
  unfolding bytes_loop
  bytes_loop-kept zero pos from lx h = h
  bytes_loop-kept (suc f) pos from lx h =
      behind (bytes_loop-kept f pos from (advance lx) (adv lx h)) (bytes_round pos from lx)
        (bytes_round-kept pos from lx h)
    where
      behind :
          After P (bytes_loop f pos from (advance lx))
          → (r : Option (Lexer × Token)) → KeptRound r
          → After {A = Token} P
              (elim r [ some r' ↦ r' | none ↦ bytes_loop f pos from (advance lx) ])
      behind later (some r') k = k
      behind later none k = later

  pub lex_bytes-kept : (pos : Position) (lx : Lexer) → P (advance lx) → After P (lex_bytes pos lx)
  unfolding lex_bytes
  lex_bytes-kept pos lx h =
      let from = advance (advance lx) in
      ground (arith, h, bytes_loop-kept (length from.rest + 1) pos from from (adv (advance lx) h))
