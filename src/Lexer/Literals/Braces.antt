-- ===== src/Lexer/Literals/Braces.antt =====
-- LexTripleString and LexBytes return no opening brace.
use protowire_cpp.Common.{
  ℕ, zero, suc, ◌==◌, false, Option, none, some, arith, ◌+◌, length, ◌≡◌, refl,
}
use protowire_cpp.Lexer.{Lexer, Position, Token, kind_value, lbrace, advance}
use protowire_cpp.Lexer.Kept.{NoBrace}
use protowire_cpp.Lexer.Strings.{recover}
use protowire_cpp.Lexer.Literals.{
  lex_triple_string, close_bytes, bytes_round, bytes_loop, lex_bytes,
}

pub lex_triple_string-NoBrace : (pos : Position) (lx : Lexer) → NoBrace (lex_triple_string pos lx)
unfolding lex_triple_string
lex_triple_string-NoBrace pos lx = ground arith

abbrev round_kind : Option (Lexer × Token) → ℕ
round_kind none = 0
round_kind (some r) = kind_value r.1.kind

bytes_round_plain :
    (pos : Position) (from lx : Lexer)
    → (round_kind (bytes_round pos from lx) == kind_value lbrace) ≡ false
unfolding bytes_round close_bytes recover
bytes_round_plain pos from lx = ground arith

ends_plain :
    (r : Option (Lexer × Token)) (next : Lexer × Token)
    → (round_kind r == kind_value lbrace) ≡ false
    → NoBrace next
    → NoBrace (elim r [ some t ↦ t | none ↦ next ])
ends_plain none next p q = q
ends_plain (some t) next p q = p

bytes_loop-NoBrace :
    (fuel : ℕ) (pos : Position) (from lx : Lexer) → NoBrace (bytes_loop fuel pos from lx)
unfolding bytes_loop
bytes_loop-NoBrace zero pos from lx = refl
bytes_loop-NoBrace (suc fuel) pos from lx =
    ends_plain (bytes_round pos from lx) _ (bytes_round_plain pos from lx)
      (bytes_loop-NoBrace fuel pos from (advance lx))

pub lex_bytes-NoBrace : (pos : Position) (lx : Lexer) → NoBrace (lex_bytes pos lx)
unfolding lex_bytes
lex_bytes-NoBrace pos lx =
    let from = advance (advance lx) in
    ground (arith, bytes_loop-NoBrace (length from.rest + 1) pos from from)
