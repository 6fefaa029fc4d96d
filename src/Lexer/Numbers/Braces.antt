-- ===== src/Lexer/Numbers/Braces.antt =====
-- LexNumber returns no opening brace.
use protowire_cpp.Common.{Bool, true, false, arith}
use protowire_cpp.Lexer.{Lexer, Position, advance}
use protowire_cpp.Lexer.Kept.{NoBrace}
use protowire_cpp.Lexer.Numbers.{
  skip_digits, number, lex_float, lex_timestamp, lex_duration, behind_digits, magnitude,
  signed_number, lex_number,
}

behind_digits-NoBrace : (pos : Position) (from lx : Lexer) → NoBrace (behind_digits pos from lx)
unfolding behind_digits lex_float number lex_duration
behind_digits-NoBrace pos from lx = ground arith

magnitude-NoBrace :
    (pos : Position) (from : Lexer) (neg : Bool) (lx : Lexer) → NoBrace (magnitude pos from neg lx)
unfolding magnitude lex_timestamp
magnitude-NoBrace pos from neg lx = ground (arith, behind_digits-NoBrace pos from (skip_digits lx))

signed_number-NoBrace : (pos : Position) (from lx : Lexer) → NoBrace (signed_number pos from lx)
unfolding signed_number
signed_number-NoBrace pos from lx = ground (arith, magnitude-NoBrace pos from true lx)

pub lex_number-NoBrace : (pos : Position) (lx : Lexer) → NoBrace (lex_number pos lx)
unfolding lex_number
lex_number-NoBrace pos lx =
    ground (arith, signed_number-NoBrace pos lx (advance lx), magnitude-NoBrace pos lx false lx)
