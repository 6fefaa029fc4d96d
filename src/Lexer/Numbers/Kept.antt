-- ===== src/Lexer/Numbers/Kept.antt =====
-- LexNumber changes a lexer by Advance alone.
use protowire_cpp.Common.{
  ◌≡◌, ◌≤◌, ◌||◌, ℕ, zero, suc, arith, Bool, true, false, ◌&&◌, ◌==◌, length,
}
use protowire_cpp.Common.Text.{is_digit}
use protowire_cpp.Lexer.{Lexer, Position, TokenKind, int, float, advance, advance_by, on_byte, peek}
use protowire_cpp.Lexer.Kept.{
  pick, pick_ℕ, After, advance_by-kept, skip_while-kept, skip_while_first, on_byte_first,
}
use protowire_cpp.Lexer.Numbers.{
  skip_digits, lex_precision, number, skip_fraction, skip_exponent, lex_float, in_timestamp,
  lex_timestamp, duration_loop, lex_duration, skip_frac, behind_digits, magnitude, signed_number,
  lex_number,
}

module _ (P : Lexer → Type 0) (adv : (lx : Lexer) → P lx → P (advance lx)) where
  skip_digits-kept : (lx : Lexer) → P lx → P (skip_digits lx)
  skip_digits-kept lx h = skip_while-kept P adv (on_byte is_digit) lx h

  number-kept :
      (kind : TokenKind) (pos : Position) (from lx : Lexer)
      → P lx
      → After P (number kind pos from lx)
  unfolding number lex_precision
  number-kept kind pos from lx h = pick (After P) _ (skip_digits-kept (advance lx) (adv lx h)) h

  skip_fraction-kept : (lx : Lexer) → P lx → P (skip_fraction lx)
  unfolding skip_fraction
  skip_fraction-kept lx h = pick P _ (skip_digits-kept (advance lx) (adv lx h)) h

  skip_exponent-kept : (lx : Lexer) → P lx → P (skip_exponent lx)
  unfolding skip_exponent
  skip_exponent-kept lx h =
      let e = adv lx h in pick P _ (skip_digits-kept _ (pick P _ (adv (advance lx) e) e)) h

  lex_float-kept : (pos : Position) (from lx : Lexer) → P lx → After P (lex_float pos from lx)
  unfolding lex_float
  lex_float-kept pos from lx h =
      number-kept float pos from _ (skip_exponent-kept _ (skip_fraction-kept lx h))

  lex_timestamp-kept :
      (pos : Position) (from lx : Lexer) → P lx → After P (lex_timestamp pos from lx)
  unfolding lex_timestamp
  lex_timestamp-kept pos from lx h =
      let to = skip_while-kept P adv in_timestamp lx h in pick (After P) _ to to

  duration_loop-kept : (f : ℕ) (lx : Lexer) → P lx → P (duration_loop f lx)
  unfolding duration_loop
  duration_loop-kept zero lx h = h
  duration_loop-kept (suc f) lx h =
      pick_ℕ P _ h
        (λ n. duration_loop-kept f (advance_by (suc n) lx) (advance_by-kept P adv (suc n) lx h))

  lex_duration-kept : (pos : Position) (from lx : Lexer) → P lx → After P (lex_duration pos from lx)
  unfolding lex_duration
  lex_duration-kept pos from lx h =
      let to = duration_loop-kept (length lx.rest) lx h in pick (After P) _ to to

  skip_frac-kept : (frac : Bool) (lx : Lexer) → P lx → P (skip_frac frac lx)
  unfolding skip_frac
  skip_frac-kept frac lx h = pick P frac (skip_digits-kept (advance lx) (adv lx h)) h

  behind_digits-kept :
      (pos : Position) (from lx : Lexer) → P lx → After P (behind_digits pos from lx)
  unfolding behind_digits
  behind_digits-kept pos from lx h =
      let frac = peek lx 0 == b'.' && is_digit (peek lx 1) in
      let to = skip_frac frac lx in
      let kept = skip_frac-kept frac lx h in
      ground (
        arith,
        lex_duration-kept pos from to kept,
        lex_float-kept pos from to kept,
        number-kept int pos from to kept,
      )

  magnitude-kept :
      (pos : Position) (from : Lexer) (neg : Bool) (lx : Lexer)
      → P lx
      → After P (magnitude pos from neg lx)
  unfolding magnitude
  magnitude-kept pos from neg lx h =
      let to = skip_digits lx in
      let kept = skip_digits-kept lx h in
      ground (arith, lex_timestamp-kept pos from to kept, behind_digits-kept pos from to kept)

  -- The same at a digit, which is taken first.
  magnitude_first :
      (pos : Position) (from : Lexer) (neg : Bool) (lx : Lexer)
      → 1 ≤ length lx.rest
      → is_digit (peek lx 0) ≡ true
      → P (advance lx)
      → After P (magnitude pos from neg lx)
  unfolding magnitude
  magnitude_first pos from neg lx one d h =
      let to = skip_digits lx in
      let here = on_byte_first is_digit lx one d in
      let kept = skip_while_first P adv (on_byte is_digit) lx one here h in
      ground (arith, lex_timestamp-kept pos from to kept, behind_digits-kept pos from to kept)

  signed_number-kept :
      (pos : Position) (from lx : Lexer) → P lx → After P (signed_number pos from lx)
  unfolding signed_number
  signed_number-kept pos from lx h =
      ground (arith, advance_by-kept P adv 3 lx h, magnitude-kept pos from true lx h)

  pub lex_number-kept :
      (pos : Position) (lx : Lexer)
      → 1 ≤ length lx.rest
      → P (advance lx)
      → (peek lx 0 == b'-' || (peek lx 0 == b'+' || is_digit (peek lx 0))) ≡ true
      → After P (lex_number pos lx)
  unfolding lex_number
  lex_number-kept pos lx one h c =
      ground
        (arith, h, signed_number-kept pos lx (advance lx) h, magnitude_first pos lx false lx one)
