-- ===== src/Lexer/Strings/Kept.antt =====
-- LexString and the escapes change a lexer by Advance and Report alone.
use protowire_cpp.Common.{ℕ, zero, suc, Option, none, some, List, arith}
use protowire_cpp.Common.{◌≡◌, ◌⊎◌, inl, inr, refl}
use protowire_cpp.Common.Text.{codes}
use protowire_cpp.Lexer.{current_pos, Lexer, Position, Token, advance, report, peek}
use protowire_cpp.Lexer.Kept.{pick, pick_option, After, advance_by-kept}
use protowire_cpp.Lexer.Strings.{
  read_hex_byte, read_oct_rest, hex_rune_loop, read_hex_rune, byte_escape, rune_escape, hex_escape,
  octal_escape, short_rune, long_rune, long_escape, read_escape, recover, Round, goes_on, ends,
  Escape, stands_for, bad_escape, escape_round, string_round, string_loop, lex_string, so_far,
}

pub Escape-cases :
    (e : Escape)
    → ((s : List ℕ) × (e ≡ stands_for s))
      ⊎ ((msg : List ℕ) × (kept : List ℕ) × (e ≡ bad_escape msg kept))
Escape-cases (stands_for s) = inl (s, refl)
Escape-cases (bad_escape msg kept) = inr (msg, kept, refl)

module _ (P : Lexer → Type 0) (adv : (lx : Lexer) → P lx → P (advance lx))
    (rep : (lx : Lexer) (pos : Position) (msg : List ℕ) → P lx → P (report lx pos msg)) where
  read_hex_byte-kept : (lx : Lexer) → P lx → After P (read_hex_byte lx)
  unfolding read_hex_byte
  read_hex_byte-kept lx h =
      pick (After P) _ h (pick_option (After P) _ h (λ _. advance_by-kept P adv 2 lx h))

  read_oct_rest-kept : (first : ℕ) (lx : Lexer) → P lx → After P (read_oct_rest first lx)
  unfolding read_oct_rest
  read_oct_rest-kept first lx h =
      pick (After P) _ h (pick_option (After P) _ h (λ _. advance_by-kept P adv 2 lx h))

  hex_rune_loop-kept : (n r : ℕ) (lx : Lexer) → P lx → After P (hex_rune_loop n r lx)
  unfolding hex_rune_loop
  hex_rune_loop-kept zero r lx h = h
  hex_rune_loop-kept (suc n) r lx h =
      pick_option (After P) _ h (λ d. hex_rune_loop-kept n _ (advance lx) (adv lx h))

  read_hex_rune-kept : (n : ℕ) (lx : Lexer) → P lx → After P (read_hex_rune n lx)
  unfolding read_hex_rune
  read_hex_rune-kept n lx h = pick (After P) _ h (hex_rune_loop-kept n 0 lx h)

  byte_escape-kept :
      (r : Lexer × Option ℕ) (msg kept : List ℕ) → After P r → After P (byte_escape r msg kept)
  unfolding byte_escape
  byte_escape-kept (lx, some b) msg kept h = h
  byte_escape-kept (lx, none) msg kept h = h

  rune_escape-kept :
      (r : Lexer × Option ℕ) (msg kept : List ℕ) → After P r → After P (rune_escape r msg kept)
  unfolding rune_escape
  rune_escape-kept (lx, some b) msg kept h = h
  rune_escape-kept (lx, none) msg kept h = h

  hex_escape-kept : (lx : Lexer) → P lx → After P (hex_escape lx)
  unfolding hex_escape
  hex_escape-kept lx h = byte_escape-kept (read_hex_byte lx) _ _ (read_hex_byte-kept lx h)

  octal_escape-kept : (esc : ℕ) (lx : Lexer) → P lx → After P (octal_escape esc lx)
  unfolding octal_escape
  octal_escape-kept esc lx h =
      byte_escape-kept (read_oct_rest esc lx) _ _ (read_oct_rest-kept esc lx h)

  short_rune-kept : (lx : Lexer) → P lx → After P (short_rune lx)
  unfolding short_rune
  short_rune-kept lx h = rune_escape-kept (read_hex_rune 4 lx) _ _ (read_hex_rune-kept 4 lx h)

  long_rune-kept : (lx : Lexer) → P lx → After P (long_rune lx)
  unfolding long_rune
  long_rune-kept lx h = rune_escape-kept (read_hex_rune 8 lx) _ _ (read_hex_rune-kept 8 lx h)

  long_escape-kept : (esc : ℕ) (lx : Lexer) → P lx → After P (long_escape esc lx)
  unfolding long_escape
  long_escape-kept esc lx h = ground (
    arith,
    hex_escape-kept lx h,
    octal_escape-kept esc lx h,
    short_rune-kept lx h,
    long_rune-kept lx h,
  )

  read_escape-kept : (esc : ℕ) (lx : Lexer) → P lx → After P (read_escape esc lx)
  unfolding read_escape
  read_escape-kept esc lx h = pick_option (After P) _ (long_escape-kept esc lx h) (λ c. h)

  pub recover-kept :
      (lx : Lexer) (pos : Position) (msg : List ℕ) (kept : Token) (refusal : List ℕ)
      → P lx
      → After P (recover lx pos msg kept refusal)
  unfolding recover
  recover-kept lx pos msg kept refusal h = pick (After P) lx.tolerant (rep lx pos msg h) h

  abbrev KeptRound : Round → Type 0
  KeptRound (goes_on sb lx) = P lx
  KeptRound (ends r) = P r.0

  escape_round-kept :
      (pos : Position) (sb : List ℕ) (lx : Lexer) → P lx → KeptRound (escape_round pos sb lx)
  unfolding escape_round recover
  escape_round-kept pos sb lx h =
      let after = read_escape-kept (peek lx 0) (advance lx) (adv lx h) in
      elim (Escape-cases (read_escape (peek lx 0) (advance lx)).1) [
        | inl (s, q) ↦ ground (arith, q, after, rep lx pos refusal h)
        | inr (msg, kept, q) ↦ ground (
          arith,
          q,
          after,
          rep lx pos refusal h,
          rep (read_escape (peek lx 0) (advance lx)).0 (current_pos lx) msg after,
        )
      ]
    where
      refusal : List ℕ
      refusal = codes "unterminated escape sequence"

  string_round-kept :
      (pos : Position) (from : Lexer) (sb : Option (List ℕ)) (lx : Lexer)
      → P lx
      → KeptRound (string_round pos from sb lx)
  unfolding string_round recover
  string_round-kept pos from sb lx h = ground (
    arith,
    h,
    adv lx h,
    escape_round-kept pos (so_far from sb lx) (advance lx) (adv lx h),
    rep lx pos (codes "unterminated string") h,
    rep lx pos (codes "unterminated string: ended at newline") h,
  )

  string_loop-kept :
      (f : ℕ) (pos : Position) (from : Lexer) (sb : Option (List ℕ)) (lx : Lexer)
      → P lx
      → After P (string_loop f pos from sb lx)
  unfolding string_loop
  string_loop-kept zero pos from sb lx h = h
  string_loop-kept (suc f) pos from sb lx h =
      behind (λ sb' lx' k. string_loop-kept f pos from sb' lx' k) (string_round pos from sb lx)
        (string_round-kept pos from sb lx h)
    where
      behind :
          ((sb' : Option (List ℕ)) (lx' : Lexer) → P lx' → After P (string_loop f pos from sb' lx'))
          → (r : Round) → KeptRound r
          → After {A = Token} P
              (elim r [ ends r' ↦ r' | goes_on sb' lx' ↦ string_loop f pos from sb' lx' ])
      behind later (ends r') k = k
      behind later (goes_on sb' lx') k = later sb' lx' k

  pub lex_string-kept : (pos : Position) (lx : Lexer) → P (advance lx) → After P (lex_string pos lx)
  unfolding lex_string
  lex_string-kept pos lx h = string_loop-kept _ pos _ none (advance lx) h
