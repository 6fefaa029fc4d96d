-- ===== src/Lexer/Strings/Braces.antt =====
-- LexString returns no opening brace.
use protowire_cpp.Common.{ℕ, zero, suc, ◌==◌, false, Option, none, List, arith, ◌≡◌, refl}
use protowire_cpp.Lexer.{Lexer, Position, Token, kind_value, lbrace, advance, peek}
use protowire_cpp.Lexer.Kept.{NoBrace}
use protowire_cpp.Lexer.Strings.{
  read_escape, recover, Round, goes_on, ends, escape_round, string_round, string_loop, lex_string,
}
use protowire_cpp.Lexer.Strings.Kept.{Escape-cases}

-- The kind that a round ends with.
abbrev round_kind : Round → ℕ
round_kind (goes_on sb lx) = 0
round_kind (ends r) = kind_value r.1.kind

pub recover-NoBrace :
    (lx : Lexer) (pos : Position) (msg : List ℕ) (kept : Token) (refusal : List ℕ)
    → (kind_value kept.kind == kind_value lbrace) ≡ false
    → NoBrace (recover lx pos msg kept refusal)
unfolding recover
recover-NoBrace lx pos msg kept refusal h = ground (arith, h)

escape_round_plain :
    (pos : Position) (sb : List ℕ) (lx : Lexer)
    → (round_kind (escape_round pos sb lx) == kind_value lbrace) ≡ false
unfolding escape_round recover
escape_round_plain pos sb lx = ground (arith, Escape-cases (read_escape (peek lx 0) (advance lx)).1)

string_round_plain :
    (pos : Position) (from : Lexer) (sb : Option (List ℕ)) (lx : Lexer)
    → (round_kind (string_round pos from sb lx) == kind_value lbrace) ≡ false
unfolding string_round recover
string_round_plain pos from sb lx = ground (arith, escape_round_plain pos _ (advance lx))

ends_plain :
    (r : Round) (next : Option (List ℕ) → Lexer → Lexer × Token)
    → (round_kind r == kind_value lbrace) ≡ false
    → ((sb : Option (List ℕ)) (lx : Lexer) → NoBrace (next sb lx))
    → NoBrace (elim r [ ends t ↦ t | goes_on sb lx ↦ next sb lx ])
ends_plain (goes_on sb lx) next p q = q sb lx
ends_plain (ends t) next p q = p

string_loop-NoBrace :
    (fuel : ℕ) (pos : Position) (from : Lexer) (sb : Option (List ℕ)) (lx : Lexer)
    → NoBrace (string_loop fuel pos from sb lx)
unfolding string_loop
string_loop-NoBrace zero pos from sb lx = refl
string_loop-NoBrace (suc fuel) pos from sb lx =
    ends_plain (string_round pos from sb lx) (string_loop fuel pos from)
      (string_round_plain pos from sb lx) (string_loop-NoBrace fuel pos from)

pub lex_string-NoBrace : (pos : Position) (lx : Lexer) → NoBrace (lex_string pos lx)
unfolding lex_string
lex_string-NoBrace pos lx = string_loop-NoBrace _ pos (advance lx) none (advance lx)
