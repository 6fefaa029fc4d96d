-- ===== src/Parser/Settled.antt =====
-- The fuel of the loop of Advance is enough: it stops at a token that counts.
use protowire_cpp.Common.{ℕ, zero, suc, ◌+◌, ◌<◌, ◌≤◌, ◌≡◌, arith, false, inl, inr, length, tested}
use protowire_cpp.Lexer.{kind_value, line_end, comment}
use protowire_cpp.Lexer.Progress.{next_progress}
use protowire_cpp.Parser.{Parser, at, read_token, keep_comment, advance_loop, advance}

-- The current token is no newline and no comment.
pub record Settled (p : Parser) : Type 0 where
  pub no_newline : at line_end p ≡ false
  pub no_comment : at comment p ≡ false

-- A token that the loop passes over takes a byte.
read_token_shorter :
    (p : Parser)
    → 1 ≤ kind_value (read_token p).current.kind
    → length (read_token p).lex.rest < length p.lex.rest
unfolding read_token
read_token_shorter p h = elim (next_progress p.table p.lex) [
  | inl less ↦ less
  | inr (e, h') ↦ absurd (ground (arith, e, h))
]

advance_loop-Settled :
    (fuel : ℕ) (p : Parser) → length p.lex.rest < fuel → Settled (advance_loop fuel p)
unfolding advance_loop keep_comment
advance_loop-Settled zero p h = absurd (omega (arith, h))
advance_loop-Settled (suc fuel) p h =
    let q = read_token p in
    tested Settled (at line_end q)
      (λ e.
        let less = read_token_shorter p (ground (arith, e)) in
        advance_loop-Settled fuel q (omega (arith, h, less)))
      (λ newline.
        tested Settled (at comment q)
          (λ e.
            let less = read_token_shorter p (ground (arith, e)) in
            advance_loop-Settled fuel (keep_comment q) (omega (arith, h, less)))
          (λ e. record { no_newline = newline; no_comment = e }))

-- Whatever is left of the document, the token that Advance makes current is neither a newline nor a
-- comment: the rounds that it has are enough to pass over those.
pub advance-Settled :
    (p : Parser) → (at line_end (advance p) ≡ false) × (at comment (advance p) ≡ false)
unfolding advance
advance-Settled p =
    let s =
      advance_loop-Settled (length p.lex.rest + 1) (record p { prev_end = _ }) (omega arith) in
    (s.no_newline, s.no_comment)
