-- ===== src/Lexer/Progress.antt =====
-- Next takes a byte at least, or reports the end: the loop of a caller that asks for tokens ends.
use protowire_cpp.Common.{
  ℕ, zero, suc, ◌-◌, ◌≤◌, ◌<◌, ◌≡◌, ◌∙◌, refl, ltb, tested, ◌⊎◌, inl, inr, arith, List, length,
}
use native.Mathlib.Decide.{dec_lt}
use protowire_cpp.Lexer.{
  Lexer, Position, end_of_input, advance, advance_by, reposition_to, skip_spaces, current_pos,
}
use protowire_cpp.Lexer.Kept.{List-cases, advance_by-kept, advance_errors, skip_while-kept}
use protowire_cpp.Lexer.Next.{next, next_token}
use protowire_cpp.Lexer.Next.Kept.{next_token-kept}
use protowire_cpp.Lexer.Positions.{next_tokens}

length-advance : (lx : Lexer) → length (advance lx).rest ≡ length lx.rest - 1
unfolding advance
length-advance lx = ground (arith, List-cases lx.rest)

advance_le : (n : ℕ) (lx : Lexer) → length lx.rest ≤ n → length (advance lx).rest ≤ n
advance_le n lx h = omega (arith, length-advance lx)

skip_spaces_le : (lx : Lexer) → length (skip_spaces lx).rest ≤ length lx.rest
unfolding skip_spaces
skip_spaces_le lx =
    skip_while-kept (λ l. length l.rest ≤ length lx.rest) (advance_le (length lx.rest)) _ lx
      (omega arith)

-- RepositionTo ahead of the lexer leaves no more, and the errors.
pub reposition_to_ahead :
    (target : ℕ) (lx : Lexer)
    → lx.index ≤ target
    → (length (reposition_to target lx).rest ≤ length lx.rest)
      × ((reposition_to target lx).errors ≡ lx.errors)
unfolding reposition_to
reposition_to_ahead target lx h =
    let P = λ (l : Lexer). (length l.rest ≤ length lx.rest) × (l.errors ≡ lx.errors) in
    tested (λ from. P (advance_by (target - from.index) from)) (ltb target lx.index)
      (λ e. absurd (ground (arith, e, h)))
      (λ _.
        advance_by-kept P (λ l (less, same). (advance_le _ l less, advance_errors l ∙ same))
          (target - lx.index) lx (omega arith, refl))

-- The end is reported where nothing is left.
next_token_end :
    (table : List (ℕ × ℕ)) (pos : Position) (lx : Lexer)
    → length lx.rest ≡ 0
    → ((next_token table pos lx).1.kind ≡ end_of_input)
      × (length (next_token table pos lx).0.rest ≡ 0)
unfolding next_token
next_token_end table pos lx h = ground (arith, h)

-- Next leaves less of the document than it found, or nothing is left and the token is the end.
pub next_progress :
    (table : List (ℕ × ℕ)) (lx : Lexer)
    → length (next table lx).0.rest < length lx.rest
      ⊎ ((next table lx).1.kind ≡ end_of_input) × (length (next table lx).0.rest ≡ 0)
unfolding next
next_progress table lx =
    let at = skip_spaces lx in
    let smaller = skip_spaces_le lx in
    elim (dec_lt 0 (length at.rest)) [
      | yes one ↦
          let taken =
            next_token-kept (λ l. length l.rest ≤ length at.rest - 1)
              (advance_le (length at.rest - 1)) (λ l pos msg h. h) table (current_pos at) at one
              (omega (arith, length-advance at)) in
          inl (omega arith)
      | no p ↦ inr (next_token_end table (current_pos at) at (omega arith))
    ]

length-next_tokens :
    (table : List (ℕ × ℕ)) (n : ℕ) (lx : Lexer)
    → length (next_tokens table n lx).rest ≤ length lx.rest - n
unfolding next_tokens
length-next_tokens table zero lx = omega arith
length-next_tokens table (suc n) lx =
    let rest = length-next_tokens table n (next table lx).0 in
    elim (next_progress table lx) [ inl h ↦ omega arith | inr (e, h) ↦ omega arith ]

-- Behind as many tokens as the document has bytes left, the next token is the end of the input.
pub next_tokens_end :
    (table : List (ℕ × ℕ)) (n : ℕ) (lx : Lexer)
    → length lx.rest ≤ n
    → (next table (next_tokens table n lx)).1.kind ≡ end_of_input
next_tokens_end table n lx h =
    let rest = length-next_tokens table n lx in
    elim (next_progress table (next_tokens table n lx)) [
      | inl more ↦ absurd (omega arith)
      | inr (e, none_left) ↦ e
    ]
