-- ===== src/Parser/Moved.antt =====
-- How the parser moves over the document: every operation leaves no more to read than it found, keeps
-- the limit and the mode, and only adds to the errors.
use protowire_cpp.Common.{
  ℕ, zero, suc, ◌+◌, ◌≤◌, ◌≡◌, ◌∙◌, refl, length-append, ◌⊎◌, inl, inr, arith, false, List, [], ◌∷◌,
  if◌then◌else◌, length,
}
use protowire_cpp.Lexer.{Lexer, end_of_input, lbrace, line_end, comment, current_pos}
use protowire_cpp.Lexer.Kept.{pick, advance_errors}
use protowire_cpp.Lexer.Next.{next}
use protowire_cpp.Lexer.Next.Kept.{next-kept}
use protowire_cpp.Lexer.Progress.{next_progress}
use protowire_cpp.Lexer.Next.Braces.{next-AtBrace}
use protowire_cpp.Common.{tested}
use native.Mathlib.Numerals.{add-one}
use protowire_cpp.Parser.{Parser, at, read_token, keep_comment, advance_loop, advance}

-- The bytes and the token that are left, and the errors so far.
abbrev pub left : Parser → ℕ
left p = length p.lex.rest + (if at end_of_input p then 0 else 1)

abbrev pub errs : Parser → ℕ
errs p = length p.lex.errors

-- `q` comes after `p`, at least `n` of it read and at least `b` errors told.
pub record Moved (n b : ℕ) (p q : Parser) : Type 0 where
  pub reads : left q + n ≤ left p
  pub depth : q.max_depth ≡ p.max_depth
  pub mode : q.tolerant ≡ p.tolerant
  pub tells : b + errs p ≤ errs q

pub Moved-trans :
    {n m b c : ℕ} (k e : ℕ) {p q r : Parser}
    → Moved n b p q
    → Moved m c q r
    → k ≤ n + m
    → e ≤ b + c
    → Moved k e p r
Moved-trans k e x y h i =
    let x1 = x.reads in
    let y1 = y.reads in
    let x2 = x.tells in
    let y2 = y.tells in
    record {
      reads = omega (arith, h);
      depth = y.depth ∙ x.depth;
      mode = y.mode ∙ x.mode;
      tells = omega (arith, i);
    }

pub Moved-weaken :
    {n b : ℕ} (k e : ℕ) {p q : Parser} → Moved n b p q → k ≤ n → e ≤ b → Moved k e p q
Moved-weaken k e m h i =
    let reads = m.reads in
    let tells = m.tells in
    record { reads = omega (arith, h); depth = m.depth; mode = m.mode; tells = omega (arith, i) }

-- Next leaves as many errors, or more.
next_errors :
    (table : List (ℕ × ℕ)) (lx : Lexer) → length lx.errors ≤ length (next table lx).0.errors
next_errors table lx =
    next-kept (λ l. length lx.errors ≤ length l.errors) (λ l h. rw (advance_errors l) h)
      (λ l pos msg h. omega (arith, length-append l.errors ((pos, msg) ∷ []))) table lx
      (omega arith)

-- One token, which is less to read unless the document was at its end.
read_token-Moved : (p : Parser) → Moved 0 0 p (read_token p)
unfolding read_token
read_token-Moved p =
    let more = next_errors p.table p.lex in
    record {
      reads = elim (next_progress p.table p.lex) [
        | inl h ↦ ground (arith, h)
        | inr (e, h) ↦ ground (arith, e, h)
      ];
      depth = refl;
      mode = refl;
      tells = omega (arith, more);
    }

read_token-Moved_on : (p : Parser) → at end_of_input p ≡ false → Moved 1 0 p (read_token p)
unfolding read_token
read_token-Moved_on p on =
    let more = next_errors p.table p.lex in
    record {
      reads = elim (next_progress p.table p.lex) [
        | inl h ↦ ground (arith, h)
        | inr (e, h) ↦ ground (arith, e, h)
      ];
      depth = refl;
      mode = refl;
      tells = omega (arith, more);
    }

keep_comment-Moved : (n : ℕ) (p q : Parser) → Moved n 0 p q → Moved n 0 p (keep_comment q)
unfolding keep_comment
keep_comment-Moved n p q m = record {
  reads = m.reads;
  depth = m.depth;
  mode = m.mode;
  tells = m.tells;
}

-- A round of the loop, where what it reads has moved and the loop goes on from there.
advance_round :
    (n fuel : ℕ) (p q : Parser)
    → Moved n 0 p (read_token q)
    → ((r : Parser) → Moved n 0 p r → Moved n 0 p (advance_loop fuel r))
    → Moved n 0 p (advance_loop (suc fuel) q)
unfolding advance_loop
advance_round n fuel p q m on =
    let q' = read_token q in
    pick (Moved n 0 p) (at line_end q') {x = advance_loop fuel q'} (on q' m) (
      pick (Moved n 0 p) (at comment q') {x = advance_loop fuel (keep_comment q')} {y = q'}
        (on (keep_comment q') (keep_comment-Moved n p q' m)) m)

advance_loop-Moved : (n fuel : ℕ) (p q : Parser) → Moved n 0 p q → Moved n 0 p (advance_loop fuel q)
advance_loop-Moved n zero p q m = unfold advance_loop in m
advance_loop-Moved n (suc fuel) p q m =
    advance_round n fuel p q (Moved-trans n 0 m (read_token-Moved q) (omega arith) (omega arith))
      (advance_loop-Moved n fuel p)

pub advance-Moved : (p : Parser) → Moved 0 0 p (advance p)
unfolding advance
advance-Moved p =
    advance_loop-Moved 0 (length p.lex.rest + 1) p _
      (record { reads = omega arith; depth = refl; mode = refl; tells = omega arith })

pub advance-Moved_on : (p : Parser) → at end_of_input p ≡ false → Moved 1 0 p (advance p)
unfolding advance
advance-Moved_on p on =
    let p' = record p { prev_end = current_pos p.lex } in
    let m = read_token-Moved_on p' on in
    rw (add-one (length p.lex.rest)) (
      advance_round 1 (length p.lex.rest) p p'
        (record { reads = m.reads; depth = m.depth; mode = m.mode; tells = m.tells })
        (advance_loop-Moved 1 (length p.lex.rest) p))

-- The lexer stands behind an opening brace that is current.
pub record Braced (p : Parser) : Type 0 where
  pub at_brace : at lbrace p ≡ false ⊎ p.lex.index ≤ p.current.pos.offset + 1

read_token-Braced : (p : Parser) → Braced (read_token p)
unfolding read_token
read_token-Braced p = record { at_brace = next-AtBrace p.table p.lex }

keep_comment-Braced : (p : Parser) → Braced p → Braced (keep_comment p)
unfolding keep_comment
keep_comment-Braced p h = record { at_brace = h.at_brace }

advance_loop-Braced : (fuel : ℕ) (p : Parser) → Braced p → Braced (advance_loop fuel p)
unfolding advance_loop
advance_loop-Braced zero p h = h
advance_loop-Braced (suc fuel) p h =
    let q = read_token p in
    let b = read_token-Braced p in
    tested Braced (at line_end q) (λ _. advance_loop-Braced fuel q b)
      (λ _.
        tested Braced (at comment q)
          (λ _. advance_loop-Braced fuel (keep_comment q) (keep_comment-Braced q b)) (λ _. b))

pub advance-Braced : (p : Parser) → Braced (advance p)
unfolding advance advance_loop
advance-Braced p = rw (add-one (length p.lex.rest)) (
    let q = read_token (record p { prev_end = current_pos p.lex }) in
    let b = read_token-Braced (record p { prev_end = current_pos p.lex }) in
    let fuel = length p.lex.rest in
    tested Braced (at line_end q) (λ _. advance_loop-Braced fuel q b)
      (λ _.
        tested Braced (at comment q)
          (λ _. advance_loop-Braced fuel (keep_comment q) (keep_comment-Braced q b)) (λ _. b)))
