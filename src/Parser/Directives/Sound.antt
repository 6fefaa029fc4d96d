-- ===== src/Parser/Directives/Sound.antt =====
-- The directives read on, whether they are accepted or refused, and never run out of fuel.
use protowire_cpp.Common.{tested}
use protowire_cpp.Common.{
  ℕ, zero, suc, ◌+◌, ◌<◌, ◌≡◌, ◌⊎◌, inl, inr, arith, Bool, true, false, not, ◌||◌, ◌&&◌, Option,
  List, [], ◌++◌, ◌==◌, if◌then◌else◌, length,
}
use protowire_cpp.Lexer.{
  Position, kind_value, end_of_input, ident, lbrace, lparen, rparen, equals, colon, comma,
}
use protowire_cpp.Lexer.Kept.{pick_option}
use protowire_cpp.Ast.{Comment, Value, Directive}
use protowire_cpp.Parser.{Parser, Step, at, advance, flush, peek_kind}
use protowire_cpp.Parser.Moved.{
  left, Moved, Moved-trans, Moved-weaken, advance-Moved, advance-Moved_on,
}
use protowire_cpp.Parser.Good.{Good, done, refused, Good-bind}
use protowire_cpp.Parser.Sound.{Under, Moved-Under, Refusal, still, Moved-if, not_end}
use protowire_cpp.Parser.Values.Scalars.{ValueGood}
use protowire_cpp.Parser.Values.Sound.{parse_block_val_good}
use protowire_cpp.Parser.Entries.{parse_body, levels}
use protowire_cpp.Parser.Entries.Sound.{soft_if_bind}
use protowire_cpp.Parser.Entries.Bodies.{top-ValueGood, top-BodyGood}
use protowire_cpp.Parser.Braces.{find_matching_brace}
use protowire_cpp.Parser.Columns.{column_path_error}
use protowire_cpp.Parser.Directives.{
  prefix_loop, directive_block, parse_directive, restored, parse_row_cell, cell_loop, close_row,
  parse_table_row, name_loop, row_loop, firsts, table_rows, parse_table_directive,
}

-- Where a directive is refused: in strict mode, or past its first token.
abbrev pub Halt : Bool → Parser → Parser → Type 0
Halt t p q = Refusal t q ⊎ Moved 1 0 p q

-- A directive read on.
abbrev pub ReadOn : Bool → {A : Type 0} → Parser → Step A → Type 0
ReadOn t {A} p = Good {A = A} (λ r. Moved 1 0 p r.1) (Halt t p)

-- Comments set aside or put back.
pub commented :
    {n : ℕ} (cs : List Comment) {p q : Parser}
    → Moved n 0 p q
    → Moved n 0 p (record q { comments = cs })
commented cs m = record { reads = m.reads; depth = m.depth; mode = m.mode; tells = m.tells }

Halt-from : {t : Bool} {n : ℕ} {p q r : Parser} → Moved n 0 p q → Halt t q r → Halt t p r
Halt-from m (inl f) = inl f
Halt-from m (inr m1) = inr (Moved-trans 1 0 m m1 (omega arith) (omega arith))

module _ (t : Bool) (limit : ℕ) where
  prefix_loop_good :
      (fuel eo : ℕ) (p q : Parser)
      → Moved 1 0 p q
      → left q < fuel
      → ReadOn t p (prefix_loop fuel eo q)
  unfolding prefix_loop
  prefix_loop_good zero eo p q m h = absurd (omega (arith, h))
  prefix_loop_good (suc fuel) eo p q m h =
      let after = kind_value (peek_kind q) in
      tested (ReadOn t p)
        (at ident q && not (after == kind_value equals || after == kind_value colon))
        (λ e.
          let more = advance-Moved_on q (not_end ident q (omega arith) (ground (arith, e))) in
          let reads = more.reads in
          Good-bind (λ r. Moved 1 0 p r.1) (Halt t p) _
            (prefix_loop_good fuel _ p (advance q)
              (Moved-trans 1 0 m more (omega arith) (omega arith)) (omega (arith, h)))
            (λ _ f. f) (λ r s on. done on))
        (λ _. done m)

  directive_block_good :
      (d : Directive) (p q : Parser)
      → Under t limit q
      → Moved 1 0 p q
      → at lbrace q ≡ true
      → ReadOn t p (directive_block d q)
  unfolding directive_block
  directive_block_good d p q u m e =
      let limited = u.depth in
      Good-bind (λ r. Moved 1 0 p r.1) (Halt t p) _
        (parse_block_val_good t limit 0 (parse_body (levels q) 1)
          (λ one r v. top-BodyGood t limit (levels q) r (omega (arith, limited)) one v)
          (omega arith) q u e)
        (λ _ f. inl f)
        (λ v r made.
          let on = Moved-trans 1 0 m made.sound.moved (omega arith) (omega arith) in
          pick_option (ReadOn t p) (find_matching_brace r.lex.input q.current.pos.offset)
            (refused (inr on)) (λ close_at. done on))

  pub parse_directive_good :
      (p : Parser) → Under t limit p → at end_of_input p ≡ false → ReadOn t p (parse_directive p)
  unfolding parse_directive
  parse_directive_good p u e =
      let R = λ (r : (Directive × ℕ) × Parser). Moved 1 0 p r.1 in
      let u1 : Under t limit (flush p) = record { mode = u.mode; depth = u.depth } in
      soft_if_bind R (Halt t p) _ _ _ _ (flush p) u1 inl (λ q m same.
        let more = advance-Moved_on q (rw same e) in
        let on : Moved 1 0 p (advance q) =
          Moved-trans 1 0 (commented [] (still p))
            (Moved-trans 1 0 m more (omega arith) (omega arith)) (omega arith) (omega arith) in
        Good-bind R (Halt t p) _
          (prefix_loop_good (length (advance q).lex.rest + 2) _ p (advance q) on (ground arith))
          (λ _ f. f)
          (λ a r m1.
            tested (ReadOn t p) (at lbrace r)
              (λ b. directive_block_good _ p r (Moved-Under u m1) m1 b) (λ _. done m1)))

  restored_good :
      (cs : List Comment) (p q : Parser) (s : Step Value)
      → Moved 1 0 p q
      → ValueGood t limit 0 q s
      → ReadOn t p (restored cs s)
  unfolding restored
  restored_good cs p q _ m (done {r = (v, r)} made) =
      let back =
        commented (cs ++ r.comments)
          (Moved-weaken 0 0 made.sound.moved (omega arith) (omega arith)) in
      done (Moved-trans 1 0 m back (omega arith) (omega arith))
  restored_good cs p q _ m (refused {p = r} (f, g)) = refused (inl (f, g))

  parse_row_cell_good :
      (p q : Parser) → Under t limit q → Moved 1 0 p q → ReadOn t p (parse_row_cell q)
  unfolding parse_row_cell
  parse_row_cell_good p q u m =
      let limited = u.depth in
      let u1 : Under t limit (flush q) = record { mode = u.mode; depth = u.depth } in
      tested (ReadOn t p) (at comma q || at rparen q) (λ _. done m)
        (λ _.
          restored_good q.comments p (flush q) _ (commented [] m)
            (top-ValueGood t limit (levels q) (flush q) (omega (arith, limited)) u1))

  cell_loop_good :
      (fuel : ℕ) (p q : Parser)
      → Under t limit p
      → Moved 1 0 p q
      → left q < fuel
      → ReadOn t p (cell_loop fuel q)
  unfolding cell_loop
  cell_loop_good zero p q u m h = absurd (omega (arith, h))
  cell_loop_good (suc fuel) p q u m h =
      tested (ReadOn t p) (at comma q)
        (λ e.
          let more = advance-Moved_on q (not_end comma q (omega arith) e) in
          Good-bind (λ r. Moved 1 0 p r.1) (Halt t p) _
            (parse_row_cell_good q (advance q)
              (Moved-Under u (Moved-trans 1 0 m more (omega arith) (omega arith))) more)
            (λ _. Halt-from m)
            (λ cell r m1.
              let reads = m1.reads in
              let on = Moved-trans 1 0 m m1 (omega arith) (omega arith) in
              Good-bind (λ r. Moved 1 0 p r.1) (Halt t p) _
                (cell_loop_good fuel p r u on (omega (arith, h))) (λ _ f. f)
                (λ cells s on. done on)))
        (λ _. done m)

  close_row_good :
      (expected : ℕ) (read_past : Bool) (start : Position) (leading : List Comment)
      (cells : List (Option Value)) (p q : Parser)
      → Moved 1 0 p q
      → ReadOn t p (close_row expected read_past start leading cells q)
  unfolding close_row
  close_row_good expected read_past start leading cells p q m =
      let p1 = flush q in
      let m1 = commented [] m in
      let m2 : Moved 1 0 p (if read_past then advance p1 else p1) =
        tested (Moved 1 0 p) read_past
          (λ _. Moved-trans 1 0 m1 (advance-Moved p1) (omega arith) (omega arith)) (λ _. m1) in
      tested (ReadOn t p) (not (at rparen q)) (λ _. refused (inr m))
        (λ _. tested (ReadOn t p) (length cells == expected) (λ _. done m2) (λ _. refused (inr m2)))

  pub parse_table_row_good :
      (expected : ℕ) (read_past : Bool) (p : Parser)
      → Under t limit p
      → at lparen p ≡ true
      → ReadOn t p (parse_table_row expected read_past p)
  unfolding parse_table_row
  parse_table_row_good expected read_past p u e =
      let on : Moved 1 0 p (advance (flush p)) =
        Moved-trans 1 0 (commented [] (still p))
          (advance-Moved_on (flush p) (not_end lparen p (omega arith) e)) (omega arith)
          (omega arith) in
      Good-bind (λ r. Moved 1 0 p r.1) (Halt t p) _
        (parse_row_cell_good p (advance (flush p)) (Moved-Under u on) on) (λ _ f. f)
        (λ cell q m.
          Good-bind (λ r. Moved 1 0 p r.1) (Halt t p) _
            (cell_loop_good (length q.lex.rest + 2) p q u m (ground arith)) (λ _ f. f)
            (λ cells r m1. close_row_good expected read_past _ _ _ p r m1))

  name_loop_good :
      (fuel : ℕ) (p q : Parser) → Moved 1 0 p q → left q < fuel → ReadOn t p (name_loop fuel q)
  unfolding name_loop
  name_loop_good zero p q m h = absurd (omega (arith, h))
  name_loop_good (suc fuel) p q m h =
      let q1 = advance q in
      let m1 = Moved-trans 1 0 m (advance-Moved q) (omega arith) (omega arith) in
      let m2 = Moved-trans 1 0 m1 (advance-Moved q1) (omega arith) (omega arith) in
      tested (ReadOn t p) (not (at ident q)) (λ _. refused (inr m))
        (λ f.
          let first =
            (advance-Moved_on q (not_end ident q (omega arith) (ground (arith, f)))).reads in
          let second = (advance-Moved q1).reads in
          tested (ReadOn t p) (at comma q1)
            (λ _.
              Good-bind (λ r. Moved 1 0 p r.1) (Halt t p) _
                (name_loop_good fuel p (advance q1) m2 (omega (arith, h))) (λ _ f. f)
                (λ names r on. done on))
            (λ _. tested (ReadOn t p) (at rparen q1) (λ _. done m1) (λ _. refused (inr m1))))

  row_loop_good :
      (fuel expected eo : ℕ) (p q : Parser)
      → Under t limit p
      → Moved 1 0 p q
      → left q < fuel
      → ReadOn t p (row_loop fuel expected eo q)
  unfolding row_loop
  row_loop_good zero expected eo p q u m h = absurd (omega (arith, h))
  row_loop_good (suc fuel) expected eo p q u m h =
      tested (ReadOn t p) (at lparen q)
        (λ e.
          Good-bind (λ r. Moved 1 0 p r.1) (Halt t p) _
            (parse_table_row_good expected true q (Moved-Under u m) e) (λ _. Halt-from m)
            (λ row r m1.
              let reads = m1.reads in
              Good-bind (λ r. Moved 1 0 p r.1) (Halt t p) _
                (row_loop_good fuel expected row.1 p r u
                  (Moved-trans 1 0 m m1 (omega arith) (omega arith)) (omega (arith, h)))
                (λ _ f. f) (λ rows s on. done on)))
        (λ _. done m)

  table_rows_good :
      (start : Position) (leading : List Comment) (type : List ℕ)
      (columns : List (List ℕ × Position)) (p q : Parser)
      → Under t limit p
      → Moved 1 0 p q
      → ReadOn t p (table_rows start leading type columns q)
  unfolding table_rows
  table_rows_good start leading type columns p q u m =
      let m1 = Moved-trans 1 0 m (advance-Moved q) (omega arith) (omega arith) in
      pick_option (ReadOn t p) (column_path_error q.table (firsts columns))
        (Good-bind (λ r. Moved 1 0 p r.1) (Halt t p) _
          (row_loop_good (length (advance q).lex.rest + 2) (length columns) _ p (advance q) u m1
            (ground arith))
          (λ _ f. f) (λ rows r on. done on))
        (λ bad. refused (inr m))

  pub parse_table_directive_good :
      (p : Parser)
      → Under t limit p
      → at end_of_input p ≡ false
      → ReadOn t p (parse_table_directive p)
  unfolding parse_table_directive
  parse_table_directive_good p u e =
      let p1 = advance (flush p) in
      let p2 = if at ident p1 then advance p1 else p1 in
      let m1 : Moved 1 0 p p1 =
        Moved-trans 1 0 (commented [] (still p)) (advance-Moved_on (flush p) e) (omega arith)
          (omega arith) in
      let m2 : Moved 1 0 p p2 =
        Moved-trans 1 0 m1 (Moved-if ident p1) (omega arith) (omega arith) in
      let m3 = Moved-trans 1 0 m2 (advance-Moved p2) (omega arith) (omega arith) in
      tested (ReadOn t p) (not (at lparen p2)) (λ _. refused (inr m2))
        (λ _.
          tested (ReadOn t p) (not (at ident (advance p2))) (λ _. refused (inr m3))
            (λ _.
              Good-bind (λ r. Moved 1 0 p r.1) (Halt t p) _
                (name_loop_good (length (advance p2).lex.rest + 2) p (advance p2) m3 (ground arith))
                (λ _ f. f) (λ columns q m. table_rows_good _ _ _ columns p q u m)))
