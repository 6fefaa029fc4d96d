-- ===== src/Parser/Values/Sound.antt =====
-- ParseValue, ParseList and ParseBlockVal: what they return, over what is one level deeper.
use protowire_cpp.Common.{tested}
use protowire_cpp.Common.{
  ℕ, zero, suc, ◌+◌, ◌≤◌, ◌<◌, ◌≡◌, refl, inl, inr, arith, Bool, true, false, ◌||◌, ◌&&◌, ◌==◌, ltb,
  if◌then◌else◌,
}
use protowire_cpp.Lexer.{
  Position, TokenKind, kind_value, end_of_input, lbrace, rbrace, lbracket, rbracket, comma,
}
use protowire_cpp.Ast.{Value, Values}
use protowire_cpp.Ast.Measures.{
  value_bads, value_depth, values_bads, values_depth, entries_bads, entries_depth,
}
use protowire_cpp.Parser.{
  Parser, Step, at, advance, record_error, current_starts_entry, tolerant_row_close,
}
use protowire_cpp.Parser.Moved.{left, Moved, Moved-trans, advance-Moved, advance-Moved_on}
use protowire_cpp.Parser.Good.{Good, done, Good-bind, Good-map}
use protowire_cpp.Parser.Sound.{
  Under, Moved-Under, Sound, room, Refusal, recorded, still, calm, joined, behind, ahead, nested,
  skip_balanced_on, Moved-if, soft_bind, not_end,
}
use protowire_cpp.Parser.Values.{
  too_deep, skip_deep, is_bad, list_loop, close_list, parse_list, Body, parse_block_val, value_at,
}
use protowire_cpp.Parser.Values.Scalars.{
  Progress, ValueMade, ValueGood, bad_made, parse_scalar_good,
}

module _ (t : Bool) (limit depth : ℕ) (element : Parser → Step Value)
    (good : (p : Parser) → Under t limit p → ValueGood t limit (depth + 1) p (element p)) where
  -- What the loop of ParseList returns.
  abbrev pub ValuesGood : Parser → Step Values → Type 0
  ValuesGood p =
      Good (λ r. Sound t (room t limit (depth + 1)) 0 (values_bads r.0) (values_depth r.0) p r.1)
        (Refusal t)

  -- A value that does not stop the loop was read.
  went_on :
      (p p1 : Parser) (v : Value)
      → Under t limit p
      → Progress t p v p1
      → (p.tolerant && (p1.current.pos.offset == p.current.pos.offset && is_bad v)) ≡ false
      → left p1 + 1 ≤ left p
  went_on p p1 v u (inl h) f = h
  went_on p p1 v u (inr (tol, (bad, off))) f =
      absurd (let m = u.mode in ground (arith, m, tol, bad, off, f))

  list_loop_good :
      (fuel : ℕ) (p : Parser)
      → Under t limit p
      → left p < fuel
      → ValuesGood p (list_loop element fuel p)
  unfolding list_loop values_bads values_depth
  list_loop_good zero p u h = absurd (omega (arith, h))
  list_loop_good (suc fuel) p u h =
      let Q = λ (r : Values × Parser).
        Sound t (room t limit (depth + 1)) 0 (values_bads r.0) (values_depth r.0) p r.1 in
      tested (ValuesGood p) (at rbracket p || (at end_of_input p || tolerant_row_close p))
        (λ _. done (calm _ 0 (still p) (omega arith)))
        (λ _.
          Good-bind Q (Refusal t) _ (good p u) (λ _ f. f)
            (λ v p1 made.
              tested (ValuesGood p)
                (p.tolerant && (p1.current.pos.offset == p.current.pos.offset && is_bad v))
                (λ _. done (calm _ 0 made.sound.moved (omega arith)))
                (λ f.
                  let on = went_on p p1 v u made.progress f in
                  let p2 = if at comma p1 then advance p1 else p1 in
                  let m = Moved-if comma p1 in
                  let reads = m.reads in
                  Good-bind Q (Refusal t) _
                    (list_loop_good fuel p2 (Moved-Under (Moved-Under u made.sound.moved) m)
                      (omega (arith, h, on)))
                    (λ _ f. f)
                    (λ vs p3 rest.
                      done (joined 0 made.sound (behind 0 m rest (omega arith)) (omega arith))))))

-- Past what is too deep: in tolerant mode alone.
pub skip_deep-Good :
    {t : Bool} {limit : ℕ} (opening closing : TokenKind) (p : Parser)
    → 1 ≤ kind_value opening
    → 1 ≤ kind_value closing
    → at opening p ≡ true
    → Under t limit p
    → Good (λ r. (t ≡ true) × Moved 1 0 p r.1) (Refusal t) (skip_deep opening closing p)
unfolding skip_deep
skip_deep-Good {t} o c p ho hc e u =
    let R = λ (r : Position × Parser). (t ≡ true) × Moved 1 0 p r.1 in
    soft_bind R (Refusal t) _ _ _ p u (λ f. f)
      (λ tol.
        let p1 = record_error p.current.pos (too_deep p) p in
        let m = recorded 0 p.current.pos (too_deep p) (still p) (omega arith) in
        Good-map R (skip_balanced_on {E = Refusal t} o c _ 0 p1 ho hc e (ground arith))
          (λ end q on. (tol, Moved-trans 1 0 m on (omega arith) (omega arith))))

module _ (t : Bool) (limit depth : ℕ) where
  close_list_good :
      (start : Position) (vs : Values) (p q : Parser)
      → Under t limit p
      → depth + 1 ≤ limit
      → left q + 1 ≤ left p
      → Sound t (room t limit (depth + 1)) 0 (values_bads vs) (values_depth vs) p q
      → ValueGood t limit depth p (close_list start vs q)
  unfolding close_list value_bads value_depth
  close_list_good start vs p q u h on x =
      let whole = nested depth h x in
      let u1 = Moved-Under u x.moved in
      tested (ValueGood t limit depth p) (at rbracket q)
        (λ e.
          let m = advance-Moved q in
          let reads = m.reads in
          done
            (record { sound = ahead 0 whole m (omega arith); progress = inl (omega (arith, on)) }))
        (λ _.
          soft_bind (λ r. ValueMade t limit depth p r.0 r.1) (Refusal t) _ _ _ q u1 (λ f. f)
            (λ _. done (record {
              sound =
                  ahead 0 whole (recorded 0 q.current.pos _ (still q) (omega arith)) (omega arith);
              progress = inl on;
            })))

  -- The shell of a list or block that is too deep.
  shell_made :
      (p q : Parser) (v : Value)
      → depth ≤ limit
      → t ≡ true
      → value_bads v ≡ 0
      → value_depth v ≡ 1
      → Moved 1 0 p q
      → ValueMade t limit depth p v q
  shell_made p q v h tol b d m =
      let reads = m.reads in
      let tells = m.tells in
      record {
        sound = record {
          moved = record {
            reads = omega arith;
            depth = m.depth;
            mode = m.mode;
            tells = omega (arith, b);
          };
          fits = rw tol (omega (arith, d, h));
          strict = λ _. b;
        };
        progress = inl reads;
      }

  parse_list_good :
      (element : Parser → Step Value) (p : Parser)
      → (depth + 1 ≤ limit
          → (q : Parser) → Under t limit q
          → ValueGood t limit (depth + 1) q (element q))
      → depth ≤ limit
      → Under t limit p
      → at lbracket p ≡ true
      → ValueGood t limit depth p (parse_list element depth p)
  unfolding parse_list value_bads value_depth
  parse_list_good element p below h u e =
      let Q = λ (r : Value × Parser). ValueMade t limit depth p r.0 r.1 in
      tested (ValueGood t limit depth p) (ltb p.max_depth (depth + 1))
        (λ _.
          Good-bind Q (Refusal t) _
            (skip_deep-Good lbracket rbracket p (omega arith) (omega arith) e u) (λ _ f. f)
            (λ end q (tol, m). done (shell_made p q _ h tol refl refl m)))
        (λ f.
          let limited = u.depth in
          let within : depth + 1 ≤ limit = ground (arith, f, limited) in
          let m = advance-Moved_on p (not_end lbracket p (omega arith) e) in
          let u1 = Moved-Under u m in
          let reads = m.reads in
          Good-bind Q (Refusal t) _
            (list_loop_good t limit depth element (below within) _ (advance p) u1 (ground arith))
            (λ _ f. f)
            (λ vs q x.
              close_list_good p.current.pos vs p q u within
                (let r = x.moved.reads in omega (arith, reads)) (behind 0 m x (omega arith))))

  -- What ParseBody returns at the depth.
  abbrev pub BodyGood : Parser → Step Body → Type 0
  BodyGood p =
      Good
        (λ r.
          Sound t (room t limit depth) 0 (entries_bads r.0.entries) (entries_depth r.0.entries) p
            r.1)
        (Refusal t)

module _ (t : Bool) (limit depth : ℕ) (body : Parser → Step Body)
    (within : depth + 1 ≤ limit
      → (q : Parser) → Under t limit q
      → BodyGood t limit (depth + 1) q (body q))
    (h : depth ≤ limit) where
  pub parse_block_val_good :
      (p : Parser)
      → Under t limit p
      → at lbrace p ≡ true
      → ValueGood t limit depth p (parse_block_val body depth p)
  unfolding parse_block_val value_bads value_depth
  parse_block_val_good p u e =
      let Q = λ (r : Value × Parser). ValueMade t limit depth p r.0 r.1 in
      tested (ValueGood t limit depth p) (ltb p.max_depth (depth + 1))
        (λ _.
          Good-bind Q (Refusal t) _ (skip_deep-Good lbrace rbrace p (omega arith) (omega arith) e u)
            (λ _ f. f) (λ end q (tol, m). done (shell_made t limit depth p q _ h tol refl refl m)))
        (λ f.
          let limited = u.depth in
          let room_left : depth + 1 ≤ limit = ground (arith, f, limited) in
          let m = advance-Moved_on p (not_end lbrace p (omega arith) e) in
          let reads = m.reads in
          Good-bind Q (Refusal t) _ (within room_left (advance p) (Moved-Under u m)) (λ _ f. f)
            (λ b q x.
              let r = x.moved.reads in
              done (record {
                sound = nested depth room_left (behind 0 m x (omega arith));
                progress = inl (omega (arith, reads));
              })))

module _ (t : Bool) (limit depth : ℕ) (element : Parser → Step Value) (body : Parser → Step Body)
    (below : depth + 1 ≤ limit
      → (q : Parser) → Under t limit q
      → ValueGood t limit (depth + 1) q (element q))
    (within : depth + 1 ≤ limit
      → (q : Parser) → Under t limit q
      → BodyGood t limit (depth + 1) q (body q))
    (h : depth ≤ limit) where
  pub value_at_good :
      (p : Parser) → Under t limit p → ValueGood t limit depth p (value_at element body depth p)
  unfolding value_at is_bad
  value_at_good p u =
      let R = ValueGood t limit depth p in
      tested R (p.tolerant && current_starts_entry p)
        (λ e.
          let mode = u.mode in
          let tol : t ≡ true = ground (arith, mode, e) in
          let told = recorded 1 p.prev_end _ (still p) (omega arith) in
          done (bad_made t limit depth p _ p.prev_end tol told (inr (tol, (refl, refl)))))
        (λ _. tested R (at lbracket p) (parse_list_good t limit depth element p below h u) (λ _.
          tested R (at lbrace p) (parse_block_val_good t limit depth body within h p u)
            (λ _. parse_scalar_good t limit depth p u)))
