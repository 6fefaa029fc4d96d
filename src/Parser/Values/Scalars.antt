-- ===== src/Parser/Values/Scalars.antt =====
-- ParseValue on a token that opens neither a list nor a block: what it returns.
use protowire_cpp.Common.{tested}
use protowire_cpp.Common.{
  ℕ, ◌+◌, ◌≤◌, ◌≡◌, ◌∙◌, sym, refl, ◌⊎◌, inl, inr, arith, Bool, true, false, ◌||◌,
}
use protowire_cpp.Common.Text.{codes, same_text}
use protowire_cpp.Base64.Go.{Decoded, error_at, decode_lenient}
use protowire_cpp.Common.Int.{pos}
use protowire_cpp.Duration.{parse_duration}
use protowire_cpp.Rfc3339.{parse_rfc3339}
use protowire_cpp.Lexer.{
  Position, TokenKind, kind_value, end_of_input, ident, string, int, float, bool, null, bytes,
  timestamp, duration, rbrace, rbracket, rparen,
}
use protowire_cpp.Ast.{
  Span, Value, string_val, int_val, float_val, bool_val, bytes_val, null_val, ident_val,
  timestamp_val, duration_val,
}
use protowire_cpp.Ast.Measures.{value_bads, value_depth}
use protowire_cpp.Parser.{Parser, Step, at, advance, record_error, bad_value}
use protowire_cpp.Parser.Moved.{left, Moved, Moved-trans, Moved-weaken, advance-Moved_on}
use protowire_cpp.Parser.Good.{Good, done, refused}
use protowire_cpp.Parser.Sound.{Under, Sound, room, Refusal, recorded, still, soft_bind, not_end}
use protowire_cpp.Parser.Values.{literal, bytes_value, no_value, parse_scalar, or_zero, is_bad}

-- Something was read, or a bad value stands where the parser still is.
abbrev pub Progress : Bool → Parser → Value → Parser → Type 0
Progress t p v q =
    (left q + 1 ≤ left p)
    ⊎ ((t ≡ true) × ((is_bad v ≡ true) × (q.current.pos.offset ≡ p.current.pos.offset)))

pub record ValueMade (t : Bool) (limit depth : ℕ) (p : Parser) (v : Value) (q : Parser)
    : Type 0 where
  pub sound : Sound t (room t limit depth) 0 (value_bads v) (value_depth v) p q
  pub progress : Progress t p v q

module _ (t : Bool) (limit depth : ℕ) where
  -- What ParseValue returns at the depth.
  abbrev pub ValueGood : Parser → Step Value → Type 0
  ValueGood p = Good (λ r. ValueMade t limit depth p r.0 r.1) (Refusal t)

  -- A value without bad values and levels, behind which the parser has moved on.
  flat_made :
      (p q : Parser) (v : Value)
      → value_bads v ≡ 0
      → value_depth v ≡ 0
      → Moved 1 0 p q
      → ValueMade t limit depth p v q
  flat_made p q v b d m =
      let reads = m.reads in
      let tells = m.tells in
      record {
        sound = record {
          moved = record {
            reads = omega arith;
            depth = m.depth;
            mode = m.mode;
            tells = omega (arith, b);
          };
          fits = omega (arith, d);
          strict = λ _. b;
        };
        progress = inl reads;
      }

  literal_good :
      (node : Span → Value) (p : Parser)
      → at end_of_input p ≡ false
      → ((s : Span) → value_bads (node s) ≡ 0)
      → ((s : Span) → value_depth (node s) ≡ 0)
      → ValueGood p (literal node p)
  literal_good node p e b d = done (flat_made p (advance p) _ (b _) (d _) (advance-Moved_on p e))

  -- A bad value, which is told.
  pub bad_made :
      (p q : Parser) (at_pos : Position)
      → t ≡ true
      → Moved 0 1 p q
      → Progress t p (bad_value at_pos) q
      → ValueMade t limit depth p (bad_value at_pos) q
  unfolding value_bads value_depth
  bad_made p q at_pos e m on = record {
    sound = record { moved = m; fits = omega arith; strict = λ f. absurd (ground (arith, e, f)) };
    progress = on;
  }

  bytes_value_good :
      (d : Decoded) (p : Parser)
      → Under t limit p
      → at bytes p ≡ true
      → ValueGood p (bytes_value d p)
  unfolding bytes_value value_bads value_depth
  bytes_value_good (Decoded.bytes d) p u e =
      literal_good (λ s. bytes_val s d) p (not_end bytes p (omega arith) e) (λ s. refl) (λ s. refl)
  bytes_value_good (error_at offset) p u e =
      soft_bind (λ r. ValueMade t limit depth p r.0 r.1) (Refusal t) _ _ _ p u (λ f. f)
        (λ tol.
          let p1 = record_error p.current.pos _ p in
          let m = advance-Moved_on p1 (not_end bytes p (omega arith) e) in
          let told = recorded 1 p.current.pos _ (still p) (omega arith) in
          let on = Moved-trans 1 1 told m (omega arith) (omega arith) in
          done (
            bad_made p (advance p1) p.current.pos tol
              (Moved-weaken 0 1 on (omega arith) (omega arith)) (inl on.reads)))

  no_value_good : (p : Parser) → Under t limit p → ValueGood p (no_value p)
  unfolding no_value is_bad
  no_value_good p u =
      let told = recorded 1 p.current.pos _ (still p) (omega arith) in
      tested (ValueGood p) p.tolerant
        (λ e. done (
          let tol = sym u.mode ∙ e in
          tested (ValueMade t limit depth p (bad_value p.current.pos))
            (at end_of_input p || (at rbrace p || (at rbracket p || at rparen p)))
            (λ _. bad_made p _ p.current.pos tol told (inr (tol, (refl, refl))))
            (λ f.
              let p1 = record_error p.current.pos _ p in
              let m = advance-Moved_on p1 (ground (arith, f)) in
              let on = Moved-trans 1 1 told m (omega arith) (omega arith) in
              bad_made p (advance p1) p.current.pos tol
                (Moved-weaken 0 1 on (omega arith) (omega arith)) (inl on.reads))))
        (λ e. refused (sym u.mode ∙ e, e))

  pub parse_scalar_good : (p : Parser) → Under t limit p → ValueGood p (parse_scalar p)
  unfolding parse_scalar value_bads value_depth
  parse_scalar_good p u =
      let on =
        λ (k : TokenKind) (one : 1 ≤ kind_value k) (node : Span → Value)
            (b : (s : Span) → value_bads (node s) ≡ 0) (d : (s : Span) → value_depth (node s) ≡ 0)
            (e : at k p ≡ true).
          literal_good node p (not_end k p one e) b d in
      let R = ValueGood p in
      let text = p.current.value in
      let ts = or_zero (pos 0) 0 (parse_rfc3339 text) in
      let ds = or_zero (pos 0) (pos 0) (parse_duration text) in
      tested R (at string p)
        (on string (omega arith) (λ s. string_val s text) (λ s. refl) (λ s. refl))
        (λ _.
          tested R (at int p)
            (on int (omega arith) (λ s. int_val s text p.current.prec) (λ s. refl) (λ s. refl))
            (λ _.
              tested R (at float p)
                (on float (omega arith) (λ s. float_val s text p.current.prec) (λ s. refl)
                  (λ s. refl))
                (λ _.
                  tested R (at bool p)
                    (on bool (omega arith) (λ s. bool_val s (same_text text (codes "true")))
                      (λ s. refl) (λ s. refl))
                    (λ _. tested R (at bytes p) (bytes_value_good (decode_lenient text) p u) (λ _.
                      tested R (at timestamp p)
                        (on timestamp (omega arith) (λ s. timestamp_val s ts.0 ts.1 text)
                          (λ s. refl) (λ s. refl))
                        (λ _.
                          tested R (at duration p)
                            (on duration (omega arith) (λ s. duration_val s ds.0 ds.1 text)
                              (λ s. refl) (λ s. refl))
                            (λ _.
                              tested R (at null p)
                                (on null (omega arith) null_val (λ s. refl) (λ s. refl))
                                (λ _.
                                  tested R (at ident p)
                                    (on ident (omega arith) (λ s. ident_val s text) (λ s. refl)
                                      (λ s. refl))
                                    (λ _. no_value_good p u)))))))))
