-- ===== src/Parser/Documents/Sound.antt =====
-- ParseDocument: the fuel of its loops is enough, tolerant mode never fails, and what strict mode and
-- tolerant mode promise of the entries.
use protowire_cpp.Common.{tested}
use protowire_cpp.Common.{
  ℕ, zero, suc, ◌+◌, ◌<◌, ◌≡◌, ◌∙◌, sym, inl, inr, arith, Bool, true, false, not, ◌||◌, ◌&&◌, List,
  [], ◌∷◌, length,
}
use protowire_cpp.Lexer.{
  Position, end_of_input, ident, string, int, at_type, at_directive, at_dataset, at_proto,
}
use protowire_cpp.Ast.{DatasetDirective, Document}
use protowire_cpp.Ast.Measures.{entries_bads, entries_depth}
use protowire_cpp.Parser.{
  Parser, Step, at, advance, flush, record_error, soft, current_starts_entry, sync_top_level,
}
use protowire_cpp.Parser.Moved.{left, Moved, Moved-trans, advance-Moved, advance-Moved_on}
use protowire_cpp.Parser.Good.{Good, done, refused, Good-bind}
use protowire_cpp.Parser.Sound.{
  Under, Moved-Under, Refusal, recorded, still, calm, behind, not_end, soft_bind,
}
use protowire_cpp.Parser.Entries.{parse_value, parse_body, levels, soft_if}
use protowire_cpp.Parser.Entries.Sound.{soft_if_bind, EntryGood, parse_entry_good}
use protowire_cpp.Parser.Entries.Bodies.{entry_joined, EntriesMade, top-ValueGood, top-BodyGood}
use protowire_cpp.Parser.Directives.Sound.{ReadOn, parse_directive_good, parse_table_directive_good}
use protowire_cpp.Parser.Directives.Protos.{parse_proto_directive_good}
use protowire_cpp.Parser.Documents.{
  or_recover, type_directive, keep_directive, keep_dataset, keep_proto, one_directive,
  directive_loop, standalone, entry_loop, top_entry, parse_document,
}

-- SyncTopLevel ends, at the end of the document at the latest.
sync_top_level-Good :
    {E : Parser → Type 0} (n fuel : ℕ) (p q : Parser)
    → Moved n 0 p q
    → left q < fuel
    → Good (λ r. Moved n 0 p r.1) E (sync_top_level fuel q)
unfolding sync_top_level
sync_top_level-Good n zero p q m h = absurd (omega (arith, h))
sync_top_level-Good {E} n (suc fuel) p q m h =
    tested (Good (λ r. Moved n 0 p r.1) E)
      (at end_of_input q
        || (at at_type q
            || (at at_directive q
                || (at at_dataset q
                    || (at at_proto q || (at ident q || (at string q || at int q)))))))
      (λ _. done m)
      (λ f.
        let more = advance-Moved_on q (ground (arith, f)) in
        let reads = more.reads in
        sync_top_level-Good {E = E} n fuel p (advance q)
          (Moved-trans n 0 m more (omega arith) (omega arith)) (omega (arith, h)))

-- A directive that was accepted, or left out.
abbrev ReadPast : Bool → {A : Type 0} → Parser → Step A → Type 0
ReadPast t {A} p = Good {A = A} (λ r. Moved 1 0 p r.1) (Refusal t)

module _ (t : Bool) (limit : ℕ) where
  or_recover_good :
      {A : Type 0} (keep : A → Document → Document) (doc : Document) (p : Parser) (s : Step A)
      → Under t limit p
      → ReadOn t p s
      → ReadPast t p (or_recover keep doc s)
  unfolding or_recover
  or_recover_good keep doc p _ u (done m) = done m
  or_recover_good keep doc p _ u (refused {p = q} (inl (f, g))) =
      tested (ReadPast t p) q.tolerant (λ e. absurd (ground (arith, e, g))) (λ e. refused (f, g))
  or_recover_good keep doc p _ u (refused {pos} {msg} {p = q} (inr m)) =
      let q1 = record_error pos msg q in
      tested (ReadPast t p) q.tolerant
        (λ e.
          Good-bind (λ r. Moved 1 0 p r.1) (Refusal t) _
            (sync_top_level-Good {E = Refusal t} 1 (length q1.lex.rest + 2) p q1
              (recorded 0 pos msg m (omega arith)) (ground arith))
            (λ _ f. f) (λ _ r on. done on))
        (λ e. refused (sym (m.mode ∙ u.mode) ∙ e, e))

  type_directive_good :
      (doc : Document) (p : Parser)
      → Under t limit p
      → at at_type p ≡ true
      → ReadPast t p (type_directive doc p)
  unfolding type_directive
  type_directive_good doc p u e =
      let p1 = advance p in
      let m = advance-Moved_on p (not_end at_type p (omega arith) e) in
      tested (ReadPast t p) (not (at ident p1) || (p1.tolerant && current_starts_entry p1))
        (λ _.
          soft_bind (λ r. Moved 1 0 p r.1) (Refusal t) _ _ _ p1 (Moved-Under u m) (λ f. f)
            (λ _.
              let p2 = record_error p1.current.pos _ p1 in
              Good-bind (λ r. Moved 1 0 p r.1) (Refusal t) _
                (sync_top_level-Good {E = Refusal t} 1 (length p2.lex.rest + 2) p p2
                  (recorded 0 p1.current.pos _ m (omega arith)) (ground arith))
                (λ _ f. f) (λ _ r on. done on)))
        (λ _. done (Moved-trans 1 0 m (advance-Moved p1) (omega arith) (omega arith)))

  one_directive_good :
      (doc : Document) (p : Parser)
      → Under t limit p
      → at end_of_input p ≡ false
      → ReadPast t p (one_directive doc p)
  unfolding one_directive
  one_directive_good doc p u e =
      tested (ReadPast t p) (at at_type p) (type_directive_good doc p u) (λ _.
        tested (ReadPast t p) (at at_directive p)
          (λ _. or_recover_good keep_directive doc p _ u (parse_directive_good t limit p u e))
          (λ _.
            tested (ReadPast t p) (at at_dataset p)
              (λ _.
                or_recover_good keep_dataset doc p _ u (parse_table_directive_good t limit p u e))
              (λ _. or_recover_good keep_proto doc p _ u (parse_proto_directive_good t p e))))

  directive_loop-Good :
      (fuel : ℕ) (doc : Document) (p q : Parser)
      → Under t limit p
      → Moved 0 0 p q
      → left q < fuel
      → Good (λ r. Moved 0 0 p r.1) (Refusal t) (directive_loop fuel doc q)
  unfolding directive_loop
  directive_loop-Good zero doc p q u m h = absurd (omega (arith, h))
  directive_loop-Good (suc fuel) doc p q u m h =
      tested (Good (λ r. Moved 0 0 p r.1) (Refusal t))
        (at at_type q || (at at_directive q || (at at_dataset q || at at_proto q)))
        (λ e.
          Good-bind (λ r. Moved 0 0 p r.1) (Refusal t) _
            (one_directive_good doc q (Moved-Under u m) (ground (arith, e))) (λ _ f. f)
            (λ d r m1.
              let reads = m1.reads in
              directive_loop-Good fuel d p r u (Moved-trans 0 0 m m1 (omega arith) (omega arith))
                (omega (arith, h))))
        (λ _. done m)

  soft_if-Good :
      (test : Bool) (pos : Position) (msg : List ℕ) (p q : Parser)
      → Under t limit p
      → Moved 0 0 p q
      → Good (λ r. Moved 0 0 p r.1) (Refusal t) (soft_if test pos msg q)
  unfolding soft_if soft
  soft_if-Good test at_pos msg p q u m =
      let R = Good {A = Unit {0}} (λ r. Moved 0 0 p r.1) (Refusal t) in
      tested R test
        (λ _.
          tested R q.tolerant (λ _. done (recorded 0 at_pos msg m (omega arith)))
            (λ e. refused (sym (m.mode ∙ u.mode) ∙ e, e)))
        (λ _. done m)

  standalone-Good :
      (ds : List DatasetDirective) (type_url : List ℕ) (p : Parser)
      → Under t limit p
      → Good (λ r. Moved 0 0 p r.1) (Refusal t) (standalone ds type_url p)
  unfolding standalone
  standalone-Good [] type_url p u = done (still p)
  standalone-Good (d ∷ ds) type_url p u =
      soft_if_bind (λ r. Moved 0 0 p r.1) (Refusal t) _ _ _ _ p u (λ f. f)
        (λ q m _. soft_if-Good _ _ _ p q u m)

  top_entry_good :
      (p : Parser)
      → Under t limit p
      → at end_of_input p ≡ false
      → EntryGood t limit 0 1 p (top_entry p)
  unfolding top_entry
  top_entry_good p u e =
      let limited = u.depth in
      parse_entry_good t limit 0 (parse_value (levels p) 0) (parse_body (levels p) 1)
        (λ q v. top-ValueGood t limit (levels p) q (omega (arith, limited)) v)
        (λ one q v. top-BodyGood t limit (levels p) q (omega (arith, limited)) one v) (omega arith)
        false p u e

  entry_loop-Good :
      (fuel : ℕ) (p : Parser)
      → Under t limit p
      → left p < fuel
      → Good (EntriesMade t limit 0 p) (Refusal t) (entry_loop top_entry fuel p)
  unfolding entry_loop entries_bads entries_depth
  entry_loop-Good zero p u h = absurd (omega (arith, h))
  entry_loop-Good (suc fuel) p u h =
      let Q = EntriesMade t limit 0 p in
      tested (Good Q (Refusal t)) (at end_of_input p) (λ _. done (calm _ 0 (still p) (omega arith)))
        (λ f.
          Good-bind Q (Refusal t) _ (top_entry_good p u f) (λ _ g. g)
            (λ e q x.
              let reads = x.moved.reads in
              Good-bind Q (Refusal t) _
                (entry_loop-Good fuel q (Moved-Under u x.moved) (omega (arith, h))) (λ _ g. g)
                (λ es r y. done (entry_joined 0 e es x y (omega arith)))))

  -- What ParseDocument returns.
  pub parse_document-Good :
      (p : Parser)
      → Under t limit p
      → Good (λ r. EntriesMade t limit 0 p (r.0.entries, r.1)) (Refusal t) (parse_document p)
  unfolding parse_document
  parse_document-Good p u =
      let Q = λ (r : Document × Parser). EntriesMade t limit 0 p (r.0.entries, r.1) in
      let s = still p in
      let m0 : Moved 0 0 p (flush p) = record {
        reads = s.reads;
        depth = s.depth;
        mode = s.mode;
        tells = s.tells;
      } in
      Good-bind Q (Refusal t) _
        (directive_loop-Good (length p.lex.rest + 2) _ p (flush p) u m0 (ground arith)) (λ _ f. f)
        (λ doc p1 m1.
          Good-bind Q (Refusal t) _
            (standalone-Good doc.datasets doc.type_url p1 (Moved-Under u m1)) (λ _ f. f)
            (λ _ p2 m2.
              let m = Moved-trans 0 0 m1 m2 (omega arith) (omega arith) in
              Good-bind Q (Refusal t) _
                (entry_loop-Good (length p2.lex.rest + 2) p2 (Moved-Under u m) (ground arith))
                (λ _ f. f)
                (λ es p3 x.
                  let y = behind 0 m x (omega arith) in
                  let z = y.moved in
                  done (record {
                    moved = record {
                      reads = z.reads;
                      depth = z.depth;
                      mode = z.mode;
                      tells = z.tells;
                    };
                    fits = y.fits;
                    strict = y.strict;
                  }))))
