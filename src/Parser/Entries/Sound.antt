-- ===== src/Parser/Entries/Sound.antt =====
-- ParseEntry, ParseTypeEntry and ParseBody: what they return, over ParseValue at their depth and
-- ParseBody one level deeper.
use protowire_cpp.Common.{tested}
use protowire_cpp.Common.{
  ℕ, ◌+◌, ◌≤◌, ◌≡◌, ◌∙◌, sym, refl, ◌⊎◌, inl, inr, arith, Bool, true, false, not, ◌||◌, Option,
  none, some, List, ltb, if◌then◌else◌,
}
use protowire_cpp.Lexer.{
  Position, end_of_input, ident, string, int, bool, lbrace, rbrace, equals, colon, at_type,
}
use protowire_cpp.Lexer.Kept.{List-cases}
use protowire_cpp.Ast.{Comment, Span, Value, Entry, assignment, map_entry}
use protowire_cpp.Ast.Measures.{
  value_bads, value_depth, entry_bads, entry_depth, entries_bads, entries_depth,
}
use protowire_cpp.Parser.{
  Parser, Step, ◌>>=◌, at, advance, flush, put_back, take_trailing_comment, record_error,
}
use protowire_cpp.Parser.Moved.{Moved, Moved-trans, advance-Moved, advance-Moved_on}
use protowire_cpp.Parser.Good.{Good, done, refused, Good-bind, Good-map}
use protowire_cpp.Parser.Sound.{
  Under, Moved-Under, Sound, room, Refusal, recorded, still, calm, behind, ahead, nested, Moved-if,
  soft_bind, not_end,
}
use protowire_cpp.Parser.Values.{Body}
use protowire_cpp.Parser.Values.Scalars.{ValueGood}
use protowire_cpp.Parser.Values.Sound.{BodyGood, skip_deep-Good}
use protowire_cpp.Parser.Entries.{
  Key, is_a, soft_if, entry_value, parse_assignment, parse_map_entry, parse_block, dangling_key,
  no_key, parse_entry_tail, parse_entry, fail_type_entry, parse_type_entry,
}

unfoldable pub option_bads : Option Entry → ℕ
option_bads none = 0
option_bads (some e) = entry_bads e

unfoldable pub option_depth : Option Entry → ℕ
option_depth none = 0
option_depth (some e) = entry_depth e

-- Soft under a test, and what follows it: the token stays.
pub soft_if_bind :
    {t : Bool} {limit : ℕ} {B : Type 0} (R : B × Parser → Type 0) (F : Parser → Type 0)
    (f : Unit {0} × Parser → Step B) (test : Bool) (pos : Position) (msg : List ℕ) (p : Parser)
    → Under t limit p
    → (Refusal t p → F p)
    → ((q : Parser) → Moved 0 0 p q → q.current ≡ p.current → Good R F (f (tt, q)))
    → Good R F (soft_if test pos msg p >>= f)
unfolding soft_if
soft_if_bind R F f true pos msg p u stop go =
    soft_bind R F f pos msg p u stop (λ _. go _ (recorded 0 pos msg (still p) (omega arith)) refl)
soft_if_bind R F f false pos msg p u stop go = go p (still p) refl

take_trailing_comment-Moved :
    (end : Position) (p : Parser) → Moved 0 0 p (take_trailing_comment end p).1
unfolding take_trailing_comment
take_trailing_comment-Moved end p = record {
  reads = ground (arith, List-cases p.comments);
  depth = ground (arith, List-cases p.comments);
  mode = ground (arith, List-cases p.comments);
  tells = ground (arith, List-cases p.comments);
}

module _ (t : Bool) (limit depth : ℕ) where
  -- What ParseEntry returns, where it reads at least `n`.
  abbrev pub EntryMade : ℕ → Parser → Option Entry × Parser → Type 0
  EntryMade n p r = Sound t (room t limit depth) n (option_bads r.0) (option_depth r.0) p r.1

  abbrev pub EntryGood : ℕ → Parser → Step (Option Entry) → Type 0
  EntryGood n p = Good (EntryMade n p) (Refusal t)

  module _ (val : Parser → Step Value)
      (good : (q : Parser) → Under t limit q → ValueGood t limit depth q (val q)) where
    entry_value_good :
        (node : Span → Value → List ℕ → Entry) (start : Position) (p : Parser)
        → Under t limit p
        → ((s : Span) (v : Value) (cs : List ℕ) → entry_bads (node s v cs) ≡ value_bads v)
        → ((s : Span) (v : Value) (cs : List ℕ) → entry_depth (node s v cs) ≡ value_depth v)
        → EntryGood 0 p (entry_value val node start p)
    unfolding entry_value option_bads option_depth
    entry_value_good node start p u b d =
        let m = advance-Moved p in
        Good-bind (EntryMade 0 p) (Refusal t) _ (good (advance p) (Moved-Under u m)) (λ _ f. f)
          (λ v q made. done (
            rw (b _ v _) (
              rw (d _ v _) (
                behind 0 m (ahead 0 made.sound (take_trailing_comment-Moved _ q) (omega arith))
                  (omega arith)))))

    parse_assignment_good :
        (key : Key) (p : Parser) → Under t limit p → EntryGood 0 p (parse_assignment val key p)
    unfolding parse_assignment entry_bads entry_depth
    parse_assignment_good key p u =
        soft_if_bind (EntryMade 0 p) (Refusal t) _ _ _ _ p u (λ f. f)
          (λ q m _.
            Good-map (EntryMade 0 p)
              (entry_value_good
                (λ s v trailing. assignment s key.text (is_a string key) v key.leading trailing)
                key.pos q (Moved-Under u m) (λ s v cs. refl) (λ s v cs. refl))
              (λ e r x. behind 0 m x (omega arith)))

    parse_map_entry_good :
        (allowed : Bool) (key : Key) (p : Parser)
        → Under t limit p
        → EntryGood 0 p (parse_map_entry val allowed key p)
    unfolding parse_map_entry entry_bads entry_depth
    parse_map_entry_good allowed key p u =
        soft_if_bind (EntryMade 0 p) (Refusal t) _ _ _ _ p u (λ f. f)
          (λ q m _.
            soft_if_bind (EntryMade 0 p) (Refusal t) _ _ _ _ q (Moved-Under u m) (λ f. f)
              (λ r m1 _.
                let both = Moved-trans 0 0 m m1 (omega arith) (omega arith) in
                Good-map (EntryMade 0 p)
                  (entry_value_good
                    (λ s v trailing. map_entry s key.text (is_a string key) v key.leading trailing)
                    key.pos r (Moved-Under u both) (λ s v cs. refl) (λ s v cs. refl))
                  (λ e r x. behind 0 both x (omega arith))))

  parse_block_good :
      (body : Parser → Step Body) (key : Key) (p : Parser)
      → (depth + 1 ≤ limit
          → (q : Parser) → Under t limit q
          → BodyGood t limit (depth + 1) q (body q))
      → depth ≤ limit
      → Under t limit p
      → at lbrace p ≡ true
      → EntryGood 0 p (parse_block body depth key p)
  unfolding parse_block entry_bads entry_depth option_bads option_depth entries_bads entries_depth
  parse_block_good body key p within h u e =
      let R = EntryMade 0 p in
      soft_if_bind R (Refusal t) _ _ _ _ p u (λ f. f)
        (λ q m same.
          let u1 = Moved-Under u m in
          let opens : at lbrace q ≡ true = rw same e in
          tested (Good R (Refusal t)) (ltb q.max_depth (depth + 1))
            (λ _.
              Good-bind R (Refusal t) _
                (skip_deep-Good lbrace rbrace q (omega arith) (omega arith) opens u1) (λ _ f. f)
                (λ end r (tol, m1).
                  let on = Moved-trans 0 0 m m1 (omega arith) (omega arith) in
                  done
                    (record { moved = on; fits = rw tol (omega (arith, h)); strict = λ _. refl })))
            (λ f.
              let limited = u1.depth in
              let room_left : depth + 1 ≤ limit = ground (arith, f, limited) in
              let m1 = advance-Moved q in
              Good-bind R (Refusal t) _ (within room_left (advance q) (Moved-Under u1 m1))
                (λ _ f. f)
                (λ b r x. done (
                  behind 0 m (behind 0 m1 (nested depth room_left x) (omega arith))
                    (omega arith)))))

  dangling_key_good :
      (key : Key) (p : Parser) → Under t limit p → EntryGood 0 p (dangling_key key p)
  unfolding dangling_key entry_bads entry_depth option_bads option_depth value_bads value_depth
  dangling_key_good key p u =
      soft_bind (EntryMade 0 p) (Refusal t) _ _ _ p u (λ f. f)
        (λ tol. done (record {
          moved = recorded 1 p.current.pos _ (still p) (omega arith);
          fits = omega arith;
          strict = λ f. absurd (ground (arith, tol, f));
        }))

  no_key_good :
      (p : Parser) → Under t limit p → at end_of_input p ≡ false → EntryGood 1 p (no_key p)
  unfolding no_key option_bads option_depth
  no_key_good p u e =
      tested (EntryGood 1 p) p.tolerant
        (λ _.
          let p1 = put_back p.comments (record_error p.current.pos _ (flush p)) in
          let m = advance-Moved_on p1 e in
          let r = recorded 0 p.current.pos _ (still p) (omega arith) in
          let r1 : Moved 0 0 p p1 = record {
            reads = r.reads;
            depth = r.depth;
            mode = r.mode;
            tells = r.tells;
          } in
          done (calm _ 1 (Moved-trans 1 0 r1 m (omega arith) (omega arith)) (omega arith)))
        (λ f. refused (sym u.mode ∙ f, f))

  -- The failure of ParseTypeEntry reads on, from @type at the latest.
  fail_type_entry_good :
      (cs : List Comment) (start : Position) (msg : List ℕ) (p q : Parser)
      → Under t limit p
      → (at at_type p ≡ true) × (Moved 0 0 p q × (q.current ≡ p.current)) ⊎ Moved 1 0 p q
      → EntryGood 1 p (fail_type_entry cs start msg q)
  unfolding fail_type_entry option_bads option_depth
  fail_type_entry_good cs start msg p q u from =
      let at_mode : q.tolerant ≡ t = elim from [
        | inl (e, (m, same)) ↦ m.mode ∙ u.mode
        | inr m ↦ m.mode ∙ u.mode
      ] in
      let p1 = put_back cs (record_error start msg q) in
      let told : (n : ℕ) → Moved n 0 p q → Moved n 0 p p1 = λ n m.
        (let r = recorded 0 start msg m (omega arith) in
          record { reads = r.reads; depth = r.depth; mode = r.mode; tells = r.tells }) in
      let p2 = if at at_type p1 then advance p1 else p1 in
      let p3 = if at equals p2 then advance p2 else p2 in
      let one : Moved 1 0 p p2 = elim from [
        | inl (e, (m, same)) ↦
            let opens : at at_type p1 ≡ true = rw same e in
            tested (Moved 1 0 p) (at at_type p1)
              (λ _.
                Moved-trans 1 0 (told 0 m)
                  (advance-Moved_on p1 (not_end at_type p1 (omega arith) opens)) (omega arith)
                  (omega arith))
              (λ f. absurd (ground (arith, f, opens)))
        | inr m ↦ Moved-trans 1 0 (told 1 m) (Moved-if at_type p1) (omega arith) (omega arith)
      ] in
      let two = Moved-trans 1 0 one (Moved-if equals p2) (omega arith) (omega arith) in
      let three = Moved-trans 1 0 two (Moved-if string p3) (omega arith) (omega arith) in
      tested (EntryGood 1 p) q.tolerant (λ _. done (calm _ 1 three (omega arith)))
        (λ f. refused (sym at_mode ∙ f, f))

  pub parse_type_entry_good :
      (first : Bool) (p : Parser)
      → Under t limit p
      → at at_type p ≡ true
      → EntryGood 1 p (parse_type_entry first p)
  unfolding parse_type_entry entry_bads entry_depth option_bads option_depth
  parse_type_entry_good first p u e =
      let R = EntryGood 1 p in
      let more = advance-Moved_on (flush p) (not_end at_type p (omega arith) e) in
      let p1 = advance (flush p) in
      let p2 = advance p1 in
      let m1 : Moved 1 0 p p1 = record {
        reads = more.reads;
        depth = more.depth;
        mode = more.mode;
        tells = more.tells;
      } in
      let m2 = Moved-trans 1 0 m1 (advance-Moved p1) (omega arith) (omega arith) in
      let m3 = Moved-trans 1 0 m2 (advance-Moved p2) (omega arith) (omega arith) in
      let s = still p in
      tested R (not first)
        (λ _. fail_type_entry_good p.comments _ _ p (flush p) u (
          inl (
            e,
            (record { reads = s.reads; depth = s.depth; mode = s.mode; tells = s.tells }, refl),
          )))
        (λ _.
          tested R (not (at equals p1)) (λ _. fail_type_entry_good p.comments _ _ p p1 u (inr m1))
            (λ _.
              tested R (not (at string p2))
                (λ _. fail_type_entry_good p.comments _ _ p p2 u (inr m2))
                (λ _. done (
                  calm _ 1
                    (Moved-trans 1 0 m3 (take_trailing_comment-Moved _ (advance p2)) (omega arith)
                      (omega arith))
                    (omega arith)))))

module _ (t : Bool) (limit depth : ℕ) (val : Parser → Step Value) (body : Parser → Step Body)
    (good : (q : Parser) → Under t limit q → ValueGood t limit depth q (val q))
    (within : depth + 1 ≤ limit
      → (q : Parser) → Under t limit q
      → BodyGood t limit (depth + 1) q (body q))
    (h : depth ≤ limit) where
  pub parse_entry_good :
      (allowed : Bool) (p : Parser)
      → Under t limit p
      → at end_of_input p ≡ false
      → EntryGood t limit depth 1 p (parse_entry val body depth allowed p)
  unfolding parse_entry parse_entry_tail
  parse_entry_good allowed p u e =
      let R = EntryGood t limit depth in
      let p1 = advance (flush p) in
      let more = advance-Moved_on (flush p) e in
      let m : Moved 1 0 p p1 = record {
        reads = more.reads;
        depth = more.depth;
        mode = more.mode;
        tells = more.tells;
      } in
      let u1 = Moved-Under u m in
      let key : Key = record {
        kind = p.current.kind;
        text = p.current.value;
        prec = p.current.prec;
        pos = p.current.pos;
        leading = p.comments;
      } in
      tested (R 1 p) (at ident p || (at string p || (at int p || at bool p)))
        (λ _.
          Good-map (EntryMade t limit depth 1 p)
            (tested (R 0 p1) (at equals p1)
              (λ _. parse_assignment_good t limit depth val good key p1 u1)
              (λ _.
                tested (R 0 p1) (at colon p1)
                  (λ _. parse_map_entry_good t limit depth val good allowed key p1 u1)
                  (λ _.
                    tested (R 0 p1) (at lbrace p1)
                      (parse_block_good t limit depth body key p1 within h u1)
                      (λ _. dangling_key_good t limit depth key p1 u1))))
            (λ r q x. behind 1 m x (omega arith)))
        (λ _. no_key_good t limit depth p u e)
