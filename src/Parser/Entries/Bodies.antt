-- ===== src/Parser/Entries/Bodies.antt =====
-- ParseBody, and ParseValue and ParseBody at every level: what they return, and that the fuel for the
-- levels is enough.
use Prim.Native.Nat.{max}
use protowire_cpp.Common.{tested}
use protowire_cpp.Common.{
  ℕ, zero, suc, ◌+◌, ◌-◌, ◌*◌, ◌≤◌, ◌<◌, ◌≡◌, ◌∙◌, sym, refl, arith, Bool, true, false, ◌||◌, ◌&&◌,
  Option, none, some, length,
}
use protowire_cpp.Lexer.{end_of_input, rbrace, at_type}
use protowire_cpp.Ast.{Value, Entry, Entries}
use protowire_cpp.Ast.Measures.{entries_bads, entries_depth}
use protowire_cpp.Parser.{Parser, Step, at, flush, tolerant_row_close}
use protowire_cpp.Parser.Moved.{left, Moved, Moved-trans, advance-Moved}
use protowire_cpp.Parser.Good.{Good, done, refused, Good-bind}
use protowire_cpp.Parser.Sound.{
  Under, Moved-Under, Sound, room, Refusal, recorded, still, calm, joined, ahead,
}
use protowire_cpp.Parser.Values.{Body}
use protowire_cpp.Parser.Values.Scalars.{ValueGood}
use protowire_cpp.Parser.Values.Sound.{BodyGood}
use protowire_cpp.Parser.Entries.{
  add_entry, is_none, body_loop, close_body, body_entry, body_at, parse_value, parse_body,
}
use protowire_cpp.Parser.Entries.Sound.{
  option_bads, option_depth, EntryGood, parse_type_entry_good, parse_entry_good,
}
use protowire_cpp.Parser.Values.Sound.{value_at_good}

entries_bads-add_entry :
    (e : Option Entry) (es : Entries)
    → entries_bads (add_entry e es) ≡ option_bads e + entries_bads es
unfolding add_entry option_bads entries_bads
entries_bads-add_entry none es = omega arith
entries_bads-add_entry (some e) es = refl

entries_depth-add_entry :
    (e : Option Entry) (es : Entries)
    → entries_depth (add_entry e es) ≡ max (option_depth e) (entries_depth es)
unfolding add_entry option_depth entries_depth
entries_depth-add_entry none es = omega arith
entries_depth-add_entry (some e) es = refl

-- An entry in front of the others.
pub entry_joined :
    {t : Bool} {top n m : ℕ} (k : ℕ) {p q r : Parser} (e : Option Entry) (es : Entries)
    → Sound t top n (option_bads e) (option_depth e) p q
    → Sound t top m (entries_bads es) (entries_depth es) q r
    → k ≤ n + m
    → Sound t top k (entries_bads (add_entry e es)) (entries_depth (add_entry e es)) p r
entry_joined k e es x y h =
    rw (entries_bads-add_entry e es) (rw (entries_depth-add_entry e es) (joined k x y h))

module _ (t : Bool) (limit depth : ℕ) where
  abbrev pub EntriesMade : Parser → Entries × Parser → Type 0
  EntriesMade p r = Sound t (room t limit depth) 0 (entries_bads r.0) (entries_depth r.0) p r.1

  body_loop-Good :
      (one : Bool → Parser → Step (Option Entry))
      → ((first : Bool) (q : Parser)
          → Under t limit q
          → at end_of_input q ≡ false
          → EntryGood t limit depth 1 q (one first q))
      → (fuel : ℕ) (first : Bool) (p : Parser) → Under t limit p
      → left p < fuel
      → Good (EntriesMade p) (Refusal t) (body_loop one fuel first p)
  unfolding body_loop entries_bads entries_depth
  body_loop-Good one good zero first p u h = absurd (omega (arith, h))
  body_loop-Good one good (suc fuel) first p u h =
      tested (Good (EntriesMade p) (Refusal t))
        (at rbrace p || (at end_of_input p || tolerant_row_close p))
        (λ _. done (calm _ 0 (still p) (omega arith)))
        (λ f.
          Good-bind (EntriesMade p) (Refusal t) _ (good first p u (ground (arith, f))) (λ _ f. f)
            (λ e q x.
              let reads = x.moved.reads in
              Good-bind (EntriesMade p) (Refusal t) _
                (body_loop-Good one good fuel (first && is_none e) q (Moved-Under u x.moved)
                  (omega (arith, h)))
                (λ _ f. f) (λ es r y. done (entry_joined 0 e es x y (omega arith)))))

  close_body_good :
      (es : Entries) (p q : Parser)
      → Under t limit p
      → EntriesMade p (es, q)
      → BodyGood t limit depth p (close_body es q)
  unfolding close_body
  close_body_good es p q u x =
      let u1 = Moved-Under u x.moved in
      let s = still q in
      let m : Moved 0 0 q (flush q) = record {
        reads = s.reads;
        depth = s.depth;
        mode = s.mode;
        tells = s.tells;
      } in
      let on = Moved-trans 0 0 m (advance-Moved (flush q)) (omega arith) (omega arith) in
      tested (BodyGood t limit depth p) (at rbrace q) (λ _. done (ahead 0 x on (omega arith)))
        (λ _.
          tested (BodyGood t limit depth p) q.tolerant
            (λ _. done (ahead 0 x (recorded 0 q.current.pos _ m (omega arith)) (omega arith)))
            (λ f. refused (sym u1.mode ∙ f, f)))

module _ (t : Bool) (limit depth : ℕ) (val : Parser → Step Value) (body : Parser → Step Body)
    (good : (q : Parser) → Under t limit q → ValueGood t limit depth q (val q))
    (within : depth + 1 ≤ limit
      → (q : Parser) → Under t limit q
      → BodyGood t limit (depth + 1) q (body q))
    (h : depth ≤ limit) where
  body_entry_good :
      (first : Bool) (p : Parser)
      → Under t limit p
      → at end_of_input p ≡ false
      → EntryGood t limit depth 1 p (body_entry val body depth first p)
  unfolding body_entry
  body_entry_good first p u e =
      tested (EntryGood t limit depth 1 p) (at at_type p)
        (parse_type_entry_good t limit depth first p u)
        (λ _. parse_entry_good t limit depth val body good within h true p u e)

  body_at_good :
      (p : Parser) → Under t limit p → BodyGood t limit depth p (body_at val body depth p)
  unfolding body_at
  body_at_good p u =
      Good-bind _ (Refusal t) _
        (body_loop-Good t limit depth (body_entry val body depth) body_entry_good
          (length p.lex.rest + 2) true p u (ground arith))
        (λ _ f. f) (λ es q x. close_body_good t limit depth es p q u x)

module _ (t : Bool) (limit : ℕ) where
  -- ParseValue and ParseBody at every depth within the limit for which the fuel covers the levels.
  levels_good :
      (f : ℕ)
      → ((depth : ℕ)
          → depth ≤ limit
          → 2 * (limit - depth) + 1 ≤ f
          → (p : Parser) → Under t limit p
          → ValueGood t limit depth p (parse_value f depth p))
        × ((depth : ℕ)
            → depth ≤ limit
            → 2 * (limit - depth) + 2 ≤ f
            → (p : Parser) → Under t limit p
            → BodyGood t limit depth p (parse_body f depth p))
  unfolding parse_value parse_body
  levels_good zero =
      (λ depth h e. absurd (omega (arith, e)), λ depth h e. absurd (omega (arith, e)))
  levels_good (suc f) =
      let (value_good, body_good) = levels_good f in
      (
        λ depth h e.
            value_at_good t limit depth (parse_value f (depth + 1)) (parse_body f (depth + 1))
              (λ more. value_good (depth + 1) more (omega (arith, e, more)))
              (λ more. body_good (depth + 1) more (omega (arith, e, more))) h,
        λ depth h e.
            body_at_good t limit depth (parse_value f depth) (parse_body f (depth + 1))
              (value_good depth h (omega (arith, e)))
              (λ more. body_good (depth + 1) more (omega (arith, e, more))) h,
      )

  -- The values and bodies under the fuel that the callers give.
  pub top-ValueGood :
      (fuel : ℕ) (p : Parser)
      → 2 * limit + 2 ≤ fuel
      → Under t limit p
      → ValueGood t limit 0 p (parse_value fuel 0 p)
  top-ValueGood fuel p e = (levels_good fuel).0 0 (omega arith) (omega (arith, e)) p

  pub top-BodyGood :
      (fuel : ℕ) (p : Parser)
      → 2 * limit + 2 ≤ fuel
      → 1 ≤ limit
      → Under t limit p
      → BodyGood t limit 1 p (parse_body fuel 1 p)
  top-BodyGood fuel p e one = (levels_good fuel).1 1 one (omega (arith, e, one)) p
