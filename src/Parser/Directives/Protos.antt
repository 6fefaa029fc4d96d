-- ===== src/Parser/Directives/Protos.antt =====
-- ParseProtoDirective reads on, whether it accepts or refuses, and never runs out of fuel.
use protowire_cpp.Common.{tested, tested_option}
use protowire_cpp.Common.{ℕ, ◌+◌, ◌≤◌, ◌≡◌, refl, inr, arith, Bool, true, false, not, List, []}
use protowire_cpp.Base64.Go.{Decoded, error_at, decode_proto}
use protowire_cpp.Lexer.{end_of_input, ident, string, bytes, lbrace, reposition_to}
use protowire_cpp.Lexer.Progress.{reposition_to_ahead}
use protowire_cpp.Ast.{ProtoDirective}
use protowire_cpp.Parser.{Parser, at, advance, flush}
use protowire_cpp.Parser.Moved.{
  Moved, Braced, Moved-trans, advance-Moved, advance-Moved_on, advance-Braced,
}
use protowire_cpp.Parser.Good.{done, refused, Good-bind}
use protowire_cpp.Parser.Sound.{still}
use protowire_cpp.Parser.Braces.{find_matching_brace}
use protowire_cpp.Parser.Braces.Bounds.{find_matching_brace_bounds}
use protowire_cpp.Parser.Directives.{
  capture_brace_body, proto_descriptor, proto_named, parse_proto_directive,
}
use protowire_cpp.Parser.Directives.Sound.{Halt, ReadOn, commented}

-- The brace at which capture_brace_body goes on lies ahead of the lexer.
capture_brace_body_good :
    (t : Bool) (label : List ℕ) (p q : Parser)
    → Moved 1 0 p q
    → Braced q
    → at lbrace q ≡ true
    → ReadOn t p (capture_brace_body label q)
unfolding capture_brace_body
capture_brace_body_good t label p q m b e =
    tested_option (ReadOn t p) (find_matching_brace q.lex.input q.current.pos.offset)
      (λ _. refused (inr m))
      (λ close_at f.
        let (behind, rest) =
          find_matching_brace_bounds q.lex.input q.current.pos.offset close_at f in
        let near = b.at_brace in
        let ahead : q.lex.index ≤ close_at + 1 = ground (arith, e, near, behind) in
        let (less, same) = reposition_to_ahead (close_at + 1) q.lex ahead in
        let q1 = record q { lex = reposition_to (close_at + 1) q.lex } in
        let m1 : Moved 0 0 q q1 = record {
          reads = omega (arith, less);
          depth = refl;
          mode = refl;
          tells = rw same (omega arith);
        } in
        done (
          Moved-trans 1 0 m (Moved-trans 0 0 m1 (advance-Moved q1) (omega arith) (omega arith))
            (omega arith) (omega arith)))

pick_decoded :
    {B : Type 0} (R : B → Type 0) (d : Decoded) {f : List ℕ → B} {g : ℕ → B}
    → ((bs : List ℕ) → R (f bs))
    → ((n : ℕ) → R (g n))
    → R (elim d [ Decoded.bytes bs ↦ f bs | error_at n ↦ g n ])
pick_decoded R (Decoded.bytes bs) p q = p bs
pick_decoded R (error_at n) p q = q n

proto_descriptor_good :
    (t : Bool) (pd : ProtoDirective) (p q : Parser)
    → Moved 1 0 p q
    → ReadOn t p (proto_descriptor pd q)
unfolding proto_descriptor
proto_descriptor_good t pd p q m =
    pick_decoded (ReadOn t p) (decode_proto q.current.value)
      (λ d. done (Moved-trans 1 0 m (advance-Moved q) (omega arith) (omega arith)))
      (λ n. refused (inr m))

proto_named_good :
    (t : Bool) (pd : ProtoDirective) (p q : Parser) → Moved 1 0 p q → ReadOn t p (proto_named pd q)
unfolding proto_named
proto_named_good t pd p q m =
    let m1 = Moved-trans 1 0 m (advance-Moved q) (omega arith) (omega arith) in
    tested (ReadOn t p) (not (at lbrace (advance q))) (λ _. refused (inr m1))
      (λ f.
        Good-bind (λ r. Moved 1 0 p r.1) (Halt t p) _
          (capture_brace_body_good t _ p (advance q) m1 (advance-Braced q) (ground (arith, f)))
          (λ _ f. f) (λ b r on. done on))

pub parse_proto_directive_good :
    (t : Bool) (p : Parser) → at end_of_input p ≡ false → ReadOn t p (parse_proto_directive p)
unfolding parse_proto_directive
parse_proto_directive_good t p e =
    let p1 = advance (flush p) in
    let m : Moved 1 0 p p1 =
      Moved-trans 1 0 (commented [] (still p)) (advance-Moved_on (flush p) e) (omega arith)
        (omega arith) in
    let m1 = Moved-trans 1 0 m (advance-Moved p1) (omega arith) (omega arith) in
    let R = ReadOn t p in
    tested R (at lbrace p1)
      (λ b.
        Good-bind (λ r. Moved 1 0 p r.1) (Halt t p) _
          (capture_brace_body_good t _ p p1 m (advance-Braced (flush p)) b) (λ _ f. f)
          (λ b r on. done on))
      (λ _.
        tested R (at ident p1) (λ _. proto_named_good t _ p p1 m)
          (λ _.
            tested R (at string p1) (λ _. done m1)
              (λ _.
                tested R (at bytes p1) (λ _. proto_descriptor_good t _ p p1 m)
                  (λ _. refused (inr m)))))
