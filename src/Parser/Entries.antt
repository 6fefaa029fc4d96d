-- ===== src/Parser/Entries.antt =====
-- ParseEntry, ParseTypeEntry and ParseBody of src/pxf/parser.cc, and the recursion over the levels.
pub mod Sound
pub mod Bodies
use protowire_cpp.Common.{
  ℕ, zero, suc, ◌+◌, ◌-◌, ◌*◌, Bool, true, false, not, ◌&&◌, ◌||◌, Option, none, some, List, [],
  ◌∷◌, ◌++◌, ◌==◌, ltb, if◌then◌else◌, length,
}
use protowire_cpp.Common.Text.{codes, decimal}
use protowire_cpp.Utf8.{utf8}
use protowire_cpp.GoQuote.{go_quote}
use protowire_cpp.Lexer.{
  Position, TokenKind, kind_value, end_of_input, ident, string, int, bool, lbrace, rbrace, rparen,
  equals, colon, at_type, token_kind_name,
}
use protowire_cpp.Ast.{
  Comment, Span, Value, Entry, assignment, map_entry, block, type_entry, Entries, no_entries, entry,
  value_span,
}
use protowire_cpp.Parser.{
  Parser, Step, ok, failed, ◌>>=◌, at, advance, flush, put_back, take_trailing_comment,
  record_error, soft, token_end, token_err_msg, clip, written_key, bad_value, tolerant_row_close,
}
use protowire_cpp.Parser.Values.{Body, value_at, skip_deep}

-- The key of an entry and what stands in front of it.
pub record Key : Type 0 where
  pub kind : TokenKind
  pub text : List ℕ
  pub prec : List ℕ
  pub pos : Position
  pub leading : List Comment

abbrev is_a : TokenKind → Key → Bool
is_a k key = kind_value key.kind == kind_value k

-- `Soft` where a test holds.
unfoldable pub soft_if : Bool → Position → List ℕ → Parser → Step (Unit {0})
soft_if test pos msg p = if test then soft pos msg p else ok (tt, p)

-- The token kind and the quoted key, in a message.
named_key : Key → Parser → List ℕ
named_key key p =
    token_kind_name key.kind
    ++ (codes " (" ++ (go_quote p.table (written_key key.text key.prec) ++ codes ")"))

-- The value of an assignment or a map entry, with the span and the trailing comment.
pub entry_value :
    (Parser → Step Value)
    → (Span → Value → List ℕ → Entry)
    → Position
    → Parser
    → Step (Option Entry)
entry_value val node start p = do
  (v, p1) ← val (advance p)
  let end = (value_span v).end
  let (trailing, p2) = take_trailing_comment end p1
  ok (some (node (record { pos = start; end = end }) v trailing), p2)

-- The case of '='.
pub parse_assignment : (Parser → Step Value) → Key → Parser → Step (Option Entry)
parse_assignment val key p = do
  (_, p1) ←
      soft_if (is_a int key || is_a bool key) key.pos
        (codes "field assignment with '=' requires an identifier or string key, got "
          ++ (named_key key p ++ codes "; use ':' for map entries"))
        p
  entry_value val (λ s v trailing. assignment s key.text (is_a string key) v key.leading trailing)
      key.pos p1

-- The case of ':'.
pub parse_map_entry : (Parser → Step Value) → Bool → Key → Parser → Step (Option Entry)
parse_map_entry val allowed key p = do
  (_, p1) ←
      soft_if (not allowed) key.pos
        (utf8
          "map entry (':' form) is only allowed inside a '{ … }' block; use '=' for top-level field assignments")
        p
  (_, p2) ←
      soft_if (not (length key.prec == 0)) key.pos
        (codes "map key "
          ++ (key.text
              ++ (codes ": a key cannot carry a precision suffix (p"
                  ++ (clip key.prec ++ codes ")"))))
        p1
  entry_value val (λ s v trailing. map_entry s key.text (is_a string key) v key.leading trailing)
      key.pos p2

-- The case of '{'.
pub parse_block : (Parser → Step Body) → ℕ → Key → Parser → Step (Option Entry)
parse_block body depth key p = do
  (_, p1) ←
      soft_if (is_a int key || is_a bool key) key.pos
        (codes "submessage block requires an identifier or string key, got " ++ named_key key p) p
  let node = λ (end : Position) (es : Entries) (trailing : List Comment). some (
      block (record { pos = key.pos; end = end }) key.text (is_a string key) es key.leading
        trailing)
  if ltb p1.max_depth (depth + 1)
      then (do (end, p2) ← skip_deep lbrace rbrace p1; ok (node end no_entries [], p2))
      else (do (b, p2) ← body (advance p1); ok (node b.end b.entries b.trailing, p2))

-- The default: a key with nothing behind it.
pub dangling_key : Key → Parser → Step (Option Entry)
dangling_key key p = do
  (_, p1) ←
      soft p.current.pos
        (codes "expected '=', ':', or '{' after "
          ++ (go_quote p.table key.text ++ (codes ", got " ++ token_kind_name p.current.kind)))
        p
  ok (
    some (
        assignment (record { pos = key.pos; end = p1.prev_end }) key.text false
          (bad_value p1.prev_end) key.leading []),
    p1,
  )

-- ParseEntry on a token that is no key.
pub no_key : Parser → Step (Option Entry)
no_key p =
    let msg = codes "expected identifier, string, integer, or bool, got " ++ token_err_msg p in
    let p1 = record_error p.current.pos msg (flush p) in
    if p.tolerant
    then ok (none, advance (put_back p.comments p1))
    else failed p.current.pos msg (flush p)

-- ParseEntry behind its key.
pub parse_entry_tail :
    (Parser → Step Value) → (Parser → Step Body) → ℕ → Bool → Key → Parser → Step (Option Entry)
parse_entry_tail val body depth allow_map_entry key p =
    if at equals p
    then parse_assignment val key p
    else if at colon p
    then parse_map_entry val allow_map_entry key p
    else if at lbrace p
    then parse_block body depth key p
    else dangling_key key p

-- ParseEntry, over ParseValue at its depth and ParseBody one level deeper. A skipped entry is `none`.
pub parse_entry :
    (Parser → Step Value) → (Parser → Step Body) → ℕ → Bool → Parser → Step (Option Entry)
unfolding parse_entry_tail
parse_entry val body depth allow_map_entry p =
    let key : Key = record {
      kind = p.current.kind;
      text = p.current.value;
      prec = p.current.prec;
      pos = p.current.pos;
      leading = p.comments;
    } in
    if at ident p || (at string p || (at int p || at bool p))
    then parse_entry_tail val body depth allow_map_entry key (advance (flush p))
    else no_key p

abbrev advance_if : TokenKind → Parser → Parser
advance_if k p = if at k p then advance p else p

-- The lambda `fail` of ParseTypeEntry, with the comments that stood in front.
pub fail_type_entry : List Comment → Position → List ℕ → Parser → Step (Option Entry)
fail_type_entry leading pos msg p =
    if p.tolerant
    then ok (
      none,
      advance_if string
          (advance_if equals (advance_if at_type (put_back leading (record_error pos msg p)))),
    )
    else failed pos msg p

-- ParseTypeEntry
pub parse_type_entry : Bool → Parser → Step (Option Entry)
parse_type_entry first p =
    let leading = p.comments in
    let p1 = advance (flush p) in
    let p2 = advance p1 in
    let p3 = advance p2 in
    let (trailing, p4) = take_trailing_comment (token_end p2) p3 in
    if not first
    then fail_type_entry leading p.current.pos
        (utf8
          "@type is allowed only as the first entry of a block bound to google.protobuf.Any (draft -01 \"Any Blocks\")")
        (flush p)
    else if not (at equals p1)
    then fail_type_entry leading p1.current.pos
        (codes "expected '=' after @type, got " ++ token_err_msg p1) p1
    else if not (at string p2)
    then fail_type_entry leading p2.current.pos
        (codes "expected a string type URL after @type =, got " ++ token_err_msg p2) p2
    else ok (
      some (
          type_entry (record { pos = p.current.pos; end = token_end p2 }) p2.current.value leading
            trailing),
      p4,
    )

-- An entry in front of those that follow, where it was not skipped.
pub add_entry : Option Entry → Entries → Entries
add_entry none es = es
add_entry (some e) es = entry e es

pub is_none : {A : Type 0} → Option A → Bool
is_none none = true
is_none (some a) = false

-- The loop of ParseBody, with whether no entry was kept yet.
pub body_loop : (Bool → Parser → Step (Option Entry)) → ℕ → Bool → Parser → Step Entries
unfolding add_entry is_none
body_loop one zero first p = Step.out_of_fuel
body_loop one (suc fuel) first p =
    let more = (do
      (e, p1) ← one first p
      (es, p2) ← body_loop one fuel (first && is_none e) p1
      ok (add_entry e es, p2)) in
    if at rbrace p || (at end_of_input p || tolerant_row_close p) then ok (no_entries, p) else more

-- ParseBody behind its loop.
pub close_body : Entries → Parser → Step Body
close_body es p =
    let p1 = flush p in
    let unclosed =
      (if at rparen p
        then codes "unclosed block: expected '}' before ')'"
        else codes "unclosed block: expected '}' before end of input") in
    if at rbrace p
    then ok (record { entries = es; end = token_end p; trailing = p.comments }, advance p1)
    else if p.tolerant
    then ok (
      record { entries = es; end = p.current.pos; trailing = p.comments },
      record_error p.current.pos unclosed p1,
    )
    else failed p.current.pos (codes "expected '}', got " ++ token_kind_name p.current.kind) p1

-- An entry of a body.
pub body_entry :
    (Parser → Step Value) → (Parser → Step Body) → ℕ → Bool → Parser → Step (Option Entry)
body_entry val body depth first p =
    if at at_type p then parse_type_entry first p else parse_entry val body depth true p

-- ParseBody, over ParseValue at its depth and ParseBody one level deeper.
pub body_at : (Parser → Step Value) → (Parser → Step Body) → ℕ → Parser → Step Body
body_at val body depth p = do
  (es, p1) ← body_loop (body_entry val body depth) (length p.lex.rest + 2) true p
  close_body es p1

-- ParseValue and ParseBody at a depth. Each level below the limit costs two units of fuel.
mutual
  pub parse_value : ℕ → ℕ → Parser → Step Value
  parse_value zero depth p = Step.out_of_fuel
  parse_value (suc f) depth p =
      value_at (parse_value f (depth + 1)) (parse_body f (depth + 1)) depth p

  pub parse_body : ℕ → ℕ → Parser → Step Body
  parse_body zero depth p = Step.out_of_fuel
  parse_body (suc f) depth p = body_at (parse_value f depth) (parse_body f (depth + 1)) depth p

-- Enough fuel at depth 0.
abbrev pub levels : Parser → ℕ
levels p = 2 * p.max_depth + 2
