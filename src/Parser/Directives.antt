-- ===== src/Parser/Directives.antt =====
-- The directives of src/pxf/parser.cc: ParseDirective, ParseTableDirective, ParseTableRow,
-- ParseProtoDirective and ParseRowCell. Each gives the byte offset past the directive too.
pub mod Sound
pub mod Protos
use protowire_cpp.Common.{
  ℕ, zero, suc, ◌+◌, ◌-◌, Bool, true, false, not, ◌&&◌, ◌||◌, Option, none, some, List, [], ◌∷◌,
  ◌++◌, ◌==◌, if◌then◌else◌, length, get_or, take, drop,
}
use protowire_cpp.Common.Text.{codes, same_text, decimal}
use protowire_cpp.Utf8.{utf8}
use protowire_cpp.Base64.Go.{Decoded, error_at, decode_proto}
use protowire_cpp.Lexer.{
  Position, TokenKind, kind_value, ident, string, bytes, lbrace, lparen, rparen, equals, colon,
  comma, token_kind_name, reposition_to,
}
use protowire_cpp.Ast.{
  Comment, Value, Directive, DatasetRow, DatasetDirective, ProtoShape, anonymous, named, source,
  descriptor, ProtoDirective,
}
use protowire_cpp.Parser.{
  Parser, Step, ok, failed, ◌>>=◌, at, advance, flush, put_back, soft, token_end, dataset_token_msg,
  peek_kind,
}
use protowire_cpp.Parser.Values.{parse_block_val}
use protowire_cpp.Parser.Entries.{soft_if, parse_value, parse_body, levels}
use protowire_cpp.Parser.Braces.{find_matching_brace}
use protowire_cpp.Parser.Columns.{column_path_error}

-- IsFutureReservedDirective of src/pxf/schema.cc
pub is_future_reserved_directive : List ℕ → Bool
is_future_reserved_directive name =
    same_text name (codes "table")
    || (same_text name (codes "datasource")
        || (same_text name (codes "view")
            || (same_text name (codes "procedure")
                || (same_text name (codes "function") || same_text name (codes "permissions")))))

-- The loop over the prefix identifiers, with the offset past the last one.
pub prefix_loop : ℕ → ℕ → Parser → Step (List (List ℕ) × ℕ)
prefix_loop zero eo p = Step.out_of_fuel
prefix_loop (suc fuel) eo p =
    let after = kind_value (peek_kind p) in
    let more = (do
      ((prefixes, eo'), p1) ←
          prefix_loop fuel (p.current.pos.offset + length p.current.value) (advance p)
      ok ((p.current.value ∷ prefixes, eo'), p1)) in
    if at ident p && not (after == kind_value equals || after == kind_value colon)
    then more
    else ok (([], eo), p)

abbrev only : List (List ℕ) → List ℕ
only (x ∷ []) = x
only _ = []

-- The bytes between two offsets of the input, both left out.
abbrev inner : ℕ → ℕ → List ℕ → List ℕ
inner open_at close_at input = take (close_at - (open_at + 1)) (drop (open_at + 1) input)

-- The inline block of a directive.
pub directive_block : Directive → Parser → Step (Directive × ℕ)
directive_block d p = do
  (_, p1) ← parse_block_val (parse_body (levels p) 1) 0 p
  elim (find_matching_brace p1.lex.input p.current.pos.offset) [
    | none ↦ failed d.pos (codes "directive @" ++ (d.name ++ codes ": unmatched '{'")) p1
    | some close_at ↦ ok (
      (
        record d { body = inner p.current.pos.offset close_at p1.lex.input; has_body = true },
        close_at + 1,
      ),
      p1,
    )
  ]

-- ParseDirective
pub parse_directive : Parser → Step (Directive × ℕ)
parse_directive p = do
  let name = p.current.value
  (_, p1) ←
      soft_if (is_future_reserved_directive name) p.current.pos
        (codes "@"
          ++ (name
              ++ utf8 " is a spec-reserved directive name with no v1 semantics (draft §3.4.6)"))
        (flush p)
  let p2 = advance p1
  ((prefixes, eo), p3) ←
      prefix_loop (length p2.lex.rest + 2) (p.current.pos.offset + 1 + length name) p2
  let d : Directive = record {
    pos = p.current.pos;
    name = name;
    prefixes = prefixes;
    type = only prefixes;
    body = [];
    has_body = false;
    leading_comments = p.comments;
  }
  if at lbrace p3 then directive_block d p3 else ok ((d, eo), p3)

-- The comments that a cell set aside are put back, whether it was read or not.
pub restored : List Comment → Step Value → Step (Option Value)
restored cs (ok (v, p)) = ok (some v, put_back cs p)
restored cs (failed at_pos msg p) = failed at_pos msg (put_back cs p)
restored cs Step.out_of_fuel = Step.out_of_fuel

-- ParseRowCell
pub parse_row_cell : Parser → Step (Option Value)
parse_row_cell p =
    let filled = restored p.comments (parse_value (levels p) 0 (flush p)) in
    if at comma p || at rparen p then ok (none, p) else filled

-- The loop over the cells behind the first.
pub cell_loop : ℕ → Parser → Step (List (Option Value))
cell_loop zero p = Step.out_of_fuel
cell_loop (suc fuel) p =
    let more = (do
      (cell, p1) ← parse_row_cell (advance p)
      (cells, p2) ← cell_loop fuel p1
      ok (cell ∷ cells, p2)) in
    if at comma p then more else ok ([], p)

-- ParseTableRow at its ')'.
pub close_row :
    ℕ → Bool → Position → List Comment → List (Option Value) → Parser → Step (DatasetRow × ℕ)
close_row expected read_past start leading cells p =
    let p1 = flush p in
    let p2 = if read_past then advance p1 else p1 in
    let row : DatasetRow = record {
      pos = start;
      cells = cells;
      leading_comments = leading ++ p.comments;
    } in
    if not (at rparen p)
    then failed p.current.pos
        (codes "expected ',' or ')' in @dataset row, got " ++ dataset_token_msg p) p
    else if length cells == expected
    then ok ((row, p.current.pos.offset + 1), p2)
    else failed start
        (codes "@dataset row has "
          ++ (decimal (length cells)
              ++ (codes " cells, expected " ++ (decimal expected ++ codes " (column count)"))))
        p2

-- ParseTableRow
pub parse_table_row : ℕ → Bool → Parser → Step (DatasetRow × ℕ)
parse_table_row expected read_past p = do
  (cell, p1) ← parse_row_cell (advance (flush p))
  (cells, p2) ← cell_loop (length p1.lex.rest + 2) p1
  close_row expected read_past p.current.pos p.comments (cell ∷ cells) p2

-- The loop over the column names, each with its position.
pub name_loop : ℕ → Parser → Step (List (List ℕ × Position))
name_loop zero p = Step.out_of_fuel
name_loop (suc fuel) p =
    let p1 = advance p in
    let column : List ℕ × Position = (p.current.value, p.current.pos) in
    let more = (do (columns, p2) ← name_loop fuel (advance p1); ok (column ∷ columns, p2)) in
    if not (at ident p)
    then failed p.current.pos (codes "expected column field name, got " ++ dataset_token_msg p) p
    else if at comma p1
    then more
    else if at rparen p1
    then ok (column ∷ [], p1)
    else failed p1.current.pos
        (codes "expected ',' or ')' in @dataset column list, got " ++ dataset_token_msg p1) p1

-- The loop over the rows, with the offset past the last one.
pub row_loop : ℕ → ℕ → ℕ → Parser → Step (List DatasetRow × ℕ)
row_loop zero expected eo p = Step.out_of_fuel
row_loop (suc fuel) expected eo p =
    let more = (do
      ((row, row_end), p1) ← parse_table_row expected true p
      ((rows, eo'), p2) ← row_loop fuel expected row_end p1
      ok ((row ∷ rows, eo'), p2)) in
    if at lparen p then more else ok (([], eo), p)

pub firsts : List (List ℕ × Position) → List (List ℕ)
firsts [] = []
firsts ((name, at_pos) ∷ columns) = name ∷ firsts columns

-- The position of a column; the index is one of the list's.
pub column_pos : List (List ℕ × Position) → ℕ → Position → Position
column_pos [] i default = default
column_pos ((name, at_pos) ∷ columns) zero default = at_pos
column_pos ((name, at_pos) ∷ columns) (suc i) default = column_pos columns i default

-- ParseTableDirective behind its column list.
pub table_rows :
    Position
    → List Comment
    → List ℕ
    → List (List ℕ × Position)
    → Parser
    → Step (DatasetDirective × ℕ)
table_rows start leading type columns p =
    let p1 = advance p in
    elim (column_path_error p.table (firsts columns)) [
      | some (bad, msg) ↦ failed (column_pos columns bad p.current.pos) msg p
      | none ↦ do
        ((rows, eo), p2) ←
            row_loop (length p1.lex.rest + 2) (length columns) (p.current.pos.offset + 1) p1
        ok (
          (
            record {
              pos = start;
              type = type;
              columns = firsts columns;
              rows = rows;
              leading_comments = leading;
            },
            eo,
          ),
          p2,
        )
    ]

-- ParseTableDirective
pub parse_table_directive : Parser → Step (DatasetDirective × ℕ)
parse_table_directive p =
    let p1 = advance (flush p) in
    let type = if at ident p1 then p1.current.value else [] in
    let p2 = if at ident p1 then advance p1 else p1 in
    let p3 = advance p2 in
    if not (at lparen p2)
    then failed p2.current.pos
        (codes "expected '(' to start @dataset column list, got " ++ dataset_token_msg p2) p2
    else if not (at ident p3)
    then failed p3.current.pos
        (codes "@dataset column list must contain at least one field name, got "
          ++ dataset_token_msg p3)
        p3
    else (do
      (columns, p4) ← name_loop (length p3.lex.rest + 2) p3
      table_rows p.current.pos p.comments type columns p4)

-- The lambda capture_brace_body: the body and the offset.
pub capture_brace_body : List ℕ → Parser → Step (List ℕ × ℕ)
capture_brace_body label p = elim (find_matching_brace p.lex.input p.current.pos.offset) [
  | none ↦ failed p.current.pos (label ++ codes ": unmatched '{'") p
  | some close_at ↦ ok (
    (inner p.current.pos.offset close_at p.lex.input, close_at + 1),
    advance (record p { lex = reposition_to (close_at + 1) p.lex }),
  )
]

-- The descriptor form, on its bytes literal.
pub proto_descriptor : ProtoDirective → Parser → Step (ProtoDirective × ℕ)
proto_descriptor pd p = elim (decode_proto p.current.value) [
  | Decoded.bytes d ↦
      ok ((record pd { shape = descriptor; body = d }, (token_end p).offset), advance p)
  | error_at offset ↦
      failed p.current.pos
        (codes "@proto descriptor body: invalid base64: illegal base64 data at input byte "
          ++ decimal offset)
        p
]

-- The named form, on its name.
pub proto_named : ProtoDirective → Parser → Step (ProtoDirective × ℕ)
proto_named pd p =
    let name = p.current.value in
    let p1 = advance p in
    if not (at lbrace p1)
    then failed p1.current.pos
        (codes "expected '{' after @proto "
          ++ (name ++ (codes ", got " ++ token_kind_name p1.current.kind)))
        p1
    else (do
      ((body, eo), p2) ← capture_brace_body (codes "@proto " ++ name) p1
      ok ((record pd { shape = named; type_name = name; body = body }, eo), p2))

-- ParseProtoDirective
pub parse_proto_directive : Parser → Step (ProtoDirective × ℕ)
parse_proto_directive p =
    let p1 = advance (flush p) in
    let pd : ProtoDirective = record {
      pos = p.current.pos;
      shape = anonymous;
      type_name = [];
      body = [];
      leading_comments = p.comments;
    } in
    if at lbrace p1
    then (do
      ((body, eo), p2) ← capture_brace_body (codes "@proto (anonymous form)") p1
      ok ((record pd { body = body }, eo), p2))
    else if at ident p1
    then proto_named pd p1
    else if at string p1
    then ok
        ((record pd { shape = source; body = p1.current.value }, (token_end p1).offset), advance p1)
    else if at bytes p1
    then proto_descriptor pd p1
    else failed p1.current.pos
        (codes
            "expected '{', dotted identifier, triple-quoted string, or b\"...\" after @proto, got "
          ++ token_kind_name p1.current.kind)
        p1
