-- ===== src/Parser/Rows.antt =====
-- ParseDatasetAt and ParseDatasetRow of src/pxf/parser.cc, the entries of the parser for a reader that
-- has a lexer, or a row, of its own.
use protowire_cpp.Common.{tested}
use protowire_cpp.Common.{ℕ, ◌≡◌, refl, inl, arith, true, false, not, List, [], if◌then◌else◌}
use protowire_cpp.Utf8.{utf8}
use protowire_cpp.Lexer.{Lexer, Position, Token, end_of_input, lparen}
use protowire_cpp.Ast.{DatasetRow, DatasetDirective}
use protowire_cpp.Parser.{Parser, Step, ok, failed, ◌>>=◌, at, start_of_document, start_parser}
use protowire_cpp.Parser.Moved.{Moved}
use protowire_cpp.Parser.Good.{Good, refused, Good-bind}
use protowire_cpp.Parser.Sound.{start_parser-Under}
use protowire_cpp.Parser.Directives.{parse_table_row, parse_table_directive}
use protowire_cpp.Parser.Directives.Sound.{
  Halt, ReadOn, parse_table_row_good, parse_table_directive_good,
}

-- kDatasetBesideEntries
beside_entries : List ℕ
beside_entries =
    utf8
      "@dataset directive cannot coexist with top-level field entries; the document's payload is the @dataset rows (draft §3.4.4)"

-- The constructor that adopts a lexer, with the token that it last produced.
abbrev pub adopt : List (ℕ × ℕ) → Lexer → Token → ℕ → Parser
adopt table lex current max_depth = record {
  table = table;
  lex = lex;
  current = current;
  comments = [];
  max_depth = max_depth;
  for_decoder = true;
  tolerant = false;
  prev_end = start_of_document;
}

-- ParseDatasetAt. What Release gives back is in the state of the result.
pub parse_dataset_at : List (ℕ × ℕ) → Lexer → Token → ℕ → Step DatasetDirective
parse_dataset_at table lex current max_depth = do
  ((tbl, end), p) ← parse_table_directive (adopt table lex current max_depth)
  ok (tbl, p)

-- ParseDatasetRow: the row and the offset past it.
pub parse_dataset_row : List (ℕ × ℕ) → List ℕ → ℕ → ℕ → ℕ → Position → Step (DatasetRow × ℕ)
unfolding beside_entries
parse_dataset_row table row expected max_depth max_bytes start =
    let p = start_parser table false max_depth max_bytes start row in
    if not (at lparen p)
    then failed p.current.pos beside_entries p
    else parse_table_row expected false p

-- Both end: with what they read, or with a refusal.
pub parse_dataset_at_good :
    (table : List (ℕ × ℕ)) (lex : Lexer) (current : Token) (max_depth : ℕ)
    → at end_of_input (adopt table lex current max_depth) ≡ false
    → ReadOn false
        (adopt table lex current max_depth)
        (parse_dataset_at table lex current max_depth)
unfolding parse_dataset_at
parse_dataset_at_good table lex current max_depth e =
    let p = adopt table lex current max_depth in
    Good-bind (λ r. Moved 1 0 p r.1) (Halt false p) _
      (parse_table_directive_good false max_depth p (record { mode = refl; depth = refl }) e)
      (λ _ f. f) (λ d q m. Good.done m)

pub parse_dataset_row_good :
    (table : List (ℕ × ℕ)) (row : List ℕ) (expected max_depth max_bytes : ℕ) (start : Position)
    → ReadOn false
        (start_parser table false max_depth max_bytes start row)
        (parse_dataset_row table row expected max_depth max_bytes start)
unfolding parse_dataset_row
parse_dataset_row_good table row expected max_depth max_bytes start =
    let p = start_parser table false max_depth max_bytes start row in
    let u = start_parser-Under table false max_depth max_bytes start row in
    tested (ReadOn false p) (not (at lparen p)) (λ _. refused (inl (refl, u.mode)))
      (λ e. parse_table_row_good false max_depth expected false p u (ground (arith, e)))
