-- ===== src/Parser/Documents.antt =====
-- ParseDocument, Parse and ParseTolerant of src/pxf/parser.cc.
pub mod Sound
mod Tests
pub mod Parse
pub mod Errors
pub mod Tolerant
use protowire_cpp.Common.{
  ℕ, zero, suc, ◌+◌, ◌*◌, ◌^◌, Bool, true, false, not, ◌&&◌, ◌||◌, Option, none, some, List, [],
  ◌∷◌, ◌++◌, ◌==◌, ltb, leb, if◌then◌else◌, length,
}
use protowire_cpp.Common.Text.{codes, decimal}
use protowire_cpp.Utf8.{utf8}
use protowire_cpp.Lexer.{
  Position, Token, end_of_input, ident, at_type, at_directive, at_dataset, at_proto,
  token_kind_name, new_lexer, token,
}
use protowire_cpp.Ast.{
  Directive, DatasetDirective, ProtoDirective, Document, Entry, Entries, no_entries, entry,
}
use protowire_cpp.Parser.{
  Parser, Step, ok, failed, ◌>>=◌, start_of_document, start_parser, at, advance, flush,
  record_error, soft, current_starts_entry, sync_top_level,
}
use protowire_cpp.Parser.Entries.{parse_entry, parse_value, parse_body, levels, soft_if, add_entry}
use protowire_cpp.Parser.Directives.{parse_directive, parse_table_directive, parse_proto_directive}

-- SyncTopLevel with fuel for the tokens left.
abbrev sync : Parser → Step (Unit {0})
sync p = sync_top_level (length p.lex.rest + 2) p

-- What tolerant mode does with a directive that failed: the error is recorded and the directive left
-- out.
pub or_recover : {A : Type 0} → (A → Document → Document) → Document → Step A → Step Document
or_recover keep doc (ok (a, p)) = ok (keep a doc, p)
or_recover keep doc (failed at_pos msg p) =
    if p.tolerant
    then (do (_, p1) ← sync (record_error at_pos msg p); ok (doc, p1))
    else failed at_pos msg p
or_recover keep doc Step.out_of_fuel = Step.out_of_fuel

-- The case of @type.
pub type_directive : Document → Parser → Step Document
type_directive doc p =
    let p1 = advance p in
    if not (at ident p1) || (p1.tolerant && current_starts_entry p1)
    then (do
      (_, p2) ←
          soft p1.current.pos
            (codes "expected type name after @type, got " ++ token_kind_name p1.current.kind) p1
      (_, p3) ← sync p2
      ok (doc, p3))
    else ok (
      record doc {
        type_url = p1.current.value;
        body_offset = p1.current.pos.offset + length p1.current.value;
      },
      advance p1,
    )

-- A directive kept, with the offset past it.
pub keep_directive : Directive × ℕ → Document → Document
keep_directive (d, eo) doc = record doc {
  directives = doc.directives ++ (d ∷ []);
  body_offset = eo;
}

pub keep_dataset : DatasetDirective × ℕ → Document → Document
keep_dataset (d, eo) doc = record doc { datasets = doc.datasets ++ (d ∷ []); body_offset = eo }

pub keep_proto : ProtoDirective × ℕ → Document → Document
keep_proto (d, eo) doc = record doc { protos = doc.protos ++ (d ∷ []); body_offset = eo }

-- One round of the loop over the directives, at a token that opens one.
pub one_directive : Document → Parser → Step Document
unfolding keep_directive keep_dataset keep_proto
one_directive doc p =
    if at at_type p
    then type_directive doc p
    else if at at_directive p
    then or_recover keep_directive doc (parse_directive p)
    else if at at_dataset p
    then or_recover keep_dataset doc (parse_table_directive p)
    else or_recover keep_proto doc (parse_proto_directive p)

pub directive_loop : ℕ → Document → Parser → Step Document
directive_loop zero doc p = Step.out_of_fuel
directive_loop (suc fuel) doc p =
    let more = (do (doc', p1) ← one_directive doc p; directive_loop fuel doc' p1) in
    if at at_type p || (at at_directive p || (at at_dataset p || at at_proto p))
    then more
    else ok (doc, p)

-- The standalone constraint on the datasets.
pub standalone : List DatasetDirective → List ℕ → Parser → Step (Unit {0})
standalone [] type_url p = ok (tt, p)
standalone (d ∷ ds) type_url p = do
  (_, p1) ←
      soft_if (not (length type_url == 0)) d.pos
        (utf8
          "@dataset directive cannot coexist with @type; the @dataset header declares the document's type (draft §3.4.4)")
        p
  soft_if (not (at end_of_input p1)) p1.current.pos
      (utf8
        "@dataset directive cannot coexist with top-level field entries; the document's payload is the @dataset rows (draft §3.4.4)")
      p1

-- The loop over the entries.
pub entry_loop : (Parser → Step (Option Entry)) → ℕ → Parser → Step Entries
entry_loop one zero p = Step.out_of_fuel
entry_loop one (suc fuel) p =
    let more = (do (e, p1) ← one p; (es, p2) ← entry_loop one fuel p1; ok (add_entry e es, p2)) in
    if at end_of_input p then ok (no_entries, p) else more

-- ParseEntry at the top level.
pub top_entry : Parser → Step (Option Entry)
top_entry p = parse_entry (parse_value (levels p) 0) (parse_body (levels p) 1) 0 false p

-- ParseDocument
pub parse_document : Parser → Step Document
parse_document p = do
  let empty : Document = record {
    type_url = [];
    directives = [];
    datasets = [];
    protos = [];
    body_offset = 0;
    entries = no_entries;
    leading_comments = p.comments;
    trailing_comments = [];
  }
  (doc, p1) ← directive_loop (length p.lex.rest + 2) empty (flush p)
  (_, p2) ← standalone doc.datasets doc.type_url p1
  (es, p3) ← entry_loop top_entry (length p2.lex.rest + 2) p2
  ok (record doc { entries = es; trailing_comments = p3.comments }, flush p3)

-- ParseOptions: a limit that is not positive is 0 here.
pub record ParseOptions : Type 0 where
  pub max_message_size : ℕ
  pub max_nesting_depth : ℕ
  pub max_bytes_literal_length : ℕ

abbrev pub limit_or : ℕ → ℕ → ℕ
limit_or n default = if ltb 0 n then n else default

abbrev pub default_message_size : ℕ
default_message_size = 64 * 2 ^ 20

abbrev pub default_nesting_depth : ℕ
default_nesting_depth = 100

-- The parser that Parse and ParseTolerant start with.
pub new_parser : List (ℕ × ℕ) → Bool → ParseOptions → List ℕ → Parser
new_parser table tolerant opts input =
    start_parser table tolerant (limit_or opts.max_nesting_depth default_nesting_depth)
      (limit_or opts.max_bytes_literal_length default_message_size) start_of_document input

abbrev pub too_large : ParseOptions → List ℕ → Bool
too_large opts input = ltb (limit_or opts.max_message_size default_message_size) (length input)

too_large_msg : ParseOptions → List ℕ → List ℕ
too_large_msg opts input =
    codes "input of "
    ++ (decimal (length input)
        ++ (codes " bytes exceeds MaxMessageSize="
            ++ decimal (limit_or opts.max_message_size default_message_size)))

-- What Parse returns: a document, or a position and a message. `out_of_fuel` is no outcome of the
-- source.
pub data Parsed : Type 0 where
  document : Document → Parsed
  refused : Position → List ℕ → Parsed
  out_of_fuel : Parsed

pub parsed : Step Document → Parsed
parsed (ok (doc, p)) = document doc
parsed (failed at_pos msg p) = refused at_pos msg
parsed Step.out_of_fuel = Parsed.out_of_fuel

-- Parse
pub parse : List (ℕ × ℕ) → ParseOptions → List ℕ → Parsed
parse table opts input =
    if too_large opts input
    then refused start_of_document (too_large_msg opts input)
    else parsed (parse_document (new_parser table false opts input))

-- TakeErrors calls std::stable_sort with `a.offset < b.offset`. The sort of the standard library is
-- written as an insertion sort, which gives the one list that is stable and in order.
pub insert_error : Position × List ℕ → List (Position × List ℕ) → List (Position × List ℕ)
insert_error e [] = e ∷ []
insert_error e (e' ∷ es) =
    if leb e.0.offset e'.0.offset then e ∷ e' ∷ es else e' ∷ insert_error e es

pub sort_errors : List (Position × List ℕ) → List (Position × List ℕ)
unfolding insert_error
sort_errors [] = []
sort_errors (e ∷ es) = insert_error e (sort_errors es)

-- The end of ParseTolerant. A document that was not parsed is empty, and its failure is recorded.
pub with_errors : Step Document → Option Document × List (Position × List ℕ)
unfolding sort_errors
with_errors (ok (doc, p)) = (some doc, sort_errors p.lex.errors)
with_errors (failed at_pos msg p) = (none, sort_errors (record_error at_pos msg p).lex.errors)
with_errors Step.out_of_fuel = (none, [])

-- ParseTolerant
pub parse_tolerant :
    List (ℕ × ℕ) → ParseOptions → List ℕ → Option Document × List (Position × List ℕ)
parse_tolerant table opts input =
    if too_large opts input
    then (none, (start_of_document, too_large_msg opts input) ∷ [])
    else with_errors (parse_document (new_parser table true opts input))
