-- ===== src/Parser.antt =====
-- The state of the PXF parser and the functions that move it: the class Parser of src/pxf/parser.cc
-- up to SyncTopLevel, and PeekKind. In tolerant mode the lexer and the parser report into one
-- vector, which is the lexer's here. `table` is the table of printable runes.
pub mod Values
pub mod Entries
pub mod Braces
pub mod Columns
pub mod Directives
pub mod Documents
pub mod Rows
pub mod Moved
pub mod Settled
mod Tests
pub mod Good
pub mod Sound
use protowire_cpp.Common.{
  ℕ, zero, suc, ◌+◌, ◌-◌, Bool, true, false, not, ◌&&◌, ◌||◌, List, [], ◌∷◌, ◌++◌, ◌==◌, ltb, leb,
  if◌then◌else◌, length, take,
}
use protowire_cpp.Common.Text.{codes}
use protowire_cpp.Utf8.{utf8}
use protowire_cpp.GoQuote.{go_quote}
use protowire_cpp.Lexer.{
  Lexer, Position, Token, TokenKind, kind_value, end_of_input, illegal, line_end, comment, ident,
  string, int, bool, lbrace, rparen, equals, colon, at_type, at_directive, at_dataset, at_proto,
  token_kind_name, current_pos, report, new_lexer, token,
}
use protowire_cpp.Lexer.Next.{next}
use protowire_cpp.Ast.{Comment, Span, Value, bad_val}

-- The fields of Parser. `err_pos_` is in a failed result instead.
pub record Parser : Type 0 where
  pub table : List (ℕ × ℕ)
  pub lex : Lexer
  pub current : Token
  pub comments : List Comment
  pub max_depth : ℕ
  pub for_decoder : Bool
  pub tolerant : Bool
  pub prev_end : Position

-- What a function of the parser returns: a value and the state, or the failure that Err makes, with
-- its position and message, and the state. `out_of_fuel` is no outcome of the source.
pub data Step (A : Type 0) : Type 0 where
  ok : A × Parser → Step A
  failed : Position → List ℕ → Parser → Step A
  out_of_fuel : Step A

infixl 5 ◌>>=◌
abbrev pub ◌>>=◌ : {A B : Type 0} → Step A → (A × Parser → Step B) → Step B
ok r >>= f = f r
failed pos msg p >>= f = failed pos msg p
out_of_fuel >>= f = out_of_fuel

-- Whether the current token is of a kind.
abbrev pub at : TokenKind → Parser → Bool
at k p = kind_value p.current.kind == kind_value k

-- One token from the lexer, which is current then.
pub read_token : Parser → Parser
read_token p = let (lex', t) = next p.table p.lex in record p { lex = lex'; current = t }

-- The current token is a comment: it is pending.
pub keep_comment : Parser → Parser
keep_comment p = record p {
  comments = p.comments ++ (record { pos = p.current.pos; text = p.current.value } ∷ []);
}

-- The loop of Advance: newlines are dropped and comments kept. Next takes a byte or reports the end,
-- so one more round than the bytes left is enough; the last clause is not reached.
pub advance_loop : ℕ → Parser → Parser
advance_loop zero p = p
advance_loop (suc fuel) p =
    let p' = read_token p in
    let past_newline = advance_loop fuel p' in
    let past_comment = advance_loop fuel (keep_comment p') in
    if at line_end p' then past_newline else if at comment p' then past_comment else p'

-- Advance
pub advance : Parser → Parser
advance p = advance_loop (length p.lex.rest + 1) (record p { prev_end = current_pos p.lex })

abbrev pub start_of_document : Position
start_of_document = record { line = 1; column = 1; offset = 0 }

-- The constructors of Parser over a document, strict and tolerant, with the first token read.
pub start_parser : List (ℕ × ℕ) → Bool → ℕ → ℕ → Position → List ℕ → Parser
start_parser table tolerant max_depth max_bytes start input = advance (record {
  table = table;
  lex = new_lexer input start max_bytes tolerant;
  current = token end_of_input [] start_of_document;
  comments = [];
  max_depth = max_depth;
  for_decoder = false;
  tolerant = tolerant;
  prev_end = start_of_document;
})

-- FlushComments, whose result is `p.comments`.
abbrev pub flush : Parser → Parser
flush p = record p { comments = [] }

-- Comments put back in front of the pending ones.
abbrev pub put_back : List Comment → Parser → Parser
put_back cs p = record p { comments = cs ++ p.comments }

-- TakeTrailingComment
pub take_trailing_comment : Position → Parser → List ℕ × Parser
take_trailing_comment end p = elim p.comments [
  | [] ↦ ([], p)
  | c ∷ cs ↦
      if not (c.pos.line == end.line) || ltb c.pos.offset end.offset
      then ([], p)
      else (c.text, record p { comments = cs })
]

-- The push_back into errs_, also that of Record.
abbrev pub record_error : Position → List ℕ → Parser → Parser
record_error pos msg p = record p { lex = report p.lex pos msg }

-- Soft
pub soft : Position → List ℕ → Parser → Step (Unit {0})
soft pos msg p = if p.tolerant then ok (tt, record_error pos msg p) else failed pos msg p

-- TokenEnd
abbrev pub token_end : Parser → Position
token_end p = current_pos p.lex

-- TokenErrMsg
pub token_err_msg : Parser → List ℕ
token_err_msg p =
    if at illegal p
    then p.current.value
    else token_kind_name p.current.kind
      ++ (codes " (" ++ (go_quote p.table p.current.value ++ codes ")"))

-- DatasetTokenMsg
pub dataset_token_msg : Parser → List ℕ
dataset_token_msg p = if p.for_decoder then token_err_msg p else token_kind_name p.current.kind

-- Clip and WrittenKey
pub clip : List ℕ → List ℕ
clip s = if leb (length s) 24 then s else take 24 s ++ utf8 "…"

pub written_key : List ℕ → List ℕ → List ℕ
unfolding clip
written_key key prec = if length prec == 0 then key else key ++ (codes "p" ++ clip prec)

-- BadValue
abbrev pub bad_value : Position → Value
bad_value pos = bad_val (record { pos = pos; end = pos })

-- PeekKind: the lookahead is undone, so only its kind is left of it.
pub peek_kind : Parser → TokenKind
peek_kind p = (advance p).current.kind

-- CurrentStartsEntry
pub current_starts_entry : Parser → Bool
current_starts_entry p =
    let after = kind_value (peek_kind p) in
    (at ident p || (at string p || (at int p || at bool p)))
    && (after == kind_value equals || (after == kind_value colon || after == kind_value lbrace))

-- TolerantRowClose
abbrev pub tolerant_row_close : Parser → Bool
tolerant_row_close p = p.tolerant && at rparen p

-- SkipBalanced, with `depth` open at the current token.
pub skip_balanced : ℕ → TokenKind → TokenKind → ℕ → Parser → Step Position
skip_balanced zero opening closing depth p = out_of_fuel
skip_balanced (suc fuel) opening closing depth p =
    let deeper = skip_balanced fuel opening closing (depth + 1) (advance p) in
    let shallower = skip_balanced fuel opening closing (depth - 1) (advance p) in
    let on = skip_balanced fuel opening closing depth (advance p) in
    if at opening p
    then deeper
    else if at closing p
    then (if leb depth 1 then ok (token_end p, advance p) else shallower)
    else if at end_of_input p
    then ok (p.current.pos, p)
    else on

-- SyncTopLevel
pub sync_top_level : ℕ → Parser → Step (Unit {0})
sync_top_level zero p = out_of_fuel
sync_top_level (suc fuel) p =
    let on = sync_top_level fuel (advance p) in
    if at end_of_input p
      || (at at_type p
          || (at at_directive p
              || (at at_dataset p || (at at_proto p || (at ident p || (at string p || at int p))))))
    then ok (tt, p)
    else on
