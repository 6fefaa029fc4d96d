-- ===== src/Parser/Values.antt =====
-- Values, entries and bodies of src/pxf/parser.cc: ParseEntry, ParseValue, ParseList, ParseBlockVal,
-- ParseBody and ParseTypeEntry. A function that calls another one deeper takes it as an argument,
-- and `parse_value` and `parse_body` close the recursion, on fuel for the levels below.
pub mod Scalars
pub mod Sound
use protowire_cpp.Common.{
  ℕ, zero, suc, ◌+◌, ◌-◌, Bool, true, false, not, ◌&&◌, ◌||◌, Option, none, some, List, [], ◌∷◌,
  ◌++◌, ◌==◌, ltb, if◌then◌else◌, length,
}
use protowire_cpp.Common.Int.{ℤ, pos}
use protowire_cpp.Common.Text.{codes, same_text, decimal}
use protowire_cpp.Utf8.{utf8}
use protowire_cpp.GoQuote.{go_quote}
use protowire_cpp.Base64.Go.{Decoded, error_at, decode_lenient}
use protowire_cpp.Duration.{parse_duration}
use protowire_cpp.Rfc3339.{parse_rfc3339}
use protowire_cpp.Lexer.{
  Position, TokenKind, kind_value, end_of_input, illegal, ident, string, int, float, bool, null,
  bytes, timestamp, duration, lbrace, rbrace, lbracket, rbracket, rparen, equals, colon, comma,
  at_type, token_kind_name,
}
use protowire_cpp.Ast.{
  Comment, Span, Value, string_val, int_val, float_val, bool_val, bytes_val, null_val, ident_val,
  timestamp_val, duration_val, list_val, block_val, bad_val, Values, no_values, value, Entry,
  assignment, map_entry, block, type_entry, Entries, no_entries, entry, value_span,
}
use protowire_cpp.Parser.{
  Parser, Step, ok, failed, ◌>>=◌, at, advance, flush, put_back, take_trailing_comment,
  record_error, soft, token_end, token_err_msg, clip, written_key, bad_value, current_starts_entry,
  tolerant_row_close, skip_balanced,
}

abbrev pub here : Parser → Span
here p = record { pos = p.current.pos; end = token_end p }

-- A literal that takes the current token.
abbrev pub literal : (Span → Value) → Parser → Step Value
literal node p = ok (node (here p), advance p)

-- A bytes literal, decoded.
pub bytes_value : Decoded → Parser → Step Value
bytes_value (Decoded.bytes d) p = literal (λ s. bytes_val s d) p
bytes_value (error_at offset) p = do
  (_, p1) ←
      soft p.current.pos
        (codes "invalid base64: illegal base64 data at input byte " ++ decimal offset) p
  ok (bad_value p.current.pos, advance p1)

-- The seconds and nanoseconds of a literal that the lexer has checked.
pub or_zero : {A B : Type 0} → A → B → Option (A × B) → A × B
or_zero a b none = (a, b)
or_zero a b (some r) = r

-- The default of ParseValue.
pub no_value : Parser → Step Value
no_value p =
    let msg =
      if at illegal p then p.current.value else codes "expected value, got " ++ token_err_msg p in
    let p1 = record_error p.current.pos msg p in
    let stays = at end_of_input p || (at rbrace p || (at rbracket p || at rparen p)) in
    if p.tolerant
    then ok (bad_value p.current.pos, if stays then p1 else advance p1)
    else failed p.current.pos msg p

-- ParseValue on a token that opens neither a list nor a block.
pub parse_scalar : Parser → Step Value
unfolding or_zero
parse_scalar p =
    let text = p.current.value in
    let (t_seconds, t_nanos) = or_zero (pos 0) 0 (parse_rfc3339 text) in
    let (d_seconds, d_nanos) = or_zero (pos 0) (pos 0) (parse_duration text) in
    if at string p
    then literal (λ s. string_val s text) p
    else if at int p
    then literal (λ s. int_val s text p.current.prec) p
    else if at float p
    then literal (λ s. float_val s text p.current.prec) p
    else if at bool p
    then literal (λ s. bool_val s (same_text text (codes "true"))) p
    else if at bytes p
    then bytes_value (decode_lenient text) p
    else if at timestamp p
    then literal (λ s. timestamp_val s t_seconds t_nanos text) p
    else if at duration p
    then literal (λ s. duration_val s d_seconds d_nanos text) p
    else if at null p
    then literal null_val p
    else if at ident p
    then literal (λ s. ident_val s text) p
    else no_value p

-- The message of the depth limit.
pub too_deep : Parser → List ℕ
too_deep p = codes "nesting depth exceeds MaxNestingDepth=" ++ decimal p.max_depth

-- The position past a block or list that is too deep to descend into.
pub skip_deep : TokenKind → TokenKind → Parser → Step Position
skip_deep opening closing p = do
  (_, p1) ← soft p.current.pos (too_deep p) p
  skip_balanced (length p1.lex.rest + 2) opening closing 0 p1

pub is_bad : Value → Bool
is_bad (bad_val s) = true
is_bad (string_val s _) = false
is_bad _ = false

-- The loop of ParseList, on the lexer's bytes and the current token as fuel. An element takes a
-- token, or the loop ends.
pub list_loop : (Parser → Step Value) → ℕ → Parser → Step Values
unfolding is_bad
list_loop element zero p = Step.out_of_fuel
list_loop element (suc fuel) p =
    let more = (do
      (v, p1) ← element p
      let on = (do
        (vs, p2) ← list_loop element fuel (if at comma p1 then advance p1 else p1)
        ok (value v vs, p2))
      if p.tolerant && (p1.current.pos.offset == p.current.pos.offset && is_bad v)
          then ok (no_values, p1)
          else on) in
    if at rbracket p || (at end_of_input p || tolerant_row_close p) then ok (no_values, p) else more

-- ParseList behind its loop.
pub close_list : Position → Values → Parser → Step Value
close_list start vs p =
    if at rbracket p
    then ok (list_val (record { pos = start; end = token_end p }) vs, advance p)
    else (do
      (_, p1) ← soft p.current.pos (codes "expected ']', got " ++ token_kind_name p.current.kind) p
      ok (list_val (record { pos = start; end = p.current.pos }) vs, p1))

-- ParseList
pub parse_list : (Parser → Step Value) → ℕ → Parser → Step Value
parse_list element depth p =
    if ltb p.max_depth (depth + 1)
    then (do
      (end, p1) ← skip_deep lbracket rbracket p
      ok (list_val (record { pos = p.current.pos; end = end }) no_values, p1))
    else (do
      (vs, p1) ← list_loop element (length (advance p).lex.rest + 2) (advance p)
      close_list p.current.pos vs p1)

-- What ParseBody returns: the entries, the end and the trailing comments.
pub record Body : Type 0 where
  pub entries : Entries
  pub end : Position
  pub trailing : List Comment

-- ParseBlockVal
pub parse_block_val : (Parser → Step Body) → ℕ → Parser → Step Value
parse_block_val body depth p =
    if ltb p.max_depth (depth + 1)
    then (do
      (end, p1) ← skip_deep lbrace rbrace p
      ok (block_val (record { pos = p.current.pos; end = end }) no_entries [], p1))
    else (do
      (b, p1) ← body (advance p)
      ok (block_val (record { pos = p.current.pos; end = b.end }) b.entries b.trailing, p1))

-- ParseValue, over ParseValue and ParseBody one level deeper.
pub value_at : (Parser → Step Value) → (Parser → Step Body) → ℕ → Parser → Step Value
value_at element body depth p =
    if p.tolerant && current_starts_entry p
    then ok (bad_value p.prev_end, record_error p.prev_end (codes "missing value") p)
    else if at lbracket p
    then parse_list element depth p
    else if at lbrace p
    then parse_block_val body depth p
    else parse_scalar p
