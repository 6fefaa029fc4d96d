-- ===== src/Lexer.antt =====
-- The cursor of the PXF lexer: include/protowire/pxf/lexer.h and token.h, and Advance and SkipSpaces
-- of src/pxf/lexer.cc. Positions are ints in the source, and numbers here, which is the same for a
-- document below 2 ^ 31 bytes. `max_bytes` is 0 where the source's bound is not positive. The texts
-- of tokens are values, so Store is the identity.
pub mod Strings
pub mod Literals
pub mod Numbers
pub mod Next
pub mod Kept
pub mod Positions
pub mod Progress
mod Tests
use protowire_cpp.Common.{
  ℕ, zero, suc, ◌+◌, ◌-◌, Bool, true, false, ◌&&◌, ◌||◌, List, [], ◌∷◌, ◌++◌, ◌==◌, ltb, within,
  if◌then◌else◌, length, get_or, take,
}
use protowire_cpp.Common.Text.{codes, is_digit}

pub data TokenKind : Type 0 where
  end_of_input illegal line_end comment : TokenKind
  ident string int float bool null bytes timestamp duration : TokenKind
  lbrace rbrace lbracket rbracket lparen rparen equals colon comma : TokenKind
  at_type at_directive at_dataset at_proto : TokenKind

-- The number of an enumerator.
abbrev pub kind_value : TokenKind → ℕ
kind_value end_of_input = 0
kind_value illegal = 1
kind_value line_end = 2
kind_value comment = 3
kind_value ident = 4
kind_value string = 5
kind_value int = 6
kind_value float = 7
kind_value bool = 8
kind_value null = 9
kind_value bytes = 10
kind_value timestamp = 11
kind_value duration = 12
kind_value lbrace = 13
kind_value rbrace = 14
kind_value lbracket = 15
kind_value rbracket = 16
kind_value lparen = 17
kind_value rparen = 18
kind_value equals = 19
kind_value colon = 20
kind_value comma = 21
kind_value at_type = 22
kind_value at_directive = 23
kind_value at_dataset = 24
kind_value at_proto = 25

-- TokenKindName
pub token_kind_name : TokenKind → List ℕ
token_kind_name end_of_input = codes "EOF"
token_kind_name illegal = codes "ILLEGAL"
token_kind_name line_end = codes "newline"
token_kind_name comment = codes "comment"
token_kind_name ident = codes "identifier"
token_kind_name string = codes "string"
token_kind_name int = codes "integer"
token_kind_name float = codes "float"
token_kind_name bool = codes "bool"
token_kind_name null = codes "null"
token_kind_name bytes = codes "bytes"
token_kind_name timestamp = codes "timestamp"
token_kind_name duration = codes "duration"
token_kind_name lbrace = codes "{"
token_kind_name rbrace = codes "}"
token_kind_name lbracket = codes "["
token_kind_name rbracket = codes "]"
token_kind_name equals = codes "="
token_kind_name colon = codes ":"
token_kind_name comma = codes ","
token_kind_name lparen = codes "("
token_kind_name rparen = codes ")"
token_kind_name at_type = codes "@type"
token_kind_name at_dataset = codes "@dataset"
token_kind_name at_proto = codes "@proto"
token_kind_name at_directive = codes "@directive"

pub record Position : Type 0 where
  pub line : ℕ
  pub column : ℕ
  pub offset : ℕ

pub record Token : Type 0 where
  pub kind : TokenKind
  pub value : List ℕ
  pub pos : Position
  pub prec : List ℕ

-- The fields of Lexer, with `rest` for what `input` holds from `index` (`pos_`) on. `tolerant` is
-- whether there is a vector of errors, and `errors` its contents.
pub record Lexer : Type 0 where
  pub input : List ℕ
  pub rest : List ℕ
  pub index : ℕ
  pub line : ℕ
  pub column : ℕ
  pub start : Position
  pub max_bytes : ℕ
  pub tolerant : Bool
  pub errors : List (Position × List ℕ)

-- A lexer over `input` that starts at `start` in its document.
abbrev pub new_lexer : List ℕ → Position → ℕ → Bool → Lexer
new_lexer input start max_bytes tolerant = record {
  input = input;
  rest = input;
  index = 0;
  line = start.line;
  column = start.column;
  start = start;
  max_bytes = max_bytes;
  tolerant = tolerant;
  errors = [];
}

abbrev pub token : TokenKind → List ℕ → Position → Token
token kind value pos = record { kind = kind; value = value; pos = pos; prec = [] }

-- CurrentPos
abbrev pub current_pos : Lexer → Position
current_pos lx = record { line = lx.line; column = lx.column; offset = lx.start.offset + lx.index }

-- Peek
abbrev pub peek : Lexer → ℕ → ℕ
peek lx k = get_or lx.rest k 0

-- Report
abbrev pub report : Lexer → Position → List ℕ → Lexer
report lx pos msg = record lx { errors = lx.errors ++ ((pos, msg) ∷ []) }

-- Advance, whose result the callers that need it take from Peek.
pub advance : Lexer → Lexer
advance lx = elim lx.rest [
  | [] ↦ lx
  | c ∷ s ↦ record lx {
    rest = s;
    index = lx.index + 1;
    line = (if c == b'\n' then lx.line + 1 else lx.line);
    column = (if c == b'\n' then 1 else lx.column + 1);
  }
]

pub advance_by : ℕ → Lexer → Lexer
advance_by zero lx = lx
advance_by (suc n) lx = advance_by n (advance lx)

-- `while (more) Advance()`, where `more` is a test on the rest that fails on the empty one. Each
-- round takes a byte.
pub skip_loop : (List ℕ → Bool) → ℕ → Lexer → Lexer
skip_loop more zero lx = lx
skip_loop more (suc fuel) lx =
    let later = skip_loop more fuel (advance lx) in if more lx.rest then later else lx

pub skip_while : (List ℕ → Bool) → Lexer → Lexer
skip_while more lx = skip_loop more (length lx.rest) lx

-- `pos_ < input_.size()` and a test on the byte there.
abbrev pub on_byte : (ℕ → Bool) → List ℕ → Bool
on_byte f [] = false
on_byte f (c ∷ s) = f c

-- `input_.substr(start, pos_ - start)`, from where `from` stood.
abbrev pub between : Lexer → Lexer → List ℕ
between from lx = take (lx.index - from.index) from.rest

-- IsIdentStart and IsIdentPart
pub is_ident_start : ℕ → Bool
is_ident_start c = within b'a' b'z' c || (within b'A' b'Z' c || c == b'_')

pub is_ident_part : ℕ → Bool
unfolding is_ident_start
is_ident_part c = is_ident_start c || (is_digit c || c == b'.')

-- SkipSpaces
pub skip_spaces : Lexer → Lexer
skip_spaces = skip_while (on_byte (λ c. c == b' ' || (c == b'\t' || c == b'\r')))

-- GetMark and Rewind. A mark here holds the rest that its index stands for.
pub record Mark : Type 0 where
  pub rest : List ℕ
  pub index : ℕ
  pub line : ℕ
  pub column : ℕ

pub get_mark : Lexer → Mark
get_mark lx = record { rest = lx.rest; index = lx.index; line = lx.line; column = lx.column }

pub rewind : Lexer → Mark → Lexer
rewind lx m = record lx { rest = m.rest; index = m.index; line = m.line; column = m.column }

-- RepositionTo
pub reposition_to : ℕ → Lexer → Lexer
unfolding advance_by
reposition_to target lx =
    let from =
      (if ltb target lx.index
        then record lx {
          rest = lx.input;
          index = 0;
          line = lx.start.line;
          column = lx.start.column;
        }
        else lx) in
    advance_by (target - from.index) from
