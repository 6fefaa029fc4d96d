-- ===== src/Ast.antt =====
-- The PXF syntax tree: include/protowire/pxf/ast.h and src/pxf/ast.cc. A vector is a list; the four
-- types that hold one another are one block, with their vectors.
pub mod Measures
use protowire_cpp.Common.{ℕ, Bool, Option, List}
use protowire_cpp.Common.Int.{ℤ}
use protowire_cpp.Common.Text.{codes}
use protowire_cpp.Lexer.{Position}

pub record Comment : Type 0 where
  pub pos : Position
  pub text : List ℕ

-- The `pos` and `end` of a node.
pub record Span : Type 0 where
  pub pos : Position
  pub end : Position

-- The alternatives of ValuePtr and EntryPtr.
mutual
  pub data Value : Type 0 where
    string_val : Span → List ℕ → Value
    int_val : Span → List ℕ → List ℕ → Value
    float_val : Span → List ℕ → List ℕ → Value
    bool_val : Span → Bool → Value
    bytes_val : Span → List ℕ → Value
    null_val : Span → Value
    ident_val : Span → List ℕ → Value
    timestamp_val : Span → ℤ → ℕ → List ℕ → Value
    duration_val : Span → ℤ → ℤ → List ℕ → Value
    list_val : Span → Values → Value
    block_val : Span → Entries → List Comment → Value
    bad_val : Span → Value

  pub data Values : Type 0 where
    no_values : Values
    value : Value → Values → Values

  -- An assignment and a map entry have a key, whether it was quoted, a value, the leading comments
  -- and the trailing one; a block its name, whether it was quoted, its entries, and the leading and
  -- trailing comments; a type entry its URL and the comments.
  pub data Entry : Type 0 where
    assignment : Span → List ℕ → Bool → Value → List Comment → List ℕ → Entry
    map_entry : Span → List ℕ → Bool → Value → List Comment → List ℕ → Entry
    block : Span → List ℕ → Bool → Entries → List Comment → List Comment → Entry
    type_entry : Span → List ℕ → List Comment → List ℕ → Entry

  pub data Entries : Type 0 where
    no_entries : Entries
    entry : Entry → Entries → Entries

-- ValueSpan and EntrySpan, whose first parts are ValuePos and EntryPos.
pub value_span : Value → Span
value_span (string_val s _) = s
value_span (int_val s _ _) = s
value_span (float_val s _ _) = s
value_span (bool_val s _) = s
value_span (bytes_val s _) = s
value_span (null_val s) = s
value_span (ident_val s _) = s
value_span (timestamp_val s _ _ _) = s
value_span (duration_val s _ _ _) = s
value_span (list_val s _) = s
value_span (block_val s _ _) = s
value_span (bad_val s) = s

pub entry_span : Entry → Span
entry_span (assignment s _ _ _ _ _) = s
entry_span (map_entry s _ _ _ _ _) = s
entry_span (block s _ _ _ _ _) = s
entry_span (type_entry s _ _ _) = s

pub record Directive : Type 0 where
  pub pos : Position
  pub name : List ℕ
  pub prefixes : List (List ℕ)
  pub type : List ℕ
  pub body : List ℕ
  pub has_body : Bool
  pub leading_comments : List Comment

pub record DatasetRow : Type 0 where
  pub pos : Position
  pub cells : List (Option Value)
  pub leading_comments : List Comment

pub record DatasetDirective : Type 0 where
  pub pos : Position
  pub type : List ℕ
  pub columns : List (List ℕ)
  pub rows : List DatasetRow
  pub leading_comments : List Comment

pub data ProtoShape : Type 0 where
  anonymous named source descriptor : ProtoShape

-- ProtoShapeName
pub proto_shape_name : ProtoShape → List ℕ
proto_shape_name anonymous = codes "anonymous"
proto_shape_name named = codes "named"
proto_shape_name source = codes "source"
proto_shape_name descriptor = codes "descriptor"

pub record ProtoDirective : Type 0 where
  pub pos : Position
  pub shape : ProtoShape
  pub type_name : List ℕ
  pub body : List ℕ
  pub leading_comments : List Comment

pub record Document : Type 0 where
  pub type_url : List ℕ
  pub directives : List Directive
  pub datasets : List DatasetDirective
  pub protos : List ProtoDirective
  pub body_offset : ℕ
  pub entries : Entries
  pub leading_comments : List Comment
  pub trailing_comments : List Comment
