-- ===== src/Lexer/Tests.antt =====
-- The lexer of src/pxf/lexer.cc on concrete documents.
use protowire_cpp.Common.{ℕ, refl, false, List, []}
use protowire_cpp.Common.Text.{codes}
use protowire_cpp.Lexer.{Lexer, Position, new_lexer}
use protowire_cpp.Common.{◌≡◌, arith}
use protowire_cpp.Lexer.{end_of_input}
use protowire_cpp.Lexer.Progress.{next_tokens_end}
use protowire_cpp.Lexer.Next.{next}
use protowire_cpp.Lexer.Positions.{Follows, next-Follows, next_tokens, line_behind, column_behind}

abbrev start_of_document : Position
start_of_document = record { line = 1; column = 1; offset = 0 }

abbrev text : List ℕ
text = codes "a = \"x\\u0041\"\n b = -12 "

abbrev document : Lexer
document = new_lexer text start_of_document 100 false

next-Follows_example : Follows document [] (next [] document).0
next-Follows_example =
    next-Follows [] document [] (unfold line_behind column_behind in (refl, refl, refl, refl))

next_tokens_end_example : (next [] (next_tokens [] 30 document)).1.kind ≡ end_of_input
next_tokens_end_example = next_tokens_end [] 30 document (omega arith)
