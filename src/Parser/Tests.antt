-- ===== src/Parser/Tests.antt =====
-- Advance of src/pxf/parser.cc on a concrete document.
use protowire_cpp.Common.{◌≡◌, false, []}
use protowire_cpp.Common.Text.{codes}
use protowire_cpp.Lexer.{line_end, comment}
use protowire_cpp.Parser.{Parser, start_of_document, start_parser, at, advance}
use protowire_cpp.Parser.Settled.{advance-Settled}

abbrev commented_text : Parser
commented_text =
    start_parser [] false 100 100 start_of_document (codes "a\n# one\n\n /* two */ = 1")

advance-Settled_example :
    (at line_end (advance commented_text) ≡ false) × (at comment (advance commented_text) ≡ false)
advance-Settled_example = advance-Settled commented_text
