-- ===== src/Parser/Documents/Tests.antt =====
-- Parse and ParseTolerant of src/pxf/parser.cc on concrete documents.
use protowire_cpp.Common.{ℕ, refl, List, []}
use protowire_cpp.Common.Text.{codes}
use protowire_cpp.Parser.Documents.{ParseOptions, parse, parse_tolerant}
use protowire_cpp.Parser.Documents.Parse.{Strict, parse-Strict}
use protowire_cpp.Parser.Documents.Tolerant.{Told, parse_tolerant-Told}

abbrev two_levels : ParseOptions
two_levels = record { max_message_size = 0; max_nesting_depth = 2; max_bytes_literal_length = 0 }

abbrev good_text : List ℕ
good_text = codes "@type a.B\nx = 1\nb { y = [1, true] }\n"

abbrev bad_text : List ℕ
bad_text = codes "x = \ny = [1 2\nb { y = [[[1]]] } @t"

parse-Strict_example : Strict 2 (parse [] two_levels good_text)
parse-Strict_example = parse-Strict [] two_levels good_text

parse_tolerant-Told_example : Told 2 (parse_tolerant [] two_levels bad_text)
parse_tolerant-Told_example = parse_tolerant-Told [] two_levels bad_text refl
