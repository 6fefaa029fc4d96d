-- ===== src/Parser/Braces/Tests.antt =====
-- FindMatchingBrace of src/pxf/parser.cc on a concrete block.
use protowire_cpp.Common.{ℕ, ◌<◌, ◌≡◌, refl, some, List, length, get_or}
use protowire_cpp.Common.Text.{codes}
use protowire_cpp.Parser.Braces.{
  find_matching_brace, scan, scan_byte, scan_code, scan_inside, scan_quote, scan_pair,
}
use protowire_cpp.Parser.Braces.Bounds.{find_matching_brace_bounds}

abbrev block_text : List ℕ
block_text = codes "a { x = \"}\" # }\n b { } } z"

block_text-match : find_matching_brace block_text 2 ≡ some 23
unfolding find_matching_brace scan scan_byte scan_code scan_inside scan_quote scan_pair
block_text-match = refl

find_matching_brace_bounds_example :
    (2 < 23) × ((23 < length block_text) × (get_or block_text 23 0 ≡ 125))
find_matching_brace_bounds_example = find_matching_brace_bounds block_text 2 23 block_text-match
