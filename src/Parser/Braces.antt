-- ===== src/Parser/Braces.antt =====
-- FindMatchingBrace and BraceMatch of src/pxf/parser.cc and src/pxf/parser_internal.h.
pub mod Bounds
mod Tests
use protowire_cpp.Common.{
  ℕ, zero, suc, ◌+◌, ◌-◌, Bool, true, false, not, ◌&&◌, ◌||◌, Option, none, some, List, [], ◌∷◌,
  ◌==◌, leb, if◌then◌else◌, length, drop,
}

pub data Mode : Type 0 where
  code in_string triple_string in_bytes line_comment block_comment : Mode

-- The fields of BraceMatch.
pub record BraceMatch : Type 0 where
  pub depth : ℕ
  pub mode : Mode
  pub esc : Bool
  pub run : ℕ

-- The fields that a new BraceMatch has: the opening brace is read.
abbrev pub one_open : BraceMatch
one_open = record { depth = 1; mode = code; esc = false; run = 0 }

-- How a scan ends, with the index: in State::kOpen there is more to read, from the state that is
-- left.
pub data ScanEnd : Type 0 where
  still_open : ℕ → BraceMatch → ScanEnd
  closed failed : ℕ → ScanEnd

-- What the body of the loop does at a byte: end there, or go on `ahead` bytes behind the next.
pub data ScanStep : Type 0 where
  stop : ScanEnd → ScanStep
  go_on : ℕ → BraceMatch → ScanStep

-- The loop body at byte `ch` of index `i`, with `rest` behind it: in a literal or comment,
pub scan_inside : Mode → BraceMatch → ℕ → ℕ → ScanStep
scan_inside in_string m i ch =
    if m.esc
    then go_on 0 (record m { esc = false })
    else if ch == b'\\'
    then go_on 0 (record m { esc = true })
    else if ch == b'"'
    then go_on 0 (record m { mode = code })
    else if ch == b'\n'
    then stop (failed i)
    else go_on 0 m
scan_inside triple_string m i ch =
    if not (ch == b'"')
    then go_on 0 (record m { run = 0 })
    else if m.run + 1 == 3
    then go_on 0 (record m { mode = code; run = 0 })
    else go_on 0 (record m { run = m.run + 1 })
scan_inside in_bytes m i ch =
    if ch == b'"'
    then go_on 0 (record m { mode = code })
    else if ch == b'\n'
    then stop (failed i)
    else go_on 0 m
scan_inside line_comment m i ch = go_on 0 (if ch == b'\n' then record m { mode = code } else m)
scan_inside block_comment m i ch =
    if ch == b'/' && m.run == 1
    then go_on 0 (record m { mode = code; run = 0 })
    else go_on 0 (record m { run = (if ch == b'*' then 1 else 0) })
scan_inside code m i ch = go_on 0 m

-- at a quote,
pub scan_quote : BraceMatch → ℕ → List ℕ → ScanStep
scan_quote m i (c1 ∷ c2 ∷ rest) =
    if c1 == b'"' && c2 == b'"'
    then go_on 2 (record m { mode = triple_string })
    else go_on 0 (record m { mode = in_string })
scan_quote m i _ = stop (still_open i m)

-- at a 'b' or '/',
pub scan_pair : BraceMatch → ℕ → ℕ → List ℕ → ScanStep
scan_pair m i ch [] = stop (still_open i m)
scan_pair m i ch (c1 ∷ rest) =
    if ch == b'b' && c1 == b'"'
    then go_on 1 (record m { mode = in_bytes })
    else if ch == b'/' && c1 == b'/'
    then go_on 1 (record m { mode = line_comment })
    else if ch == b'/' && c1 == b'*'
    then go_on 1 (record m { mode = block_comment })
    else go_on 0 m

-- and in code.
pub scan_code : BraceMatch → ℕ → ℕ → List ℕ → ScanStep
unfolding scan_quote scan_pair
scan_code m i ch rest =
    if ch == b'{'
    then go_on 0 (record m { depth = m.depth + 1 })
    else if ch == b'}'
    then (if m.depth - 1 == 0 then stop (closed i) else go_on 0 (record m { depth = m.depth - 1 }))
    else if ch == b'"'
    then scan_quote m i rest
    else if ch == b'#'
    then go_on 0 (record m { mode = line_comment })
    else if ch == b'b' || ch == b'/'
    then scan_pair m i ch rest
    else go_on 0 m

pub scan_byte : Mode → BraceMatch → ℕ → ℕ → List ℕ → ScanStep
unfolding scan_code scan_inside
scan_byte code m i ch rest = scan_code m i ch rest
scan_byte mode m i ch rest = scan_inside mode m i ch

-- Scan from index `i`, where the rest is `s`, once `ahead` more bytes are passed over.
pub scan : BraceMatch → ℕ → ℕ → List ℕ → ScanEnd
unfolding scan_byte
scan m i ahead [] = still_open i m
scan m i (suc ahead) (ch ∷ s) = scan m (i + 1) ahead s
scan m i zero (ch ∷ s) = elim (scan_byte m.mode m i ch s) [
  | stop e ↦ e
  | go_on ahead m' ↦ scan m' (i + 1) ahead s
]

-- FindMatchingBrace: the index of the brace.
pub find_matching_brace : List ℕ → ℕ → Option ℕ
unfolding scan
find_matching_brace input open_offset =
    elim (scan one_open (open_offset + 1) 0 (drop (open_offset + 1) input)) [
      | closed i ↦ some i
      | failed i ↦ none
      | still_open i m ↦ none
    ]
