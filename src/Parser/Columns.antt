-- ===== src/Parser/Columns.antt =====
-- ColumnPathError of src/pxf/dataset_paths.cc.
use protowire_cpp.Common.{
  ℕ, ◌+◌, ◌-◌, Bool, false, not, ◌&&◌, ◌||◌, Option, none, some, List, [], ◌∷◌, ◌++◌, ◌==◌, ltb,
  if◌then◌else◌, length, get_or, take,
}
use protowire_cpp.Common.Text.{codes, same_text}
use protowire_cpp.Utf8.{utf8}
use protowire_cpp.GoQuote.{go_quote}

-- Whether ".." stands in a path.
pub has_dots : List ℕ → Bool
has_dots [] = false
has_dots (a ∷ []) = false
has_dots (a ∷ b ∷ s) = a == b'.' && b == b'.' || has_dots (b ∷ s)

-- HasEmptySegment
pub has_empty_segment : List ℕ → Bool
unfolding has_dots
has_empty_segment c =
    not (length c == 0)
    && (get_or c 0 0 == b'.' || (get_or c (length c - 1) 0 == b'.' || has_dots c))

-- IsPathPrefix
pub is_path_prefix : List ℕ → List ℕ → Bool
is_path_prefix prefix path =
    ltb (length prefix) (length path)
    && (get_or path (length prefix) 0 == b'.' && same_text (take (length prefix) path) prefix)

-- The inner loop: what is wrong with `c` behind the columns `prev`.
pub clash : List (ℕ × ℕ) → List ℕ → List (List ℕ) → Option (List ℕ)
unfolding is_path_prefix
clash table c [] = none
clash table c (prev ∷ columns) =
    if same_text prev c
    then some
        (codes "@dataset column " ++ (go_quote table c ++ utf8 " appears twice (draft §3.4.4)"))
    else if is_path_prefix prev c || is_path_prefix c prev
    then some (
        codes "@dataset column "
        ++ (go_quote table c
            ++ (codes " overlaps column "
                ++ (go_quote table prev
                    ++ utf8
                        ": a field and a path inside it cannot both be columns (draft §3.4.4)"))))
    else clash table c columns

-- The outer loop behind the columns `before`: the index of the column and the message.
pub column_loop : List (ℕ × ℕ) → ℕ → List (List ℕ) → List (List ℕ) → Option (ℕ × List ℕ)
unfolding clash has_empty_segment
column_loop table i before [] = none
column_loop table i before (c ∷ columns) =
    if has_empty_segment c
    then some (
      i,
      codes "@dataset column "
          ++ (go_quote table c ++ utf8 ": a column path has an empty segment (draft §3.4.4)"),
    )
    else elim (clash table c before) [
      | some msg ↦ some (i, msg)
      | none ↦ column_loop table (i + 1) (before ++ (c ∷ [])) columns
    ]

-- ColumnPathError
pub column_path_error : List (ℕ × ℕ) → List (List ℕ) → Option (ℕ × List ℕ)
unfolding column_loop
column_path_error table columns = column_loop table 0 [] columns
