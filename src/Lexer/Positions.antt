-- ===== src/Lexer/Positions.antt =====
-- Where the lexer stands in its document: the rest is what the input holds from the index on, and the
-- line and column are those of the text in front of it.
use protowire_cpp.Common.{
  ℕ, zero, suc, ◌+◌, ◌≡◌, refl, ◌∙◌, arith, List, [], ◌∷◌, ◌++◌, append-nil, append_assoc, Bool,
  inl, inr, ◌==◌, if◌then◌else◌, length, length-append,
}
use protowire_cpp.Lexer.{Lexer, Position, advance, new_lexer}
use protowire_cpp.Lexer.Kept.{List-cases}
use protowire_cpp.Lexer.Next.{next}
use protowire_cpp.Lexer.Next.Kept.{next-kept}

-- The line and column behind a text that starts at `line` and `column`: a newline opens a line, and
-- any other byte is a column.
unfoldable pub line_behind : ℕ → List ℕ → ℕ
line_behind line [] = line
line_behind line (c ∷ s) = line_behind (if c == 10 then line + 1 else line) s

unfoldable pub column_behind : ℕ → List ℕ → ℕ
column_behind column [] = column
column_behind column (c ∷ s) = column_behind (if c == 10 then 1 else column + 1) s

line_behind-append :
    (line : ℕ) (s t : List ℕ) → line_behind line (s ++ t) ≡ line_behind (line_behind line s) t
unfolding line_behind
line_behind-append line [] t = refl
line_behind-append line (c ∷ s) t = line_behind-append (if c == 10 then line + 1 else line) s t

column_behind-append :
    (column : ℕ) (s t : List ℕ)
    → column_behind column (s ++ t) ≡ column_behind (column_behind column s) t
unfolding column_behind
column_behind-append column [] t = refl
column_behind-append column (c ∷ s) t = column_behind-append (if c == 10 then 1 else column + 1) s t

-- The lexer has taken `front` of its input.
abbrev pub StandsBehind : Lexer → List ℕ → Type 0
StandsBehind lx front =
    (front ++ lx.rest ≡ lx.input)
    × (lx.index ≡ length front)
    × (lx.line ≡ line_behind lx.start.line front)
    × (lx.column ≡ column_behind lx.start.column front)

-- What a lexer that has taken `front` of `lx.input` may become: it has taken more of it.
abbrev pub Follows : Lexer → List ℕ → Lexer → Type 0
Follows lx front later =
    (later.input ≡ lx.input)
    × (later.start ≡ lx.start)
    × ((taken : List ℕ) × StandsBehind later (front ++ taken))

advance-StandsBehind :
    (lx : Lexer) (front s : List ℕ) (c : ℕ)
    → lx.rest ≡ c ∷ s
    → StandsBehind lx front
    → StandsBehind (advance lx) (front ++ (c ∷ []))
unfolding advance line_behind column_behind
advance-StandsBehind lx front s c e (here, index, line, column) = ground (
  arith,
  e,
  append_assoc front (c ∷ []) s,
  length-append front (c ∷ []),
  line_behind-append lx.start.line front (c ∷ []),
  column_behind-append lx.start.column front (c ∷ []),
)

advance-Follows :
    (lx later : Lexer) (front : List ℕ) → Follows lx front later → Follows lx front (advance later)
advance-Follows lx later front (same, start, (taken, h)) = elim (List-cases later.rest) [
  | inl e ↦
      let stays : advance later ≡ later = unfold advance in ground (arith, e) in
      rw stays (same, start, (taken, h))
  | inr (c, s, e) ↦
      let kept : ((advance later).input ≡ later.input) × ((advance later).start ≡ later.start) =
        unfold advance in ground (arith, e) in
      (
        kept.0 ∙ same,
        kept.1 ∙ start,
        (
          taken ++ (c ∷ []),
          rw (← append_assoc front taken (c ∷ []))
              (advance-StandsBehind later (front ++ taken) s c e h),
        ),
      )
]

-- A new lexer stands at the start of its document.
new_lexer-StandsBehind :
    (input : List ℕ) (start : Position) (max : ℕ) (tolerant : Bool)
    → StandsBehind (new_lexer input start max tolerant) []
unfolding line_behind column_behind
new_lexer-StandsBehind input start max tolerant = (refl, refl, refl, refl)

-- Where a lexer has taken `front` of its document, with the line and column of the text behind
-- `front`, Next takes some more of the document, changes neither document nor start, and again
-- leaves the index, the line and the column of the text taken, whatever the token and the mode.
pub next-Follows :
    (table : List (ℕ × ℕ)) (lx : Lexer) (front : List ℕ)
    → StandsBehind lx front
    → Follows lx front (next table lx).0
next-Follows table lx front h =
    next-kept (Follows lx front) (λ later. advance-Follows lx later front) (λ later pos msg h'. h')
      table lx (refl, refl, ([], rw (append-nil front) h))

-- The lexer behind `n` tokens.
unfoldable pub next_tokens : List (ℕ × ℕ) → ℕ → Lexer → Lexer
next_tokens table zero lx = lx
next_tokens table (suc n) lx = next_tokens table n (next table lx).0

next_tokens-Follows :
    (table : List (ℕ × ℕ)) (n : ℕ) (lx : Lexer) (front : List ℕ)
    → StandsBehind lx front
    → Follows lx front (next_tokens table n lx)
unfolding next_tokens
next_tokens-Follows table zero lx front h = (refl, refl, ([], rw (append-nil front) h))
next_tokens-Follows table (suc n) lx front h =
    let (same, start, (taken, h')) = next-Follows table lx front h in
    let (same', start', (taken', h'')) =
      next_tokens-Follows table n (next table lx).0 (front ++ taken) h' in
    (same' ∙ same, start' ∙ start, (taken ++ taken', rw (append_assoc front taken taken') at h''))

-- However many tokens Next has given from a document that starts at a position, the lexer stands
-- behind a front of it, and the index, line and column are those of that front.
pub next_tokens-StandsBehind :
    (table : List (ℕ × ℕ)) (n : ℕ) (input : List ℕ) (start : Position) (max : ℕ) (tolerant : Bool)
    → Follows
        (new_lexer input start max tolerant)
        []
        (next_tokens table n (new_lexer input start max tolerant))
next_tokens-StandsBehind table n input start max tolerant =
    next_tokens-Follows table n (new_lexer input start max tolerant) []
      (new_lexer-StandsBehind input start max tolerant)
