-- ===== src/Parser/Documents/Tolerant.antt =====
-- ParseTolerant: it always returns a document, with no more bad values than errors.
use protowire_cpp.Common.{tested}
use protowire_cpp.Common.{ℕ, ◌+◌, ◌≤◌, ◌≡◌, refl, arith, true, false, Option, some, List, length}
use protowire_cpp.Lexer.{Position}
use protowire_cpp.Ast.{Document}
use protowire_cpp.Ast.Measures.{entries_bads, entries_depth}
use protowire_cpp.Parser.{Parser, Step}
use protowire_cpp.Parser.Good.{Good, done, refused}
use protowire_cpp.Parser.Sound.{Refusal}
use protowire_cpp.Parser.Entries.Bodies.{EntriesMade}
use protowire_cpp.Parser.Documents.{
  ParseOptions, new_parser, too_large, with_errors, parse_tolerant,
}
use protowire_cpp.Parser.Documents.Sound.{parse_document-Good}
use protowire_cpp.Parser.Documents.Errors.{length-sort_errors}
use protowire_cpp.Parser.Documents.Parse.{nesting_limit, new_parser-Under}

-- A document, whose bad values are no more than the errors.
abbrev pub Told : ℕ → Option Document × List (Position × List ℕ) → Type 0
Told limit r =
    (doc : Document) × ((r.0 ≡ some doc)
      × ((entries_bads doc.entries ≤ length r.1) × (entries_depth doc.entries ≤ limit + 1)))

with_errors-Told :
    (limit : ℕ) (p : Parser) (s : Step Document)
    → Good (λ r. EntriesMade true limit 0 p (r.0.entries, r.1)) (Refusal true) s
    → Told limit (with_errors s)
unfolding with_errors
with_errors-Told limit p _ (done {r = (doc, q)} x) =
    let tells = x.moved.tells in
    let fits = x.fits in
    (doc, (refl, (omega (arith, length-sort_errors q.lex.errors), omega (arith, fits))))
with_errors-Told limit p _ (refused (f, g)) = absurd (ground (arith, f))

-- Of an input within the size limit ParseTolerant returns a document and its errors. The bad values
-- among the entries of the document are no more than the errors, and its lists and blocks nest at most one level deeper than the limit.
pub parse_tolerant-Told :
    (table : List (ℕ × ℕ)) (opts : ParseOptions) (input : List ℕ)
    → too_large opts input ≡ false
    → Told (nesting_limit opts) (parse_tolerant table opts input)
unfolding parse_tolerant
parse_tolerant-Told table opts input h =
    tested (Told (nesting_limit opts)) (too_large opts input) (λ e. absurd (ground (arith, e, h)))
      (λ _. with_errors-Told (nesting_limit opts) (new_parser table true opts input) _ (
        parse_document-Good true (nesting_limit opts) (new_parser table true opts input)
          (new_parser-Under table true opts input)))
