-- ===== src/Parser/Documents/Parse.antt =====
-- Parse and ParseTolerant: what a caller can rely on.
use protowire_cpp.Common.{tested}
use protowire_cpp.Common.{ℕ, ◌≤◌, ◌≡◌, refl, arith, Bool, false, List}
use protowire_cpp.Ast.{Document}
use protowire_cpp.Ast.Measures.{entries_bads, entries_depth}
use protowire_cpp.Parser.{Parser, Step}
use protowire_cpp.Parser.Good.{Good, done, refused}
use protowire_cpp.Parser.Sound.{Under, start_parser-Under, Refusal}
use protowire_cpp.Parser.Entries.Bodies.{EntriesMade}
use protowire_cpp.Parser.Documents.{
  ParseOptions, limit_or, default_nesting_depth, new_parser, too_large, Parsed, document, parsed,
  parse,
}
use protowire_cpp.Parser.Documents.Sound.{parse_document-Good}

-- The limit of the options on the nesting.
abbrev pub nesting_limit : ParseOptions → ℕ
nesting_limit opts = limit_or opts.max_nesting_depth default_nesting_depth

pub new_parser-Under :
    (table : List (ℕ × ℕ)) (t : Bool) (opts : ParseOptions) (input : List ℕ)
    → Under t (nesting_limit opts) (new_parser table t opts input)
unfolding new_parser
new_parser-Under table t opts input = start_parser-Under table t _ _ _ input

-- A document without bad values, whose lists and blocks nest no deeper than the limit, or a refusal.
abbrev pub Strict : ℕ → Parsed → Type 0
Strict limit (document doc) = (entries_bads doc.entries ≡ 0) × (entries_depth doc.entries ≤ limit)
Strict limit (Parsed.refused at_pos msg) = Unit
Strict limit Parsed.out_of_fuel = ⊥

parsed-Strict :
    (limit : ℕ) (p : Parser) (s : Step Document)
    → Good (λ r. EntriesMade false limit 0 p (r.0.entries, r.1)) (Refusal false) s
    → Strict limit (parsed s)
unfolding parsed
parsed-Strict limit p _ (done {r = (d, q)} x) =
    let fits = x.fits in (x.strict refl, omega (arith, fits))
parsed-Strict limit p _ (refused q) = tt

-- Parse ends on every input: it returns a document or a refusal, and the fuel of the model is never
-- used up. A document that it returns holds no bad value among its entries, and their lists and blocks
-- nest no deeper than the limit of the options.
pub parse-Strict :
    (table : List (ℕ × ℕ)) (opts : ParseOptions) (input : List ℕ)
    → Strict (nesting_limit opts) (parse table opts input)
unfolding parse
parse-Strict table opts input =
    tested (Strict (nesting_limit opts)) (too_large opts input) (λ _. tt)
      (λ _. parsed-Strict (nesting_limit opts) (new_parser table false opts input) _ (
        parse_document-Good false (nesting_limit opts) (new_parser table false opts input)
          (new_parser-Under table false opts input)))
