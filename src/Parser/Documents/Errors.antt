-- ===== src/Parser/Documents/Errors.antt =====
-- The errors that ParseTolerant returns are as many as the parser recorded.
use protowire_cpp.Common.{ℕ, ◌+◌, ◌≡◌, refl, arith, List, [], ◌∷◌, length}
use protowire_cpp.Lexer.{Position}
use protowire_cpp.Parser.Documents.{insert_error, sort_errors}

length-insert_error :
    (e : Position × List ℕ) (es : List (Position × List ℕ))
    → length (insert_error e es) ≡ length es + 1
unfolding insert_error
length-insert_error e [] = refl
length-insert_error e (e' ∷ es) = ground (arith, length-insert_error e es)

pub length-sort_errors : (es : List (Position × List ℕ)) → length (sort_errors es) ≡ length es
unfolding sort_errors
length-sort_errors [] = refl
length-sort_errors (e ∷ es) =
    omega (arith, length-insert_error e (sort_errors es), length-sort_errors es)
