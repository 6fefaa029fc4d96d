-- ===== src/Parser/Good.antt =====
-- What a result of the parser's functions satisfies: the value and the state that it returns, or the
-- state that it fails in. A result without fuel satisfies nothing.
use protowire_cpp.Common.{ℕ, List}
use protowire_cpp.Lexer.{Position}
use protowire_cpp.Parser.{Parser, Step, ok, failed, ◌>>=◌}

pub data Good {A : Type 0} (Q : A × Parser → Type 0) (E : Parser → Type 0) : Step A → Type 0 where
  done : {r : A × Parser} → Q r → Good Q E (ok r)
  refused : {pos : Position} {msg : List ℕ} {p : Parser} → E p → Good Q E (failed pos msg p)

pub Good-bind :
    {A B : Type 0} {Q : A × Parser → Type 0} {E : Parser → Type 0} (R : B × Parser → Type 0)
    (F : Parser → Type 0) {s : Step A} (f : A × Parser → Step B)
    → Good Q E s
    → ((p : Parser) → E p → F p)
    → ((a : A) (p : Parser) → Q (a, p) → Good R F (f (a, p)))
    → Good R F (s >>= f)
Good-bind R F f (done {r = (a, p)} q) k l = l a p q
Good-bind R F f (refused e) k l = refused (k _ e)

-- A result kept, and what it satisfies weakened.
pub Good-map :
    {A : Type 0} {Q : A × Parser → Type 0} {E : Parser → Type 0} (R : A × Parser → Type 0)
    {s : Step A}
    → Good Q E s
    → ((a : A) (p : Parser) → Q (a, p) → R (a, p))
    → Good R E s
Good-map R (done {r = (a, p)} q) l = done (l a p q)
Good-map R (refused e) l = refused e
