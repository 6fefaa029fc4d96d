-- ===== src/Parser/Sound.antt =====
-- What the functions of the parser over values promise, in a mode and under a limit.
use protowire_cpp.Common.{tested}
use protowire_cpp.Common.{
  ℕ, zero, suc, ◌+◌, ◌-◌, ◌≤◌, ◌<◌, ◌≡◌, ◌∙◌, sym, refl, arith, Bool, true, false, List, [], ◌∷◌,
  leb, if◌then◌else◌, length-append,
}
use Prim.Native.Nat.{max}
use protowire_cpp.Lexer.{Position, TokenKind, kind_value, end_of_input}
use protowire_cpp.Parser.{
  Parser, Step, ◌>>=◌, start_parser, at, advance, record_error, soft, skip_balanced,
}
use protowire_cpp.Parser.Moved.{
  left, Moved, Moved-trans, Moved-weaken, advance-Moved, advance-Moved_on,
}
use protowire_cpp.Parser.Good.{Good, done, refused}

-- The mode and the limit that a parser has.
pub record Under (t : Bool) (limit : ℕ) (p : Parser) : Type 0 where
  pub mode : p.tolerant ≡ t
  pub depth : p.max_depth ≡ limit

pub Moved-Under :
    {t : Bool} {limit n b : ℕ} {p q : Parser} → Under t limit p → Moved n b p q → Under t limit q
Moved-Under u m = record { mode = m.mode ∙ u.mode; depth = m.depth ∙ u.depth }

pub start_parser-Under :
    (table : List (ℕ × ℕ)) (t : Bool) (max_depth max_bytes : ℕ) (start : Position) (input : List ℕ)
    → Under t max_depth (start_parser table t max_depth max_bytes start input)
unfolding start_parser
start_parser-Under table t max_depth max_bytes start input =
    let m = advance-Moved _ in record { mode = m.mode; depth = m.depth }

-- A result with `b` bad values, each told as an error and none in strict mode, that nests `d` levels
-- within a room.
pub record Sound (t : Bool) (room n b d : ℕ) (p q : Parser) : Type 0 where
  pub moved : Moved n b p q
  pub fits : d ≤ room
  pub strict : t ≡ false → b ≡ 0

-- The levels left at a depth; tolerant mode keeps the shell of one level too many.
abbrev pub room : Bool → ℕ → ℕ → ℕ
room t limit depth = limit + (if t then 1 else 0) - depth

-- Where the parser refuses: in strict mode.
abbrev pub Refusal : Bool → Parser → Type 0
Refusal t p = (t ≡ false) × (p.tolerant ≡ false)

-- What only adds errors.
pub recorded :
    {n b : ℕ} (e : ℕ) (pos : Position) (msg : List ℕ) {p q : Parser}
    → Moved n b p q
    → e ≤ b + 1
    → Moved n e p (record_error pos msg q)
recorded e pos msg {q} m h =
    let more = length-append q.lex.errors ((pos, msg) ∷ []) in
    let told = m.tells in
    record { reads = m.reads; depth = m.depth; mode = m.mode; tells = omega (arith, h) }

pub still : (p : Parser) → Moved 0 0 p p
still p = record { reads = omega arith; depth = refl; mode = refl; tells = omega arith }

-- Nothing bad and nothing deep.
pub calm :
    {t : Bool} {n b : ℕ} (top k : ℕ) {p q : Parser} → Moved n b p q → k ≤ n → Sound t top k 0 0 p q
calm top k m h = record {
  moved = Moved-weaken k 0 m h (omega arith);
  fits = omega arith;
  strict = λ _. refl;
}

-- Two results, one behind the other.
pub joined :
    {t : Bool} {top n m b c d e : ℕ} (k : ℕ) {p q r : Parser}
    → Sound t top n b d p q
    → Sound t top m c e q r
    → k ≤ n + m
    → Sound t top k (b + c) (max d e) p r
joined {t} {b} {c} k x y h =
    let fx = x.fits in
    let fy = y.fits in
    record {
      moved = Moved-trans k (b + c) x.moved y.moved h (omega arith);
      fits = omega arith;
      strict = λ f. let bx = x.strict f in let by = y.strict f in omega (arith, bx, by);
    }

pub Moved-if : (k : TokenKind) (p : Parser) → Moved 0 0 p (if at k p then advance p else p)
Moved-if k p = tested (Moved 0 0 p) (at k p) (λ _. advance-Moved p) (λ _. still p)

pub behind :
    {t : Bool} {top n m c e : ℕ} (k : ℕ) {p q r : Parser}
    → Moved n 0 p q
    → Sound t top m c e q r
    → k ≤ n + m
    → Sound t top k c e p r
behind {c} k m y h = record {
  moved = Moved-trans k c m y.moved h (omega arith);
  fits = y.fits;
  strict = y.strict;
}

pub ahead :
    {t : Bool} {top n m c e : ℕ} (k : ℕ) {p q r : Parser}
    → Sound t top m c e p q
    → Moved n 0 q r
    → k ≤ m + n
    → Sound t top k c e p r
ahead {c} k y m h = record {
  moved = Moved-trans k c y.moved m h (omega arith);
  fits = y.fits;
  strict = y.strict;
}

-- One level deeper.
pub nested :
    {t : Bool} {limit n b d : ℕ} (depth : ℕ) {p q : Parser}
    → depth + 1 ≤ limit
    → Sound t (room t limit (depth + 1)) n b d p q
    → Sound t (room t limit depth) n b (1 + d) p q
nested depth h x =
    let fits = x.fits in record { moved = x.moved; fits = omega (arith, h); strict = x.strict }

-- Soft, and what follows it where it goes on.
pub soft_bind :
    {t : Bool} {limit : ℕ} {B : Type 0} (R : B × Parser → Type 0) (F : Parser → Type 0)
    (f : Unit {0} × Parser → Step B) (pos : Position) (msg : List ℕ) (p : Parser)
    → Under t limit p
    → (Refusal t p → F p)
    → (t ≡ true → Good R F (f (tt, record_error pos msg p)))
    → Good R F (soft pos msg p >>= f)
unfolding soft
soft_bind R F f pos msg p u stop go =
    tested (λ s. Good R F (s >>= f)) p.tolerant (λ e. go (sym u.mode ∙ e))
      (λ e. refused (stop (sym u.mode ∙ e, e)))

-- A token of another kind is not the end.
pub not_end :
    (k : TokenKind) (p : Parser) → 1 ≤ kind_value k → at k p ≡ true → at end_of_input p ≡ false
not_end k p one e = ground (arith, e)

-- SkipBalanced ends, at the end of the document at the latest, and never fails.
pub skip_balanced-Good :
    {E : Parser → Type 0} (n : ℕ) (opening closing : TokenKind) (fuel depth : ℕ) (p q : Parser)
    → 1 ≤ kind_value opening
    → 1 ≤ kind_value closing
    → Moved n 0 p q
    → left q < fuel
    → Good (λ r. Moved n 0 p r.1) E (skip_balanced fuel opening closing depth q)
unfolding skip_balanced
skip_balanced-Good n o c zero depth p q ho hc m h = absurd (omega (arith, h))
skip_balanced-Good {E} n o c (suc fuel) depth p q ho hc m h =
    let R : Step Position → Type 0 = Good (λ r. Moved n 0 p r.1) E in
    let on = Moved-trans n 0 m (advance-Moved q) (omega arith) (omega arith) in
    let next = λ (d : ℕ) (more : at end_of_input q ≡ false).
      let read = (advance-Moved_on q more).reads in
      skip_balanced-Good {E = E} n o c fuel d p (advance q) ho hc on (omega (arith, h)) in
    tested R (at o q) (λ e. next (depth + 1) (not_end o q ho e))
      (λ _.
        tested R (at c q)
          (λ e. tested R (leb depth 1) (λ _. done on) (λ _. next (depth - 1) (not_end c q hc e)))
          (λ _. tested R (at end_of_input q) (λ _. done m) (next depth)))

-- At what it skips, SkipBalanced reads on.
pub skip_balanced_on :
    {E : Parser → Type 0} (opening closing : TokenKind) (fuel depth : ℕ) (p : Parser)
    → 1 ≤ kind_value opening
    → 1 ≤ kind_value closing
    → at opening p ≡ true
    → left p < fuel
    → Good (λ r. Moved 1 0 p r.1) E (skip_balanced fuel opening closing depth p)
unfolding skip_balanced
skip_balanced_on o c zero depth p ho hc e h = absurd (omega (arith, h))
skip_balanced_on {E} o c (suc fuel) depth p ho hc e h =
    let m = advance-Moved_on p (not_end o p ho e) in
    let reads = m.reads in
    tested (Good (λ r. Moved 1 0 p r.1) E) (at o p)
      (λ _.
        skip_balanced-Good {E = E} 1 o c fuel (depth + 1) p (advance p) ho hc m (omega (arith, h)))
      (λ f. absurd (ground (arith, e, f)))
