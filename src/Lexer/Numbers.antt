-- ===== src/Lexer/Numbers.antt =====
-- Numbers, timestamps and durations of src/pxf/lexer.cc. `from` is the lexer where the token starts.
pub mod Braces
pub mod Kept
use protowire_cpp.Common.{
  ℕ, zero, suc, ◌+◌, ◌-◌, Bool, true, false, not, ◌&&◌, ◌||◌, Option, none, some, List, [], ◌∷◌,
  ◌++◌, ◌==◌, leb, within, if◌then◌else◌, length, get_or, take,
}
use protowire_cpp.Common.Text.{codes, same_text, is_digit}
use protowire_cpp.Duration.{parse_duration}
use protowire_cpp.Rfc3339.{parse_rfc3339}
use protowire_cpp.Lexer.{
  Lexer, Position, Token, TokenKind, illegal, int, float, timestamp, duration, token, peek, advance,
  advance_by, skip_while, on_byte, between, is_ident_part,
}

abbrev skip_digits : Lexer → Lexer
skip_digits = skip_while (on_byte is_digit)

-- LexPrecision: the lexer behind the suffix, and its digits.
pub lex_precision : Lexer → Lexer × List ℕ
lex_precision lx =
    let from = advance lx in
    let to = skip_digits from in
    if peek lx 0 == b'p' && is_digit (peek lx 1) then (to, between from to) else (lx, [])

number : TokenKind → Position → Lexer → Lexer → Lexer × Token
unfolding lex_precision
number kind pos from lx =
    let (lx', prec) = lex_precision lx in
    (lx', record { kind = kind; value = between from lx; pos = pos; prec = prec })

-- AtDurationUnit
pub at_duration_unit : List ℕ → Bool
at_duration_unit s =
    let c = get_or s 0 0 in
    (c == b'h' || (c == b'm' || (c == b's' || (c == b'n' || c == b'u'))))
    || c == 0xC2 && get_or s 1 0 == 0xB5

-- LexFloat: a fraction, and then an exponent with its sign.
pub skip_fraction : Lexer → Lexer
skip_fraction lx = if peek lx 0 == b'.' then skip_digits (advance lx) else lx

pub skip_exponent : Lexer → Lexer
skip_exponent lx =
    let e = advance lx in
    let signed = if peek e 0 == b'+' || peek e 0 == b'-' then advance e else e in
    if peek lx 0 == b'e' || peek lx 0 == b'E' then skip_digits signed else lx

pub lex_float : Position → Lexer → Lexer → Lexer × Token
unfolding number skip_exponent skip_fraction
lex_float pos from lx = number float pos from (skip_exponent (skip_fraction lx))

-- The bytes that do not end a timestamp.
pub in_timestamp : List ℕ → Bool
in_timestamp [] = false
in_timestamp (c ∷ s) =
    not (
      c == b' '
      || (c == b'\n'
          || (c == b'\t'
              || (c == b'\r'
                  || (c == b',' || (c == b']' || (c == b'}' || (c == b')' || c == b'#'))))))))
    && not (c == b'/' && (get_or s 0 0 == b'/' || get_or s 0 0 == b'*'))

is_some : {A : Type 0} → Option A → Bool
is_some none = false
is_some (some a) = true

-- LexTimestamp
pub lex_timestamp : Position → Lexer → Lexer → Lexer × Token
unfolding is_some in_timestamp
lex_timestamp pos from lx =
    let to = skip_while in_timestamp lx in
    let raw = between from to in
    if is_some (parse_rfc3339 raw)
    then (to, token timestamp raw pos)
    else (to, token illegal (codes "invalid timestamp: " ++ raw) pos)

-- How many bytes a round of LexDuration's loop takes, and 0 where it ends.
pub duration_width : List ℕ → ℕ
duration_width s =
    let c = get_or s 0 0 in
    if is_digit c || (within b'a' b'z' c || c == b'.' && is_digit (get_or s 1 0))
    then 1
    else if c == 0xC2 && get_or s 1 0 == 0xB5
    then 2
    else 0

-- The loop of LexDuration. A round takes a byte at least.
pub duration_loop : ℕ → Lexer → Lexer
unfolding duration_width
duration_loop zero lx = lx
duration_loop (suc fuel) lx = elim (duration_width lx.rest) [
  | zero ↦ lx
  | suc n ↦ duration_loop fuel (advance_by (suc n) lx)
]

-- LexDuration
pub lex_duration : Position → Lexer → Lexer → Lexer × Token
unfolding is_some duration_loop
lex_duration pos from lx =
    let to = duration_loop (length lx.rest) lx in
    let raw = between from to in
    if is_some (parse_duration raw)
    then (to, token duration raw pos)
    else (to, token illegal (codes "invalid duration: " ++ raw) pos)

-- The '.' of a fraction and its digits, where there is one.
skip_frac : Bool → Lexer → Lexer
skip_frac frac lx = if frac then skip_digits (advance lx) else lx

-- LexNumber behind its digits, at a fraction, a unit or an exponent.
pub behind_digits : Position → Lexer → Lexer → Lexer × Token
unfolding at_duration_unit number skip_frac
behind_digits pos from lx =
    let frac = peek lx 0 == b'.' && is_digit (peek lx 1) in
    let to = skip_frac frac lx in
    if at_duration_unit to.rest
    then lex_duration pos from to
    else if frac || (peek to 0 == b'.' || (peek to 0 == b'e' || peek to 0 == b'E'))
    then lex_float pos from to
    else number int pos from to

-- LexNumber behind its sign, which is a '-' where `neg` says so.
pub magnitude : Position → Lexer → Bool → Lexer → Lexer × Token
magnitude pos from neg lx =
    let to = skip_digits lx in
    if not neg && (to.index - lx.index == 4 && peek to 0 == b'-')
    then lex_timestamp pos from to
    else behind_digits pos from to

-- LexNumber behind a sign.
pub signed_number : Position → Lexer → Lexer → Lexer × Token
signed_number pos from lx =
    let to = advance_by 3 lx in
    if same_text (take 3 lx.rest) (codes "inf")
      && (leb (length lx.rest) 3 || not (is_ident_part (peek lx 3)))
    then (to, token float (between from to) pos)
    else if peek from 0 == b'+'
    then (lx, token illegal (codes "\"+\" is valid only in \"+inf\"") pos)
    else if not (is_digit (peek lx 0))
    then (lx, token illegal (codes "\"-\" must be followed by a digit or \"inf\"") pos)
    else magnitude pos from true lx

-- LexNumber
pub lex_number : Position → Lexer → Lexer × Token
unfolding signed_number magnitude
lex_number pos lx =
    if peek lx 0 == b'-' || peek lx 0 == b'+'
    then signed_number pos lx (advance lx)
    else magnitude pos lx false lx
