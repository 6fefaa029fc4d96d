-- ===== src/GoStrconv/Messages.antt =====
-- UnderscoreOK, TimeQuote and GoDurationError of src/detail/go_strconv.cc.
mod Tests
use protowire_cpp.Common.{
  ℕ, zero, suc, ◌+◌, ◌-◌, ◌*◌, ◌/◌, ◌^◌, Bool, true, false, not, ◌&&◌, ◌||◌, Option, none, some,
  List, [], ◌∷◌, ◌++◌, ◌==◌, ltb, leb, within, if◌then◌else◌, length, get_or, take, drop,
}
use protowire_cpp.Common.Text.{codes, is_digit, same_text}
use protowire_cpp.GoQuote.{hex_digits}

-- Lower
abbrev pub lower : ℕ → ℕ
lower c = if within b'A' b'Z' c then c + 32 else c

-- IsHex
abbrev pub is_hex : ℕ → Bool
is_hex c = is_digit c || (within b'a' b'f' c || within b'A' b'F' c)

-- The loop of UnderscoreOK behind `prev`: '0' for a digit, '_', or another character.
unfoldable pub underscore_loop : Bool → ℕ → List ℕ → Bool
underscore_loop hex prev [] = not (prev == b'_')
underscore_loop hex prev (c ∷ s) =
    let digit = underscore_loop hex b'0' s in
    let underscore = underscore_loop hex b'_' s in
    let other = underscore_loop hex b'!' s in
    if is_digit c || hex && is_hex c
    then digit
    else if c == b'_'
    then prev == b'0' && underscore
    else not (prev == b'_') && other

-- UnderscoreOK
unfoldable pub underscore_ok : List ℕ → Bool
unfolding underscore_loop
underscore_ok s =
    let first = get_or s 0 0 in
    let t = (if first == b'-' || first == b'+' then drop 1 s else s) in
    let base = lower (get_or t 1 0) in
    if leb 2 (length t)
      && (get_or t 0 0 == b'0' && (base == b'b' || (base == b'o' || base == b'x')))
    then underscore_loop (base == b'x') b'0' (drop 2 t)
    else underscore_loop false b'^' t

-- TimeQuote
unfoldable pub time_quote_loop : List ℕ → List ℕ
time_quote_loop [] = b'"' ∷ []
time_quote_loop (c ∷ s) =
    let rest = time_quote_loop s in
    if leb 0x80 c || ltb c 0x20
    then b'\\' ∷ b'x' ∷ (hex_digits c 2 ++ rest)
    else if c == b'"' || c == b'\\'
    then b'\\' ∷ c ∷ rest
    else c ∷ rest

unfoldable pub time_quote : List ℕ → List ℕ
unfolding time_quote_loop
time_quote s = b'"' ∷ time_quote_loop s

-- The digits of leadingInt: what is behind them, or `none` past 2^63.
pub leading_int : ℕ → List ℕ → Option (List ℕ)
leading_int whole [] = some []
leading_int whole (c ∷ s) =
    let whole' = whole * 10 + (c - b'0') in
    let rest = leading_int whole' s in
    if not (is_digit c)
    then some (c ∷ s)
    else if ltb (2 ^ 63 / 10) whole || ltb (2 ^ 63) whole'
    then none
    else rest

unfoldable pub skip_digits : List ℕ → List ℕ
skip_digits [] = []
skip_digits (c ∷ s) = let rest = skip_digits s in if is_digit c then rest else c ∷ s

-- The length of the unit: up to a point or a digit.
pub duration_unit : List ℕ → ℕ
duration_unit [] = 0
duration_unit (c ∷ s) =
    let more = duration_unit s + 1 in if c == b'.' || is_digit c then 0 else more

pub is_unit : List ℕ → Bool
is_unit u =
    same_text u (codes "ns")
    || (same_text u (codes "us")
        || (same_text u (0xC2 ∷ 0xB5 ∷ b's' ∷ [])
            || (same_text u (0xCE ∷ 0xBC ∷ b's' ∷ [])
                || (same_text u (codes "ms")
                    || (same_text u (codes "s")
                        || (same_text u (codes "m") || same_text u (codes "h")))))))

-- The rounds of GoDurationError. A round takes a unit, so the length of the text is enough; a text
-- that is well-formed to its end has overflowed.
pub duration_message : List ℕ → ℕ → List ℕ → List ℕ
unfolding leading_int skip_digits duration_unit is_unit
duration_message orig zero s = codes "time: invalid duration " ++ time_quote orig
duration_message orig (suc fuel) s =
    let invalid = codes "time: invalid duration " ++ time_quote orig in
    let first = get_or s 0 0 in
    let point = λ (t : List ℕ). get_or t 0 0 == b'.' in
    if length s == 0 || not (first == b'.' || is_digit first)
    then invalid
    else elim (leading_int 0 s) [
      | none ↦ invalid
      | some t ↦
          let behind = (if point t then skip_digits (drop 1 t) else t) in
          let pre = ltb (length t) (length s) in
          let post = point t && ltb (length behind + 1) (length t) in
          let n = duration_unit behind in
          let next = duration_message orig fuel (drop n behind) in
          if not pre && not post
          then invalid
          else if n == 0
          then codes "time: missing unit in duration " ++ time_quote orig
          else if not (is_unit (take n behind))
          then codes "time: unknown unit "
            ++ (time_quote (take n behind) ++ (codes " in duration " ++ time_quote orig))
          else next
    ]

-- GoDurationError
pub go_duration_error : List ℕ → List ℕ
unfolding duration_message
go_duration_error orig =
    let first = get_or orig 0 0 in
    let s = (if first == b'-' || first == b'+' then drop 1 orig else orig) in
    duration_message orig (length s) s
