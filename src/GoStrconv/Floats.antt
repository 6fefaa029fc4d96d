-- ===== src/GoStrconv/Floats.antt =====
-- GoParseFloat of src/detail/go_strconv.cc, over the library's strtod and strtof.
mod Tests
use protowire_cpp.Common.{
  ℕ, zero, suc, ◌+◌, ◌-◌, ◌*◌, Bool, true, false, not, ◌&&◌, ◌||◌, Option, none, some, List, [],
  ◌∷◌, ◌++◌, ◌==◌, ltb, leb, if◌then◌else◌, is_empty, length, get_or, drop,
}
use protowire_cpp.Common.Text.{codes, is_digit}
use protowire_cpp.GoStrconv.{Parsed, number, refused, num_error, syntax_error, range_error}
use protowire_cpp.GoStrconv.Messages.{lower, is_hex, underscore_ok}

-- CommonPrefix
pub common_prefix : List ℕ → List ℕ → ℕ
common_prefix (c ∷ s) (w ∷ word) =
    let more = common_prefix s word in if lower c == w then suc more else 0
common_prefix _ _ = 0

-- The loop over the digits: whether there was a dot before, whether there were digits and underscores,
-- and what is behind them.
pub record Mantissa : Type 0 where
  digits : Bool
  underscores : Bool
  rest : List ℕ

pub mantissa_loop : Bool → Bool → Bool → Bool → List ℕ → Mantissa
mantissa_loop hex dot digits underscores [] = record {
  digits = digits;
  underscores = underscores;
  rest = [];
}
mantissa_loop hex dot digits underscores (c ∷ s) =
    let stop : Mantissa = record { digits = digits; underscores = underscores; rest = c ∷ s } in
    let with_underscore = mantissa_loop hex dot digits true s in
    let with_dot = mantissa_loop hex true digits underscores s in
    let with_digit = mantissa_loop hex dot true underscores s in
    if c == b'_'
    then with_underscore
    else if c == b'.'
    then (if dot then stop else with_dot)
    else if is_digit c || hex && is_hex c
    then with_digit
    else stop

-- The digits of an exponent: whether there was an underscore, and what is behind them.
pub exponent_loop : Bool → List ℕ → Bool × List ℕ
exponent_loop underscores [] = (underscores, [])
exponent_loop underscores (c ∷ s) =
    let more = exponent_loop (underscores || c == b'_') s in
    if is_digit c || c == b'_' then more else (underscores, c ∷ s)

-- An exponent, or nothing where it has no digit.
pub exponent_part : Bool → List ℕ → Option (Bool × List ℕ)
exponent_part underscores s =
    let first = get_or s 0 0 in
    let t = if first == b'+' || first == b'-' then drop 1 s else s in
    if is_empty s || (is_empty t || not (is_digit (get_or t 0 0)))
    then none
    else some (exponent_loop underscores t)

-- The syntax of a number in digits, behind its sign.
pub well_formed : List ℕ → List ℕ → Bool
well_formed s unsigned =
    let hex =
      ltb 2 (length unsigned)
      && (get_or unsigned 0 0 == b'0' && lower (get_or unsigned 1 0) == b'x') in
    let m = mantissa_loop hex false false false (if hex then drop 2 unsigned else unsigned) in
    let letter = if hex then b'p' else b'e' in
    let ends = λ (underscores : Bool) (rest : List ℕ).
      is_empty rest && (not underscores || underscore_ok s) in
    m.digits
    && (if not (is_empty m.rest) && lower (get_or m.rest 0 0) == letter
        then elim (exponent_part m.underscores (drop 1 m.rest)) [
          | none ↦ false
          | some (underscores, rest) ↦ ends underscores rest
        ]
        else not hex && ends m.underscores m.rest)

-- The text without its underscores, which strtod reads.
pub plain : List ℕ → List ℕ
plain [] = []
plain (c ∷ s) = let rest = plain s in if c == b'_' then rest else c ∷ rest

-- The machine's numbers, and the conversions of the C library. `infinite` takes the sign.
module _ {Double : Type 0} (strtod strtof : List ℕ → Double) (is_inf : Double → Bool)
    (infinite : Bool → Double) (go_nan : Double) where
  -- Inf, Infinity and NaN, in any case.
  pub special : List ℕ → Option Double
  special s =
      let first = get_or s 0 0 in
      let with_sign = first == b'+' || first == b'-' in
      let t = if with_sign then drop 1 s else s in
      let n = common_prefix t (codes "infinity") in
      if not (is_empty t)
        && (lower (get_or t 0 0) == b'i' && (n == 3 && length t == 3 || n == 8 && length t == 8))
      then some (infinite (first == b'-'))
      else if not with_sign && (common_prefix t (codes "nan") == 3 && length t == 3)
      then some go_nan
      else none

  -- GoParseFloat
  pub go_parse_float : List (ℕ × ℕ) → List ℕ → ℕ → Parsed Double
  go_parse_float table s bits =
      let first = get_or s 0 0 in
      let unsigned = if first == b'+' || first == b'-' then drop 1 s else s in
      let v = if bits == 32 then strtof (plain s) else strtod (plain s) in
      let syntax = refused none (num_error table (codes "ParseFloat") s syntax_error) in
      if is_empty s then syntax else elim (special s) [
        | some d ↦ number d
        | none ↦
            if not (well_formed s unsigned)
            then syntax
            else if is_inf v
            then refused none (num_error table (codes "ParseFloat") s range_error)
            else number v
      ]
