-- ===== src/Common/Text.antt =====
-- Text as bytes: string literals and decimal numbers.
pub mod Decimals
use Prim.Native.Nat.{ℕ, zero, suc, ◌+◌, ◌-◌, ◌/◌, ◌%◌}
use Prim.Native.Char.{code}
use Prim.Native.String.{String}
use mathlib.Core.Bool.{Bool, true, false}
use mathlib.Core.List.{List, [], ◌∷◌, ◌++◌}
use protowire_cpp.Common.Lists.{length}
use protowire_cpp.Common.Tests.{◌==◌, ltb, within, if◌then◌else◌}

-- The bytes of an ASCII literal.
abbrev pub codes : String → List ℕ
codes String.[] = []
codes (String.◌∷◌ c s) = code c ∷ codes s

-- Equality of two byte strings.
unfoldable pub same_text : List ℕ → List ℕ → Bool
same_text [] [] = true
same_text (x ∷ xs) (y ∷ ys) = if x == y then same_text xs ys else false
same_text _ _ = false

abbrev pub is_digit : ℕ → Bool
is_digit c = within b'0' b'9' c

-- `std::to_string` of an unsigned number below `10 ^ (fuel + 1)`.
decimal_digits : ℕ → ℕ → List ℕ → List ℕ
decimal_digits zero n tail = (b'0' + n % 10) ∷ tail
decimal_digits (suc fuel) n tail =
    let more = decimal_digits fuel (n / 10) ((b'0' + n % 10) ∷ tail) in
    if ltb n 10 then (b'0' + n) ∷ tail else more

unfoldable pub decimal : ℕ → List ℕ
unfolding decimal_digits
decimal n = decimal_digits 19 n []

-- `n` times the character '0'.
abbrev pub zeros : ℕ → List ℕ
zeros zero = []
zeros (suc n) = b'0' ∷ zeros n

-- "%0*u" of printf: decimal, with zeros in front up to the width.
abbrev pub padded : ℕ → ℕ → List ℕ
padded width n = zeros (width - length (decimal n)) ++ decimal n
