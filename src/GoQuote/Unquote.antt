-- ===== src/GoQuote/Unquote.antt =====
-- What the text of GoQuote of src/detail/go_quote.cc stands for: a reader of quoted text, written
-- from the escapes of the language Go, and the string that comes back.
pub mod RoundTrip
use protowire_cpp.Common.{
  ℕ, zero, suc, ◌+◌, ◌-◌, ◌*◌, ◌/◌, ◌%◌, ◌^◌, ◌≤◌, ◌<◌, ◌≡◌, refl, sym, ap, ◌∙◌, arith, Bool, true,
  false, ◌&&◌, ◌||◌, ◌==◌, Option, none, some, List, [], ◌∷◌, ◌++◌, append_assoc, append-nil,
  length, length-append, within, ltb, leb, if◌then◌else◌, is_empty, tested, take, drop, All, inl,
  inr, Bool-cases,
}
use native.Mathlib.Decide.{dec_lt}
use native.Mathlib.Nat.{pow-suc, div-add-mod, div-div-eq-div-mul, mod-eq_of_lt}
use protowire_cpp.Common.Text.{codes}
use protowire_cpp.Wire.{IsByte}
use protowire_cpp.Utf8.{is_valid_rune, encode_rune}
use protowire_cpp.Utf8.Encode.{encode_one, encode_two, encode_three, encode_four}
use protowire_cpp.Utf8.Accepts.{IsScalar}
use protowire_cpp.GoQuote.{decode_rune, hex_digits, go_is_print, escaped, quote_loop, go_quote}
use protowire_cpp.GoQuote.Runes.{decode_rune-Opens, decode_rune-encode_rune}

-- So many hexadecimal digits, behind a value: the value, and what follows them.
hex_from : ℕ → ℕ → List ℕ → Option (ℕ × List ℕ)
hex_from v zero s = some (v, s)
hex_from v (suc n) [] = none
hex_from v (suc n) (d ∷ s) =
    let digit = if leb d b'9' then d - b'0' else d - b'a' + 10 in
    let more = hex_from (v * 16 + digit) n s in
    if within b'0' b'9' d || within b'a' b'f' d then more else none

-- The bytes of a number in so many digits.
numbered : ℕ → (ℕ → List ℕ) → List ℕ → Option (List ℕ × List ℕ)
unfolding hex_from
numbered n bytes s = elim (hex_from 0 n s) [ none ↦ none | some (v, rest) ↦ some (bytes v, rest) ]

-- The escapes of one letter.
pub letter : ℕ → Option ℕ
letter e =
    if e == b'"' || e == b'\\'
    then some e
    else if e == b'a'
    then some 7
    else if e == b'b'
    then some 8
    else if e == b'f'
    then some 12
    else if e == b'n'
    then some 10
    else if e == b'r'
    then some 13
    else if e == b't'
    then some 9
    else if e == b'v'
    then some 11
    else none

-- What follows a backslash: a byte, a rune, or a letter.
pub escape : List ℕ → Option (List ℕ × List ℕ)
unfolding numbered letter
escape [] = none
escape (e ∷ s) =
    if e == b'x'
    then numbered 2 (λ v. v ∷ []) s
    else if e == b'u'
    then numbered 4 encode_rune s
    else if e == b'U'
    then numbered 8 encode_rune s
    else elim (letter e) [ none ↦ none | some c ↦ some (c ∷ [], s) ]

-- The text behind the opening quote. A round takes a byte at least.
pub unquote_loop : ℕ → List ℕ → Option (List ℕ)
unfolding escape
unquote_loop zero s = none
unquote_loop (suc fuel) [] = none
unquote_loop (suc fuel) (c ∷ s) =
    if c == b'"'
    then (if is_empty s then some [] else none)
    else elim (if c == b'\\' then escape s else some (c ∷ [], s)) [
      | none ↦ none
      | some (bytes, rest) ↦ elim (unquote_loop fuel rest) [
        | none ↦ none
        | some more ↦ some (bytes ++ more)
      ]
    ]

-- The string that quoted text stands for.
pub unquote : List ℕ → Option (List ℕ)
unfolding unquote_loop
unquote [] = none
unquote (q ∷ s) = if q == b'"' then unquote_loop (length s) s else none

-- `out` is read as `bytes`, whatever text that is read follows.
pub Said : List ℕ → List ℕ → Type 0
Said out bytes =
    (rest more : List ℕ)
    → ((f : ℕ) → length rest ≤ f → unquote_loop f rest ≡ some more)
    → (f : ℕ) → length (out ++ rest) ≤ f
    → unquote_loop f (out ++ rest) ≡ some (bytes ++ more)

pub Said-nothing : Said [] []
unfolding Said
Said-nothing rest more k f h = k f h

pub Said-both : (o o' b b' : List ℕ) → Said o b → Said o' b' → Said (o ++ o') (b ++ b')
unfolding Said
Said-both o o' b b' s s' rest more k f h =
    rw (append_assoc o o' rest, append_assoc b b' more)
      (s (o' ++ rest) (b' ++ more) (s' rest more k) f (rw (append_assoc o o' rest) at h))

pub Said-plain : (c : ℕ) → (c == b'"') ≡ false → (c == b'\\') ≡ false → Said (c ∷ []) (c ∷ [])
unfolding Said unquote_loop
Said-plain c p q rest more k zero h = absurd (omega arith)
Said-plain c p q rest more k (suc f) h = rw (unquote_loop, p, q, k f (omega arith)) refl

-- A backslash and what is read behind it.
pub Said-escape :
    (out bytes : List ℕ)
    → ((rest : List ℕ) → escape (out ++ rest) ≡ some (bytes, rest))
    → Said (b'\\' ∷ out) bytes
unfolding Said unquote_loop
Said-escape out bytes e rest more k zero h = absurd (omega arith)
Said-escape out bytes e rest more k (suc f) h =
    rw (unquote_loop, e rest, k f (omega (arith, length-append out rest))) refl

digit_ok :
    (q : ℕ)
    → q < 16
    → ((within b'0' b'9' (if ltb q 10 then b'0' + q else b'a' + (q - 10))
          || within b'a' b'f' (if ltb q 10 then b'0' + q else b'a' + (q - 10)))
        ≡ true)
      × ((if leb (if ltb q 10 then b'0' + q else b'a' + (q - 10)) b'9'
            then (if ltb q 10 then b'0' + q else b'a' + (q - 10)) - b'0'
            else (if ltb q 10 then b'0' + q else b'a' + (q - 10)) - b'a' + 10)
          ≡ q)
digit_ok q h = (ground arith, ground arith)

-- One more digit of a remainder.
low_digit : (x p : ℕ) → x % (p * 16) ≡ x / p % 16 * p + x % p
low_digit x p =
    let q = x / p in
    let parts : q ≡ q / 16 * 16 + q % 16 = omega arith in
    omega (
      arith,
      div-add-mod x p,
      div-add-mod x (p * 16),
      ap (λ y. p * 16 * y) (sym (div-div-eq-div-mul x p 16)),
      ap (λ y. p * y) parts,
    )

hex_read :
    (n v x : ℕ) (rest : List ℕ)
    → hex_from v n (hex_digits x n ++ rest) ≡ some (v * 2 ^ (n * 4) + x % 2 ^ (n * 4), rest)
unfolding hex_from hex_digits
hex_read zero v x rest = ap (λ y. some (y, rest)) (omega arith)
hex_read (suc n) v x rest =
    let p = 2 ^ (n * 4) in
    let q = x / p % 16 in
    let (k1, k2) = digit_ok q (omega arith) in
    let e : suc n * 4 ≡ suc (suc (suc (suc (n * 4)))) = omega arith in
    let power : 2 ^ (suc n * 4) ≡ p * 16 =
      ap (λ y. 2 ^ y) e
      ∙ omega (
        arith,
        pow-suc 2 (n * 4),
        pow-suc 2 (suc (n * 4)),
        pow-suc 2 (suc (suc (n * 4))),
        pow-suc 2 (suc (suc (suc (n * 4)))),
      ) in
    rw (k1, k2, hex_read n (v * 16 + q) x rest, power)
      (ap (λ y. some (y, rest)) (omega (arith, low_digit x p)))

numbered_read :
    (n : ℕ) (bytes : ℕ → List ℕ) (x : ℕ) (rest : List ℕ)
    → x < 2 ^ (n * 4)
    → numbered n bytes (hex_digits x n ++ rest) ≡ some (bytes x, rest)
unfolding numbered
numbered_read n bytes x rest h =
    let small : 0 * 2 ^ (n * 4) + x % 2 ^ (n * 4) ≡ x = omega (arith, mod-eq_of_lt h) in
    rw (numbered, hex_read n 0 x rest, small) refl

pub Said-byte : (x : ℕ) → x < 256 → Said (codes "\\x" ++ hex_digits x 2) (x ∷ [])
unfolding escape
Said-byte x h =
    Said-escape (b'x' ∷ hex_digits x 2) (x ∷ []) (λ rest. numbered_read 2 (λ v. v ∷ []) x rest h)

pub Said-short : (x : ℕ) → x < 0x10000 → Said (codes "\\u" ++ hex_digits x 4) (encode_rune x)
unfolding escape
Said-short x h =
    Said-escape (b'u' ∷ hex_digits x 4) (encode_rune x)
      (λ rest. numbered_read 4 encode_rune x rest h)

pub Said-long : (x : ℕ) → x ≤ 0x10FFFF → Said (codes "\\U" ++ hex_digits x 8) (encode_rune x)
unfolding escape
Said-long x h =
    Said-escape (b'U' ∷ hex_digits x 8) (encode_rune x)
      (λ rest. numbered_read 8 encode_rune x rest (omega arith))
