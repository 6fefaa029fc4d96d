-- ===== src/GoQuote/Tests.antt =====
-- src/detail/go_quote.cc on concrete strings.
use protowire_cpp.Common.{ℕ, ◌<◌, ◌≡◌, ◌↔◌, refl, arith, true, some, List, [], ◌∷◌, ◌++◌, length}
use protowire_cpp.Common.Text.{codes}
use protowire_cpp.Utf8.{encode_rune}
use protowire_cpp.Utf8.Accepts.{IsScalar}
use protowire_cpp.GoQuote.{
  cont, decode_rune, hex_digits, go_is_print, escaped, quote_loop, go_quote,
}
use protowire_cpp.GoQuote.Runes.{decode_rune_iff}
use protowire_cpp.GoQuote.Unquote.{unquote}
use protowire_cpp.GoQuote.Unquote.RoundTrip.{unquote-go_quote}

-- The printable part of ASCII.
abbrev ascii : List (ℕ × ℕ)
ascii = (0x20, 0x7E) ∷ []

-- A quote, a newline, an e with an acute accent and a byte that is no rune.
abbrev mixed : List ℕ
mixed = b'"' ∷ 10 ∷ 0xC3 ∷ 0xA9 ∷ 0xFF ∷ []

mixed_quoted : go_quote ascii mixed ≡ codes "\"\\\"\\n\\u00e9\\xff\""
unfolding go_quote quote_loop decode_rune cont escaped go_is_print hex_digits
mixed_quoted = refl

unquote-go_quote_example : unquote (go_quote ascii mixed) ≡ some mixed
unquote-go_quote_example =
    unquote-go_quote ascii mixed
      (omega arith, (omega arith, (omega arith, (omega arith, (omega arith, tt)))))

decode_rune_iff_example : (decode_rune (0xC3 ∷ 0xA9 ∷ 0xFF ∷ []) ≡ (true, 0xE9, 2)) ↔ (
    IsScalar 0xE9
    × (0x7F < 0xE9)
    × (2 ≡ length (encode_rune 0xE9))
    × ((rest : List ℕ) × (0xC3 ∷ 0xA9 ∷ 0xFF ∷ [] ≡ encode_rune 0xE9 ++ rest)))
decode_rune_iff_example = decode_rune_iff (0xC3 ∷ 0xA9 ∷ 0xFF ∷ []) 0xE9 2
