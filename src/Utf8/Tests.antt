-- ===== src/Utf8/Tests.antt =====
-- IsValidUTF8 of include/protowire/detail/utf8.h on concrete strings.
use protowire_cpp.Common.{◌≡◌, ◌↔◌, refl, true, false, [], ◌∷◌}
use protowire_cpp.Utf8.{is_valid_utf8, utf8_loop, sequence_ok, continues, lead, encode_rune}
use protowire_cpp.Utf8.Accepts.{Encodes, is_valid_utf8_iff}

-- The euro sign; a surrogate; an overlong slash; a string that is cut.
samples :
    (is_valid_utf8 (0x61 ∷ 0xE2 ∷ 0x82 ∷ 0xAC ∷ []) ≡ true)
    × (is_valid_utf8 (0xED ∷ 0xA0 ∷ 0x80 ∷ []) ≡ false)
    × (is_valid_utf8 (0xC0 ∷ 0xAF ∷ []) ≡ false)
    × (is_valid_utf8 (0xF0 ∷ 0x9F ∷ 0x98 ∷ []) ≡ false)
unfolding is_valid_utf8 utf8_loop sequence_ok continues lead
samples = (refl, refl, refl, refl)

encode_rune-euro : encode_rune 0x20AC ≡ 0xE2 ∷ 0x82 ∷ 0xAC ∷ []
unfolding encode_rune
encode_rune-euro = refl

is_valid_utf8_iff_example :
    (is_valid_utf8 (0x61 ∷ 0xE2 ∷ 0x82 ∷ 0xAC ∷ []) ≡ true)
    ↔ Encodes (0x61 ∷ 0xE2 ∷ 0x82 ∷ 0xAC ∷ [])
is_valid_utf8_iff_example = is_valid_utf8_iff (0x61 ∷ 0xE2 ∷ 0x82 ∷ 0xAC ∷ [])
