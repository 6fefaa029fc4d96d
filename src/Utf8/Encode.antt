-- ===== src/Utf8/Encode.antt =====
-- EncodeRune in plain arithmetic, and its bytes under the loop of IsValidUTF8.
use protowire_cpp.Common.{ℕ, ◌+◌, ◌/◌, ◌%◌, ◌^◌, ◌≤◌, ◌<◌, bit_or, ◌≡◌, arith, [], ◌∷◌}
use protowire_cpp.Common.Bits.{bit_or-add_left}
use protowire_cpp.Utf8.{encode_rune}

-- A continuation byte.
continuation : (x : ℕ) → x < 64 → bit_or 0x80 x ≡ 128 + x
continuation x h = bit_or-add_left 6 2 x h

pub encode_one : (r : ℕ) → r ≤ 0x7F → encode_rune r ≡ r ∷ []
unfolding encode_rune
encode_one r h = ground arith

pub encode_two :
    (r : ℕ) → 0x7F < r → r ≤ 0x7FF → encode_rune r ≡ (192 + r / 64) ∷ (128 + r % 64) ∷ []
unfolding encode_rune
encode_two r lo hi =
    ground
      (arith, bit_or-add_left 6 3 (r / 2 ^ 6) (omega arith), continuation (r % 2 ^ 6) (omega arith))

pub encode_three :
    (r : ℕ)
    → 0x7FF < r
    → r ≤ 0xFFFF
    → encode_rune r ≡ (224 + r / 4096) ∷ (128 + r / 64 % 64) ∷ (128 + r % 64) ∷ []
unfolding encode_rune
encode_three r lo hi = ground (
  arith,
  bit_or-add_left 5 7 (r / 2 ^ 12) (omega arith),
  continuation (r / 2 ^ 6 % 2 ^ 6) (omega arith),
  continuation (r % 2 ^ 6) (omega arith),
)

pub encode_four :
    (r : ℕ)
    → 0xFFFF < r
    → r ≤ 0x10FFFF
    → encode_rune r
      ≡ (240 + r / 262144) ∷ (128 + r / 4096 % 64) ∷ (128 + r / 64 % 64) ∷ (128 + r % 64) ∷ []
unfolding encode_rune
encode_four r lo hi = ground (
  arith,
  bit_or-add_left 4 15 (r / 2 ^ 18) (omega arith),
  continuation (r / 2 ^ 12 % 2 ^ 6) (omega arith),
  continuation (r / 2 ^ 6 % 2 ^ 6) (omega arith),
  continuation (r % 2 ^ 6) (omega arith),
)
