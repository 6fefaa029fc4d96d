-- ===== src/Wire/ZigZag.antt =====
-- EncodeZigZag and DecodeZigZag on all int64 and uint64 values.
use protowire_cpp.Common.{ℕ, ◌+◌, ◌-◌, ◌*◌, ◌/◌, ◌%◌, ◌^◌, ◌≡◌, arith, leb, if◌then◌else◌}
use protowire_cpp.Common.Bits.{bit_xor-zero, bit_xor-ones}
use protowire_cpp.Wire.{IsU64, encode_zigzag, decode_zigzag}

-- On the bits `w` of an int64, EncodeZigZag gives `2 * w` where the value is not negative, and
-- `2 * n + 1` where the value is -(n + 1), whose bits are `2 ^ 64 - 1 - n`.
pub encode_zigzag_lem :
    (w : ℕ)
    → IsU64 w
    → encode_zigzag w ≡ (if leb (2 ^ 63) w then 2 * (2 ^ 64 - 1 - w) + 1 else 2 * w)
unfolding encode_zigzag
encode_zigzag_lem w h = ground (
  arith,
  bit_xor-zero 64 (w * 2 ^ 1 % 2 ^ 64) (omega arith),
  bit_xor-ones 64 (w * 2 ^ 1 % 2 ^ 64) (2 ^ 64 - 1) (omega arith) (omega arith),
)

-- DecodeZigZag in the same terms.
pub decode_zigzag_lem :
    (v : ℕ) → IsU64 v → decode_zigzag v ≡ (if leb 1 (v % 2) then 2 ^ 64 - 1 - v / 2 else v / 2)
unfolding decode_zigzag
decode_zigzag_lem v h = ground (
  arith,
  bit_xor-zero 64 (v / 2 ^ 1) (omega arith),
  bit_xor-ones 64 (v / 2 ^ 1) (2 ^ 64 - 1) (omega arith) (omega arith),
)

-- DecodeZigZag of a uint64 is within 64 bits, and EncodeZigZag takes it back to the uint64.
pub encode_zigzag-decode_zigzag :
    (v : ℕ) → IsU64 v → IsU64 (decode_zigzag v) × (encode_zigzag (decode_zigzag v) ≡ v)
encode_zigzag-decode_zigzag v h =
    ground (arith, decode_zigzag_lem v h, encode_zigzag_lem (decode_zigzag v))

-- EncodeZigZag of the bits of an int64 is within 64 bits, and DecodeZigZag takes it back to those
-- bits.
pub decode_zigzag-encode_zigzag :
    (w : ℕ) → IsU64 w → IsU64 (encode_zigzag w) × (decode_zigzag (encode_zigzag w) ≡ w)
decode_zigzag-encode_zigzag w h =
    ground (arith, encode_zigzag_lem w h, decode_zigzag_lem (encode_zigzag w))
