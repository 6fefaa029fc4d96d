-- ===== src/Wire/Fields.antt =====
-- Tags, fixed-width words and length-prefixed bytes: round trips, and bounds on any input.
use protowire_cpp.Common.{
  ℕ, ◌+◌, ◌*◌, ◌/◌, ◌%◌, ◌^◌, ◌≤◌, ◌<◌, bit_or, ◌≡◌, refl, arith, some, List, [], ◌∷◌, ◌++◌,
  append_assoc, length, take, drop, length-append, length-drop, length-take, take-append,
  drop-append, Option-cases, inl, inr,
}
use protowire_cpp.Common.Bits.{bit_or-add, bit_or-add_left}
use protowire_cpp.Wire.{
  IsU64, append_varint, consume_varint, WireType, varint, unnamed, wire_type_value, wire_type_of,
  append_tag, append_fixed32, append_fixed64, append_bytes, consume_tag, consume_fixed32,
  consume_fixed64, consume_bytes,
}
use protowire_cpp.Wire.Varint.{
  append_varint-out, consume_varint_bounds, consume_varint-append_varint,
}

-- The six types of the enum.
abbrev pub IsNamed : WireType → Type 0
IsNamed (unnamed n) = ⊥
IsNamed _ = Unit

wire_type_of-wire_type_value : (t : WireType) → IsNamed t → wire_type_of (wire_type_value t) ≡ t
unfolding wire_type_of wire_type_value
wire_type_of-wire_type_value (unnamed n) h = absurd h
wire_type_of-wire_type_value varint h = refl
wire_type_of-wire_type_value _ h = refl

wire_type_value-lt : (t : WireType) → IsNamed t → wire_type_value t < 2 ^ 3
unfolding wire_type_value
wire_type_value-lt (unnamed n) h = absurd h
wire_type_value-lt varint h = omega arith
wire_type_value-lt _ h = omega arith

tag_value :
    (num : ℕ) (t : WireType)
    → num < 2 ^ 29
    → IsNamed t
    → bit_or (num * 2 ^ 3 % 2 ^ 64) (wire_type_value t) ≡ num * 8 + wire_type_value t
tag_value num t h ht =
    ground (arith, wire_type_value-lt t ht, bit_or-add_left 3 num (wire_type_value t))

-- ConsumeTag reads back the tag that AppendTag wrote, for a field number from 1 to 2 ^ 29 - 1 and one
-- of the six wire types, whatever follows.
pub consume_tag-append_tag :
    (num : ℕ) (t : WireType) (rest : List ℕ)
    → 1 ≤ num
    → num < 2 ^ 29
    → IsNamed t
    → consume_tag (append_tag [] num t ++ rest) ≡ some (num, t, length (append_tag [] num t))
unfolding consume_tag append_tag
consume_tag-append_tag num t rest lo hi ht = ground (
  arith,
  tag_value num t hi ht,
  wire_type_value-lt t ht,
  wire_type_of-wire_type_value t ht,
  consume_varint-append_varint (num * 8 + wire_type_value t) rest,
)

-- A tag that is read has a field number from 1 to 2 ^ 31 - 1, and takes 1 to 10 bytes of the span.
pub consume_tag_bounds :
    (span : List ℕ) (num : ℕ) (t : WireType) (n : ℕ)
    → consume_tag span ≡ some (num, t, n)
    → (1 ≤ num) × (num < 2 ^ 31) × (1 ≤ n) × (n ≤ 10) × (n ≤ length span)
unfolding consume_tag
consume_tag_bounds span num t n e = elim (Option-cases (consume_varint span)) [
  | inl q ↦ ground arith
  | inr ((v, m), q) ↦ ground (arith, consume_varint_bounds span v m q)
]

-- ConsumeFixed32 reads back the 32-bit number that AppendFixed32 wrote, and consumes four bytes.
pub consume_fixed32-append_fixed32 :
    (v : ℕ) (rest : List ℕ)
    → v < 2 ^ 32
    → consume_fixed32 (append_fixed32 [] v ++ rest) ≡ some (v, 4)
unfolding consume_fixed32 append_fixed32
consume_fixed32-append_fixed32 v rest h = ground (
  arith,
  bit_or-add 8 (v % 256) (v / 2 ^ 8 % 256) (omega arith),
  bit_or-add 16 (v % 2 ^ 16) (v / 2 ^ 16 % 256) (omega arith),
  bit_or-add 24 (v % 2 ^ 24) (v / 2 ^ 24 % 256) (omega arith),
)

-- ConsumeFixed64 reads back the 64-bit number that AppendFixed64 wrote, and consumes eight bytes.
pub consume_fixed64-append_fixed64 :
    (v : ℕ) (rest : List ℕ)
    → v < 2 ^ 64
    → consume_fixed64 (append_fixed64 [] v ++ rest) ≡ some (v, 8)
unfolding consume_fixed64 append_fixed64
consume_fixed64-append_fixed64 v rest h = ground (
  arith,
  bit_or-add 0 0 (v % 256) (omega arith),
  bit_or-add 8 (v % 2 ^ 8) (v / 2 ^ 8 % 256) (omega arith),
  bit_or-add 16 (v % 2 ^ 16) (v / 2 ^ 16 % 256) (omega arith),
  bit_or-add 24 (v % 2 ^ 24) (v / 2 ^ 24 % 256) (omega arith),
  bit_or-add 32 (v % 2 ^ 32) (v / 2 ^ 32 % 256) (omega arith),
  bit_or-add 40 (v % 2 ^ 40) (v / 2 ^ 40 % 256) (omega arith),
  bit_or-add 48 (v % 2 ^ 48) (v / 2 ^ 48 % 256) (omega arith),
  bit_or-add 56 (v % 2 ^ 56) (v / 2 ^ 56 % 256) (omega arith),
)

pub append_tag-out :
    (out : List ℕ) (num : ℕ) (t : WireType)
    → num < 2 ^ 29
    → IsNamed t
    → append_tag out num t ≡ out ++ append_tag [] num t
unfolding append_tag
append_tag-out out num t h ht =
    append_varint-out out (bit_or (num * 2 ^ 3 % 2 ^ 64) (wire_type_value t))
      (omega (arith, tag_value num t h ht, wire_type_value-lt t ht))

pub append_bytes-out :
    (out bs : List ℕ) → IsU64 (length bs) → append_bytes out bs ≡ out ++ append_bytes [] bs
unfolding append_bytes
append_bytes-out out bs h =
    rw (append_varint-out out (length bs) h) (append_assoc out (append_varint [] (length bs)) bs)

-- ConsumeBytes returns the content that AppendBytes wrote and consumes the prefix and the content,
-- whatever follows, where the count of what it consumes is below 2 ^ 31.
pub consume_bytes-append_bytes :
    (bs rest : List ℕ)
    → length (append_bytes [] bs) < 2 ^ 31
    → consume_bytes (append_bytes [] bs ++ rest) ≡ some (bs, length (append_bytes [] bs))
unfolding consume_bytes append_bytes
consume_bytes-append_bytes bs rest h =
    let head = append_varint [] (length bs) in
    let short : IsU64 (length bs) = omega (arith, h, length-append head bs) in
    rw (append_assoc head bs rest, consume_varint-append_varint (length bs) (bs ++ rest) short)
      (ground (
        arith,
        length-append head bs,
        length-append head (bs ++ rest),
        length-append bs rest,
        drop-append (length head) head (bs ++ rest) refl,
        take-append (length bs) bs rest refl,
      ))

-- Whatever the span, a content that ConsumeBytes returns is shorter than the count, and the count is
-- at least 1 and does not pass the end of the span.
pub consume_bytes_bounds :
    (span out : List ℕ) (n : ℕ)
    → consume_bytes span ≡ some (out, n)
    → (1 ≤ n) × (n ≤ length span) × (length out < n)
unfolding consume_bytes
consume_bytes_bounds span out n e = elim (Option-cases (consume_varint span)) [
  | inl q ↦ ground arith
  | inr ((len, m), q) ↦
      ground (
        arith,
        consume_varint_bounds span len m q,
        length-drop m span,
        length-take len (drop m span),
      )
]

-- The content is a piece of the span.
pub consume_bytes_piece :
    (span out : List ℕ) (n : ℕ)
    → consume_bytes span ≡ some (out, n)
    → (len : ℕ) × (m : ℕ) × (out ≡ take len (drop m span))
unfolding consume_bytes
consume_bytes_piece span out n e = elim (Option-cases (consume_varint span)) [
  | inl q ↦ absurd (ground arith)
  | inr ((len, m), q) ↦ (len, m, ground arith)
]

pub consume_fixed32_bounds :
    (span : List ℕ) (v n : ℕ) → consume_fixed32 span ≡ some (v, n) → (n ≡ 4) × (n ≤ length span)
unfolding consume_fixed32
consume_fixed32_bounds (b0 ∷ b1 ∷ b2 ∷ b3 ∷ bs) v n e = ground arith
consume_fixed32_bounds _ v n e = cc

pub consume_fixed64_bounds :
    (span : List ℕ) (v n : ℕ) → consume_fixed64 span ≡ some (v, n) → (n ≡ 8) × (n ≤ length span)
unfolding consume_fixed64
consume_fixed64_bounds span v n e = ground arith
