-- ===== src/Wire/Tests.antt =====
-- The wire primitives of include/protowire/detail/wire.h on concrete inputs.
use protowire_cpp.Common.{ℕ, ◌≡◌, refl, arith, some, List, [], ◌∷◌, ◌++◌, length}
use protowire_cpp.Wire.{
  varint, bytes, append_varint_loop, append_varint, consume_varint, append_tag, consume_tag,
  append_bytes, consume_bytes, consume_varint_loop, wire_type_of,
}
use protowire_cpp.Wire.Varint.{consume_varint-append_varint}
use protowire_cpp.Wire.Fields.{consume_tag-append_tag, consume_bytes-append_bytes}

append_varint-300 : append_varint (7 ∷ []) 300 ≡ 7 ∷ 172 ∷ 2 ∷ []
unfolding append_varint append_varint_loop
append_varint-300 = refl

consume_varint-300 : consume_varint (172 ∷ 2 ∷ 9 ∷ []) ≡ some (300, 2)
unfolding consume_varint consume_varint_loop
consume_varint-300 = refl

-- Field 2 as a varint, and bytes behind it.
abbrev group_body : List ℕ
group_body = 16 ∷ 150 ∷ 1 ∷ 27 ∷ 28 ∷ 12 ∷ 99 ∷ []

consume_tag-field : consume_tag group_body ≡ some (2, varint, 1)
unfolding consume_tag consume_varint consume_varint_loop wire_type_of
consume_tag-field = refl

consume_bytes-short : consume_bytes (2 ∷ 5 ∷ 6 ∷ 7 ∷ []) ≡ some (5 ∷ 6 ∷ [], 3)
unfolding consume_bytes consume_varint consume_varint_loop
consume_bytes-short = refl

consume_varint-append_varint_example :
    consume_varint (append_varint [] 300 ++ (9 ∷ [])) ≡ some (300, length (append_varint [] 300))
consume_varint-append_varint_example = consume_varint-append_varint 300 (9 ∷ []) (omega arith)

consume_tag-append_tag_example :
    consume_tag (append_tag [] 5 bytes ++ (1 ∷ []))
    ≡ some (5, bytes, length (append_tag [] 5 bytes))
consume_tag-append_tag_example =
    consume_tag-append_tag 5 bytes (1 ∷ []) (omega arith) (omega arith) tt

consume_bytes-append_bytes_example :
    consume_bytes (append_bytes [] (5 ∷ 6 ∷ []) ++ (7 ∷ []))
    ≡ some (5 ∷ 6 ∷ [], length (append_bytes [] (5 ∷ 6 ∷ [])))
consume_bytes-append_bytes_example =
    consume_bytes-append_bytes (5 ∷ 6 ∷ []) (7 ∷ [])
      (unfold append_bytes append_varint append_varint_loop in omega arith)
