-- ===== src/Wire/Skip/Tests.antt =====
-- ConsumeFieldValue of include/protowire/detail/wire.h on concrete groups.
use protowire_cpp.Common.{arith, ℕ, ◌≤◌, ◌≡◌, ◌↔◌, refl, some, none, List, [], ◌∷◌}
use protowire_cpp.Wire.{start_group, consume_tag, consume_varint, consume_varint_loop, wire_type_of}
use protowire_cpp.Wire.Skip.{
  consume_field_value, group_loop, round, dispatch, skip_scalar, consume_scalar,
}
use protowire_cpp.Wire.Skip.Nesting.{
  ReadsGroup, consume_field_value_iff, consume_field_value_bounds,
}

-- Group 1: field 2 as a varint, an empty group 3, the end tag of group 1, and a byte more.
abbrev group_body : List ℕ
group_body = 16 ∷ 150 ∷ 1 ∷ 27 ∷ 28 ∷ 12 ∷ 99 ∷ []

consume_field_value-group : consume_field_value group_body 1 start_group ≡ some 6
unfolding consume_field_value group_loop round dispatch skip_scalar consume_scalar consume_tag
    consume_varint consume_varint_loop wire_type_of
consume_field_value-group = refl

-- The end tag of another group is refused.
consume_field_value-mismatch : consume_field_value (28 ∷ []) 1 start_group ≡ none
unfolding consume_field_value group_loop round dispatch consume_tag consume_varint
    consume_varint_loop wire_type_of
consume_field_value-mismatch = refl

consume_field_value_iff_example :
    (consume_field_value group_body 1 start_group ≡ some 6) ↔ ReadsGroup group_body 1 6
consume_field_value_iff_example = consume_field_value_iff group_body 1 6

consume_field_value_bounds_example : (1 ≤ 6) × (6 ≤ 7)
consume_field_value_bounds_example =
    consume_field_value_bounds group_body 1 start_group 6 (omega arith) consume_field_value-group
