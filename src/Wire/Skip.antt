-- ===== src/Wire/Skip.antt =====
-- ConsumeFieldValue: a field's value is skipped, and nested groups are followed with a list of the
-- open ones rather than by recursion.
pub mod Rounds
pub mod Nesting
mod Tests
use protowire_cpp.Common.{
  ℕ, zero, suc, ◌+◌, ◌-◌, Option, none, some, List, [], ◌∷◌, ◌==◌, ltb, if◌then◌else◌, length, drop,
}
use protowire_cpp.Wire.{
  WireType, varint, fixed64, bytes, start_group, end_group, fixed32, unnamed, ◌>>=◌, consume_varint,
  consume_fixed32, consume_fixed64, consume_bytes, consume_tag,
}

-- kFieldValueRecursionLimit
abbrev pub recursion_limit : ℕ
recursion_limit = 10000

-- The cases of the switch that are not a group: the count.
pub consume_scalar : WireType → List ℕ → Option ℕ
consume_scalar varint span = do (v, n) ← consume_varint span; some n
consume_scalar fixed64 span = do (v, n) ← consume_fixed64 span; some n
consume_scalar bytes span = do (s, n) ← consume_bytes span; some n
consume_scalar fixed32 span = do (v, n) ← consume_fixed32 span; some n
consume_scalar start_group span = none
consume_scalar end_group span = none
consume_scalar (unnamed _) span = none

-- How the loop ends. `out_of_fuel` is no outcome of the source.
pub data Outcome : Type 0 where
  done : List ℕ → Outcome
  refused : Outcome
  out_of_fuel : Outcome

-- What one round of the loop does to the open groups (the last first) and the span.
pub data Round : Type 0 where
  more : List ℕ → List ℕ → Round
  stop : Round

pub skip_scalar : WireType → List ℕ → List ℕ → Round
skip_scalar t open_groups span = elim (consume_scalar t span) [
  | none ↦ stop
  | some n ↦ more open_groups (drop n span)
]

-- The tests of the loop body behind ConsumeTag, on the span behind the tag.
pub dispatch : WireType → ℕ → ℕ → List ℕ → List ℕ → Round
dispatch end_group inner last open_groups span =
    if inner == last then more open_groups span else stop
dispatch start_group inner last open_groups span =
    if ltb recursion_limit (length (last ∷ open_groups))
    then stop
    else more (inner ∷ last ∷ open_groups) span
dispatch t inner last open_groups span = skip_scalar t (last ∷ open_groups) span

pub round : ℕ → List ℕ → List ℕ → Round
round last open_groups span = elim (consume_tag span) [
  | none ↦ stop
  | some (inner, t, n) ↦ dispatch t inner last open_groups (drop n span)
]

-- `while (!open.empty())`: what is left of the span.
pub group_loop : ℕ → List ℕ → List ℕ → Outcome
group_loop fuel [] span = done span
group_loop zero (last ∷ open_groups) span = out_of_fuel
group_loop (suc fuel) (last ∷ open_groups) span = elim (round last open_groups span) [
  | stop ↦ refused
  | more open_groups' rest ↦ group_loop fuel open_groups' rest
]

-- The count is `static_cast<int>(size - data.size())`, which keeps its value on the domain of spans
-- shorter than 2 ^ 31 bytes. A round takes a byte at least, so that `length span + 1` rounds are enough.
pub consume_field_value : List ℕ → ℕ → WireType → Option ℕ
consume_field_value span num start_group = elim (group_loop (length span + 1) (num ∷ []) span) [
  | done rest ↦ some (length span - length rest)
  | refused ↦ none
  | out_of_fuel ↦ none
]
consume_field_value span num t = consume_scalar t span
