-- ===== src/Wire/Skip/Rounds.antt =====
-- The rounds of ConsumeFieldValue: each takes at least a byte of the span, so the loop ends.
use protowire_cpp.Common.{
  ℕ, zero, suc, ◌≤◌, ◌<◌, ◌≡◌, ◌≢◌, ◌⊎◌, refl, ◌∙◌, arith, some, List, [], ◌∷◌, length, drop,
  length-drop, Option-cases, inl, inr,
}
use protowire_cpp.Wire.{
  WireType, varint, fixed64, bytes, start_group, end_group, fixed32, consume_varint,
  consume_fixed32, consume_fixed64, consume_bytes, consume_tag,
}
use protowire_cpp.Wire.Varint.{consume_varint_bounds}
use protowire_cpp.Wire.Fields.{
  consume_tag_bounds, consume_bytes_bounds, consume_fixed32_bounds, consume_fixed64_bounds,
}
use protowire_cpp.Wire.Skip.{
  recursion_limit, consume_scalar, done, refused, out_of_fuel, Round, more, stop, skip_scalar,
  dispatch, round, group_loop,
}

pub consume_scalar_bounds :
    (t : WireType) (span : List ℕ) (n : ℕ)
    → consume_scalar t span ≡ some n
    → (1 ≤ n) × (n ≤ length span)
unfolding consume_scalar
consume_scalar_bounds varint span n e = elim (Option-cases (consume_varint span)) [
  | inl q ↦ ground arith
  | inr ((v, m), q) ↦ ground (arith, consume_varint_bounds span v m q)
]
consume_scalar_bounds bytes span n e = elim (Option-cases (consume_bytes span)) [
  | inl q ↦ ground arith
  | inr ((out, m), q) ↦ ground (arith, consume_bytes_bounds span out m q)
]
consume_scalar_bounds fixed64 span n e = elim (Option-cases (consume_fixed64 span)) [
  | inl q ↦ ground arith
  | inr ((v, m), q) ↦ ground (arith, consume_fixed64_bounds span v m q)
]
consume_scalar_bounds fixed32 span n e = elim (Option-cases (consume_fixed32 span)) [
  | inl q ↦ ground arith
  | inr ((v, m), q) ↦ ground (arith, consume_fixed32_bounds span v m q)
]
consume_scalar_bounds _ span n e = cc

dispatch_shrinks :
    (t : WireType) (inner last : ℕ) (open_groups span open_groups' rest : List ℕ)
    → dispatch t inner last open_groups span ≡ more open_groups' rest
    → length rest ≤ length span
unfolding dispatch skip_scalar
dispatch_shrinks start_group inner last open_groups span open_groups' rest e = ground arith
dispatch_shrinks end_group inner last open_groups span open_groups' rest e = ground arith
dispatch_shrinks t inner last open_groups span open_groups' rest e =
    elim (Option-cases (consume_scalar t span)) [
      | inl q ↦ ground arith
      | inr (n, q) ↦ ground (arith, consume_scalar_bounds t span n q, length-drop n span)
    ]

-- A round that goes on leaves a shorter span.
pub round_shrinks :
    (last : ℕ) (open_groups span open_groups' rest : List ℕ)
    → round last open_groups span ≡ more open_groups' rest
    → length rest < length span
unfolding round
round_shrinks last open_groups span open_groups' rest e = elim (Option-cases (consume_tag span)) [
  | inl q ↦ ground arith
  | inr ((inner, t, n), q) ↦ ground (
    arith,
    consume_tag_bounds span inner t n q,
    length-drop n span,
    dispatch_shrinks t inner last open_groups (drop n span) open_groups' rest,
  )
]

pub Round-cases :
    (r : Round)
    → (r ≡ stop) ⊎ ((open_groups : List ℕ) × (rest : List ℕ) × (r ≡ more open_groups rest))
Round-cases stop = inl refl
Round-cases (more open_groups rest) = inr (open_groups, rest, refl)

-- One turn of the loop.
pub group_loop_more :
    (f last : ℕ) (open_groups span open_groups' rest : List ℕ)
    → round last open_groups span ≡ more open_groups' rest
    → group_loop (suc f) (last ∷ open_groups) span ≡ group_loop f open_groups' rest
unfolding group_loop
group_loop_more f last open_groups span open_groups' rest q = rw (q, group_loop)

pub group_loop_stop :
    (f last : ℕ) (open_groups span : List ℕ)
    → round last open_groups span ≡ stop
    → group_loop (suc f) (last ∷ open_groups) span ≡ refused
unfolding group_loop
group_loop_stop f last open_groups span q = rw (q, group_loop)

pub group_loop-nil : (f : ℕ) (span : List ℕ) → group_loop f [] span ≡ done span
unfolding group_loop
group_loop-nil zero span = refl
group_loop-nil (suc f) span = refl

-- Above the length of the span, the fuel makes no difference, and the loop ends by itself.
pub group_loop_fuel :
    (f g : ℕ) (open_groups span : List ℕ)
    → length span < f
    → length span < g
    → (group_loop f open_groups span ≡ group_loop g open_groups span)
      × (group_loop f open_groups span ≢ out_of_fuel)
group_loop_fuel f g [] span hf hg = cc_pair
  where
    cc_pair : (group_loop f [] span ≡ group_loop g [] span) × (group_loop f [] span ≢ out_of_fuel)
    cc_pair = rw (group_loop-nil f span, group_loop-nil g span) (refl, λ e. cc)
group_loop_fuel zero g (last ∷ open_groups) span hf hg = absurd (omega arith)
group_loop_fuel (suc f) zero (last ∷ open_groups) span hf hg = absurd (omega arith)
group_loop_fuel (suc f) (suc g) (last ∷ open_groups) span hf hg =
    elim (Round-cases (round last open_groups span)) [
      | inl q ↦
          rw (group_loop_stop f last open_groups span q, group_loop_stop g last open_groups span q)
            (refl, λ e. cc)
      | inr (open_groups', rest, q) ↦
          let shorter = round_shrinks last open_groups span open_groups' rest q in
          rw
            (
              group_loop_more f last open_groups span open_groups' rest q,
              group_loop_more g last open_groups span open_groups' rest q,
            )
            (group_loop_fuel f g open_groups' rest (omega arith) (omega arith))
    ]

-- The same round of the loop, from what the grammar says of the field.
pub turn :
    (f last : ℕ) (open_groups span open_groups' rest : List ℕ)
    → round last open_groups span ≡ more open_groups' rest
    → length span < f
    → (length rest < length span)
      × (group_loop f (last ∷ open_groups) span ≡ group_loop f open_groups' rest)
turn zero last open_groups span open_groups' rest q hf = absurd (omega arith)
turn (suc f) last open_groups span open_groups' rest q hf =
    let shorter = round_shrinks last open_groups span open_groups' rest q in
    (
      shorter,
      group_loop_more f last open_groups span open_groups' rest q
          ∙ (group_loop_fuel f (suc f) open_groups' rest (omega arith) (omega arith)).0,
    )

pub round_tag :
    (inner : ℕ) (t : WireType) (n last : ℕ) (open_groups span : List ℕ)
    → consume_tag span ≡ some (inner, t, n)
    → round last open_groups span ≡ dispatch t inner last open_groups (drop n span)
unfolding round
round_tag inner t n last open_groups span e = rw (e, round)

pub dispatch_scalar :
    (inner : ℕ) (t : WireType) (last m : ℕ) (open_groups span : List ℕ)
    → consume_scalar t span ≡ some m
    → dispatch t inner last open_groups span ≡ more (last ∷ open_groups) (drop m span)
unfolding dispatch skip_scalar consume_scalar
dispatch_scalar inner start_group last m open_groups span e = cc
dispatch_scalar inner end_group last m open_groups span e = cc
dispatch_scalar inner t last m open_groups span e = ground (arith, e)

pub dispatch_close :
    (last : ℕ) (open_groups span : List ℕ)
    → dispatch end_group last last open_groups span ≡ more open_groups span
unfolding dispatch
dispatch_close last open_groups span = ground arith

pub dispatch_open :
    (inner last : ℕ) (open_groups span : List ℕ)
    → length open_groups < recursion_limit
    → dispatch start_group inner last open_groups span ≡ more (inner ∷ last ∷ open_groups) span
unfolding dispatch
dispatch_open inner last open_groups span h = ground arith
