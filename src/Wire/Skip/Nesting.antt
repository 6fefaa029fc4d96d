-- ===== src/Wire/Skip/Nesting.antt =====
-- ConsumeFieldValue against the recursive reading of nested groups, with a bound on the depth.
use protowire_cpp.Common.{
  ◌^◌, ℕ, zero, suc, ◌+◌, ◌-◌, ◌≤◌, ◌<◌, ◌≡◌, ◌↔◌, ◌⊎◌, refl, ◌∙◌, arith, some, List, [], ◌∷◌, ◌==◌,
  ltb, length, drop, Option-cases, Bool-cases, inl, inr,
}
use protowire_cpp.Wire.{WireType, start_group, end_group, consume_tag}
use protowire_cpp.Wire.Skip.{
  recursion_limit, consume_scalar, Outcome, done, refused, out_of_fuel, more, skip_scalar, dispatch,
  round, group_loop, consume_field_value,
}
use protowire_cpp.Wire.Skip.Rounds.{
  consume_scalar_bounds, Round-cases, group_loop_more, group_loop_stop, group_loop-nil, turn,
  round_tag, dispatch_scalar, dispatch_close, dispatch_open,
}

-- `Group depth num span rest`: behind the start tag of group `num` stand fields that end in its end
-- tag, with at most `depth` groups inside one another, and `rest` follows.
pub data Group : ℕ → ℕ → List ℕ → List ℕ → Type 0 where
  close :
      {depth num : ℕ} {span rest : List ℕ} (n : ℕ)
      → consume_tag span ≡ some (num, end_group, n)
      → drop n span ≡ rest
      → Group depth num span rest
  scalar :
      {depth num : ℕ} {span rest : List ℕ} (inner : ℕ) (t : WireType) (n m : ℕ)
      → consume_tag span ≡ some (inner, t, n)
      → consume_scalar t (drop n span) ≡ some m
      → Group depth num (drop m (drop n span)) rest
      → Group depth num span rest
  nested :
      {depth num : ℕ} {span rest : List ℕ} (d inner n : ℕ) (mid : List ℕ)
      → depth ≡ suc d
      → consume_tag span ≡ some (inner, start_group, n)
      → Group d inner (drop n span) mid
      → Group depth num mid rest
      → Group depth num span rest

-- The open groups of the loop, the last first: each ends in turn. Below the last stand as many
-- groups as the list is long behind it.
abbrev Groups : List ℕ → List ℕ → List ℕ → Type 0
Groups [] span rest = span ≡ rest
Groups (last ∷ open_groups) span rest =
    (mid : List ℕ) × Group (recursion_limit - length open_groups) last span mid
    × Groups open_groups mid rest

-- A round that goes on, read as a step of the grammar.
dispatch-Groups :
    (t : WireType) (inner last n : ℕ) (open_groups span open_groups' next rest : List ℕ)
    → length open_groups ≤ recursion_limit
    → consume_tag span ≡ some (inner, t, n)
    → dispatch t inner last open_groups (drop n span) ≡ more open_groups' next
    → (length open_groups' ≤ recursion_limit + 1)
      × (Groups open_groups' next rest → Groups (last ∷ open_groups) span rest)
unfolding dispatch skip_scalar
dispatch-Groups start_group inner last n open_groups span open_groups' next rest hl e h =
    elim (Bool-cases (ltb recursion_limit (length (last ∷ open_groups)))) [
      | inl deep ↦ absurd (ground arith)
      | inr fits ↦
          let same : open_groups' ≡ inner ∷ last ∷ open_groups = ground arith in
          let behind : next ≡ drop n span = ground arith in
          let room : length open_groups < recursion_limit = ground arith in
          let d : recursion_limit - length open_groups
              ≡ suc (recursion_limit - length (last ∷ open_groups)) =
            omega arith in
          rw (same, behind)
            (
              omega arith,
              λ (mid, g, (mid', g', gs)). (
                mid',
                nested (recursion_limit - length (last ∷ open_groups)) inner n mid d e g g',
                gs,
              ),
            )
    ]
dispatch-Groups end_group inner last n open_groups span open_groups' next rest hl e h =
    elim (Bool-cases (inner == last)) [
      | inl closes ↦
          let same : open_groups' ≡ open_groups = ground arith in
          let behind : next ≡ drop n span = ground arith in
          let it : inner ≡ last = ground arith in
          rw (same, behind) (omega arith, λ gs. (drop n span, close n (rw it at e) refl, gs))
      | inr other ↦ absurd (ground arith)
    ]
dispatch-Groups t inner last n open_groups span open_groups' next rest hl e h =
    elim (Option-cases (consume_scalar t (drop n span))) [
      | inl q ↦ absurd (ground arith)
      | inr (m, q) ↦
          let same : open_groups' ≡ last ∷ open_groups = ground arith in
          let behind : next ≡ drop m (drop n span) = ground arith in
          rw (same, behind) (omega arith, λ (mid, g, gs). (mid, scalar inner t n m e q g, gs))
    ]

round-Groups :
    (last : ℕ) (open_groups span open_groups' next rest : List ℕ)
    → length open_groups ≤ recursion_limit
    → round last open_groups span ≡ more open_groups' next
    → (length open_groups' ≤ recursion_limit + 1)
      × (Groups open_groups' next rest → Groups (last ∷ open_groups) span rest)
unfolding round
round-Groups last open_groups span open_groups' next rest hl h =
    elim (Option-cases (consume_tag span)) [
      | inl q ↦ absurd (ground arith)
      | inr ((inner, t, n), q) ↦
          dispatch-Groups t inner last n open_groups span open_groups' next rest hl q (ground arith)
    ]

group_loop-Groups :
    (f : ℕ) (open_groups span rest : List ℕ)
    → length open_groups ≤ recursion_limit + 1
    → group_loop f open_groups span ≡ done rest
    → Groups open_groups span rest
unfolding group_loop
group_loop-Groups f [] span rest hl e = ground arith
group_loop-Groups zero (last ∷ open_groups) span rest hl e = cc
group_loop-Groups (suc f) (last ∷ open_groups) span rest hl e =
    elim (Round-cases (round last open_groups span)) [
      | inl q ↦ absurd (cc (group_loop_stop f last open_groups span q))
      | inr (open_groups', next, q) ↦
          let (bound, step) =
            round-Groups last open_groups span open_groups' next rest (omega arith) q in
          step (
            group_loop-Groups f open_groups' next rest bound
              (cc (group_loop_more f last open_groups span open_groups' next q)))
    ]

-- A group of the grammar is followed to its end by the loop.
Group-group_loop :
    {depth num : ℕ} {span mid : List ℕ} (f : ℕ) (open_groups : List ℕ)
    → Group depth num span mid
    → depth + length open_groups ≡ recursion_limit
    → length span < f
    → (length mid < length span)
      × (group_loop f (num ∷ open_groups) span ≡ group_loop f open_groups mid)
Group-group_loop {num} {span} f open_groups (close n e p) h hf = rw (← p) (
    turn f num open_groups span open_groups (drop n span)
      (round_tag num end_group n num open_groups span e
        ∙ dispatch_close num open_groups (drop n span))
      hf)
Group-group_loop {num} {span} f open_groups (scalar inner t n m e q g) h hf =
    let (shorter, here) =
      turn f num open_groups span (num ∷ open_groups) (drop m (drop n span))
        (round_tag inner t n num open_groups span e
          ∙ dispatch_scalar inner t num m open_groups (drop n span) q)
        hf in
    let (shorter', there) = Group-group_loop f open_groups g h (omega arith) in
    (omega arith, here ∙ there)
Group-group_loop {num} {span} f open_groups (nested d inner n mid p e g g') h hf =
    let (shorter, here) =
      turn f num open_groups span (inner ∷ num ∷ open_groups) (drop n span)
        (round_tag inner start_group n num open_groups span e
          ∙ dispatch_open inner num open_groups (drop n span) (omega arith))
        hf in
    let (shorter', inside) = Group-group_loop f (num ∷ open_groups) g (omega arith) (omega arith) in
    let (shorter'', behind) = Group-group_loop f open_groups g' h (omega arith) in
    (omega arith, here ∙ inside ∙ behind)

Outcome-cases :
    (o : Outcome) → ((rest : List ℕ) × (o ≡ done rest)) ⊎ ((o ≡ refused) ⊎ (o ≡ out_of_fuel))
Outcome-cases (done rest) = inl (rest, refl)
Outcome-cases refused = inr (inl refl)
Outcome-cases out_of_fuel = inr (inr refl)

-- The body of group `num` takes the first `n` bytes of `span`.
abbrev pub ReadsGroup : List ℕ → ℕ → ℕ → Type 0
ReadsGroup span num n =
    (rest : List ℕ) × Group recursion_limit num span rest × (n + length rest ≡ length span)

consume_field_value-ReadsGroup :
    (span : List ℕ) (num n : ℕ)
    → consume_field_value span num start_group ≡ some n
    → ReadsGroup span num n
unfolding consume_field_value
consume_field_value-ReadsGroup span num n e =
    elim (Outcome-cases (group_loop (length span + 1) (num ∷ []) span)) [
      | inl (rest, q) ↦
          let (mid, g, same) =
            group_loop-Groups (length span + 1) (num ∷ []) span rest (omega arith) q in
          let g' : Group recursion_limit num span rest = rw same at g in
          let (shorter, _) = Group-group_loop (length span + 1) [] g' (omega arith) (omega arith) in
          (rest, g', ground arith)
      | inr (inl q) ↦ absurd (ground arith)
      | inr (inr q) ↦ absurd (ground arith)
    ]

ReadsGroup-consume_field_value :
    (span : List ℕ) (num n : ℕ)
    → ReadsGroup span num n
    → consume_field_value span num start_group ≡ some n
unfolding consume_field_value
ReadsGroup-consume_field_value span num n (rest, g, e) =
    let (shorter, run) = Group-group_loop (length span + 1) [] g (omega arith) (omega arith) in
    let ends = group_loop-nil (length span + 1) rest in ground (arith, run, ends)

-- ConsumeFieldValue of a start tag returns a count just when the span opens with the body of the
-- group, with at most 10000 groups inside one another, and the count is the bytes of that body.
pub consume_field_value_iff :
    (span : List ℕ) (num n : ℕ)
    → (consume_field_value span num start_group ≡ some n) ↔ ReadsGroup span num n
consume_field_value_iff span num n =
    (consume_field_value-ReadsGroup span num n, ReadsGroup-consume_field_value span num n)

-- Of a span shorter than 2 ^ 31 bytes, a count that ConsumeFieldValue returns is at least 1 and
-- does not pass the end of the span, whatever the type.
pub consume_field_value_bounds :
    (span : List ℕ) (num : ℕ) (t : WireType) (n : ℕ)
    → length span < 2 ^ 31
    → consume_field_value span num t ≡ some n
    → (1 ≤ n) × (n ≤ length span)
consume_field_value_bounds span num start_group n h e =
    let (rest, g, same) = consume_field_value-ReadsGroup span num n e in
    let (shorter, _) = Group-group_loop (length span + 1) [] g (omega arith) (omega arith) in
    omega arith
consume_field_value_bounds span num t n h e =
    consume_scalar_bounds t span n (unfold consume_field_value in e)
