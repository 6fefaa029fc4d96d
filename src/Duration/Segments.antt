-- ===== src/Duration/Segments.antt =====
-- The loop of ParseDuration: each segment takes a byte at least, so the length of the string is fuel
-- enough.
use protowire_cpp.Common.{
  ℕ, zero, suc, ◌+◌, ◌-◌, ◌*◌, ◌≤◌, ◌<◌, ◌≡◌, arith, Bool, true, false, none, some, List, [], ◌∷◌,
  if◌then◌else◌, length, drop, length-drop, Option-cases, inl, inr,
}
use protowire_cpp.Duration.{
  unit_nanos, next_whole, whole_part, frac_part, point_part, segment_nanos, add_u64, segment,
  segments,
}

whole_part_le :
    (s : List ℕ) (whole : ℕ) (any : Bool) (w : ℕ) (a : Bool) (rest : List ℕ)
    → whole_part whole any s ≡ some (w, a, rest)
    → length rest ≤ length s
unfolding whole_part
whole_part_le [] whole any w a rest e = ground arith
whole_part_le (c ∷ s) whole any w a rest e = elim (Option-cases (next_whole whole c)) [
  | inl q ↦ ground (arith, q)
  | inr (n, q) ↦ ground (arith, q, whole_part_le s n true w a rest)
]

frac_part_le :
    (s : List ℕ) (num div : ℕ) (any : Bool) → length (frac_part num div any s).3 ≤ length s
unfolding frac_part
frac_part_le [] num div any = ground arith
frac_part_le (c ∷ s) num div any =
    ground
      (arith, frac_part_le s (num * 10 + (c - 48)) (div * 10) true, frac_part_le s num div true)

unit_nanos_bounds :
    (s : List ℕ) (unit len : ℕ) → unit_nanos s ≡ some (unit, len) → (1 ≤ len) × (len ≤ length s)
unfolding unit_nanos
unit_nanos_bounds s unit len e = ground arith

point_part_le : (any : Bool) (s : List ℕ) → length (point_part any s).3 ≤ length s
unfolding point_part
point_part_le any [] = ground arith
point_part_le any (c ∷ s) = ground (arith, frac_part_le s 0 1 any)

-- A segment leaves a shorter string.
pub segment_shrinks :
    (total : ℕ) (s : List ℕ) (total' : ℕ) (rest : List ℕ)
    → segment total s ≡ some (total', rest)
    → length rest < length s
unfolding segment
segment_shrinks total s total' rest e = elim (Option-cases (whole_part 0 false s)) [
  | inl q ↦ absurd (ground (arith, q, e))
  | inr ((whole, any, s1), q) ↦
      let first = whole_part_le s 0 false whole any s1 q in
      let p = point_part any s1 in
      let second = point_part_le any s1 in
      elim (Option-cases (if p.2 then unit_nanos p.3 else none)) [
        | inl q' ↦ absurd (ground (arith, q, q', e))
        | inr ((unit, len), q') ↦
            let third : (1 ≤ len) × (len ≤ length p.3) =
              ground (arith, q', unit_nanos_bounds p.3 unit len) in
            elim (Option-cases (segment_nanos whole p.0 p.1 unit)) [
              | inl q2 ↦ absurd (ground (arith, q, q', q2, e))
              | inr (v, q2) ↦ elim (Option-cases (add_u64 total v)) [
                | inl q3 ↦ absurd (ground (arith, q, q', q2, q3, e))
                | inr (t, q3) ↦
                    let run : some (t, drop len p.3) ≡ some (total', rest) =
                      rw (q, q', q2, q3) at e in
                    let left : length (drop len p.3) ≡ length rest = cc run in
                    omega (arith, left, first, second, third, length-drop len p.3 third.1)
              ]
            ]
      ]
]

-- Any two amounts of fuel from the length of the string on give the same total, or both fail: the
-- loop of ParseDuration ends by itself.
pub segments_fuel :
    (f g total : ℕ) (s : List ℕ)
    → length s ≤ f
    → length s ≤ g
    → segments f total s ≡ segments g total s
unfolding segments
segments_fuel f g total [] hf hg = ground arith
segments_fuel zero g total (c ∷ s) hf hg = absurd (omega arith)
segments_fuel (suc f) zero total (c ∷ s) hf hg = absurd (omega arith)
segments_fuel (suc f) (suc g) total (c ∷ s) hf hg = elim (Option-cases (segment total (c ∷ s))) [
  | inl q ↦ ground (arith, q)
  | inr ((total', rest), q) ↦
      let shorter = segment_shrinks total (c ∷ s) total' rest q in
      ground (arith, q, segments_fuel f g total' rest (omega arith) (omega arith))
]
