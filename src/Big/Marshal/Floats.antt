-- ===== src/Big/Marshal/Floats.antt =====
-- MarshalBigFloatMsg of src/pb/big.cc: the mantissa and the exponent that it writes.
use protowire_cpp.Common.{
  ℕ, zero, suc, ◌+◌, ◌-◌, ◌*◌, ◌^◌, ◌≤◌, ◌<◌, ◌≡◌, sym, ap, ◌∙◌, arith, inl, inr, List, [], ◌∷◌,
  ltb, tested, Bool-cases,
}
use native.Mathlib.Nat.{pow-suc, one-le-pow, pow-le-pow_right, mul-le-mul_right}
use protowire_cpp.Common.Int.{ℤ, pos, negsuc, pos_part, neg_part, ◌+ℤ◌, ◌-ℤ◌}
use protowire_cpp.Big.{bit_len, shift_right_rounded}
use protowire_cpp.Big.Bits.{bit_len_bounds}
use protowire_cpp.Big.Magnitudes.{value, IsCanonical}
use protowire_cpp.Big.Shifts.{two_split}
use protowire_cpp.Big.Widening.{shift_left-Holds, shift_left-IsCanonical}
use protowire_cpp.Big.Rounding.{HalfEven, shift_right_rounded-HalfEven}
use protowire_cpp.Big.Marshal.{narrowed, whole}

-- The exponents of two powers of two.
exponent_le : (a b : ℕ) → 2 ^ a < 2 * 2 ^ b → a ≤ b
exponent_le a b h = elim (Bool-cases (ltb b a)) [
  | inl t ↦
      let more : 2 ^ suc b ≤ 2 ^ a =
        pow-le-pow_right {n = 2} (omega arith) {i = suc b} {j = a} (ground arith) in
      absurd (omega (arith, more, pow-suc 2 b))
  | inr t ↦ ground arith
]

-- The one number of bits that a magnitude can have.
pub bit_len_exact :
    (mag : List ℕ) (n : ℕ)
    → IsCanonical mag
    → 1 ≤ value mag
    → 2 ^ n ≤ 2 * value mag
    → value mag < 2 ^ n
    → bit_len mag ≡ n
bit_len_exact mag n c h low high =
    let (k1, k2) = bit_len_bounds mag c in
    let most = k2 h in
    let few = exponent_le n (bit_len mag) (omega arith) in
    let many = exponent_le (bit_len mag) n (omega arith) in omega arith

-- A number with more bits than `prec` is not rounded to 0.
rounded_some :
    (v p most q : ℕ) → 2 * v ≤ 2 * (q * p) + p → most * p ≤ 2 * v → 2 ≤ most → 1 ≤ p → 1 ≤ q
rounded_some v p most zero h k hm hp =
    let two : 2 * p ≤ most * p = mul-le-mul_right p hm in absurd (omega (arith, two))
rounded_some v p most (suc q) h k hm hp = omega arith

-- A number below `m` units is rounded to `m` units at most.
rounded_le : (v p m q : ℕ) → v < m * p → 2 * (q * p) ≤ 2 * v + p → q ≤ m
rounded_le v p m q h k = elim (Bool-cases (ltb m q)) [
  | inl t ↦
      let more : suc m * p ≤ q * p = mul-le-mul_right p (ground arith) in
      absurd (omega (arith, h, k, more))
  | inr t ↦ ground arith
]

exact : (v : ℕ) → HalfEven v 1 v
exact v = record {
  above = omega arith;
  below = omega arith;
  even_above = λ e. absurd (omega arith);
  even_below = λ e. absurd (omega arith);
}

pub plus_parts :
    (e : ℤ) (n : ℕ) → pos_part (e +ℤ pos n) + neg_part e ≡ pos_part e + n + neg_part (e +ℤ pos n)
unfolding ◌+ℤ◌
plus_parts (pos k) n = ground arith
plus_parts (negsuc k) n = ground arith

pub minus_parts :
    (e : ℤ) (n : ℕ) → pos_part (e -ℤ pos n) + neg_part e + n ≡ pos_part e + neg_part (e -ℤ pos n)
unfolding ◌-ℤ◌
minus_parts (pos k) n = ground arith
minus_parts (negsuc k) n = ground arith

-- The mantissa rounded to `prec` bits, with the exponent that goes with it. A round up can give the next
-- power of two.
pub record Narrowed (m : List ℕ) (exponent : ℤ) (prec : ℕ) (r : List ℕ × ℤ) : Type 0 where
  pub magnitude : IsCanonical r.0
  pub nearest : HalfEven (value m) (2 ^ (bit_len m - prec)) (value r.0)
  pub some : 1 ≤ value m → 1 ≤ value r.0
  pub most : value r.0 ≤ 2 ^ prec
  pub point :
      pos_part r.1 + neg_part exponent ≡ pos_part exponent + (bit_len m - prec) + neg_part r.1

pub narrowed-Narrowed :
    (m : List ℕ) (exponent : ℤ) (prec : ℕ)
    → IsCanonical m
    → 1 ≤ prec
    → Narrowed m exponent prec (narrowed m exponent prec)
unfolding narrowed
narrowed-Narrowed m exponent prec h hp =
    let n = bit_len m - prec in
    let v = value m in
    let (k1, k2) = bit_len_bounds m h in
    tested {A = List ℕ × ℤ} (Narrowed m exponent prec) (ltb prec (bit_len m))
      (λ t.
        let (c, near) = shift_right_rounded-HalfEven m n h.0 (ground arith) (ground arith) in
        let e : prec + n ≡ bit_len m = ground arith in
        let power = ap (λ x. 2 ^ x) (sym e) ∙ two_split prec n in
        let two : 2 ≤ 2 ^ prec = pow-le-pow_right {n = 2} (omega arith) {i = 1} {j = prec} hp in
        record {
          magnitude = c;
          nearest = near;
          some = λ x.
              rounded_some v (2 ^ n) (2 ^ prec) _ near.above (omega (arith, k2 x, power)) two
                (one-le-pow n 2 (omega arith));
          most = rounded_le v (2 ^ n) (2 ^ prec) _ (omega (arith, k1, power)) near.below;
          point = plus_parts exponent n;
        })
      (λ t.
        let z : n ≡ 0 = ground arith in
        let less =
          pow-le-pow_right {n = 2} (omega arith) {i = bit_len m} {j = prec} (ground arith) in
        record {
          magnitude = h;
          nearest = rw z (exact v);
          some = λ x. x;
          most = omega (arith, k1, less);
          point = omega arith;
        })

-- The bits of a number of at most 2 ^ prec: at most those of the precision, or it is that power.
one_carry :
    (mag : List ℕ) (prec : ℕ)
    → IsCanonical mag
    → 1 ≤ value mag
    → value mag ≤ 2 ^ prec
    → prec < bit_len mag
    → (bit_len mag ≡ suc prec) × (value mag ≡ 2 ^ prec)
one_carry mag prec c h most k =
    let (k1, k2) = bit_len_bounds mag c in
    let low = k2 h in
    let few = exponent_le (bit_len mag) (suc prec) (omega (arith, pow-suc 2 prec)) in
    let e : bit_len mag ≡ suc prec = omega arith in
    (e, omega (arith, ap (λ x. 2 ^ x) e, pow-suc 2 prec))

-- The mantissa with `prec` bits, and what it is in units of the one that had `bits`.
pub record Whole (mag : List ℕ) (prec : ℕ) (w : List ℕ) : Type 0 where
  pub magnitude : IsCanonical w
  pub full : 2 ^ prec ≤ 2 * value w
  pub fits : value w < 2 ^ prec
  pub scaled : (a b : ℕ) → a + prec ≡ b + bit_len mag → value w * 2 ^ a ≡ value mag * 2 ^ b

halved : (v w m : ℕ) → v ≡ 2 * m → 2 * v ≤ 2 * (w * 2) + 2 → 2 * (w * 2) ≤ 2 * v + 2 → w ≡ m
halved v w m e h k = omega arith

carried : (w v m a b : ℕ) → w ≡ m → v ≡ m * 2 → a ≡ suc b → w * 2 ^ a ≡ v * 2 ^ b
carried w v m a b e k s = rw (s, e, k, pow-suc 2 b) (omega arith)

widened_by : (w v n a b : ℕ) → w ≡ v * 2 ^ n → n + a ≡ b → w * 2 ^ a ≡ v * 2 ^ b
widened_by w v n a b e s = rw (e, sym s, two_split n a) (omega arith)

pub whole-Whole :
    (mag : List ℕ) (prec : ℕ)
    → IsCanonical mag
    → 1 ≤ prec
    → 1 ≤ value mag
    → value mag ≤ 2 ^ prec
    → Whole mag prec (whole mag prec)
unfolding whole
whole-Whole [] prec c hp h most = absurd (omega arith)
whole-Whole (b ∷ rest) zero c hp h most = absurd (omega arith)
whole-Whole (b ∷ rest) (suc p) c hp h most =
    let mag = b ∷ rest in
    let v = value mag in
    let (k1, k2) = bit_len_bounds mag c in
    let low = k2 h in
    let half = pow-suc 2 p in
    tested (Whole mag (suc p)) (ltb (suc p) (bit_len mag))
      (λ t.
        let (e, carry) = one_carry mag (suc p) c h most (ground arith) in
        let n : bit_len mag - suc p ≡ 1 = omega arith in
        let (k, near) = shift_right_rounded-HalfEven mag 1 c.0 (omega arith) (ground arith) in
        let w : value (shift_right_rounded mag 1) ≡ 2 ^ p =
          halved v _ (2 ^ p) (omega (arith, half)) near.above near.below in
        rw n record {
          magnitude = k;
          full = omega (arith, half);
          fits = omega (arith, half, one-le-pow p 2 (omega arith));
          scaled = λ a d q. carried _ v (2 ^ p) a d w (omega arith) (omega arith);
        })
      (λ t.
        let n = suc p - bit_len mag in
        let k = shift_left-Holds mag n c.0 in
        let j : bit_len mag + n ≡ suc p = ground arith in
        let power : 2 ^ suc p ≡ 2 ^ bit_len mag * 2 ^ n =
          ap (λ x. 2 ^ x) (sym j) ∙ two_split (bit_len mag) n in
        record {
          magnitude = shift_left-IsCanonical b rest n c;
          full =
              let more : 2 ^ bit_len mag * 2 ^ n ≤ 2 * v * 2 ^ n = mul-le-mul_right (2 ^ n) low in
              omega (arith, more, power, k.number);
          fits =
              let less : suc v * 2 ^ n ≤ 2 ^ bit_len mag * 2 ^ n = mul-le-mul_right (2 ^ n) k1 in
              omega (arith, less, power, k.number, one-le-pow n 2 (omega arith));
          scaled = λ a d q. widened_by _ v n a d k.number (omega arith);
        })
