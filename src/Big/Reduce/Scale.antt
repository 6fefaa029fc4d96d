-- ===== src/Big/Reduce/Scale.antt =====
-- Reduce of src/pb/big.cc: the value it keeps, and the scale it leaves.
use protowire_cpp.Common.{
  ℕ, zero, suc, ◌+◌, ◌-◌, ◌*◌, ◌%◌, ◌^◌, ◌≤◌, ◌<◌, ◌≡◌, ◌≢◌, sym, ap, ◌∙◌, arith, false, ◌&&◌, ◌⊎◌,
  inl, inr, List, ◌==◌, ltb, leb, if◌then◌else◌, All, tested, Bool-cases,
}
use native.Mathlib.Nat.{
  pow-suc, pow-le-pow_right, one-le-pow, mul_assoc, mul_comm, mul-add-mod_self_right, mod-eq_of_lt,
}
use protowire_cpp.Common.Int.{ℤ, pos_part, neg_part}
use protowire_cpp.Big.Magnitudes.{value, IsBytes, IsCanonical}
use protowire_cpp.Big.Reduce.{
  to_limbs, from_limbs, multiply_limbs, divide_limbs, batch_digits, pow10, raise_loop, lower_loop,
  reduce,
}
use protowire_cpp.Big.Reduce.Limbs.{
  limb_value, IsLimb, to_limbs_value, from_limbs_value, multiply_limbs_value, divide_limbs_value,
}

power_split : (m n : ℕ) → 10 ^ (m + n) ≡ 10 ^ m * 10 ^ n
power_split zero n = let e : 0 + n ≡ n = omega arith in rw e (omega arith)
power_split (suc m) n =
    let e : suc m + n ≡ suc (m + n) = omega arith in
    rw (e, pow-suc 10 (m + n), pow-suc 10 m, power_split m n) (omega arith)

power_minus : (k m : ℕ) → k ≤ m → 10 ^ k * 10 ^ (m - k) ≡ 10 ^ m
power_minus k m h = sym (power_split k (m - k)) ∙ ap (λ n. 10 ^ n) (omega arith)

small_power : (n : ℕ) → n ≤ 9 → 10 ^ n < 2 ^ 31
small_power n h =
    let most : 10 ^ n ≤ 10 ^ 9 = pow-le-pow_right (omega arith) h in omega (arith, most)

raise_loop_value :
    (rounds : ℕ) (limbs : List ℕ) (m : ℕ)
    → All IsLimb limbs
    → m ≤ rounds
    → All IsLimb (raise_loop rounds limbs m)
      × (limb_value (raise_loop rounds limbs m) ≡ limb_value limbs * 10 ^ m)
unfolding raise_loop
raise_loop_value zero limbs m h hm = let e : m ≡ 0 = omega arith in (h, rw e (omega arith))
raise_loop_value (suc rounds) limbs m h hm =
    let step = (if ltb batch_digits m then batch_digits else m) in
    let (k1, k2) = multiply_limbs_value limbs (pow10 step) h (small_power step (ground arith)) in
    tested (λ r. All IsLimb r × (limb_value r ≡ limb_value limbs * 10 ^ m)) (ltb 0 m)
      (λ p.
        let (t1, t2) =
          raise_loop_value rounds (multiply_limbs limbs (pow10 step)) (m - step) k1
            (ground arith) in
        let powers = power_minus step m (ground arith) in
        (
          t1,
          t2
              ∙ ap (λ x. x * 10 ^ (m - step)) k2
              ∙ mul_assoc (limb_value limbs) (10 ^ step) (10 ^ (m - step))
              ∙ ap (λ x. limb_value limbs * x) powers,
        ))
      (λ p. (h, let e : m ≡ 0 = ground arith in rw e (omega arith)))

-- The loop takes `scale` down to what it returns, and the value down by as many powers of ten. It
-- ends where the scale is below the step or a power of ten more does not divide the value.
record Lowered (step : ℕ) (limbs : List ℕ) (scale : ℕ) (r : List ℕ × ℕ) : Type 0 where
  limbs' : All IsLimb r.0
  down : r.1 ≤ scale
  same : limb_value r.0 * 10 ^ (scale - r.1) ≡ limb_value limbs
  last : (r.1 < step) ⊎ (limb_value r.0 % 10 ^ step ≢ 0)

rest_zero : (x r n : ℕ) → x + r ≡ n → r ≡ 0 → x ≡ n
rest_zero x r n e z = omega arith

lowered :
    (step scale : ℕ) (limbs quotient : List ℕ) (r : List ℕ × ℕ)
    → Lowered step quotient (scale - step) r
    → step ≤ scale
    → limb_value quotient * 10 ^ step ≡ limb_value limbs
    → Lowered step limbs scale r
lowered step scale limbs quotient r k hs e =
    let left = scale - step - r.1 in
    let e1 : scale - r.1 ≡ left + step = omega (arith, k.down) in
    record {
      limbs' = k.limbs';
      down = omega (arith, k.down);
      same =
          rw (e1, power_split left step)
            (sym (mul_assoc (limb_value r.0) (10 ^ left) (10 ^ step))
              ∙ ap (λ x. x * 10 ^ step) k.same
              ∙ e);
      last = k.last;
    }

stopped :
    (step scale q r n : ℕ)
    → (leb step scale && r == 0) ≡ false
    → r < 10 ^ step
    → q * 10 ^ step + r ≡ n
    → (scale < step) ⊎ (n % 10 ^ step ≢ 0)
stopped step scale q r n p k2 k3 = elim (Bool-cases (leb step scale)) [
  | inl s ↦
      let rest : n % 10 ^ step ≡ r =
        ap (λ x. x % 10 ^ step) (sym k3)
        ∙ mul-add-mod_self_right q (10 ^ step) r
        ∙ mod-eq_of_lt k2 in
      inr (λ e. (ground (arith, rest)))
  | inr s ↦ inl (ground arith)
]

lower_loop-Lowered :
    (step rounds : ℕ) (limbs : List ℕ) (scale : ℕ)
    → 1 ≤ step
    → step ≤ 9
    → All IsLimb limbs
    → scale ≤ rounds
    → Lowered step limbs scale (lower_loop step rounds limbs scale)
unfolding lower_loop
lower_loop-Lowered step zero limbs scale h1 h9 h hs = record {
  limbs' = h;
  down = omega arith;
  same = let e : scale - scale ≡ 0 = omega arith in rw e (omega arith);
  last = inl (omega arith);
}
lower_loop-Lowered step (suc rounds) limbs scale h1 h9 h hs =
    let few = small_power step h9 in
    let one = one-le-pow step 10 (omega arith) in
    let (k1, k2, k3) = divide_limbs_value limbs (pow10 step) h one (omega arith) in
    let (quotient, rem) = divide_limbs limbs (pow10 step) in
    tested (Lowered step limbs scale) (leb step scale && rem == 0)
      (λ p.
        let k = lower_loop-Lowered step rounds quotient (scale - step) h1 h9 k1 (omega arith) in
        lowered step scale limbs quotient _ k (ground arith)
          (rest_zero (limb_value quotient * 10 ^ step) rem (limb_value limbs) k3 (ground arith)))
      (λ p. record {
        limbs' = h;
        down = omega arith;
        same = let e : scale - scale ≡ 0 = omega arith in rw e (omega arith);
        last = stopped step scale _ _ _ p k2 k3;
      })

commuted : (x y z : ℕ) → x * (y * z) ≡ x * z * y
commuted x y z = ap (λ w. x * w) (mul_comm y z) ∙ sym (mul_assoc x z y)

-- One loop, across the equation.
crossed :
    (step : ℕ) (limbs : List ℕ) (scale : ℕ) (r : List ℕ × ℕ)
    → Lowered step limbs scale r
    → limb_value r.0 * 10 ^ scale ≡ limb_value limbs * 10 ^ r.1
crossed step limbs scale r k =
    let powers = power_minus r.1 scale k.down in
    rw (sym powers, sym k.same) (commuted (limb_value r.0) (10 ^ r.1) (10 ^ (scale - r.1)))

-- Both loops.
both :
    (x y z n s1 s2 : ℕ)
    → x * 10 ^ s1 ≡ y * 10 ^ s2
    → y * 10 ^ (n - s1) ≡ z
    → s1 ≤ n
    → x * 10 ^ n ≡ z * 10 ^ s2
both x y z n s1 s2 c e h =
    let powers = power_minus s1 n h in
    let left = 10 ^ (n - s1) in
    ap (λ w. x * w) (sym powers)
    ∙ sym (mul_assoc x (10 ^ s1) left)
    ∙ ap (λ w. w * left) c
    ∙ mul_assoc y (10 ^ s2) left
    ∙ commuted y (10 ^ s2) left
    ∙ ap (λ w. w * 10 ^ s2) e

-- The magnitude and the scale that Reduce leaves stand for the same decimal: unscaled × 10 ^ -scale
-- is what it was, written without a division. The magnitude has no leading zero byte, and the scale
-- is the smallest from 0 that holds the decimal: at a scale above 0 ten does not divide the magnitude.
pub reduce_value :
    (unscaled : List ℕ) (scale : ℤ)
    → IsBytes unscaled
    → IsCanonical (reduce unscaled scale).0
      × (value (reduce unscaled scale).0 * 10 ^ pos_part scale
          ≡ value unscaled * 10 ^ neg_part scale * 10 ^ (reduce unscaled scale).1)
      × (((reduce unscaled scale).1 ≡ 0) ⊎ (value (reduce unscaled scale).0 % 10 ≢ 0))
unfolding reduce
reduce_value unscaled scale h =
    let (b1, b2) = to_limbs_value unscaled h in
    let m = neg_part scale in
    let n = pos_part scale in
    let raised = raise_loop m (to_limbs unscaled) m in
    let (r1, r2) = raise_loop_value m (to_limbs unscaled) m b1 (omega arith) in
    let nine = lower_loop batch_digits n raised n in
    let k9 = lower_loop-Lowered 9 n raised n (omega arith) (omega arith) r1 (omega arith) in
    let one = lower_loop 1 nine.1 nine.0 nine.1 in
    let k1 =
      lower_loop-Lowered 1 nine.1 nine.0 nine.1 (omega arith) (omega arith) k9.limbs'
        (omega arith) in
    let (f1, f2) = from_limbs_value one.0 k1.limbs' in
    let c1 = crossed 1 nine.0 nine.1 one k1 in
    let total =
      both (limb_value one.0) (limb_value nine.0) (limb_value raised) n nine.1 one.1 c1 k9.same
        k9.down in
    (
      f1,
      ap (λ x. x * 10 ^ n) f2 ∙ total ∙ ap (λ x. x * 10 ^ one.1) (r2 ∙ ap (λ x. x * 10 ^ m) b2),
      smallest one.1 (limb_value one.0) (value (from_limbs one.0)) f2 k1.last,
    )
  where
    smallest : (s n k : ℕ) → k ≡ n → (s < 1) ⊎ (n % 10 ^ 1 ≢ 0) → (s ≡ 0) ⊎ (k % 10 ≢ 0)
    smallest s n k e (inl h) = inl (omega arith)
    smallest s n k e (inr h) = inr (λ z. h (omega arith))
