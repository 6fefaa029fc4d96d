-- ===== src/Big/Unique.antt =====
-- A magnitude of src/pb/big.cc with no leading zero byte is the only one for its number.
use protowire_cpp.Common.{
  ℕ, ◌+◌, ◌*◌, ◌≤◌, ◌<◌, ◌≡◌, refl, sym, arith, List, [], ◌∷◌, length, ltb, ◌==◌, Bool-cases, inl,
  inr,
}
use protowire_cpp.Big.Magnitudes.{value_from, value, IsBytes, IsTrimmed, IsCanonical}

-- A magnitude with no leading zero is the only one for its number.
same_length :
    (xs ys : List ℕ) (a b : ℕ)
    → IsBytes xs
    → IsBytes ys
    → length xs ≡ length ys
    → value_from a xs ≡ value_from b ys
    → (a ≡ b) × (xs ≡ ys)
same_length [] [] a b hx hy e k = (k, refl)
same_length [] (y ∷ ys) a b hx hy e k = absurd (omega arith)
same_length (x ∷ xs) [] a b hx hy e k = absurd (omega arith)
same_length (x ∷ xs) (y ∷ ys) a b (hx, hxs) (hy, hys) e k =
    let (k1, k2) = same_length xs ys (a * 256 + x) (b * 256 + y) hxs hys (omega arith) k in
    let top : x ≡ y = omega arith in (omega arith, ground arith)

same_length-lt :
    (xs ys : List ℕ) (a b : ℕ)
    → IsBytes xs
    → length xs ≡ length ys
    → a < b
    → value_from a xs < value_from b ys
same_length-lt [] [] a b hx e k = k
same_length-lt [] (y ∷ ys) a b hx e k = absurd (omega arith)
same_length-lt (x ∷ xs) [] a b hx e k = absurd (omega arith)
same_length-lt (x ∷ xs) (y ∷ ys) a b (hx, hxs) e k =
    same_length-lt xs ys (a * 256 + x) (b * 256 + y) hxs (omega arith) (omega arith)

-- More bytes behind a first one that is not zero stand for more.
longer-lt :
    (xs ys : List ℕ) (b : ℕ)
    → IsBytes xs
    → length xs ≤ length ys
    → 1 ≤ b
    → value xs < value_from b ys
longer-lt xs [] b hx e k = same_length-lt xs [] 0 b hx (omega arith) k
longer-lt xs (y ∷ ys) b hx e k = elim (Bool-cases (length xs == length (y ∷ ys))) [
  | inl p ↦ same_length-lt xs (y ∷ ys) 0 b hx (ground arith) k
  | inr p ↦ longer-lt xs ys (b * 256 + y) hx (ground arith) (omega arith)
]

shorter : (xs ys : List ℕ) → IsBytes xs → IsTrimmed ys → value xs ≡ value ys → length ys ≤ length xs
shorter xs [] hx hy e = omega arith
shorter xs (y ∷ ys) hx hy e = elim (Bool-cases (ltb (length xs) (length (y ∷ ys)))) [
  | inl p ↦ absurd (omega (arith, longer-lt xs ys (0 * 256 + y) hx (ground arith) (omega arith)))
  | inr p ↦ ground arith
]

pub canonical_unique :
    (xs ys : List ℕ) → IsCanonical xs → IsCanonical ys → value xs ≡ value ys → xs ≡ ys
canonical_unique xs ys (hx, tx) (hy, ty) e =
    let few = shorter xs ys hx ty e in
    let many = shorter ys xs hy tx (sym e) in (same_length xs ys 0 0 hx hy (omega arith) e).1
