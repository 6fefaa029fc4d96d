-- ===== src/Big/Text/Literals.antt =====
-- The text of a decimal literal of src/pb/big.cc: leading zeros, and the dot between two runs of digits.
use protowire_cpp.Common.{
  ℕ, zero, suc, ◌+◌, ◌-◌, ◌*◌, ◌≡◌, refl, arith, List, [], ◌∷◌, ◌++◌, ◌&&◌, none, some, Bool, true,
  false, length, drop, take-append, Bool-cases, Option-cases, inl, inr,
}
use protowire_cpp.Common.Text.{is_digit, zeros}
use protowire_cpp.Big.Digits.{number_from, all_digits}
use protowire_cpp.Big.Text.{cut_at_dot, find_dot, significant_digits}

pub number_from-append :
    (s t : List ℕ) (n : ℕ) → number_from n (s ++ t) ≡ number_from (number_from n s) t
number_from-append [] t n = refl
number_from-append (c ∷ s) t n = number_from-append s t (n * 10 + (c - b'0'))

pub all_digits-append : (s t : List ℕ) → all_digits (s ++ t) ≡ (all_digits s && all_digits t)
all_digits-append [] t = refl
all_digits-append (c ∷ s) t = elim (Bool-cases (is_digit c)) [
  | inl p ↦ rw p (all_digits-append s t)
  | inr p ↦ rw p refl
]

pub zeros_number : (k : ℕ) (s : List ℕ) → number_from 0 (zeros k ++ s) ≡ number_from 0 s
zeros_number zero s = refl
zeros_number (suc k) s = zeros_number k s

pub all_digits-zeros : (k : ℕ) (s : List ℕ) → all_digits s ≡ true → all_digits (zeros k ++ s) ≡ true
all_digits-zeros zero s h = h
all_digits-zeros (suc k) s h = all_digits-zeros k s h

pub length-zeros : (k : ℕ) → length (zeros k) ≡ k
length-zeros zero = refl
length-zeros (suc k) = omega (arith, length-zeros k)

-- Leading zeros are not counted, and no dot is.
pub significant_digits-zeros :
    (k : ℕ) (s : List ℕ) → significant_digits true (zeros k ++ s) ≡ significant_digits true s
unfolding significant_digits
significant_digits-zeros zero s = refl
significant_digits-zeros (suc k) s = significant_digits-zeros k s

pub significant_digits-dot :
    (b : Bool) (s t : List ℕ)
    → significant_digits b (s ++ (b'.' ∷ t)) ≡ significant_digits b (s ++ t)
unfolding significant_digits
significant_digits-dot b [] t = refl
significant_digits-dot b (c ∷ s) t =
    ground (arith, significant_digits-dot b s t, significant_digits-dot false s t)

find_dot-digits : (s : List ℕ) → all_digits s ≡ true → find_dot s ≡ none
unfolding find_dot
find_dot-digits [] h = refl
find_dot-digits (c ∷ s) h = ground (arith, find_dot-digits s)

find_dot-append :
    (s t : List ℕ) → all_digits s ≡ true → find_dot (s ++ (b'.' ∷ t)) ≡ some (length s)
unfolding find_dot
find_dot-append [] t h = elim (Option-cases (find_dot t)) [
  | inl q ↦ ground arith
  | inr (i, q) ↦ ground arith
]
find_dot-append (c ∷ s) t h = ground (arith, find_dot-append s t)

pub cut_at_dot-digits : (s : List ℕ) → all_digits s ≡ true → cut_at_dot s ≡ (s, [])
unfolding cut_at_dot
cut_at_dot-digits s h = rw (cut_at_dot, find_dot-digits s h) refl

pub cut_at_dot-append : (s t : List ℕ) → all_digits s ≡ true → cut_at_dot (s ++ (b'.' ∷ t)) ≡ (s, t)
unfolding cut_at_dot
cut_at_dot-append s t h =
    rw (cut_at_dot, find_dot-append s t h)
      (λ i. (take-append (length s) s (b'.' ∷ t) refl i, drop_behind s i))
  where
    drop_behind : (s : List ℕ) → drop (suc (length s)) (s ++ (b'.' ∷ t)) ≡ t
    drop_behind [] = refl
    drop_behind (c ∷ s) = drop_behind s
