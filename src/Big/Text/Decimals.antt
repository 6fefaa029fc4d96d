-- ===== src/Big/Text/Decimals.antt =====
-- ParseDecimal and FormatDecimal of src/pb/big.cc: the digits and the scale that a literal stands for.
use protowire_cpp.Common.{
  ℕ, zero, suc, ◌||◌, ◌==◌, take, drop, Option-cases, ◌≡◌, refl, ap, ◌∙◌, arith, List, [], ◌∷◌,
  ◌++◌, ◌&&◌, Option, none, some, Bool, true, false, not, is_empty, length, inl, inr, tested, ◌⊎◌,
}
use protowire_cpp.Big.{Decimal, int32_of, trim_leading_zeros, digits_loop, parse_digits}
use protowire_cpp.Big.Magnitudes.{trim-Holds, value, IsCanonical, Holds}
use protowire_cpp.Big.Digits.{
  number_from, all_digits, Read, digits_loop-Read, ReadTrimmed, parse_digits-ReadTrimmed,
}
use protowire_cpp.Big.Unique.{canonical_unique}
use protowire_cpp.Big.Text.{sign, cut_at_dot, find_dot, parse_whole, decimal_of, parse_decimal}
use protowire_cpp.Big.Text.Literals.{number_from-append, all_digits-append}

-- No leading zero byte, and no sign on a zero.
pub record IsDecimal (v : Decimal) : Type 0 where
  pub magnitude : IsCanonical v.unscaled
  pub sign : v.unscaled ≡ [] → v.negative ≡ false

-- What ParseDecimal leaves of a sign and the digits in front of the dot and behind it.
abbrev pub ReadDecimal : Option Decimal → Bool → List ℕ → List ℕ → Type 0
ReadDecimal none negative whole part =
    (is_empty (whole ++ part) ≡ true) ⊎ (all_digits (whole ++ part) ≡ false)
ReadDecimal (some v) negative whole part =
    IsDecimal v
    × (is_empty (whole ++ part) ≡ false)
    × (all_digits (whole ++ part) ≡ true)
    × (value v.unscaled ≡ number_from 0 (whole ++ part))
    × (v.scale ≡ int32_of (length part))
    × (v.negative ≡ (negative && not (is_empty v.unscaled)))

parse_whole-Read :
    (whole : List ℕ) → Read (parse_whole whole) (all_digits whole) (number_from 0 whole)
unfolding parse_whole
parse_whole-Read [] = (refl, record { bytes = tt; number = refl })
parse_whole-Read (c ∷ s) =
    loosen (parse_digits (c ∷ s) []) _ _
      (parse_digits-ReadTrimmed (c ∷ s) [] 0 record { bytes = tt; number = refl })
  where
    loosen : (o : Option (List ℕ)) (d : Bool) (n : ℕ) → ReadTrimmed o d n → Read o d n
    loosen none d n k = k
    loosen (some mag) d n (k, (h, t), e) = (k, record { bytes = h; number = e })

nothing_empty :
    (whole part mag : List ℕ)
    → Holds mag (number_from 0 (whole ++ part))
    → (is_empty (trim_leading_zeros mag) && (is_empty whole && is_empty part)) ≡ false
    → is_empty (whole ++ part) ≡ false
nothing_empty [] [] mag k e =
    let (c, v) = trim-Holds mag 0 k in
    let none : trim_leading_zeros mag ≡ [] = canonical_unique _ [] c (tt, tt) v in
    absurd (ground (arith, ap is_empty none))
nothing_empty [] (c ∷ s) mag k e = refl
nothing_empty (c ∷ s) part mag k e = refl

all_empty :
    (b : Bool) (whole part : List ℕ)
    → (b && (is_empty whole && is_empty part)) ≡ true
    → is_empty (whole ++ part) ≡ true
all_empty true [] part e = e
all_empty true (c ∷ s) part e = e
all_empty false whole part e = absurd (ground (arith, e))

one_sign : (negative : Bool) (mag : List ℕ) → mag ≡ [] → (negative && not (is_empty mag)) ≡ false
one_sign true mag e = rw e refl
one_sign false mag e = refl

decimal_of-ReadDecimal :
    (negative : Bool) (whole part mag : List ℕ)
    → all_digits (whole ++ part) ≡ true
    → Holds mag (number_from 0 (whole ++ part))
    → ReadDecimal (decimal_of negative whole part mag) negative whole part
unfolding decimal_of
decimal_of-ReadDecimal negative whole part mag h k =
    let (c, v) = trim-Holds mag _ k in
    tested (λ o. ReadDecimal o negative whole part)
      (is_empty (trim_leading_zeros mag) && (is_empty whole && is_empty part))
      (λ p. inl (all_empty _ whole part p))
      (λ p. (
        record { magnitude = c; sign = one_sign negative (trim_leading_zeros mag) },
        nothing_empty whole part mag k p,
        h,
        v,
        refl,
        refl,
      ))

part-ReadDecimal :
    (negative : Bool) (whole part : List ℕ) (o : Option (List ℕ))
    → all_digits whole ≡ true
    → Read o (all_digits part) (number_from (number_from 0 whole) part)
    → ReadDecimal
        (elim o [ none ↦ none | some mag' ↦ decimal_of negative whole part mag' ])
        negative
        whole
        part
part-ReadDecimal negative whole part none h k = inr (all_digits-append whole part ∙ rw (h, k) refl)
part-ReadDecimal negative whole part (some mag) h (k1, k2) =
    decimal_of-ReadDecimal negative whole part mag (all_digits-append whole part ∙ rw (h, k1) refl)
      (rw (number_from-append whole part 0) k2)

whole-ReadDecimal :
    (negative : Bool) (whole part : List ℕ) (o : Option (List ℕ))
    → Read o (all_digits whole) (number_from 0 whole)
    → ReadDecimal
        (elim o [
          | none ↦ none
          | some mag ↦ elim (digits_loop mag part) [
            | none ↦ none
            | some mag' ↦ decimal_of negative whole part mag'
          ]
        ])
        negative
        whole
        part
whole-ReadDecimal negative whole part none k = inr (all_digits-append whole part ∙ rw k refl)
whole-ReadDecimal negative whole part (some mag) (k1, k2) =
    part-ReadDecimal negative whole part (digits_loop mag part) k1
      (digits_loop-Read part mag (number_from 0 whole) k2)

-- What ParseDecimal leaves of a literal, by its sign and its cut.
pub parse_decimal-cut :
    (s : List ℕ)
    → ReadDecimal (parse_decimal s) (sign s).0 (cut_at_dot (sign s).1).0 (cut_at_dot (sign s).1).1
unfolding parse_decimal sign cut_at_dot find_dot
parse_decimal-cut [] = inl refl
parse_decimal-cut (c ∷ s) =
    let (whole, part) = cut_at_dot (sign (c ∷ s)).1 in
    whole-ReadDecimal (sign (c ∷ s)).0 whole part (parse_whole whole) (parse_whole-Read whole)

abbrev starts_signed : List ℕ → Bool
starts_signed [] = false
starts_signed (c ∷ s) = c == b'-' || c == b'+'

-- A text is a '-' or a '+' and what is behind it, or has no sign in front.
abbrev pub Signed : List ℕ → Bool → List ℕ → Type 0
Signed s true text = s ≡ b'-' ∷ text
Signed s false text = (s ≡ b'+' ∷ text) ⊎ ((s ≡ text) × (starts_signed s ≡ false))

pub has_dot : List ℕ → Bool
has_dot [] = false
has_dot (c ∷ s) = c == b'.' || has_dot s

-- A text is what is in front of its first dot, the dot and what is behind it, or has no dot.
abbrev pub Cut : List ℕ → List ℕ → List ℕ → Type 0
Cut text whole part =
    (has_dot whole ≡ false) × ((text ≡ whole ++ (b'.' ∷ part)) ⊎ ((text ≡ whole) × (part ≡ [])))

sign-Signed : (s : List ℕ) → Signed s (sign s).0 (sign s).1
unfolding sign
sign-Signed [] = inr (refl, refl)
sign-Signed (c ∷ s) =
    tested {A = Bool × List ℕ} (λ r. Signed (c ∷ s) r.0 r.1) (c == b'-') (λ e. ground arith)
      (λ e.
        tested {A = Bool × List ℕ} (λ r. Signed (c ∷ s) r.0 r.1) (c == b'+')
          (λ e'. inl (ground arith)) (λ e'. inr (refl, ground arith)))

find_dot-none : (s : List ℕ) → find_dot s ≡ none → has_dot s ≡ false
unfolding find_dot has_dot
find_dot-none [] e = refl
find_dot-none (c ∷ s) e = ground (arith, find_dot-none s)

find_dot-some :
    (s : List ℕ) (i : ℕ)
    → find_dot s ≡ some i
    → (has_dot (take i s) ≡ false) × (s ≡ take i s ++ (b'.' ∷ drop (suc i) s))
unfolding find_dot has_dot
find_dot-some [] i e = absurd (ground arith)
find_dot-some (c ∷ s) zero e = ground arith
find_dot-some (c ∷ s) (suc i) e = ground (arith, find_dot-some s i)

cut_at_dot-Cut : (s : List ℕ) → Cut s (cut_at_dot s).0 (cut_at_dot s).1
unfolding cut_at_dot
cut_at_dot-Cut s = elim (Option-cases (find_dot s)) [
  | inl e ↦ rw (cut_at_dot, e) (find_dot-none s e, inr (refl, refl))
  | inr (i, e) ↦ let (k, q) = find_dot-some s i e in rw (cut_at_dot, e) (k, inl q)
]

-- Any text is a '-' or a '+' or no sign, and then what is in front of the first dot and what is
-- behind it, which is nothing if there is no dot. ParseDecimal accepts it exactly when these two have
-- a byte and all their bytes are digits. Then the unscaled magnitude has no leading zero byte and
-- stands for all the digits, the scale counts those behind the dot as an int32, and the result is
-- negative exactly if the sign is a '-' and the number is not zero.
pub parse_decimal-ReadDecimal :
    (s : List ℕ)
    → (negative : Bool) × (text : List ℕ) × (whole : List ℕ) × (part : List ℕ) × Signed s negative
        text
      × Cut text whole part
      × ReadDecimal (parse_decimal s) negative whole part
parse_decimal-ReadDecimal s =
    let text = (sign s).1 in (_, _, _, _, sign-Signed s, cut_at_dot-Cut text, parse_decimal-cut s)
