-- ===== src/Lexer/Kept.antt =====
-- What holds of a lexer and stays when it takes a byte stays through the loops that take bytes.
use protowire_cpp.Common.{
  ℕ, zero, suc, Option, none, some, Bool, true, false, if◌then◌else◌, List, length,
}
use protowire_cpp.Common.{◌≡◌, ◌≤◌, ◌-◌}
use protowire_cpp.Common.{arith, ◌⊎◌, inl, inr, refl, [], ◌∷◌}
use protowire_cpp.Common.{◌==◌}
use protowire_cpp.Lexer.{
  Token, kind_value, lbrace, peek, on_byte, Lexer, advance, advance_by, skip_loop, skip_while,
}

pub pick : {A : Type 0} (R : A → Type 0) (b : Bool) {x y : A} → R x → R y → R (if b then x else y)
pick R true p q = p
pick R false p q = q

pub pick_option :
    {A B : Type 0} (R : B → Type 0) (o : Option A) {x : B} {f : A → B}
    → R x
    → ((a : A) → R (f a))
    → R (elim o [ none ↦ x | some a ↦ f a ])
pick_option R none p q = p
pick_option R (some a) p q = q a

pub pick_ℕ :
    {B : Type 0} (R : B → Type 0) (n : ℕ) {x : B} {f : ℕ → B}
    → R x
    → ((m : ℕ) → R (f m))
    → R (elim n [ zero ↦ x | suc m ↦ f m ])
pick_ℕ R zero p q = p
pick_ℕ R (suc m) p q = q m

pub List-cases : {A : Type 0} (xs : List A) → (xs ≡ []) ⊎ ((x : A) × (s : List A) × (xs ≡ x ∷ s))
List-cases [] = inl refl
List-cases (x ∷ s) = inr (x, s, refl)

-- The token is no opening brace.
abbrev pub NoBrace : Lexer × Token → Type 0
NoBrace r = (kind_value r.1.kind == kind_value lbrace) ≡ false

-- Advance leaves the errors.
pub advance_errors : (lx : Lexer) → (advance lx).errors ≡ lx.errors
unfolding advance
advance_errors lx = ground (arith, List-cases lx.rest)

-- A test on the byte that Peek gives, where there is one.
pub on_byte_first :
    (f : ℕ → Bool) (lx : Lexer)
    → 1 ≤ length lx.rest
    → f (peek lx 0) ≡ true
    → on_byte f lx.rest ≡ true
on_byte_first f lx one e = elim (List-cases lx.rest) [
  | inl q ↦ absurd (ground (arith, q))
  | inr (c, s, q) ↦ ground (arith, q)
]

-- What holds of the lexer that an operation leaves.
abbrev pub After : {A : Type 0} → (Lexer → Type 0) → Lexer × A → Type 0
After P r = P r.0

module _ (P : Lexer → Type 0) (adv : (lx : Lexer) → P lx → P (advance lx)) where
  pub advance_by-kept : (n : ℕ) (lx : Lexer) → P lx → P (advance_by n lx)
  unfolding advance_by
  advance_by-kept zero lx h = h
  advance_by-kept (suc n) lx h = advance_by-kept n (advance lx) (adv lx h)

  pub skip_loop-kept : (more : List ℕ → Bool) (f : ℕ) (lx : Lexer) → P lx → P (skip_loop more f lx)
  unfolding skip_loop
  skip_loop-kept more zero lx h = h
  skip_loop-kept more (suc f) lx h = pick P _ (skip_loop-kept more f (advance lx) (adv lx h)) h

  pub skip_while-kept : (more : List ℕ → Bool) (lx : Lexer) → P lx → P (skip_while more lx)
  unfolding skip_while
  skip_while-kept more lx h = skip_loop-kept more (length lx.rest) lx h

  skip_loop_first :
      (more : List ℕ → Bool) (f : ℕ) (lx : Lexer)
      → more lx.rest ≡ true
      → P (advance lx)
      → P (skip_loop more (suc f) lx)
  unfolding skip_loop
  skip_loop_first more f lx e h = ground (arith, skip_loop-kept more f (advance lx) h)

  -- A loop whose first test holds takes a byte first.
  pub skip_while_first :
      (more : List ℕ → Bool) (lx : Lexer)
      → 1 ≤ length lx.rest
      → more lx.rest ≡ true
      → P (advance lx)
      → P (skip_while more lx)
  unfolding skip_while
  skip_while_first more lx one e h =
      let count : length lx.rest ≡ suc (length lx.rest - 1) = omega arith in
      rw count (skip_loop_first more (length lx.rest - 1) lx e h)
