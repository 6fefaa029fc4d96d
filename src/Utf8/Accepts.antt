-- ===== src/Utf8/Accepts.antt =====
-- IsValidUTF8 accepts just the encodings of Unicode scalar values.
use protowire_cpp.Common.{
  ℕ, zero, suc, ◌+◌, ◌-◌, ◌/◌, ◌%◌, ◌≤◌, ◌≡◌, ◌↔◌, refl, ◌∙◌, arith, Bool, true, false,
  if◌then◌else◌, List, [], ◌∷◌, ◌++◌, length, length-append, All,
}
use native.Mathlib.Decide.{dec_lt}
use protowire_cpp.Utf8.{utf8_loop, is_valid_utf8, is_valid_rune, encode_rune}
use protowire_cpp.Utf8.Encode.{encode_one, encode_two, encode_three, encode_four}
use protowire_cpp.Utf8.Decode.{Decodes, decode_one, decode_two, decode_three, decode_four}
use protowire_cpp.Utf8.Rounds.{
  loop_one, loop_two, loop_three, loop_four, loop_bad, loop_big, cut_two, cut_three, cut_four,
}

-- A Unicode scalar value.
abbrev pub IsScalar : ℕ → Type 0
IsScalar r = is_valid_rune r ≡ true

abbrev pub encode_all : List ℕ → List ℕ
encode_all [] = []
encode_all (r ∷ rs) = encode_rune r ++ encode_all rs

-- One scalar value in front.
loop-encode_rune :
    (f r : ℕ) (s : List ℕ) → IsScalar r → utf8_loop (suc f) (encode_rune r ++ s) ≡ utf8_loop f s
unfolding is_valid_rune
loop-encode_rune f r s h = elim (dec_lt r 128) [
  | yes p ↦ rw (encode_one r (omega arith)) (loop_one f r s p)
  | no p ↦ elim (dec_lt r 2048) [
    | yes q ↦
        rw (encode_two r (omega arith) (omega arith))
          (loop_two f (192 + r / 64) (128 + r % 64) s (omega arith) (omega arith) ∙ ground arith)
    | no q ↦ elim (dec_lt r 65536) [
      | yes t ↦ rw (encode_three r (omega arith) (omega arith)) (
          loop_three f (224 + r / 4096) (128 + r / 64 % 64) (128 + r % 64) s (omega arith)
            (omega arith)
          ∙ ground arith)
      | no t ↦ rw (encode_four r (omega arith) (ground arith)) (
          loop_four f (240 + r / 262144) (128 + r / 4096 % 64) (128 + r / 64 % 64) (128 + r % 64) s
            (omega arith) (ground arith)
          ∙ ground arith)
    ]
  ]
]

pub length-encode_rune : (r : ℕ) → 1 ≤ length (encode_rune r)
unfolding encode_rune
length-encode_rune r = ground arith

loop-nil : (f : ℕ) → utf8_loop f [] ≡ true
unfolding utf8_loop
loop-nil zero = refl
loop-nil (suc f) = refl

loop-encode_all :
    (rs : List ℕ) (f : ℕ)
    → All IsScalar rs
    → length (encode_all rs) ≤ f
    → utf8_loop f (encode_all rs) ≡ true
loop-encode_all [] f h hf = loop-nil f
loop-encode_all (r ∷ rs) f (hr, h) hf =
    let split = length-append (encode_rune r) (encode_all rs) in
    let one = length-encode_rune r in
    let e : f ≡ suc (f - 1) = omega arith in
    rw e
      (loop-encode_rune (f - 1) r (encode_all rs) hr ∙ loop-encode_all rs (f - 1) h (omega arith))

-- `s` is the encodings of some scalar values, one behind the other.
abbrev pub Encodes : List ℕ → Type 0
Encodes s = (rs : List ℕ) × All IsScalar rs × (s ≡ encode_all rs)

Encodes-cons : (front s : List ℕ) → Decodes front → Encodes s → Encodes (front ++ s)
Encodes-cons front s (r, hr, e) (rs, h, e') = (r ∷ rs, (hr, h), rw (← e, ← e'))

-- Which of two values an accepted test took.
taken : (b : Bool) (x : Bool) → (if b then x else false) ≡ true → (b ≡ true) × (x ≡ true)
taken true x e = (refl, e)
taken false x e = cc

-- A sequence of two to four bytes in front, with what the loop says of shorter strings.
module _ (f c : ℕ) (ih : (s : List ℕ) → utf8_loop f s ≡ true → Encodes s) where
  two_bytes : (s : List ℕ) → 194 ≤ c → c ≤ 223 → utf8_loop (suc f) (c ∷ s) ≡ true → Encodes (c ∷ s)
  two_bytes [] lo hi e = absurd (cc (cut_two f c lo hi))
  two_bytes (c1 ∷ s) lo hi e =
      let (h, e') = taken _ _ (rw (loop_two f c c1 s lo hi) at e) in
      Encodes-cons (c ∷ c1 ∷ []) s (decode_two c c1 lo hi h) (ih s e')

  three_bytes :
      (s : List ℕ) → 224 ≤ c → c ≤ 239 → utf8_loop (suc f) (c ∷ s) ≡ true → Encodes (c ∷ s)
  three_bytes [] lo hi e = absurd (cc (cut_three f c [] (omega arith) lo hi))
  three_bytes (c1 ∷ []) lo hi e = absurd (cc (cut_three f c (c1 ∷ []) (omega arith) lo hi))
  three_bytes (c1 ∷ c2 ∷ s) lo hi e =
      let (h, e') = taken _ _ (rw (loop_three f c c1 c2 s lo hi) at e) in
      Encodes-cons (c ∷ c1 ∷ c2 ∷ []) s (decode_three c c1 c2 lo hi h) (ih s e')

  four_bytes : (s : List ℕ) → 240 ≤ c → c ≤ 244 → utf8_loop (suc f) (c ∷ s) ≡ true → Encodes (c ∷ s)
  four_bytes [] lo hi e = absurd (cc (cut_four f c [] (omega arith) lo hi))
  four_bytes (c1 ∷ []) lo hi e = absurd (cc (cut_four f c (c1 ∷ []) (omega arith) lo hi))
  four_bytes (c1 ∷ c2 ∷ []) lo hi e = absurd (cc (cut_four f c (c1 ∷ c2 ∷ []) (omega arith) lo hi))
  four_bytes (c1 ∷ c2 ∷ c3 ∷ s) lo hi e =
      let (h, e') = taken _ _ (rw (loop_four f c c1 c2 c3 s lo hi) at e) in
      Encodes-cons (c ∷ c1 ∷ c2 ∷ c3 ∷ []) s (decode_four c c1 c2 c3 lo hi h) (ih s e')

loop-Encodes : (f : ℕ) (s : List ℕ) → utf8_loop f s ≡ true → Encodes s
loop-Encodes f [] e = ([], tt, refl)
loop-Encodes zero (c ∷ s) e = absurd (unfold utf8_loop in cc)
loop-Encodes (suc f) (c ∷ s) e = elim (dec_lt c 128) [
  | yes p ↦
      Encodes-cons (c ∷ []) s (decode_one c (omega arith))
        (loop-Encodes f s (rw (loop_one f c s p) at e))
  | no p ↦ elim (dec_lt c 194) [
    | yes q ↦ absurd (cc (loop_bad f c s (omega arith) q))
    | no q ↦ elim (dec_lt 244 c) [
      | yes t ↦ absurd (cc (loop_big f c s t))
      | no t ↦ elim (dec_lt c 224) [
        | yes u ↦ two_bytes f c (loop-Encodes f) s (omega arith) (omega arith) e
        | no u ↦ elim (dec_lt c 240) [
          | yes v ↦ three_bytes f c (loop-Encodes f) s (omega arith) (omega arith) e
          | no v ↦ four_bytes f c (loop-Encodes f) s (omega arith) (omega arith) e
        ]
      ]
    ]
  ]
]

-- IsValidUTF8 accepts a string just when it is the concatenation of the encodings that EncodeRune
-- gives of some Unicode scalar values.
pub is_valid_utf8_iff : (s : List ℕ) → (is_valid_utf8 s ≡ true) ↔ Encodes s
unfolding is_valid_utf8
is_valid_utf8_iff s = (
  loop-Encodes (length s) s,
  λ (rs, h, e). rw e (loop-encode_all rs (length (encode_all rs)) h (omega arith)),
)
