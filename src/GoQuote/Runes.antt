-- ===== src/GoQuote/Runes.antt =====
-- DecodeRune of src/detail/go_quote.cc reads what EncodeRune of src/pxf/lexer.cc writes, above ASCII.
use protowire_cpp.Common.{
  ℕ, ◌+◌, ◌*◌, ◌/◌, ◌%◌, ◌^◌, ◌≤◌, ◌<◌, bit_or, ◌≡◌, ◌↔◌, refl, sym, ap, ◌∙◌, arith, Bool, true,
  false, ◌&&◌, ◌==◌, List, [], ◌∷◌, ◌++◌, length, within, if◌then◌else◌, tested, get_or,
}
use native.Mathlib.Decide.{dec_lt}
use protowire_cpp.Common.Bits.{bit_or-add_left}
use protowire_cpp.Utf8.{is_valid_rune, encode_rune}
use protowire_cpp.Utf8.Encode.{encode_one, encode_two, encode_three, encode_four}
use protowire_cpp.Utf8.Decode.{Decodes, decode_two, decode_three, decode_four}
use protowire_cpp.Utf8.Accepts.{IsScalar}
use protowire_cpp.GoQuote.{decode_rune, cont}

-- The bits of two, three and four bytes.
two_bits : (c c1 : ℕ) → bit_or (c % 2 ^ 5 * 2 ^ 6) (c1 % 2 ^ 6) ≡ c % 32 * 64 + c1 % 64
two_bits c c1 = bit_or-add_left 6 (c % 32) (c1 % 64) (omega arith)

three_bits :
    (c c1 c2 : ℕ)
    → bit_or (bit_or (c % 2 ^ 4 * 2 ^ 12) (c1 % 2 ^ 6 * 2 ^ 6)) (c2 % 2 ^ 6)
      ≡ c % 16 * 4096 + c1 % 64 * 64 + c2 % 64
three_bits c c1 c2 =
    let high = bit_or-add_left 12 (c % 16) (c1 % 64 * 64) (omega arith) in
    let e : c % 16 * 4096 + c1 % 64 * 64 ≡ (c % 16 * 64 + c1 % 64) * 64 = omega arith in
    ap (λ x. bit_or x (c2 % 64)) (high ∙ e)
    ∙ bit_or-add_left 6 (c % 16 * 64 + c1 % 64) (c2 % 64) (omega arith)
    ∙ omega arith

four_bits :
    (c c1 c2 c3 : ℕ)
    → bit_or
        (bit_or (bit_or (c % 2 ^ 3 * 2 ^ 18) (c1 % 2 ^ 6 * 2 ^ 12)) (c2 % 2 ^ 6 * 2 ^ 6))
        (c3 % 2 ^ 6)
      ≡ c % 8 * 262144 + c1 % 64 * 4096 + c2 % 64 * 64 + c3 % 64
four_bits c c1 c2 c3 =
    let high = bit_or-add_left 18 (c % 8) (c1 % 64 * 4096) (omega arith) in
    let e : c % 8 * 262144 + c1 % 64 * 4096 ≡ (c % 8 * 64 + c1 % 64) * 4096 = omega arith in
    let next = bit_or-add_left 12 (c % 8 * 64 + c1 % 64) (c2 % 64 * 64) (omega arith) in
    let e' : (c % 8 * 64 + c1 % 64) * 4096 + c2 % 64 * 64
        ≡ ((c % 8 * 64 + c1 % 64) * 64 + c2 % 64) * 64 =
      omega arith in
    ap (λ x. bit_or x (c3 % 64)) (ap (λ x. bit_or x (c2 % 64 * 64)) (high ∙ e) ∙ next ∙ e')
    ∙ bit_or-add_left 6 ((c % 8 * 64 + c1 % 64) * 64 + c2 % 64) (c3 % 64) (omega arith)
    ∙ omega arith

read_two :
    (r : ℕ) (s : List ℕ)
    → 0x7F < r
    → r ≤ 0x7FF
    → decode_rune ((192 + r / 64) ∷ (128 + r % 64) ∷ s) ≡ (true, r, 2)
unfolding decode_rune cont
read_two r s lo hi = rw (two_bits (192 + r / 64) (128 + r % 64)) (ground arith)

read_three :
    (r : ℕ) (s : List ℕ)
    → 0x7FF < r
    → r ≤ 0xFFFF
    → is_valid_rune r ≡ true
    → decode_rune ((224 + r / 4096) ∷ (128 + r / 64 % 64) ∷ (128 + r % 64) ∷ s) ≡ (true, r, 3)
unfolding decode_rune cont is_valid_rune
read_three r s lo hi h =
    rw (three_bits (224 + r / 4096) (128 + r / 64 % 64) (128 + r % 64)) (ground arith)

read_four :
    (r : ℕ) (s : List ℕ)
    → 0xFFFF < r
    → r ≤ 0x10FFFF
    → decode_rune
        ((240 + r / 262144) ∷ (128 + r / 4096 % 64) ∷ (128 + r / 64 % 64) ∷ (128 + r % 64) ∷ s)
      ≡ (true, r, 4)
unfolding decode_rune cont
read_four r s lo hi =
    let c = 240 + r / 262144 in
    let c1 = 128 + r / 4096 % 64 in
    let c2 = 128 + r / 64 % 64 in
    let c3 = 128 + r % 64 in
    let l = c ∷ c1 ∷ c2 ∷ c3 ∷ s in
    let low : within 0xC2 0xDF c ≡ false = ground arith in
    let mid : within 0xE0 0xEF c ≡ false = ground arith in
    let high : within 0xF0 0xF4 c ≡ true = ground arith in
    let t1 : cont l 1 (if c == 0xF0 then 0x90 else 0x80) (if c == 0xF4 then 0x8F else 0xBF) ≡ true =
      ground arith in
    let t2 : cont l 2 0x80 0xBF ≡ true = ground arith in
    let t3 : cont l 3 0x80 0xBF ≡ true = ground arith in
    let bits : c % 8 * 262144 + c1 % 64 * 4096 + c2 % 64 * 64 + c3 % 64 ≡ r = omega arith in
    rw (low, mid, high, t1, t2, t3, four_bits c c1 c2 c3, bits) refl

pub decode_rune-encode_rune :
    (r : ℕ) (s : List ℕ)
    → IsScalar r
    → 0x7F < r
    → decode_rune (encode_rune r ++ s) ≡ (true, r, length (encode_rune r))
unfolding is_valid_rune
decode_rune-encode_rune r s h lo = elim (dec_lt r 0x800) [
  | yes p ↦ rw (encode_two r lo (omega arith)) (read_two r s lo (omega arith))
  | no p ↦ elim (dec_lt r 0x10000) [
    | yes q ↦
        rw (encode_three r (omega arith) (omega arith))
          (read_three r s (omega arith) (omega arith) h)
    | no q ↦
        rw (encode_four r (omega arith) (ground arith)) (read_four r s (omega arith) (ground arith))
  ]
]

-- A string that opens with the encoding of a scalar value above ASCII.
abbrev pub Opens : List ℕ → Type 0
Opens s = (r : ℕ) × (rest : List ℕ) × IsScalar r × (0x7F < r) × (s ≡ encode_rune r ++ rest)

above_ascii : (r c : ℕ) (s : List ℕ) → encode_rune r ≡ c ∷ s → 0x7F < c → 0x7F < r
above_ascii r c s e h = elim (dec_lt 0x7F r) [
  | yes p ↦ p
  | no p ↦
      let same = ap (λ l. get_or l 0 0) (sym (encode_one r (omega arith)) ∙ e) in
      absurd (omega (arith, same))
]

opened :
    (c : ℕ) (front rest : List ℕ) → 0x7F < c → Decodes (c ∷ front) → Opens (c ∷ (front ++ rest))
opened c front rest h (r, hr, e) =
    (r, rest, hr, above_ascii r c front e h, ap (λ l. l ++ rest) (sym e))

Opens-two :
    (c : ℕ) (s : List ℕ) → (within 0xC2 0xDF c && cont (c ∷ s) 1 0x80 0xBF) ≡ true → Opens (c ∷ s)
unfolding cont
Opens-two c [] h = absurd (ground arith)
Opens-two c (c1 ∷ s) h =
    opened c (c1 ∷ []) s (ground arith)
      (decode_two c c1 (ground arith) (ground arith) (ground arith))

Opens-three :
    (c : ℕ) (s : List ℕ)
    → within 0xE0 0xEF c ≡ true
    → (cont (c ∷ s) 1 (if c == 0xE0 then 0xA0 else 0x80) (if c == 0xED then 0x9F else 0xBF)
        && cont (c ∷ s) 2 0x80 0xBF)
      ≡ true
    → Opens (c ∷ s)
unfolding cont
Opens-three c [] p h = absurd (ground arith)
Opens-three c (c1 ∷ []) p h = absurd (ground arith)
Opens-three c (c1 ∷ c2 ∷ s) p h =
    opened c (c1 ∷ c2 ∷ []) s (ground arith)
      (decode_three c c1 c2 (ground arith) (ground arith) (ground arith))

Opens-four :
    (c : ℕ) (s : List ℕ)
    → (within 0xF0 0xF4 c
        && (cont (c ∷ s) 1 (if c == 0xF0 then 0x90 else 0x80) (if c == 0xF4 then 0x8F else 0xBF)
            && (cont (c ∷ s) 2 0x80 0xBF && cont (c ∷ s) 3 0x80 0xBF)))
      ≡ true
    → Opens (c ∷ s)
unfolding cont
Opens-four c [] h = absurd (ground arith)
Opens-four c (c1 ∷ []) h = absurd (ground arith)
Opens-four c (c1 ∷ c2 ∷ []) h = absurd (ground arith)
Opens-four c (c1 ∷ c2 ∷ c3 ∷ s) h =
    opened c (c1 ∷ c2 ∷ c3 ∷ []) s (ground arith)
      (decode_four c c1 c2 c3 (ground arith) (ground arith) (ground arith))

pub decode_rune-Opens : (s : List ℕ) → (decode_rune s).0 ≡ true → Opens s
unfolding decode_rune cont
decode_rune-Opens [] = λ e. absurd (ground (arith, e))
decode_rune-Opens (c ∷ s) =
    let l = c ∷ s in
    let opens = λ (x : Bool × ℕ × ℕ). x.0 ≡ true → Opens l in
    tested opens (within 0xC2 0xDF c && cont l 1 0x80 0xBF) (λ t e. Opens-two c s t)
      (λ t.
        tested opens (within 0xE0 0xEF c)
          (λ p.
            tested opens
              (cont l 1 (if c == 0xE0 then 0xA0 else 0x80) (if c == 0xED then 0x9F else 0xBF)
                && cont l 2 0x80 0xBF)
              (λ q e. Opens-three c s p q) (λ q e. absurd (ground (arith, e))))
          (λ p.
            tested opens
              (within 0xF0 0xF4 c
                && (cont l 1 (if c == 0xF0 then 0x90 else 0x80) (if c == 0xF4 then 0x8F else 0xBF)
                    && (cont l 2 0x80 0xBF && cont l 3 0x80 0xBF)))
              (λ q e. Opens-four c s q) (λ q e. absurd (ground (arith, e)))))

-- DecodeRune finds a rune and a width in a string just when the string opens with the encoding that
-- EncodeRune gives of that rune, a Unicode scalar value above ASCII, and the width is its length.
pub decode_rune_iff :
    (s : List ℕ) (r w : ℕ)
    → (decode_rune s ≡ (true, r, w)) ↔ (
        IsScalar r
        × (0x7F < r)
        × (w ≡ length (encode_rune r))
        × ((rest : List ℕ) × (s ≡ encode_rune r ++ rest)))
decode_rune_iff s r w = (
  λ e.
      let (r', rest, h, lo, q) = decode_rune-Opens s (ap (λ x. x.0) e) in
      let read = ap decode_rune (sym q) ∙ e in
      let found = sym (decode_rune-encode_rune r' rest h lo) ∙ read in
      let same : r' ≡ r = ap (λ x. x.1) found in
      let wide : length (encode_rune r') ≡ w = ap (λ x. x.2) found in
      (
        rw same at h,
        omega arith,
        sym wide ∙ ap (λ x. length (encode_rune x)) same,
        (rest, q ∙ ap (λ x. encode_rune x ++ rest) same),
      ),
  λ (h, lo, k, (rest, q)). rw (q, k) (decode_rune-encode_rune r rest h lo),
)
