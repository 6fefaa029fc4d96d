-- ===== src/Utf8/Decode.antt =====
-- The scalar value that the bytes of an accepted sequence stand for.
use protowire_cpp.Common.{
  ℕ, ◌+◌, ◌-◌, ◌*◌, ◌≤◌, ◌≡◌, ◌∙◌, arith, true, ◌&&◌, ◌==◌, List, [], ◌∷◌, within, if◌then◌else◌,
}
use protowire_cpp.Utf8.{is_valid_rune, encode_rune}
use protowire_cpp.Utf8.Encode.{encode_one, encode_two, encode_three, encode_four}

-- A Unicode scalar value with the given encoding.
abbrev pub Decodes : List ℕ → Type 0
Decodes s = (r : ℕ) × (is_valid_rune r ≡ true) × (encode_rune r ≡ s)

pub decode_one : (c : ℕ) → c ≤ 127 → Decodes (c ∷ [])
unfolding is_valid_rune
decode_one c h = (c, ground arith, encode_one c h)

pub decode_two : (c c1 : ℕ) → 194 ≤ c → c ≤ 223 → within 128 191 c1 ≡ true → Decodes (c ∷ c1 ∷ [])
unfolding is_valid_rune
decode_two c c1 lo hi h1 =
    let r = (c - 192) * 64 + (c1 - 128) in
    let b1 : (128 ≤ c1) × (c1 ≤ 191) = ground arith in
    (r, ground arith, encode_two r (omega arith) (omega arith) ∙ ground arith)

pub decode_three :
    (c c1 c2 : ℕ)
    → 224 ≤ c
    → c ≤ 239
    → (within (if c == 224 then 160 else 128) (if c == 237 then 159 else 191) c1
        && within 128 191 c2)
      ≡ true
    → Decodes (c ∷ c1 ∷ c2 ∷ [])
unfolding is_valid_rune
decode_three c c1 c2 lo hi h =
    let r = (c - 224) * 4096 + (c1 - 128) * 64 + (c2 - 128) in
    let b1 : (128 ≤ c1) × (c1 ≤ 191) × (c ≡ 224 → 160 ≤ c1) × (c ≡ 237 → c1 ≤ 159) = ground arith in
    let b2 : (128 ≤ c2) × (c2 ≤ 191) = ground arith in
    (r, ground arith, encode_three r (ground arith) (omega arith) ∙ ground arith)

pub decode_four :
    (c c1 c2 c3 : ℕ)
    → 240 ≤ c
    → c ≤ 244
    → (within (if c == 240 then 144 else 128) (if c == 244 then 143 else 191) c1
        && (within 128 191 c2 && within 128 191 c3))
      ≡ true
    → Decodes (c ∷ c1 ∷ c2 ∷ c3 ∷ [])
unfolding is_valid_rune
decode_four c c1 c2 c3 lo hi h =
    let r = (c - 240) * 262144 + (c1 - 128) * 4096 + (c2 - 128) * 64 + (c3 - 128) in
    let b1 : (128 ≤ c1) × (c1 ≤ 191) × (c ≡ 240 → 144 ≤ c1) × (c ≡ 244 → c1 ≤ 143) = ground arith in
    let b2 : (128 ≤ c2) × (c2 ≤ 191) = ground arith in
    let b3 : (128 ≤ c3) × (c3 ≤ 191) = ground arith in
    (r, ground arith, encode_four r (ground arith) (ground arith) ∙ ground arith)
