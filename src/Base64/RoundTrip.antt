-- ===== src/Base64/RoundTrip.antt =====
-- Base64DecodeStd reads back what Base64EncodeStd wrote.
use protowire_cpp.Common.{
  ℕ, ◌+◌, ◌-◌, ◌*◌, ◌/◌, ◌%◌, ◌^◌, ◌≤◌, ◌<◌, ◌≡◌, refl, ap, ◌∙◌, sym, arith, true, some, List, [],
  ◌∷◌, ◌++◌, append_assoc, append-nil, ◌≢◌, ltb, length, All,
}
use protowire_cpp.Common.Bits.{bit_or-add_left}
use protowire_cpp.Wire.{IsByte}
use protowire_cpp.Base64.{
  alphabet, encode_std, Bits, all_pad, decode_loop, decode_finish, decode_std, last_is_pad,
}
use protowire_cpp.Base64.Sextets.{
  join_three, shifted, state, two_sextets, three_sextets, four_sextets, decode_loop_pad,
}

-- The padding that the last group of `d` gets.
abbrev pads : List ℕ → ℕ
pads [] = 0
pads (a ∷ []) = 2
pads (a ∷ b ∷ []) = 1
pads (a ∷ b ∷ c ∷ rest) = pads rest

-- How the loop leaves an encoding of `d`, from an empty bit buffer after `k` characters.
record Leaves (d : List ℕ) (k : ℕ) (out : List ℕ) (st : Bits) : Type 0 where
  out_is : st.out ≡ out ++ d
  bits_le : st.bits ≤ 4
  spare_zero : st.buf % 2 ^ st.bits ≡ 0
  count : st.consumed + pads d ≡ k + length (encode_std d)

-- The encoding in sextets.
pub encode-one :
    (a : ℕ)
    → a < 256
    → encode_std (a ∷ []) ≡ alphabet (a / 4) ∷ alphabet (a % 4 * 16) ∷ b'=' ∷ b'=' ∷ []
unfolding encode_std
encode-one a h =
    let e0 : a * 2 ^ 16 / 2 ^ 18 % 2 ^ 6 ≡ a / 4 = omega arith in
    let e1 : a * 2 ^ 16 / 2 ^ 12 % 2 ^ 6 ≡ a % 4 * 16 = omega arith in rw (e0, e1)

pub encode-two :
    (a b : ℕ)
    → a < 256
    → b < 256
    → encode_std (a ∷ b ∷ [])
      ≡ alphabet (a / 4) ∷ alphabet (a % 4 * 16 + b / 16) ∷ alphabet (b % 16 * 4) ∷ b'=' ∷ []
unfolding encode_std
encode-two a b ha hb =
    let n = a * 2 ^ 16 + b * 2 ^ 8 in
    let e0 : n / 2 ^ 18 % 2 ^ 6 ≡ a / 4 = omega arith in
    let e1 : n / 2 ^ 12 % 2 ^ 6 ≡ a % 4 * 16 + b / 16 = omega arith in
    let e2 : n / 2 ^ 6 % 2 ^ 6 ≡ b % 16 * 4 = omega arith in
    rw (bit_or-add_left 16 a (b * 2 ^ 8) (omega arith), e0, e1, e2)

pub encode-three :
    (a b c : ℕ) (rest : List ℕ)
    → a < 256
    → b < 256
    → c < 256
    → encode_std (a ∷ b ∷ c ∷ rest)
      ≡ alphabet (a / 4)
        ∷ alphabet (a % 4 * 16 + b / 16)
        ∷ alphabet (b % 16 * 4 + c / 64)
        ∷ alphabet (c % 64)
        ∷ encode_std rest
unfolding encode_std
encode-three a b c rest ha hb hc =
    let n = a * 65536 + b * 256 + c in
    let e0 : n / 2 ^ 18 % 2 ^ 6 ≡ a / 4 = omega arith in
    let e1 : n / 2 ^ 12 % 2 ^ 6 ≡ a % 4 * 16 + b / 16 = omega arith in
    let e2 : n / 2 ^ 6 % 2 ^ 6 ≡ b % 16 * 4 + c / 64 = omega arith in
    let e3 : n / 2 ^ 0 % 2 ^ 6 ≡ c % 64 = omega arith in rw (join_three a b c hb hc, e0, e1, e2, e3)

loop-nil : (st : Bits) → decode_loop (encode_std []) st ≡ some st
unfolding decode_loop encode_std
loop-nil st = refl

length-nil : length (encode_std []) ≡ 0
unfolding encode_std
length-nil = refl

one_pad : all_pad (b'=' ∷ []) ≡ true
unfolding all_pad
one_pad = refl

no_pad : all_pad [] ≡ true
unfolding all_pad
no_pad = refl

decode_loop-encode_std :
    (d : List ℕ) (buf k : ℕ) (out : List ℕ)
    → All IsByte d
    → (st' : Bits) × (decode_loop (encode_std d) (state buf 0 k out) ≡ some st')
      × Leaves d k out st'
decode_loop-encode_std [] buf k out h = (
  state buf 0 k out,
  loop-nil (state buf 0 k out),
  record {
    out_is = sym (append-nil out);
    bits_le = omega arith;
    spare_zero = omega arith;
    count = omega (arith, length-nil);
  },
)
decode_loop-encode_std (a ∷ []) buf k out (ha, _) =
    let value : a / 4 * 4 + a % 4 * 16 / 16 ≡ a = omega arith in
    (
      state (shifted (shifted buf (a / 4)) (a % 4 * 16)) 4 (k + 2) (out ++ (a ∷ [])),
      rw (encode-one a ha) (
          two_sextets buf k out (a / 4) (a % 4 * 16) (omega arith) (omega arith) (b'=' ∷ b'=' ∷ [])
          ∙ rw value (decode_loop_pad (b'=' ∷ []) _ one_pad)),
      record {
        out_is = refl;
        bits_le = omega arith;
        spare_zero = omega arith;
        count = omega (arith, ap length (encode-one a ha));
      },
    )
decode_loop-encode_std (a ∷ b ∷ []) buf k out (ha, (hb, _)) =
    let v1 = a % 4 * 16 + b / 16 in
    let v2 = b % 16 * 4 in
    let value1 : a / 4 * 4 + v1 / 16 ≡ a = omega arith in
    let value2 : v1 % 16 * 16 + v2 / 4 ≡ b = omega arith in
    (
      state (shifted (shifted (shifted buf (a / 4)) v1) v2) 2 (k + 3) (out ++ (a ∷ b ∷ [])),
      rw (encode-two a b ha hb) (
          three_sextets buf k out (a / 4) v1 (omega arith) (omega arith) v2 (omega arith)
            (b'=' ∷ [])
          ∙ rw (value1, value2) (decode_loop_pad [] _ no_pad)),
      record {
        out_is = refl;
        bits_le = omega arith;
        spare_zero = omega arith;
        count = omega (arith, ap length (encode-two a b ha hb));
      },
    )
decode_loop-encode_std (a ∷ b ∷ c ∷ rest) buf k out (ha, (hb, (hc, h))) =
    let v1 = a % 4 * 16 + b / 16 in
    let v2 = b % 16 * 4 + c / 64 in
    let v3 = c % 64 in
    let value1 : a / 4 * 4 + v1 / 16 ≡ a = omega arith in
    let value2 : v1 % 16 * 16 + v2 / 4 ≡ b = omega arith in
    let value3 : v2 % 4 * 64 + v3 ≡ c = omega arith in
    let buf' = shifted (shifted (shifted (shifted buf (a / 4)) v1) v2) v3 in
    let (st, run, left) = decode_loop-encode_std rest buf' (k + 4) (out ++ (a ∷ b ∷ c ∷ [])) h in
    (
      st,
      rw (encode-three a b c rest ha hb hc) (
          four_sextets buf k out (a / 4) v1 (omega arith) (omega arith) v2 (omega arith) v3
            (encode_std rest) (omega arith)
          ∙ rw (value1, value2, value3) run),
      record {
        out_is = left.out_is ∙ append_assoc out (a ∷ b ∷ c ∷ []) rest;
        bits_le = left.bits_le;
        spare_zero = left.spare_zero;
        count = omega (arith, left.count, ap length (encode-three a b c rest ha hb hc));
      },
    )

pub alphabet-ne-pad : (v : ℕ) → v < 64 → alphabet v ≢ b'='
unfolding alphabet
alphabet-ne-pad v h = ground arith

abbrev Shape : List ℕ → Type 0
Shape d =
    (length (encode_std d) % 4 ≡ 0) × (last_is_pad (encode_std d) ≡ ltb 0 (pads d)) × (pads d ≤ 2)

last_is_pad-cons : (x : ℕ) (s : List ℕ) → 1 ≤ length s → last_is_pad (x ∷ s) ≡ last_is_pad s
last_is_pad-cons x [] h = absurd (omega arith)
last_is_pad-cons x (c ∷ s) h = refl

length-encode_std_pos : (x : ℕ) (d : List ℕ) → 1 ≤ length (encode_std (x ∷ d))
unfolding encode_std
length-encode_std_pos a [] = omega arith
length-encode_std_pos a (b ∷ []) = omega arith
length-encode_std_pos a (b ∷ c ∷ d) = omega arith

-- The length of an encoding, and when it ends in padding.
encode_std-Shape : (d : List ℕ) → All IsByte d → Shape d
encode_std-Shape [] h = (omega (arith, length-nil), unfold encode_std in refl, omega arith)
encode_std-Shape (a ∷ []) (ha, _) = rw (encode-one a ha) (refl, refl, omega arith)
encode_std-Shape (a ∷ b ∷ []) (ha, (hb, _)) = rw (encode-two a b ha hb) (refl, refl, omega arith)
encode_std-Shape (a ∷ b ∷ c ∷ []) (ha, (hb, (hc, h))) = rw (encode-three a b c [] ha hb hc) (
    unfold encode_std in
    (refl, ground (arith, alphabet-ne-pad (c % 64) (omega arith)), omega arith))
encode_std-Shape (a ∷ b ∷ c ∷ d ∷ rest) (ha, (hb, (hc, h))) =
    let (len, last, few) = encode_std-Shape (d ∷ rest) h in
    rw (encode-three a b c (d ∷ rest) ha hb hc) (
      omega arith,
      last_is_pad-cons (alphabet (c % 64)) (encode_std (d ∷ rest)) (length-encode_std_pos d rest)
          ∙ last,
      few,
    )

decode_std_run :
    (s : List ℕ) (st : Bits)
    → 1 ≤ length s
    → length s % 4 ≡ 0
    → decode_loop s (state 0 0 0 []) ≡ some st
    → decode_std s ≡ decode_finish (length s) (last_is_pad s) st
unfolding decode_std
decode_std_run [] st h len e = absurd (omega arith)
decode_std_run (c ∷ s) st h len e = ground (arith, e)

decode_finish-Leaves :
    (d : List ℕ) (st : Bits)
    → Leaves d 0 [] st
    → Shape d
    → decode_finish (length (encode_std d)) (last_is_pad (encode_std d)) st ≡ some d
unfolding decode_finish
decode_finish-Leaves d st left (len, last, few) =
    let spare = left.spare_zero in
    let room : length (encode_std d) - st.consumed ≡ pads d = omega (arith, left.count) in
    let out = left.out_is in let low = left.bits_le in rw (last, room) (ground arith)

-- Base64DecodeStd returns the bytes that Base64EncodeStd encoded.
pub decode_std-encode_std : (d : List ℕ) → All IsByte d → decode_std (encode_std d) ≡ some d
decode_std-encode_std [] h = unfold decode_std encode_std in refl
decode_std-encode_std (x ∷ d) h =
    let (st, run, left) = decode_loop-encode_std (x ∷ d) 0 0 [] h in
    let shape = encode_std-Shape (x ∷ d) h in
    decode_std_run (encode_std (x ∷ d)) st (length-encode_std_pos x d) shape.0 run
    ∙ decode_finish-Leaves (x ∷ d) st left shape
