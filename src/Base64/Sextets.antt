-- ===== src/Base64/Sextets.antt =====
-- The loop of Base64DecodeStd on two, three and four characters of the alphabet.
use protowire_cpp.Common.{
  ℕ, ◌+◌, ◌*◌, ◌/◌, ◌%◌, ◌^◌, ◌<◌, bit_or, ◌≡◌, ◌∙◌, arith, true, some, List, [], ◌∷◌, ◌++◌,
  append_assoc,
}
use protowire_cpp.Common.Bits.{bit_or-add_left}
use protowire_cpp.Base64.{alphabet, decode_table, Bits, all_pad, push_sextet, decode_loop}

pub decode_table-alphabet : (i : ℕ) → i < 64 → decode_table (alphabet i) ≡ i
unfolding decode_table alphabet
decode_table-alphabet i h = ground arith

-- The bytes of a group as one number.
pub join_three :
    (a b c : ℕ)
    → b < 256
    → c < 256
    → bit_or (bit_or (a * 2 ^ 16) (b * 2 ^ 8)) c ≡ a * 65536 + b * 256 + c
join_three a b c hb hc =
    let two : bit_or (a * 2 ^ 16) (b * 2 ^ 8) ≡ (a * 256 + b) * 2 ^ 8 =
      bit_or-add_left 16 a (b * 2 ^ 8) (omega arith) ∙ omega arith in
    rw two (bit_or-add_left 8 (a * 256 + b) c hc ∙ omega arith)

push_value : (buf v : ℕ) → v < 64 → bit_or (buf * 2 ^ 6 % 2 ^ 32) v ≡ buf % 2 ^ 26 * 64 + v
push_value buf v h =
    let low : buf * 2 ^ 6 % 2 ^ 32 ≡ buf % 2 ^ 26 * 2 ^ 6 = omega arith in
    rw low (bit_or-add_left 6 (buf % 2 ^ 26) v h)

-- The buffer after one more sextet.
abbrev pub shifted : ℕ → ℕ → ℕ
shifted buf v = buf % 2 ^ 26 * 64 + v

abbrev pub state : ℕ → ℕ → ℕ → List ℕ → Bits
state buf bits consumed out = record { buf = buf; bits = bits; consumed = consumed; out = out }

module _ (buf v k : ℕ) (out : List ℕ) (h : v < 64) where
  push_at_0 : push_sextet (state buf 0 k out) v ≡ state (shifted buf v) 6 (k + 1) out
  unfolding push_sextet
  push_at_0 = ground (arith, push_value buf v h)

  push_at_6 :
      push_sextet (state buf 6 k out) v
      ≡ state (shifted buf v) 4 (k + 1) (out ++ (shifted buf v / 16 % 256 ∷ []))
  unfolding push_sextet
  push_at_6 = ground (arith, push_value buf v h)

  push_at_4 :
      push_sextet (state buf 4 k out) v
      ≡ state (shifted buf v) 2 (k + 1) (out ++ (shifted buf v / 4 % 256 ∷ []))
  unfolding push_sextet
  push_at_4 = ground (arith, push_value buf v h)

  push_at_2 :
      push_sextet (state buf 2 k out) v
      ≡ state (shifted buf v) 0 (k + 1) (out ++ (shifted buf v % 256 ∷ []))
  unfolding push_sextet
  push_at_2 = ground (arith, push_value buf v h)

decode_loop-alphabet :
    (v : ℕ) (s : List ℕ) (st : Bits)
    → v < 64
    → decode_loop (alphabet v ∷ s) st ≡ decode_loop s (push_sextet st v)
unfolding decode_loop
decode_loop-alphabet v s st h = ground (arith, decode_table-alphabet v h)

pub decode_loop_pad :
    (s : List ℕ) (st : Bits) → all_pad s ≡ true → decode_loop (b'=' ∷ s) st ≡ some st
unfolding decode_loop decode_table all_pad
decode_loop_pad s st h = ground arith

-- Two, three and four sextets from an empty bit buffer.
module _ (buf k : ℕ) (out : List ℕ) (v0 v1 : ℕ) (h0 : v0 < 64) (h1 : v1 < 64) where
  pub two_sextets :
      (s : List ℕ)
      → decode_loop (alphabet v0 ∷ alphabet v1 ∷ s) (state buf 0 k out)
        ≡ decode_loop s
            (state (shifted (shifted buf v0) v1) 4 (k + 2) (out ++ ((v0 * 4 + v1 / 16) ∷ [])))
  two_sextets s =
      decode_loop-alphabet v0 (alphabet v1 ∷ s) (state buf 0 k out) h0
      ∙ rw (push_at_0 buf v0 k out h0) (
          decode_loop-alphabet v1 s (state (shifted buf v0) 6 (k + 1) out) h1
          ∙ rw (push_at_6 (shifted buf v0) v1 (k + 1) out h1) (
              let value : shifted (shifted buf v0) v1 / 16 % 256 ≡ v0 * 4 + v1 / 16 = omega arith in
              let count : k + 1 + 1 ≡ k + 2 = omega arith in rw (value, count)))

  module _ (v2 : ℕ) (h2 : v2 < 64) where
    pub three_sextets :
        (s : List ℕ)
        → decode_loop (alphabet v0 ∷ alphabet v1 ∷ alphabet v2 ∷ s) (state buf 0 k out)
          ≡ decode_loop s (
              state
                (shifted (shifted (shifted buf v0) v1) v2)
                2
                (k + 3)
                (out ++ ((v0 * 4 + v1 / 16) ∷ (v1 % 16 * 16 + v2 / 4) ∷ [])))
    three_sextets s =
        let buf2 = shifted (shifted buf v0) v1 in
        let out2 = out ++ ((v0 * 4 + v1 / 16) ∷ []) in
        two_sextets (alphabet v2 ∷ s)
        ∙ decode_loop-alphabet v2 s (state buf2 4 (k + 2) out2) h2
        ∙ rw (push_at_4 buf2 v2 (k + 2) out2 h2) (
            let value : shifted buf2 v2 / 4 % 256 ≡ v1 % 16 * 16 + v2 / 4 = omega arith in
            let count : k + 2 + 1 ≡ k + 3 = omega arith in
            rw (value, count, append_assoc out ((v0 * 4 + v1 / 16) ∷ [])))

    pub four_sextets :
        (v3 : ℕ) (s : List ℕ)
        → v3 < 64
        → decode_loop
            (alphabet v0 ∷ alphabet v1 ∷ alphabet v2 ∷ alphabet v3 ∷ s)
            (state buf 0 k out)
          ≡ decode_loop s (
              state
                (shifted (shifted (shifted (shifted buf v0) v1) v2) v3)
                0
                (k + 4)
                (out ++ ((v0 * 4 + v1 / 16) ∷ (v1 % 16 * 16 + v2 / 4) ∷ (v2 % 4 * 64 + v3) ∷ [])))
    four_sextets v3 s h3 =
        let buf3 = shifted (shifted (shifted buf v0) v1) v2 in
        let out3 = out ++ ((v0 * 4 + v1 / 16) ∷ (v1 % 16 * 16 + v2 / 4) ∷ []) in
        three_sextets (alphabet v3 ∷ s)
        ∙ decode_loop-alphabet v3 s (state buf3 2 (k + 3) out3) h3
        ∙ rw (push_at_2 buf3 v3 (k + 3) out3 h3) (
            let value : shifted buf3 v3 % 256 ≡ v2 % 4 * 64 + v3 = omega arith in
            let count : k + 3 + 1 ≡ k + 4 = omega arith in
            rw (value, count, append_assoc out ((v0 * 4 + v1 / 16) ∷ (v1 % 16 * 16 + v2 / 4) ∷ [])))
