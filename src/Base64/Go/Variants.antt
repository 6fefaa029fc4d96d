-- ===== src/Base64/Go/Variants.antt =====
-- The decoders over DecodeGo read back what Base64EncodeStd wrote, and their loop ends.
use protowire_cpp.Common.{
  ℕ, zero, suc, ◌+◌, ◌-◌, ◌*◌, ◌/◌, ◌%◌, ◌^◌, ◌≤◌, ◌<◌, bit_or, ◌≡◌, refl, ap, ◌∙◌, arith, true,
  false, some, List, [], ◌∷◌, ◌++◌, append_assoc, append-nil, length, All,
}
use protowire_cpp.Common.Bits.{bit_or-add_left, zero-bit_or}
use protowire_cpp.Wire.{IsByte}
use protowire_cpp.Base64.{alphabet, encode_std}
use protowire_cpp.Base64.RoundTrip.{encode-one, encode-two, encode-three}
use protowire_cpp.Base64.Go.{
  value, skip_newlines, read, quantum, quantum_bytes, bytes, go_loop, decode_go, decode_proto,
  decode_lenient,
}

value-alphabet : (v : ℕ) → v < 64 → value false (alphabet v) ≡ some v
unfolding value alphabet
value-alphabet v h = ground arith

quantum-alphabet :
    (si : ℕ) (s : List ℕ) (j val v : ℕ)
    → j < 4
    → v < 64
    → quantum false true j val si (alphabet v ∷ s)
      ≡ quantum false true (j + 1) (bit_or val (v * 2 ^ (6 * (3 - j)))) (si + 1) s
unfolding quantum
quantum-alphabet si s j val v hj h = ground (arith, value-alphabet v h)

quantum_full : (si : ℕ) (s : List ℕ) (val : ℕ) → quantum false true 4 val si s ≡ read 4 val si s
unfolding quantum
quantum_full si [] val = refl
quantum_full si (c ∷ s) val = refl

quantum_pad_two :
    (val si : ℕ) → quantum false true 2 val si (b'=' ∷ b'=' ∷ []) ≡ read 2 val (si + 2) []
unfolding quantum value skip_newlines
quantum_pad_two val si = ground arith

quantum_pad_one : (val si : ℕ) → quantum false true 3 val si (b'=' ∷ []) ≡ read 3 val (si + 1) []
unfolding quantum value skip_newlines
quantum_pad_one val si = ground arith

-- The first sextets of a quantum.
module _ (si v0 v1 : ℕ) (h0 : v0 < 64) (h1 : v1 < 64) where
  quantum_two :
      (s : List ℕ)
      → quantum false true 0 0 si (alphabet v0 ∷ alphabet v1 ∷ s)
        ≡ quantum false true 2 (v0 * 2 ^ 18 + v1 * 2 ^ 12) (si + 2) s
  quantum_two s =
      let i : si + 1 + 1 ≡ si + 2 = omega arith in
      quantum-alphabet si (alphabet v1 ∷ s) 0 0 v0 (omega arith) h0
      ∙ rw (zero-bit_or (v0 * 2 ^ 18)) (
          quantum-alphabet (si + 1) s 1 (v0 * 2 ^ 18) v1 (omega arith) h1
          ∙ rw (bit_or-add_left 18 v0 (v1 * 2 ^ 12) (omega arith), i))

  module _ (v2 : ℕ) (h2 : v2 < 64) where
    quantum_three :
        (s : List ℕ)
        → quantum false true 0 0 si (alphabet v0 ∷ alphabet v1 ∷ alphabet v2 ∷ s)
          ≡ quantum false true 3 (v0 * 2 ^ 18 + v1 * 2 ^ 12 + v2 * 2 ^ 6) (si + 3) s
    quantum_three s =
        let i : si + 2 + 1 ≡ si + 3 = omega arith in
        let shape : v0 * 2 ^ 18 + v1 * 2 ^ 12 ≡ (v0 * 64 + v1) * 2 ^ 12 = omega arith in
        let joined : bit_or (v0 * 2 ^ 18 + v1 * 2 ^ 12) (v2 * 2 ^ 6)
            ≡ v0 * 2 ^ 18 + v1 * 2 ^ 12 + v2 * 2 ^ 6 =
          rw shape (bit_or-add_left 12 (v0 * 64 + v1) (v2 * 2 ^ 6) (omega arith)) in
        quantum_two (alphabet v2 ∷ s)
        ∙ quantum-alphabet (si + 2) s 2 (v0 * 2 ^ 18 + v1 * 2 ^ 12) v2 (omega arith) h2
        ∙ rw (joined, i)

    quantum_four :
        (v3 : ℕ) (s : List ℕ)
        → v3 < 64
        → quantum false true 0 0 si (alphabet v0 ∷ alphabet v1 ∷ alphabet v2 ∷ alphabet v3 ∷ s)
          ≡ read 4 (v0 * 2 ^ 18 + v1 * 2 ^ 12 + v2 * 2 ^ 6 + v3) (si + 4) s
    quantum_four v3 s h3 =
        let i : si + 3 + 1 ≡ si + 4 = omega arith in
        let unit : v3 * 2 ^ 0 ≡ v3 = omega arith in
        let val = v0 * 2 ^ 18 + v1 * 2 ^ 12 + v2 * 2 ^ 6 in
        let shape : val ≡ (v0 * 4096 + v1 * 64 + v2) * 2 ^ 6 = omega arith in
        let joined : bit_or val v3 ≡ val + v3 =
          rw shape (bit_or-add_left 6 (v0 * 4096 + v1 * 64 + v2) v3 h3) in
        quantum_three (alphabet v3 ∷ s)
        ∙ quantum-alphabet (si + 3) s 3 val v3 (omega arith) h3
        ∙ rw (unit, joined, i) (quantum_full (si + 4) s (val + v3))

bytes_four :
    (val a b c : ℕ)
    → b < 256
    → c < 256
    → a < 256
    → val ≡ a * 65536 + b * 256 + c
    → quantum_bytes 4 val ≡ a ∷ b ∷ c ∷ []
unfolding quantum_bytes
bytes_four val a b c hb hc ha e = ground arith

bytes_three :
    (val a b : ℕ) → a < 256 → b < 256 → val ≡ a * 65536 + b * 256 → quantum_bytes 3 val ≡ a ∷ b ∷ []
unfolding quantum_bytes
bytes_three val a b ha hb e = ground arith

bytes_two : (val a : ℕ) → a < 256 → val ≡ a * 65536 → quantum_bytes 2 val ≡ a ∷ []
unfolding quantum_bytes
bytes_two val a ha e = ground arith

go_loop-nil : (fuel si : ℕ) (out : List ℕ) → go_loop false true fuel si [] out ≡ bytes out
unfolding go_loop
go_loop-nil zero si out = refl
go_loop-nil (suc fuel) si out = refl

-- One round of the loop.
go_loop_step :
    (fuel si dlen val si' c : ℕ) (s rest out group : List ℕ)
    → 1 ≤ fuel
    → quantum false true 0 0 si (c ∷ s) ≡ read dlen val si' rest
    → quantum_bytes dlen val ≡ group
    → go_loop false true fuel si (c ∷ s) out ≡ go_loop false true (fuel - 1) si' rest (out ++ group)
unfolding go_loop
go_loop_step zero si dlen val si' c s rest out group h q g = absurd (omega arith)
go_loop_step (suc f) si dlen val si' c s rest out group h q g =
    let e : suc f - 1 ≡ f = omega arith in rw e (rw (q, go_loop, g))

go_loop-encode_std :
    (d : List ℕ) (fuel si : ℕ) (out : List ℕ)
    → All IsByte d
    → length (encode_std d) ≤ fuel
    → go_loop false true fuel si (encode_std d) out ≡ bytes (out ++ d)
go_loop-encode_std [] fuel si out h hf =
    unfold encode_std in rw append-nil (go_loop-nil fuel si out)
go_loop-encode_std (a ∷ []) fuel si out (ha, _) hf =
    let len = ap length (encode-one a ha) in
    rw (encode-one a ha) (
      go_loop_step fuel si 2 _ (si + 2 + 2) (alphabet (a / 4)) _ [] out (a ∷ []) (omega arith)
        (quantum_two si (a / 4) (a % 4 * 16) (omega arith) (omega arith) (b'=' ∷ b'=' ∷ [])
          ∙ quantum_pad_two (a / 4 * 2 ^ 18 + a % 4 * 16 * 2 ^ 12) (si + 2))
        (bytes_two _ a ha (omega arith))
      ∙ go_loop-nil (fuel - 1) (si + 2 + 2) (out ++ (a ∷ [])))
go_loop-encode_std (a ∷ b ∷ []) fuel si out (ha, (hb, _)) hf =
    let len = ap length (encode-two a b ha hb) in
    let v1 = a % 4 * 16 + b / 16 in
    let v2 = b % 16 * 4 in
    rw (encode-two a b ha hb) (
      go_loop_step fuel si 3 _ (si + 3 + 1) (alphabet (a / 4)) _ [] out (a ∷ b ∷ []) (omega arith)
        (quantum_three si (a / 4) v1 (omega arith) (omega arith) v2 (omega arith) (b'=' ∷ [])
          ∙ quantum_pad_one (a / 4 * 2 ^ 18 + v1 * 2 ^ 12 + v2 * 2 ^ 6) (si + 3))
        (bytes_three _ a b ha hb (omega arith))
      ∙ go_loop-nil (fuel - 1) (si + 3 + 1) (out ++ (a ∷ b ∷ [])))
go_loop-encode_std (a ∷ b ∷ c ∷ rest) fuel si out (ha, (hb, (hc, h))) hf =
    let len = ap length (encode-three a b c rest ha hb hc) in
    let v1 = a % 4 * 16 + b / 16 in
    let v2 = b % 16 * 4 + c / 64 in
    let v3 = c % 64 in
    rw (encode-three a b c rest ha hb hc) (
      go_loop_step fuel si 4 _ (si + 4) (alphabet (a / 4)) _ (encode_std rest) out (a ∷ b ∷ c ∷ [])
        (omega arith)
        (quantum_four si (a / 4) v1 (omega arith) (omega arith) v2 (omega arith) v3
          (encode_std rest) (omega arith))
        (bytes_four _ a b c hb hc ha (omega arith))
      ∙ go_loop-encode_std rest (fuel - 1) (si + 4) (out ++ (a ∷ b ∷ c ∷ [])) h (omega arith)
      ∙ ap bytes (append_assoc out (a ∷ b ∷ c ∷ []) rest))

-- Whatever bytes Base64EncodeStd encodes, Base64DecodeProto and Base64DecodeLenient return them.
pub decode_lenient-encode_std :
    (d : List ℕ)
    → All IsByte d
    → (decode_proto (encode_std d) ≡ bytes d) × (decode_lenient (encode_std d) ≡ bytes d)
unfolding decode_proto decode_lenient
decode_lenient-encode_std d h = rw first (refl, refl)
  where
    first : decode_go false true (encode_std d) ≡ bytes d
    first = unfold decode_go in go_loop-encode_std d (length (encode_std d)) 0 [] h (omega arith)
