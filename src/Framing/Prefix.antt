-- ===== src/Framing/Prefix.antt =====
-- ReadUvarint over a device that ends, against ConsumeVarint on the same bytes.
use protowire_cpp.Common.{
  ℕ, zero, suc, ◌+◌, ◌-◌, ◌*◌, ◌%◌, ◌^◌, ◌≤◌, ◌<◌, bit_or, ◌≡◌, inl, inr, refl, Option-cases, arith,
  Option, none, some, List, [], ◌∷◌, ltb, lt→ltb, if◌then◌else◌, length, All, drop,
}
use native.Mathlib.Decide.{dec_lt}
use protowire_cpp.Wire.{IsByte, consume_varint_loop, consume_varint}
use protowire_cpp.Stream.{InStream, full, end_of_file, read_full}
use protowire_cpp.Stream.Reads.{over, ended, read_full-over, read_full_short}
use protowire_cpp.Framing.{
  VarintEnd, ok, at_eof, in_eof, failed, overflow, read_uvarint_loop, read_uvarint,
}

-- Why no number could be read at index `i` with `bs` to come: a device at its end, an end inside the
-- varint, or a tenth byte that is too large.
abbrev pub Fails : ℕ → List ℕ → VarintEnd → Type 0
Fails i bs at_eof = i + length bs ≡ 0
Fails i bs in_eof = (1 ≤ i + length bs) × (i + length bs ≤ 9)
Fails i bs overflow = 10 ≤ i + length bs
Fails i bs (ok v) = ⊥
Fails i bs failed = ⊥

-- Where ConsumeVarint gives a number and a count, so does the stream, and it stands behind them.
abbrev pub Agrees : ℕ → List ℕ → Option (ℕ × ℕ) → VarintEnd × InStream → Type 0
Agrees i bs (some (v, n)) r = r ≡ (ok v, over (drop (n - i) bs))
Agrees i bs none r = Fails i bs r.0

one_byte : (b : ℕ) (bs : List ℕ) → read_full (over (b ∷ bs)) 1 ≡ (full, b ∷ [], over bs)
one_byte b bs = read_full-over (b ∷ []) bs

no_byte : read_full (over []) 1 ≡ (end_of_file, [], ended)
no_byte = read_full_short [] 1 (omega arith)

abbrev join : ℕ → ℕ → ℕ → ℕ
join x b i = bit_or x (b % 2 ^ 7 * 2 ^ (i * 7) % 2 ^ 64)

consume_last :
    (b i x : ℕ) (bs : List ℕ)
    → i ≤ 9
    → b < 128
    → (i ≡ 9 → b ≤ 1)
    → consume_varint_loop (b ∷ bs) i x ≡ some (join x b i, i + 1)
unfolding consume_varint_loop
consume_last b i x bs hi hb h = ground arith

consume_over : (b x : ℕ) (bs : List ℕ) → 1 < b → consume_varint_loop (b ∷ bs) 9 x ≡ none
unfolding consume_varint_loop
consume_over b x bs hb = ground arith

consume_more :
    (b i x : ℕ) (bs : List ℕ)
    → i < 9
    → 128 ≤ b
    → b < 256
    → consume_varint_loop (b ∷ bs) i x ≡ consume_varint_loop bs (i + 1) (join x b i)
unfolding consume_varint_loop
consume_more b i x bs hi lo hb = ground arith

read_last :
    (rounds b i x : ℕ) (bs : List ℕ)
    → i ≤ 9
    → b < 128
    → (i ≡ 9 → b ≤ 1)
    → read_uvarint_loop (suc rounds) i x (i * 7) (over (b ∷ bs)) ≡ (ok (join x b i), over bs)
unfolding read_uvarint_loop
read_last rounds b i x bs hi hb h = ground (arith, one_byte b bs)

read_over :
    (b x : ℕ) (bs : List ℕ)
    → 1 < b
    → read_uvarint_loop 1 9 x (9 * 7) (over (b ∷ bs)) ≡ (overflow, over bs)
unfolding read_uvarint_loop
read_over b x bs hb = ground (arith, one_byte b bs)

read_more :
    (rounds b i x : ℕ) (bs : List ℕ)
    → 128 ≤ b
    → read_uvarint_loop (suc rounds) i x (i * 7) (over (b ∷ bs))
      ≡ read_uvarint_loop rounds (i + 1) (join x b i) (i * 7 + 7) (over bs)
unfolding read_uvarint_loop
read_more rounds b i x bs hb = ground (arith, one_byte b bs)

consume_varint_loop-lt :
    (bs : List ℕ) (i x v n : ℕ) → consume_varint_loop bs i x ≡ some (v, n) → i < n
unfolding consume_varint_loop
consume_varint_loop-lt [] i x v n e = cc
consume_varint_loop-lt (b ∷ bs) i x v n e =
    ground (arith, consume_varint_loop-lt bs (i + 1) (join x b i) v n)

-- A byte in front of what is read.
Agrees-cons :
    (b i x : ℕ) (bs : List ℕ) (r : VarintEnd × InStream)
    → Agrees (i + 1) bs (consume_varint_loop bs (i + 1) x) r
    → Agrees i (b ∷ bs) (consume_varint_loop bs (i + 1) x) r
Agrees-cons b i x bs r a = elim (Option-cases (consume_varint_loop bs (i + 1) x)) [
  | inl q ↦ rw q (Fails-cons r.0 (rw q at a))
  | inr ((v, n), q) ↦
      let below = consume_varint_loop-lt bs (i + 1) x v n q in
      let e : n - i ≡ suc (n - (i + 1)) = omega arith in rw (q, e) (rw q at a)
]
  where
    Fails-cons : (end : VarintEnd) → Fails (i + 1) bs end → Fails i (b ∷ bs) end
    Fails-cons at_eof h = absurd (omega arith)
    Fails-cons in_eof h = omega arith
    Fails-cons overflow h = omega arith
    Fails-cons (ok v) h = h
    Fails-cons failed h = h

consume_none : (i x : ℕ) (bs : List ℕ) → 10 ≤ i → consume_varint_loop bs i x ≡ none
unfolding consume_varint_loop
consume_none i x [] h = refl
consume_none i x (b ∷ bs) h = ground arith

consume-nil : (i x : ℕ) → consume_varint_loop [] i x ≡ none
unfolding consume_varint_loop
consume-nil i x = refl

read_stops : (i x shift : ℕ) (r : InStream) → read_uvarint_loop zero i x shift r ≡ (overflow, r)
unfolding read_uvarint_loop
read_stops i x shift r = refl

read-nil :
    (rounds i x shift : ℕ)
    → read_uvarint_loop (suc rounds) i x shift (over [])
      ≡ (if ltb 0 i then in_eof else at_eof, ended)
unfolding read_uvarint_loop
read-nil rounds i x shift = ground (arith, no_byte)

Fails-nil : (i : ℕ) → i ≤ 9 → Fails i [] (if ltb 0 i then in_eof else at_eof)
Fails-nil zero h = omega arith
Fails-nil (suc i) h = rw (lt→ltb 0 (suc i) (omega arith)) (omega arith)

read_uvarint_loop-consume_varint_loop :
    (rounds i x : ℕ) (bs : List ℕ)
    → All IsByte bs
    → i + rounds ≡ 10
    → Agrees i bs (consume_varint_loop bs i x) (read_uvarint_loop rounds i x (i * 7) (over bs))
read_uvarint_loop-consume_varint_loop zero i x bs h e =
    rw (consume_none i x bs (omega arith), read_stops i x (i * 7) (over bs)) (omega arith)
read_uvarint_loop-consume_varint_loop (suc rounds) i x [] h e =
    rw (consume-nil i x, read-nil rounds i x (i * 7)) (Fails-nil i (omega arith))
read_uvarint_loop-consume_varint_loop (suc rounds) i x (b ∷ bs) (hb, h) e = elim (dec_lt i 9) [
  | yes p ↦ elim (dec_lt b 128) [
    | yes low ↦ lastly (omega arith) low (λ e'. absurd (omega arith))
    | no high ↦
        let next : i * 7 + 7 ≡ (i + 1) * 7 = omega arith in
        rw (consume_more b i x bs p (omega arith) hb, read_more rounds b i x bs (omega arith), next)
          (Agrees-cons b i (join x b i) bs _
            (read_uvarint_loop-consume_varint_loop rounds (i + 1) (join x b i) bs h (omega arith)))
  ]
  | no p ↦ elim (dec_lt 1 b) [
    | yes large ↦
        let nine : i ≡ 9 = omega arith in
        let none_left : rounds ≡ 0 = omega arith in
        rw (nine, none_left, consume_over b x bs large, read_over b x bs large) (omega arith)
    | no small ↦ lastly (omega arith) (omega arith) (λ e'. omega arith)
  ]
]
  where
    lastly :
        i ≤ 9
        → b < 128
        → (i ≡ 9 → b ≤ 1)
        → Agrees i
            (b ∷ bs)
            (consume_varint_loop (b ∷ bs) i x)
            (read_uvarint_loop (suc rounds) i x (i * 7) (over (b ∷ bs)))
    lastly hi low small =
        let one : i + 1 - i ≡ 1 = omega arith in
        rw (consume_last b i x bs hi low small, read_last rounds b i x bs hi low small, one) refl

-- On a device that ends, ReadUvarint reads the number that ConsumeVarint finds in the same bytes and
-- stops right behind it; where ConsumeVarint fails, it says whether there was no byte, the varint
-- was cut short before its tenth byte, or ten bytes were not enough.
pub read_uvarint-consume_varint :
    (bs : List ℕ) → All IsByte bs → Agrees 0 bs (consume_varint bs) (read_uvarint (over bs))
unfolding read_uvarint consume_varint
read_uvarint-consume_varint bs h = read_uvarint_loop-consume_varint_loop 10 0 0 bs h (omega arith)
