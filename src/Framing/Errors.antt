-- ===== src/Framing/Errors.antt =====
-- ReadFrame where it fails: which errors stay, what the limit bounds, and cut frames.
use protowire_cpp.Common.{
  ℕ, zero, suc, ◌+◌, ◌*◌, ◌%◌, ◌∙◌, bit_or, get_or, ◌^◌, ◌≤◌, ◌<◌, ◌≡◌, ◌≢◌, ◌⊎◌, inl, inr, refl,
  ap, arith, none, some, Option-cases, List, [], ◌∷◌, ◌++◌, if◌then◌else◌, length, length-append,
  All, All-append, All-front, drop, length-drop, longer_front,
}
use protowire_cpp.Wire.{IsByte, append_varint, consume_varint}
use protowire_cpp.Wire.Varint.{
  append_varint_nil, consume_varint-append_varint, consume_varint_bounds, consume_varint-append,
}
use protowire_cpp.Stream.{InStream, read_full, Error, eof, unexpected_eof, is_eof}
use protowire_cpp.Stream.Reads.{
  over, ended, read_full-ended, read_full_short, read_full_resumed, length-read_full,
}
use protowire_cpp.Framing.{
  VarintEnd, ok, at_eof, in_eof, failed, overflow, read_uvarint, read_uvarint_loop, Decoder,
  read_body, read_frame,
}
use protowire_cpp.Framing.Prefix.{Fails, read_uvarint-consume_varint}
use protowire_cpp.Framing.Frames.{frame, at_stream, read_frame_prefix}

VarintEnd-cases :
    (end : VarintEnd)
    → ((n : ℕ) × (end ≡ ok n)) ⊎ (end ≡ at_eof) ⊎ (end ≡ in_eof) ⊎ (end ≡ failed) ⊎ (end ≡ overflow)
VarintEnd-cases (ok n) = inl (n, refl)
VarintEnd-cases at_eof = inr (inl refl)
VarintEnd-cases in_eof = inr (inr (inl refl))
VarintEnd-cases failed = inr (inr (inr (inl refl)))
VarintEnd-cases overflow = inr (inr (inr (inr refl)))

-- A call on a decoder that has not failed keeps its error for later calls, unless the stream was at
-- its end in front of the frame; success keeps none.
pub read_frame_keeps :
    (d : Decoder)
    → d.err ≡ none
    → (read_frame d).0.err
      ≡ elim (read_frame d).1 [ none ↦ none | some e ↦ (if is_eof e then none else some e) ]
unfolding read_frame
read_frame_keeps d h = ground (arith, VarintEnd-cases (read_uvarint d.stream).0)

-- Once a call on a decoder that had not failed returns an error other than EOF, the next call returns
-- the same error, whatever the stream has become, and changes nothing.
pub read_frame_sticky :
    (d : Decoder) (e : Error) (later : InStream)
    → d.err ≡ none
    → (read_frame d).1 ≡ some e
    → e ≢ eof
    → read_frame (record (read_frame d).0 { stream = later })
      ≡ (record (read_frame d).0 { stream = later }, some e)
unfolding read_frame
read_frame_sticky d e later h r ne = ground (arith, read_frame_keeps d h)

read_body-le_max :
    (d : Decoder) (n : ℕ) → (read_body d n).1 ≡ none → length (read_body d n).0.buf ≤ d.max_frame
unfolding read_body
read_body-le_max d n r = ground (arith, length-read_full d.stream n)

-- A frame that a decoder that has not failed returns is no larger than the limit.
pub read_frame-le_max :
    (d : Decoder)
    → d.err ≡ none
    → (read_frame d).1 ≡ none
    → length (read_frame d).0.buf ≤ d.max_frame
unfolding read_frame
read_frame-le_max d h r = elim (VarintEnd-cases (read_uvarint d.stream).0) [
  | inl (n, q) ↦
      let d' : Decoder = record d { stream = (read_uvarint d.stream).1 } in
      ground (arith, q, read_body-le_max d' n)
  | inr q ↦ ground arith
]

read_uvarint_loop_resumed :
    (rounds i x shift : ℕ) (r r' : InStream)
    → read_full r 1 ≡ read_full r' 1
    → read_uvarint_loop (suc rounds) i x shift r ≡ read_uvarint_loop (suc rounds) i x shift r'
unfolding read_uvarint_loop
read_uvarint_loop_resumed rounds i x shift r r' e = ground arith

read_uvarint_resumed :
    (bs : List ℕ) → read_uvarint (record ended { avail = bs }) ≡ read_uvarint (over bs)
unfolding read_uvarint
read_uvarint_resumed bs =
    read_uvarint_loop_resumed 9 0 0 0 (record ended { avail = bs }) (over bs)
      (read_full_resumed bs 1 (omega arith))

read_frame-ended :
    (bs buf : List ℕ) (m : ℕ)
    → read_frame (at_stream (record ended { avail = bs }) m buf)
      ≡ read_frame (at_stream (over bs) m buf)
unfolding read_frame
read_frame-ended bs buf m = ground (arith, read_uvarint_resumed bs)

-- Behind the first byte the end of the stream is no clean one.
read_uvarint_loop-inside :
    (rounds i x shift : ℕ) (r : InStream) → (read_uvarint_loop rounds (suc i) x shift r).0 ≢ at_eof
unfolding read_uvarint_loop
read_uvarint_loop-inside zero i x shift r e = absurd (ground arith)
read_uvarint_loop-inside (suc rounds) i x shift r e =
    let (end, got, r') = read_full r 1 in
    let b = get_or got 0 0 in
    absurd (
      ground (
        arith,
        read_uvarint_loop-inside rounds (suc i) (bit_or x (b % 2 ^ 7 * 2 ^ shift % 2 ^ 64))
            (shift + 7) r',
      ))

read_uvarint-ended : (r : InStream) → (read_uvarint r).0 ≡ at_eof → (read_uvarint r).1 ≡ ended
unfolding read_uvarint read_uvarint_loop
read_uvarint-ended r e =
    let (end, got, r') = read_full r 1 in
    let b = get_or got 0 0 in
    ground (
      arith,
      read_full-ended r 1,
      read_uvarint_loop-inside 9 0 (bit_or 0 (b % 2 ^ 7 * 2 ^ 0 % 2 ^ 64)) (0 + 7) r',
    )

read_frame-eof :
    (d : Decoder)
    → d.err ≡ none
    → (read_frame d).1 ≡ some eof
    → (read_frame d).0 ≡ at_stream ended d.max_frame d.buf
unfolding read_frame read_body
read_frame-eof d h e = ground (arith, read_uvarint-ended d.stream)

-- EOF is not final: once a call on a decoder that has not failed returns EOF, and the device of the
-- stream that it leaves has grown by some bytes, the next call does what it does on a fresh stream
-- over them, with the same limit and buffer and no error kept.
pub read_frame_resumed :
    (d : Decoder) (bs : List ℕ)
    → d.err ≡ none
    → (read_frame d).1 ≡ some eof
    → read_frame
        (record (read_frame d).0 { stream = record (read_frame d).0.stream { avail = bs } })
      ≡ read_frame (at_stream (over bs) d.max_frame d.buf)
read_frame_resumed d bs h e =
    ap (λ c. read_frame (record c { stream = record c.stream { avail = bs } }))
      (read_frame-eof d h e)
    ∙ read_frame-ended bs d.buf d.max_frame

-- A stream that ends inside a frame within the limit, behind its first byte, makes ReadFrame report
-- unexpected EOF, wherever the cut.
pub read_frame_cut :
    (body front back buf : List ℕ) (x m : ℕ)
    → All IsByte body
    → length body ≤ m
    → m < 2 ^ 64
    → frame body ≡ front ++ (x ∷ back)
    → front ≢ []
    → (read_frame (at_stream (over front) m buf)).1 ≡ some unexpected_eof
unfolding read_frame read_body
read_frame_cut body front back buf x m hb hm h64 e ne = elim (Option-cases (consume_varint front)) [
  | inl q ↦
      let why = rw q at (read_uvarint-consume_varint front bytes) in
      ground (arith, inside (read_uvarint (over front)).0 q why)
  | inr ((v, n), q) ↦
      let again = consume_varint-append front (x ∷ back) v n q in
      let same_length : v ≡ length body = cc whole in
      let same_count : n ≡ length head = cc whole in
      let within = consume_varint_bounds front v n q in
      let rest = drop n front in
      let short : length rest < v = ground (
        arith,
        length-drop n front,
        length-append front (x ∷ back),
        ap length e,
        length-append head body,
      ) in
      ground (
        arith,
        read_frame_prefix front rest buf m v n bytes q refl,
        read_full_short rest v short,
        same_length,
      )
]
  where
    head : List ℕ
    head = append_varint [] (length body)

    shape : All IsByte head × (1 ≤ length head) × (length head ≤ 10)
    shape = append_varint_nil (length body) (omega arith)

    whole : consume_varint (front ++ (x ∷ back)) ≡ some (length body, length head)
    whole = rw e at (consume_varint-append_varint (length body) body (omega arith))

    bytes : All IsByte front
    bytes = All-front IsByte front (x ∷ back) (rw e at (All-append IsByte head body shape.0 hb))

    inside : (end : VarintEnd) → consume_varint front ≡ none → Fails 0 front end → end ≡ in_eof
    inside at_eof q h = absurd (ground (arith, ne))
    inside in_eof q h = refl
    inside overflow q h =
        let (es, split) = longer_front head body front (x ∷ back) e (omega (arith, shape.2)) in
        let read = consume_varint-append_varint (length body) es (omega arith) in cc
    inside (ok v) q h = absurd h
    inside failed q h = absurd h
