-- ===== src/Sofh/Frames.antt =====
-- What the encoder frames, the decoder unframes; which errors the decoder keeps.
use protowire_cpp.Common.{
  ℕ, ◌+◌, ◌-◌, ◌*◌, ◌/◌, ◌%◌, ◌^◌, ◌≤◌, ◌<◌, ◌≡◌, ◌≢◌, refl, ◌∙◌, arith, false, none, some, List,
  ◌++◌, append_assoc, append-empty, length, length-append,
}
use protowire_cpp.Common.Bits.{bit_or-add_left}
use protowire_cpp.Stream.{InStream, full, read_full, OutStream, write, Error, eof, Coded, broken}
use protowire_cpp.Stream.Reads.{over, read_full-over}
use protowire_cpp.Sofh.{
  header_len, sofh_encoding, header, write_frame, Decoder, total_of, encoding_of, read_body,
  check_header, decode_fresh, decode,
}

total_of-header : (n : ℕ) → n + 6 < 2 ^ 32 → total_of (header n) ≡ n + 6
unfolding total_of header
total_of-header n h =
    let t = (header_len + n) % 2 ^ 32 in
    let e2 : t / 2 ^ 24 % 256 * 2 ^ 24 + t / 2 ^ 16 % 256 * 2 ^ 16 ≡ t / 2 ^ 16 * 2 ^ 16 =
      omega arith in
    let e3 : t / 2 ^ 16 * 2 ^ 16 + t / 2 ^ 8 % 256 * 2 ^ 8 ≡ t / 2 ^ 8 * 2 ^ 8 = omega arith in
    rw
      (
        bit_or-add_left 24 (t / 2 ^ 24 % 256) (t / 2 ^ 16 % 256 * 2 ^ 16) (omega arith),
        e2,
        bit_or-add_left 16 (t / 2 ^ 16) (t / 2 ^ 8 % 256 * 2 ^ 8) (omega arith),
        e3,
        bit_or-add_left 8 (t / 2 ^ 8) (t % 256) (omega arith),
      )
      (omega arith)

encoding_of-header : (n : ℕ) → encoding_of (header n) ≡ sofh_encoding
unfolding encoding_of header
encoding_of-header n = refl

length-header : (n : ℕ) → length (header n) ≡ 6
unfolding header
length-header n = refl

abbrev pub frame : List ℕ → List ℕ
frame body = header (length body) ++ body

abbrev pub at_stream : InStream → ℕ → List ℕ → Decoder
at_stream r m buf = record { stream = r; buf = buf; max_frame = m; err = none }

-- On a stream that has not failed, with room for the frame, the encoder reports success and has
-- written the header and the body, behind what was there.
pub write_frame_whole :
    (w : OutStream) (body : List ℕ)
    → w.failed ≡ false
    → length (frame body) ≤ w.room
    → write_frame w body
      ≡ (record w { written = w.written ++ frame body; room = w.room - length (frame body) }, none)
unfolding write_frame write
write_frame_whole w body h fits = ground (
  arith,
  length-append (header (length body)) body,
  append_assoc w.written (header (length body)) body,
  append-empty (w.written ++ header (length body)) body,
)

read_header :
    (n : ℕ) (s : List ℕ) → read_full (over (header n ++ s)) header_len ≡ (full, header n, over s)
read_header n s = rw (length-header n) at (read_full-over (header n) s)

module _ {A : Type 0} (unmarshal : List ℕ → Coded A) where
  decode_fresh_full :
      (d : Decoder) (h : List ℕ) (r : InStream)
      → read_full d.stream header_len ≡ (full, h, r)
      → decode_fresh unmarshal d ≡ check_header unmarshal (record d { stream = r }) h
  unfolding decode_fresh
  decode_fresh_full d h r e = ground (arith, e)

  check_header_pass :
      (d : Decoder) (h : List ℕ) (n : ℕ)
      → encoding_of h ≡ sofh_encoding
      → total_of h ≡ n + 6
      → n ≤ d.max_frame
      → check_header unmarshal d h ≡ read_body unmarshal d n
  unfolding check_header
  check_header_pass d h n e t fits =
      let body_len : n + 6 - 6 ≡ n = omega arith in rw (e, t, body_len) (ground arith)

  -- A frame whose total length fits its field and whose body is within the limit is read back: the
  -- decoder hands the body to Unmarshal, returns what that says, keeps no error, and stands behind
  -- the frame.
  pub decode-frame :
      (body rest buf : List ℕ) (m : ℕ)
      → length body ≤ m
      → length body + 6 < 2 ^ 32
      → decode unmarshal (at_stream (over (frame body ++ rest)) m buf)
        ≡ (at_stream (over rest) m body, unmarshal body)
  unfolding decode read_body
  decode-frame body rest buf m hm fits =
      let n = length body in
      let assoc : frame body ++ rest ≡ header n ++ (body ++ rest) =
        append_assoc (header n) body rest in
      rw assoc (
        decode_fresh_full (at_stream (over (header n ++ (body ++ rest))) m buf) (header n)
          (over (body ++ rest)) (read_header n (body ++ rest))
        ∙ check_header_pass (at_stream (over (body ++ rest)) m buf) (header n) n
            (encoding_of-header n) (total_of-header n fits) hm
        ∙ ground (arith, read_full-over body rest))

  -- The error of a call, if Unmarshal has no such error, is kept unless it is EOF.
  abbrev Keeps : Error → Decoder × Coded A → Type 0
  Keeps e r = r.1 ≡ broken e → r.0.err ≡ some e

  module _ (e : Error) (framing : (body : List ℕ) → unmarshal body ≢ broken e) where
    read_body-Keeps : (d : Decoder) (n : ℕ) → Keeps e (read_body unmarshal d n)
    unfolding read_body
    read_body-Keeps d n k = ground (arith, framing (read_full d.stream n).1)

    check_header-Keeps : (d : Decoder) (hdr : List ℕ) → Keeps e (check_header unmarshal d hdr)
    unfolding check_header
    check_header-Keeps d hdr k = ground (arith, read_body-Keeps d (total_of hdr - header_len))

    decode_fresh-Keeps : (d : Decoder) → e ≢ eof → Keeps e (decode_fresh unmarshal d)
    unfolding decode_fresh
    decode_fresh-Keeps d ne k =
        let r = read_full d.stream header_len in
        let d' : Decoder = record d { stream = r.2 } in
        ground (arith, ne, check_header-Keeps d' r.1)

  -- Once a call on a decoder without an error returns an error other than EOF that Unmarshal
  -- never returns, the next call returns the same error, whatever the stream has become, and changes
  -- nothing.
  pub decode_sticky :
      (d : Decoder) (e : Error) (later : InStream)
      → d.err ≡ none
      → ((body : List ℕ) → unmarshal body ≢ broken e)
      → e ≢ eof
      → (decode unmarshal d).1 ≡ broken e
      → decode unmarshal (record (decode unmarshal d).0 { stream = later })
        ≡ (record (decode unmarshal d).0 { stream = later }, broken e)
  unfolding decode
  decode_sticky d e later h framing ne k = ground (arith, decode_fresh-Keeps e framing d ne)
