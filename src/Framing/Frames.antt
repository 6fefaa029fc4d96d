-- ===== src/Framing/Frames.antt =====
-- WriteFrame and ReadFrame on streams: what a frame is, and what comes back.
use protowire_cpp.Common.{
  ℕ, ◌-◌, ◌^◌, ◌≤◌, ◌<◌, ◌≡◌, ◌≢◌, ◌⊎◌, refl, ◌∙◌, sym, arith, true, false, none, some, List, [],
  ◌∷◌, ◌++◌, append_assoc, append-nil, append-empty, length, length-append, All, All-append, drop,
  drop-append,
}
use protowire_cpp.Wire.{IsByte, append_varint, consume_varint}
use protowire_cpp.Wire.Varint.{append_varint_shape, consume_varint-append_varint}
use protowire_cpp.Stream.{InStream, OutStream, write, eof}
use protowire_cpp.Stream.Reads.{over, read_full-over, read_full_short}
use protowire_cpp.Framing.{
  ok, read_uvarint, read_uvarint_loop, Decoder, read_body, read_frame, write_frame,
}
use protowire_cpp.Framing.Prefix.{read_uvarint-consume_varint}

-- The bytes of a frame: the length of the body as a varint, and the body.
abbrev pub frame : List ℕ → List ℕ
frame body = append_varint [] (length body) ++ body

-- A decoder that has not failed, over a stream.
abbrev pub at_stream : InStream → ℕ → List ℕ → Decoder
at_stream r m buf = record { stream = r; buf = buf; max_frame = m; err = none }

-- On a stream that has not failed, with room for the frame, WriteFrame reports success and has
-- written the length of the body as a varint and the body, behind what was there.
pub write_frame_success :
    (w : OutStream) (body : List ℕ)
    → w.failed ≡ false
    → length (frame body) ≤ w.room
    → write_frame w body
      ≡ (record w { written = w.written ++ frame body; room = w.room - length (frame body) }, none)
unfolding write_frame write
write_frame_success w body h fits = ground (
  arith,
  length-append (append_varint [] (length body)) body,
  append_assoc w.written (append_varint [] (length body)) body,
  append-empty (w.written ++ append_varint [] (length body)) body,
)

-- On a stream that has failed or has no room for the frame, WriteFrame does not report success.
pub write_frame_fail :
    (w : OutStream) (body : List ℕ)
    → w.room < length (frame body) ⊎ (w.failed ≡ true)
    → (write_frame w body).1 ≢ none
unfolding write_frame write
write_frame_fail w body h e = ground (arith, length-append (append_varint [] (length body)) body)

pub read_frame_prefix :
    (bs rest buf : List ℕ) (m v n : ℕ)
    → All IsByte bs
    → consume_varint bs ≡ some (v, n)
    → drop n bs ≡ rest
    → read_frame (at_stream (over bs) m buf) ≡ read_body (at_stream (over rest) m buf) v
unfolding read_frame
read_frame_prefix bs rest buf m v n h e p =
    let found = rw e at (read_uvarint-consume_varint bs h) in
    let whole : n - 0 ≡ n = omega arith in
    let run : read_uvarint (over bs) ≡ (ok v, over rest) = rw (whole, p) at found in
    ground (arith, run)

-- A frame within the limit is read back, and the decoder stands behind it.
pub read_frame-frame :
    (body rest buf : List ℕ) (m : ℕ)
    → All IsByte body
    → All IsByte rest
    → length body ≤ m
    → m < 2 ^ 64
    → read_frame (at_stream (over (frame body ++ rest)) m buf)
      ≡ (at_stream (over rest) m body, none)
unfolding read_body
read_frame-frame body rest buf m hb hr hm h64 =
    let head = append_varint [] (length body) in
    let (bs, e, bytes, lo, hi) = append_varint_shape [] (length body) (omega arith) in
    let bytes' : All IsByte head = rw e bytes in
    let assoc : frame body ++ rest ≡ head ++ (body ++ rest) = append_assoc head body rest in
    rw assoc (
      read_frame_prefix (head ++ (body ++ rest)) (body ++ rest) buf m (length body) (length head)
        (All-append IsByte head (body ++ rest) bytes' (All-append IsByte body rest hb hr))
        (consume_varint-append_varint (length body) (body ++ rest) (omega arith))
        (drop-append (length head) head (body ++ rest) refl)
      ∙ ground (arith, read_full-over body rest))

-- Frames written one behind the other.
pub write_all : OutStream → List (List ℕ) → OutStream
write_all w [] = w
write_all w (body ∷ bodies) = write_all (write_frame w body).0 bodies

abbrev pub frames : List (List ℕ) → List ℕ
frames [] = []
frames (body ∷ bodies) = frame body ++ frames bodies

-- Frames read one behind the other: each body in turn, and then EOF.
abbrev pub ReadsAll : Decoder → List (List ℕ) → Type 0
ReadsAll d [] = (read_frame d).1 ≡ some eof
ReadsAll d (body ∷ bodies) =
    ((read_frame d).1 ≡ none) × ((read_frame d).0.buf ≡ body) × ReadsAll (read_frame d).0 bodies

-- A body that a decoder with frame limit `m` takes.
abbrev pub Body : ℕ → List ℕ → Type 0
Body m body = All IsByte body × (length body ≤ m)

frames-IsByte :
    (m : ℕ) (bodies : List (List ℕ)) → m < 2 ^ 64 → All (Body m) bodies → All IsByte (frames bodies)
frames-IsByte m [] h64 h = tt
frames-IsByte m (body ∷ bodies) h64 ((hb, hm), h) =
    let (bs, e, bytes, lo, hi) = append_varint_shape [] (length body) (omega arith) in
    All-append IsByte (frame body) (frames bodies)
      (All-append IsByte (append_varint [] (length body)) body (rw e bytes) hb)
      (frames-IsByte m bodies h64 h)

read_frame-ends : (m : ℕ) (buf : List ℕ) → (read_frame (at_stream (over []) m buf)).1 ≡ some eof
unfolding read_frame read_uvarint read_uvarint_loop
read_frame-ends m buf = ground (arith, read_full_short [] 1 (omega arith))

ReadsAll-frames :
    (m : ℕ) (bodies : List (List ℕ)) (buf : List ℕ)
    → m < 2 ^ 64
    → All (Body m) bodies
    → ReadsAll (at_stream (over (frames bodies)) m buf) bodies
ReadsAll-frames m [] buf h64 h = read_frame-ends m buf
ReadsAll-frames m (body ∷ bodies) buf h64 ((hb, hm), h) =
    rw (read_frame-frame body (frames bodies) buf m hb (frames-IsByte m bodies h64 h) hm h64)
      (refl, refl, ReadsAll-frames m bodies body h64 h)

write_all-frames :
    (w : OutStream) (bodies : List (List ℕ))
    → w.failed ≡ false
    → length (frames bodies) ≤ w.room
    → (write_all w bodies).written ≡ w.written ++ frames bodies
unfolding write_all
write_all-frames w [] h fits = sym (append-nil w.written)
write_all-frames w (body ∷ bodies) h fits =
    let split = length-append (frame body) (frames bodies) in
    let w' : OutStream = record w {
      written = w.written ++ frame body;
      room = w.room - length (frame body);
    } in
    rw (write_frame_success w body h (omega arith), write_all)
      (write_all-frames w' bodies h (omega arith)
        ∙ append_assoc w.written (frame body) (frames bodies))

-- What WriteFrame wrote, frame behind frame, on an empty device with room for it all, ReadFrame gives
-- back body by body, and then reports EOF, where each body is within the frame limit and the limit
-- is a uint64.
pub ReadsAll-write_all :
    (m room : ℕ) (bodies : List (List ℕ)) (buf : List ℕ)
    → m < 2 ^ 64
    → All (Body m) bodies
    → length (frames bodies) ≤ room
    → ReadsAll
        (at_stream
          (over (write_all (record { written = []; room = room; failed = false }) bodies).written)
          m
          buf)
        bodies
ReadsAll-write_all m room bodies buf h64 h fits =
    let w : OutStream = record { written = []; room = room; failed = false } in
    rw (write_all-frames w bodies refl fits) (ReadsAll-frames m bodies buf h64 h)
