-- ===== src/Framing/Tests.antt =====
-- The frames of src/pb/stream.cc on concrete streams.
use protowire_cpp.Common.{ℕ, ◌≤◌, ◌≡◌, refl, arith, false, none, some, List, [], ◌∷◌, length}
use protowire_cpp.Wire.{append_varint_loop, append_varint, consume_varint}
use protowire_cpp.Stream.{OutStream, read_full, eof, unexpected_eof, corrupt_size}
use protowire_cpp.Stream.Reads.{over}
use protowire_cpp.Framing.{
  Decoder, read_uvarint, read_uvarint_loop, read_body, read_fresh, read_frame,
}
use protowire_cpp.Framing.Prefix.{Agrees, read_uvarint-consume_varint}
use protowire_cpp.Framing.Frames.{frame, at_stream, write_all, ReadsAll, ReadsAll-write_all}
use protowire_cpp.Framing.Errors.{
  read_frame_sticky, read_frame-le_max, read_frame_resumed, read_frame_cut,
}

abbrev device : ℕ → OutStream
device room = record { written = 9 ∷ []; room = room; failed = false }

-- A stream that holds a frame of two bytes, and one that holds a frame larger than its limit.
abbrev two_bytes : Decoder
two_bytes = at_stream (over (2 ∷ 5 ∷ 6 ∷ 1 ∷ [])) 10 []

abbrev too_large : Decoder
too_large = at_stream (over (7 ∷ 5 ∷ 6 ∷ [])) 3 []

frame-two : frame (5 ∷ 6 ∷ []) ≡ 2 ∷ 5 ∷ 6 ∷ []
unfolding append_varint append_varint_loop
frame-two = refl

read_frame-two : read_frame two_bytes ≡ (at_stream (over (1 ∷ [])) 10 (5 ∷ 6 ∷ []), none)
unfolding read_frame read_fresh read_body read_uvarint read_uvarint_loop read_full
read_frame-two = refl

read_frame-large : (read_frame too_large).1 ≡ some (corrupt_size 7 3)
unfolding read_frame read_fresh read_body read_uvarint read_uvarint_loop read_full
read_frame-large = refl

read_uvarint-consume_varint_example :
    Agrees 0
      (172 ∷ 2 ∷ 9 ∷ [])
      (consume_varint (172 ∷ 2 ∷ 9 ∷ []))
      (read_uvarint (over (172 ∷ 2 ∷ 9 ∷ [])))
read_uvarint-consume_varint_example =
    read_uvarint-consume_varint (172 ∷ 2 ∷ 9 ∷ []) (omega arith, (omega arith, (omega arith, tt)))

abbrev bodies : List (List ℕ)
bodies = (5 ∷ 6 ∷ []) ∷ [] ∷ (7 ∷ []) ∷ []

ReadsAll-write_all_example :
    ReadsAll
      (at_stream
        (over (write_all (record { written = []; room = 100; failed = false }) bodies).written)
        10
        [])
      bodies
ReadsAll-write_all_example =
    ReadsAll-write_all 10 100 bodies [] (omega arith)
      (
        ((omega arith, (omega arith, tt)), omega arith),
        ((tt, omega arith), (((omega arith, tt), omega arith), tt)),
      )
      (unfold append_varint append_varint_loop in omega arith)

read_frame_sticky_example :
    read_frame (record (read_frame too_large).0 { stream = over (1 ∷ 2 ∷ []) })
    ≡ (record (read_frame too_large).0 { stream = over (1 ∷ 2 ∷ []) }, some (corrupt_size 7 3))
read_frame_sticky_example =
    read_frame_sticky too_large (corrupt_size 7 3) (over (1 ∷ 2 ∷ [])) refl read_frame-large
      (λ e. cc)

read_frame-le_max_example : length (read_frame two_bytes).0.buf ≤ 10
read_frame-le_max_example = read_frame-le_max two_bytes refl (rw read_frame-two refl)

-- A decoder whose stream holds nothing yet.
abbrev waiting : Decoder
waiting = at_stream (over []) 10 (5 ∷ [])

read_frame-waiting : (read_frame waiting).1 ≡ some eof
unfolding read_frame read_fresh read_body read_uvarint read_uvarint_loop read_full
read_frame-waiting = refl

read_frame_resumed_example :
    read_frame (record (read_frame waiting).0 {
      stream = record (read_frame waiting).0.stream { avail = 1 ∷ 7 ∷ [] };
    })
    ≡ read_frame (at_stream (over (1 ∷ 7 ∷ [])) 10 (5 ∷ []))
read_frame_resumed_example = read_frame_resumed waiting (1 ∷ 7 ∷ []) refl read_frame-waiting

read_frame_cut_example : (read_frame (at_stream (over (2 ∷ 5 ∷ [])) 10 [])).1 ≡ some unexpected_eof
read_frame_cut_example =
    read_frame_cut (5 ∷ 6 ∷ []) (2 ∷ 5 ∷ []) [] [] 6 10 (omega arith, (omega arith, tt))
      (omega arith) (omega arith) frame-two (λ e. cc)
