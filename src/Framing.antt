-- ===== src/Framing.antt =====
-- Length-prefixed frames: src/pb/stream.cc and the stream classes of include/protowire/pb.h.
pub mod Prefix
pub mod Frames
pub mod Errors
mod Tests
use protowire_cpp.Common.{
  ℕ, zero, suc, ◌+◌, ◌-◌, ◌*◌, ◌%◌, ◌^◌, bit_or, Bool, true, false, ◌&&◌, Option, none, some, List,
  [], ◌∷◌, ◌==◌, ltb, if◌then◌else◌, length, get_or,
}
use protowire_cpp.Wire.{append_varint}
use protowire_cpp.Stream.{
  InStream, ReadEnd, full, end_of_file, error, read_full, OutStream, write, Error, eof,
  unexpected_eof, read_failed, write_failed, corrupt_read, corrupt_varint, corrupt_size, Coded,
  value, broken,
}

-- kMaxVarintBytes
abbrev pub max_varint_bytes : ℕ
max_varint_bytes = 10

pub data VarintEnd : Type 0 where
  ok : ℕ → VarintEnd
  at_eof : VarintEnd
  in_eof : VarintEnd
  failed : VarintEnd
  overflow : VarintEnd

-- The loop of ReadUvarint at index `i`, with `rounds` left of kMaxVarintBytes.
unfoldable pub read_uvarint_loop : ℕ → ℕ → ℕ → ℕ → InStream → VarintEnd × InStream
read_uvarint_loop zero i x shift r = (overflow, r)
read_uvarint_loop (suc rounds) i x shift r =
    let (end, got, r') = read_full r 1 in
    let b = get_or got 0 0 in
    let x' = bit_or x (b % 2 ^ 7 * 2 ^ shift % 2 ^ 64) in
    let later = read_uvarint_loop rounds (i + 1) x' (shift + 7) r' in
    elim end [
      | full ↦
          if ltb b 0x80
          then (if i == max_varint_bytes - 1 && ltb 1 b
              then (overflow, r')
              else (ok (bit_or x (b * 2 ^ shift % 2 ^ 64)), r'))
          else later
      | end_of_file ↦ (if ltb 0 i then in_eof else at_eof, r')
      | error ↦ (failed, r')
    ]

pub read_uvarint : InStream → VarintEnd × InStream
read_uvarint r = read_uvarint_loop max_varint_bytes 0 0 0 r

-- The fields of Decoder. `max_frame` is the int64 `max_` as the uint64 that it is compared as, `buf`
-- what the last frame left, and `err` the sticky error.
pub record Decoder : Type 0 where
  pub stream : InStream
  pub buf : List ℕ
  pub max_frame : ℕ
  pub err : Option Error

abbrev pub default_max_frame_size : ℕ
default_max_frame_size = 16 * 2 ^ 20

abbrev pub new_decoder : InStream → Decoder
new_decoder r = record { stream = r; buf = []; max_frame = default_max_frame_size; err = none }

abbrev fail : Decoder → InStream → Error → Decoder × Option Error
fail d r e = (record d { stream = r; err = some e }, some e)

-- The second half of ReadFrame, behind the length `n`.
pub read_body : Decoder → ℕ → Decoder × Option Error
read_body d n =
    if ltb d.max_frame n
    then fail d d.stream (corrupt_size n d.max_frame)
    else (let (end, got, r) = read_full d.stream n in
        elim end [
          | full ↦ (record d { stream = r; buf = got }, none)
          | end_of_file ↦ fail (record d { buf = got }) r unexpected_eof
          | error ↦ fail (record d { buf = got }) r read_failed
        ])

pub read_fresh : Decoder → Decoder × Option Error
unfolding read_body
read_fresh d =
    let (end, r) = read_uvarint d.stream in
    elim end [
      | ok n ↦ read_body (record d { stream = r }) n
      | at_eof ↦ (record d { stream = r }, some eof)
      | in_eof ↦ fail d r unexpected_eof
      | failed ↦ fail d r corrupt_read
      | overflow ↦ fail d r corrupt_varint
    ]

-- ReadFrame, with `if (!err_.ok()) return err_` in front.
pub read_frame : Decoder → Decoder × Option Error
unfolding read_fresh
read_frame d = elim d.err [ none ↦ read_fresh d | some e ↦ (d, some e) ]

-- WriteFrame
pub write_frame : OutStream → List ℕ → OutStream × Option Error
write_frame w body =
    let w1 = write w (append_varint [] (length body)) in
    let w2 = write w1 body in
    if w1.failed
    then (w1, some write_failed)
    else if length body == 0
    then (w1, none)
    else if w2.failed
    then (w2, some write_failed)
    else (w2, none)

-- Encode and Decode, over Marshal and Unmarshal of the message type.
pub encode : {A : Type 0} → (A → Coded (List ℕ)) → OutStream → A → OutStream × Option Error
encode marshal w v = elim (marshal v) [ value body ↦ write_frame w body | broken e ↦ (w, some e) ]

pub decode : {A : Type 0} → (List ℕ → Coded A) → Decoder → Decoder × Coded A
decode unmarshal d =
    let (d', status) = read_frame d in
    elim status [ none ↦ (d', unmarshal d'.buf) | some e ↦ (d', broken e) ]
