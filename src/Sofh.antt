-- ===== src/Sofh.antt =====
-- The Simple Open Framing Header of src/sbe/stream.cc, over the codec's Marshal and Unmarshal, which
-- are arguments here.
pub mod Frames
mod Tests
use protowire_cpp.Common.{
  ℕ, zero, suc, ◌+◌, ◌-◌, ◌*◌, ◌/◌, ◌%◌, ◌^◌, bit_or, Bool, true, false, not, ◌&&◌, Option, none,
  some, List, [], ◌∷◌, ◌==◌, ltb, leb, if◌then◌else◌, length, get_or,
}
use protowire_cpp.Stream.{
  InStream, ReadEnd, full, end_of_file, error, read_full, OutStream, write, Error, eof,
  unexpected_eof, read_failed, write_failed, corrupt_encoding, corrupt_length, corrupt_size, Coded,
  value, broken,
}

-- kSofhEncodingSbeLE and kSofhHeaderLen
abbrev pub sofh_encoding : ℕ
sofh_encoding = 0xEB50

abbrev pub header_len : ℕ
header_len = 6

-- The array `hdr` of Encoder::Encode, for a body of `size` bytes.
unfoldable pub header : ℕ → List ℕ
header size =
    let total = (header_len + size) % 2 ^ 32 in
    total / 2 ^ 24 % 256
    ∷ total / 2 ^ 16 % 256
    ∷ total / 2 ^ 8 % 256
    ∷ total % 256
    ∷ sofh_encoding / 2 ^ 8
    ∷ sofh_encoding % 256
    ∷ []

-- Encoder::Encode behind Marshal.
pub write_frame : OutStream → List ℕ → OutStream × Option Error
write_frame w body =
    let w1 = write w (header (length body)) in
    let w2 = write w1 body in
    if w1.failed
    then (w1, some write_failed)
    else if length body == 0
    then (w1, none)
    else if w2.failed
    then (w2, some write_failed)
    else (w2, none)

pub encode : {A : Type 0} → (A → Coded (List ℕ)) → OutStream → A → OutStream × Option Error
encode marshal w v = elim (marshal v) [ value body ↦ write_frame w body | broken e ↦ (w, some e) ]

-- The fields of Decoder; `max_frame` is the int64 `max_`, which is not negative here.
pub record Decoder : Type 0 where
  pub stream : InStream
  pub buf : List ℕ
  pub max_frame : ℕ
  pub err : Option Error

abbrev pub default_max_frame_size : ℕ
default_max_frame_size = 16 * 2 ^ 20

abbrev pub new_decoder : InStream → Decoder
new_decoder r = record { stream = r; buf = []; max_frame = default_max_frame_size; err = none }

-- `byte(0) << 24 | …` and `byte(4) << 8 | byte(5)` on the six header bytes.
pub total_of : List ℕ → ℕ
total_of h =
    bit_or (bit_or (bit_or (get_or h 0 0 * 2 ^ 24) (get_or h 1 0 * 2 ^ 16)) (get_or h 2 0 * 2 ^ 8))
      (get_or h 3 0)

pub encoding_of : List ℕ → ℕ
encoding_of h = bit_or (get_or h 4 0 * 2 ^ 8) (get_or h 5 0)

abbrev failed_with : {A : Type 0} → Decoder → InStream → Error → Decoder × Coded A
failed_with d r e = (record d { stream = r; err = some e }, broken e)

-- Behind a header that passed: the body, and then Unmarshal, whose error is not kept.
pub read_body : {A : Type 0} → (List ℕ → Coded A) → Decoder → ℕ → Decoder × Coded A
read_body unmarshal d body_len =
    let (end, got, r) = read_full d.stream body_len in
    elim end [
      | full ↦ (record d { stream = r; buf = got }, unmarshal got)
      | end_of_file ↦ failed_with (record d { buf = got }) r unexpected_eof
      | error ↦ failed_with (record d { buf = got }) r read_failed
    ]

-- The tests on the six header bytes `h`.
pub check_header : {A : Type 0} → (List ℕ → Coded A) → Decoder → List ℕ → Decoder × Coded A
check_header unmarshal d h =
    if not (encoding_of h == sofh_encoding)
    then failed_with d d.stream (corrupt_encoding (encoding_of h))
    else if ltb (total_of h) header_len
    then failed_with d d.stream (corrupt_length (total_of h))
    else if ltb d.max_frame (total_of h - header_len)
    then failed_with d d.stream (corrupt_size (total_of h - header_len) d.max_frame)
    else read_body unmarshal d (total_of h - header_len)

pub decode_fresh : {A : Type 0} → (List ℕ → Coded A) → Decoder → Decoder × Coded A
decode_fresh unmarshal d =
    let (end, got, r) = read_full d.stream header_len in
    let short =
      (if length got == 0 && (r.eof && not r.bad)
        then (record d { stream = r }, broken eof)
        else failed_with d r unexpected_eof) in
    elim end [
      | full ↦ check_header unmarshal (record d { stream = r }) got
      | end_of_file ↦ short
      | error ↦ short
    ]

-- Decoder::Decode
pub decode : {A : Type 0} → (List ℕ → Coded A) → Decoder → Decoder × Coded A
decode unmarshal d = elim d.err [ none ↦ decode_fresh unmarshal d | some e ↦ (d, broken e) ]
