-- ===== src/Sofh/Tests.antt =====
-- The frames of src/sbe/stream.cc on concrete streams. The codec takes any body as its length.
use protowire_cpp.Common.{ℕ, ◌≡◌, refl, arith, false, List, [], ◌∷◌, ◌++◌, length}
use protowire_cpp.Stream.{OutStream, read_full, corrupt_encoding, Coded, value, broken}
use protowire_cpp.Stream.Reads.{over}
use protowire_cpp.Sofh.{Decoder, decode, decode_fresh, check_header, encoding_of, total_of}
use protowire_cpp.Sofh.Frames.{frame, at_stream, decode-frame, decode_sticky}

abbrev measure : List ℕ → Coded ℕ
measure body = value (length body)

abbrev device : OutStream
device = record { written = 9 ∷ []; room = 20; failed = false }

-- A header with another encoding type.
abbrev foreign : Decoder
foreign = at_stream (over (0 ∷ 0 ∷ 0 ∷ 6 ∷ 0x5B ∷ 0xE0 ∷ [])) 10 []

decode-foreign : (decode measure foreign).1 ≡ broken (corrupt_encoding 0x5BE0)
unfolding decode decode_fresh check_header encoding_of total_of read_full
decode-foreign = refl

decode-frame_example :
    decode measure (at_stream (over (frame (5 ∷ 6 ∷ []) ++ (1 ∷ []))) 10 [])
    ≡ (at_stream (over (1 ∷ [])) 10 (5 ∷ 6 ∷ []), value 2)
decode-frame_example = decode-frame measure (5 ∷ 6 ∷ []) (1 ∷ []) [] 10 (omega arith) (omega arith)

decode_sticky_example :
    decode measure (record (decode measure foreign).0 { stream = over (1 ∷ []) }) ≡ (
      record (decode measure foreign).0 { stream = over (1 ∷ []) },
      broken (corrupt_encoding 0x5BE0),
    )
decode_sticky_example =
    decode_sticky measure foreign (corrupt_encoding 0x5BE0) (over (1 ∷ [])) refl (λ body q. cc)
      (λ q. cc) decode-foreign
