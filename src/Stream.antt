-- ===== src/Stream.antt =====
-- What the frame decoders use of std::istream and std::ostream, and include/protowire/detail/stream.h
-- on top of it.
pub mod Reads
use protowire_cpp.Common.{
  ℕ, ◌+◌, ◌-◌, Bool, true, false, not, ◌&&◌, ◌||◌, List, [], ◌∷◌, ◌++◌, ◌==◌, leb, if◌then◌else◌,
  length, take, drop,
}

-- A std::istream: the bytes that its device still has, whether the device then breaks (badbit) or
-- ends (eofbit), and the three bits of its state.
pub record InStream : Type 0 where
  pub avail : List ℕ
  pub breaks : Bool
  pub eof : Bool
  pub fail : Bool
  pub bad : Bool

abbrev pub is_good : InStream → Bool
is_good r = not (r.eof || r.fail || r.bad)

-- `r.read(p, n)`: the bytes read, whose count is `gcount()`, and the stream behind it.
abbrev read : InStream → ℕ → List ℕ × InStream
read r n =
    if is_good r
    then (if leb n (length r.avail)
        then (take n r.avail, record r { avail = drop n r.avail })
        else if r.breaks
        then (r.avail, record r { avail = []; bad = true })
        else (r.avail, record r { avail = []; eof = true; fail = true }))
    else ([], record r { fail = true })

-- `r.clear()`
abbrev clear : InStream → InStream
clear r = record r { eof = false; fail = false; bad = false }

pub data ReadEnd : Type 0 where
  full end_of_file error : ReadEnd

-- ReadFull: how it ended, the bytes read and the stream behind it.
unfoldable pub read_full : InStream → ℕ → ReadEnd × List ℕ × InStream
read_full r n =
    if n == 0
    then (full, [], r)
    else (let r1 = if r.eof && not r.bad then clear r else r in
        let (got, r2) = read r1 n in
        (
          if length got == n then full else if r2.eof && not r2.bad then end_of_file else error,
          got,
          r2,
        ))

-- A std::ostream: what was written, how many bytes the device still takes, and failbit or badbit.
pub record OutStream : Type 0 where
  pub written : List ℕ
  pub room : ℕ
  pub failed : Bool

-- `w.write(p, n)`. Its result converts to false if the stream has failed.
unfoldable pub write : OutStream → List ℕ → OutStream
write w bs =
    if w.failed
    then w
    else if leb (length bs) w.room
    then record w { written = w.written ++ bs; room = w.room - length bs }
    else record w { written = w.written ++ take w.room bs; room = 0; failed = true }

-- The texts of the Status that a stream codec returns; `none` in an Option of these is Status::OK.
-- `codec` is an error of the message codec, by its number.
pub data Error : Type 0 where
  eof unexpected_eof read_failed write_failed : Error
  corrupt_read corrupt_varint : Error
  corrupt_size : ℕ → ℕ → Error
  corrupt_encoding : ℕ → Error
  corrupt_length : ℕ → Error
  codec : ℕ → Error

-- IsEOF and IsUnexpectedEOF
abbrev pub is_eof : Error → Bool
is_eof eof = true
is_eof _ = false

abbrev pub is_unexpected_eof : Error → Bool
is_unexpected_eof unexpected_eof = true
is_unexpected_eof _ = false

-- IsFramingCorrupt: the texts that open with kErrFramingCorrupt.
abbrev pub is_framing_corrupt : Error → Bool
is_framing_corrupt corrupt_read = true
is_framing_corrupt corrupt_varint = true
is_framing_corrupt (corrupt_size _ _) = true
is_framing_corrupt (corrupt_encoding _) = true
is_framing_corrupt (corrupt_length _) = true
is_framing_corrupt _ = false

-- A StatusOr of the message codec: its value or its error.
pub data Coded (A : Type 0) : Type 0 where
  value : A → Coded A
  broken : Error → Coded A
