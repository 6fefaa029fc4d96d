-- ===== src/Stream/Reads.antt =====
-- ReadFull on a stream that has not failed.
use protowire_cpp.Common.{
  ℕ, ◌≤◌, ◌<◌, ◌≡◌, refl, arith, true, false, List, [], ◌++◌, length, length-append, take-append,
  drop-append,
}
use protowire_cpp.Stream.{InStream, full, end_of_file, read_full}

-- A stream that is whole so far, over a device that holds `bs` and then ends.
abbrev pub over : List ℕ → InStream
over bs = record { avail = bs; breaks = false; eof = false; fail = false; bad = false }

-- The same stream at its end, once a read has met it.
abbrev pub ended : InStream
ended = record { avail = []; breaks = false; eof = true; fail = true; bad = false }

pub read_full-over :
    (bs rest : List ℕ) → read_full (over (bs ++ rest)) (length bs) ≡ (full, bs, over rest)
unfolding read_full
read_full-over bs rest = ground (
  arith,
  length-append bs rest,
  take-append (length bs) bs rest refl,
  drop-append (length bs) bs rest refl,
)

pub read_full_short :
    (bs : List ℕ) (n : ℕ) → length bs < n → read_full (over bs) n ≡ (end_of_file, bs, ended)
unfolding read_full
read_full_short bs n h = ground arith

-- A stream that has met its end is read again from where its device goes on.
pub read_full_resumed :
    (bs : List ℕ) (n : ℕ)
    → 1 ≤ n
    → read_full (record ended { avail = bs }) n ≡ read_full (over bs) n
unfolding read_full
read_full_resumed bs n h = ground arith

-- A read that meets the end has left a stream at its end.
pub read_full-ended :
    (r : InStream) (n : ℕ) → (read_full r n).0 ≡ end_of_file → (read_full r n).2 ≡ ended
unfolding read_full
read_full-ended r n h = ground arith

-- A read that ends well gives as many bytes as it was asked for.
pub length-read_full :
    (r : InStream) (n : ℕ) → (read_full r n).0 ≡ full → length (read_full r n).1 ≡ n
unfolding read_full
length-read_full r n h = ground arith
