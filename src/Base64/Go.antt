-- ===== src/Base64/Go.antt =====
-- DecodeGo of src/detail/base64.cc, and the two decoders over it.
pub mod Variants
use protowire_cpp.Common.{
  ℕ, zero, suc, ◌+◌, ◌-◌, ◌*◌, ◌/◌, ◌%◌, ◌^◌, bit_or, Bool, true, false, not, ◌&&◌, ◌||◌, Option,
  none, some, List, [], ◌∷◌, ◌++◌, ◌==◌, ltb, leb, within, if◌then◌else◌, length,
}

-- The lambda `value`: the sextet of a character in one of the two alphabets, or -1.
pub value : Bool → ℕ → Option ℕ
value url c =
    if within b'A' b'Z' c
    then some (c - b'A')
    else if within b'a' b'z' c
    then some (c - b'a' + 26)
    else if within b'0' b'9' c
    then some (c - b'0' + 52)
    else if c == (if url then b'-' else b'+')
    then some 62
    else if c == (if url then b'_' else b'/')
    then some 63
    else none

abbrev pub newline : ℕ → Bool
newline c = c == b'\n' || c == b'\r'

-- `while (si < src.size() && newline(src[si])) ++si`, on the characters from `si` on.
pub skip_newlines : ℕ → List ℕ → ℕ × List ℕ
skip_newlines si [] = (si, [])
skip_newlines si (c ∷ s) = if newline c then skip_newlines (si + 1) s else (si, c ∷ s)

-- How a quantum ends: the output is complete, it is bad at an offset, or `dlen` characters were
-- read into `val`, and the rest starts at `si`.
pub data Quantum : Type 0 where
  finished : Quantum
  bad_at : ℕ → Quantum
  read : ℕ → ℕ → ℕ → List ℕ → Quantum

-- Behind a '=' at position `j` of the quantum; `si` is the offset of what follows.
pub closing : ℕ → ℕ → ℕ → List ℕ → Quantum
closing j val si s =
    let (end, rest) = skip_newlines si s in
    elim rest [ [] ↦ read j val end [] | _ ∷ _ ↦ bad_at end ]

pub second_pad : ℕ → ℕ → List ℕ → Quantum
unfolding closing
second_pad val si s =
    let (si', rest) = skip_newlines si s in
    elim rest [
      | [] ↦ bad_at si'
      | c ∷ rest' ↦ if c == b'=' then closing 2 val (si' + 1) rest' else bad_at (si' - 1)
    ]

pub padding : ℕ → ℕ → ℕ → List ℕ → Quantum
unfolding second_pad
padding j val si s =
    if ltb j 2 then bad_at (si - 1) else if j == 2 then second_pad val si s else closing j val si s

-- The `for (int j = 0; j < 4; ++j)` loop, on the characters from `si` on.
pub quantum : Bool → Bool → ℕ → ℕ → ℕ → List ℕ → Quantum
unfolding padding
quantum url padded j val si [] =
    if j == 4
    then read 4 val si []
    else if j == 0
    then finished
    else if j == 1 || padded
    then bad_at (si - j)
    else read j val si []
quantum url padded j val si (c ∷ s) =
    let next =
      λ (v : ℕ). quantum url padded (j + 1) (bit_or val (v * 2 ^ (6 * (3 - j)))) (si + 1) s in
    let again = quantum url padded j val (si + 1) s in
    if j == 4 then read 4 val si (c ∷ s) else elim (value url c) [
      | some v ↦ next v
      | none ↦
          if newline c
          then again
          else if not padded || not (c == b'=')
          then bad_at si
          else padding j val (si + 1) s
    ]

-- The bytes of a quantum of `dlen` characters.
pub quantum_bytes : ℕ → ℕ → List ℕ
quantum_bytes dlen val =
    (if leb 2 dlen then (val / 2 ^ 16 % 256) ∷ [] else [])
    ++ ((if leb 3 dlen then (val / 2 ^ 8 % 256) ∷ [] else [])
        ++ (if leb 4 dlen then (val % 256) ∷ [] else []))

-- The bytes, or the offset of the error.
pub data Decoded : Type 0 where
  bytes : List ℕ → Decoded
  error_at : ℕ → Decoded

-- `while (si < src.size())`. A quantum takes a character at least.
pub go_loop : Bool → Bool → ℕ → ℕ → List ℕ → List ℕ → Decoded
go_loop url padded fuel si [] out = bytes out
go_loop url padded zero si (c ∷ s) out = bytes out
go_loop url padded (suc fuel) si (c ∷ s) out = elim (quantum url padded 0 0 si (c ∷ s)) [
  | finished ↦ bytes out
  | bad_at at ↦ error_at at
  | read dlen val si' rest ↦ go_loop url padded fuel si' rest (out ++ quantum_bytes dlen val)
]

pub decode_go : Bool → Bool → List ℕ → Decoded
unfolding go_loop quantum
decode_go url padded src = go_loop url padded (length src) 0 src []

abbrev or_else : Decoded → Decoded → Decoded
or_else (bytes d) other = bytes d
or_else (error_at at) other = other

-- Base64DecodeProto
pub decode_proto : List ℕ → Decoded
decode_proto s = or_else (decode_go false true s) (decode_go true true s)

-- Base64DecodeLenient: four variants in turn, with the error of the first.
pub decode_lenient : List ℕ → Decoded
decode_lenient s =
    let first = decode_go false true s in
    or_else first (
      or_else (decode_go false false s)
        (or_else (decode_go true true s) (or_else (decode_go true false s) first)))
