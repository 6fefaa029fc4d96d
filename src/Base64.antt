-- ===== src/Base64.antt =====
-- src/detail/base64.cc. A string is the list of its bytes, and `|` and the shifts are on uint32.
pub mod Sextets
pub mod RoundTrip
pub mod Go
mod Tests
use protowire_cpp.Common.{
  ℕ, zero, suc, ◌+◌, ◌-◌, ◌*◌, ◌/◌, ◌%◌, ◌^◌, bit_or, Bool, true, false, not, ◌&&◌, ◌||◌, Option,
  none, some, List, [], ◌∷◌, ◌++◌, ◌==◌, ltb, leb, within, if◌then◌else◌, length, get_or,
}

-- kAlphabet, as the sextets' characters: the runs of letters and digits, '+' and '/'.
pub alphabet : ℕ → ℕ
alphabet i =
    if ltb i 26
    then b'A' + i
    else if ltb i 52
    then b'a' + (i - 26)
    else if ltb i 62
    then b'0' + (i - 52)
    else if i == 62
    then b'+'
    else b'/'

abbrev sextet : ℕ → ℕ → ℕ
sextet v k = v / 2 ^ k % 2 ^ 6

-- Base64EncodeStd: whole groups of three bytes, and then the one or two that are left.
pub encode_std : List ℕ → List ℕ
encode_std [] = []
encode_std (a ∷ []) =
    let v = a * 2 ^ 16 in alphabet (sextet v 18) ∷ alphabet (sextet v 12) ∷ b'=' ∷ b'=' ∷ []
encode_std (a ∷ b ∷ []) =
    let v = bit_or (a * 2 ^ 16) (b * 2 ^ 8) in
    alphabet (sextet v 18) ∷ alphabet (sextet v 12) ∷ alphabet (sextet v 6) ∷ b'=' ∷ []
encode_std (a ∷ b ∷ c ∷ rest) =
    let v = bit_or (bit_or (a * 2 ^ 16) (b * 2 ^ 8)) c in
    alphabet (sextet v 18)
    ∷ alphabet (sextet v 12)
    ∷ alphabet (sextet v 6)
    ∷ alphabet (sextet v 0)
    ∷ encode_std rest

-- kDecodeTable: the sextet of a character, 64 for '=' and 255 for any other.
pub decode_table : ℕ → ℕ
decode_table c =
    if within b'A' b'Z' c
    then c - b'A'
    else if within b'a' b'z' c
    then c - b'a' + 26
    else if within b'0' b'9' c
    then c - b'0' + 52
    else if c == b'+'
    then 62
    else if c == b'/'
    then 63
    else if c == b'='
    then 64
    else 255

-- The locals of Base64DecodeStd's loop.
pub record Bits : Type 0 where
  pub buf : ℕ
  pub bits : ℕ
  pub consumed : ℕ
  pub out : List ℕ

pub all_pad : List ℕ → Bool
all_pad [] = true
all_pad (c ∷ s) = c == b'=' && all_pad s

-- One sextet `v` into the buffer.
pub push_sextet : Bits → ℕ → Bits
push_sextet st v =
    let buf' = bit_or (st.buf * 2 ^ 6 % 2 ^ 32) v in
    if leb 8 (st.bits + 6)
    then record st {
      buf = buf';
      bits = st.bits + 6 - 8;
      consumed = st.consumed + 1;
      out = st.out ++ (buf' / 2 ^ (st.bits + 6 - 8) % 256 ∷ []);
    }
    else record st { buf = buf'; bits = st.bits + 6; consumed = st.consumed + 1 }

-- The loop, on the characters that it has not reached.
pub decode_loop : List ℕ → Bits → Option Bits
decode_loop [] st = some st
decode_loop (c ∷ s) st =
    let later = decode_loop s (push_sextet st (decode_table c)) in
    if decode_table c == 255
    then none
    else if decode_table c == 64
    then (if all_pad (c ∷ s) then some st else none)
    else later

-- The tests behind the loop, on a string of `len` characters.
pub decode_finish : ℕ → Bool → Bits → Option (List ℕ)
decode_finish len has_pad st =
    if leb 6 st.bits
    then none
    else if ltb 0 st.bits && not (st.buf % 2 ^ st.bits == 0)
    then none
    else if has_pad && not (len - st.consumed == 1 || len - st.consumed == 2)
    then none
    else some st.out

abbrev pub last_is_pad : List ℕ → Bool
last_is_pad [] = false
last_is_pad (c ∷ []) = c == b'='
last_is_pad (c ∷ d ∷ s) = last_is_pad (d ∷ s)

-- Base64DecodeStd
pub decode_std : List ℕ → Option (List ℕ)
unfolding push_sextet decode_loop decode_finish decode_table all_pad
decode_std [] = some []
decode_std (c ∷ s) =
    let len = length (c ∷ s) in
    let start : Bits = record { buf = 0; bits = 0; consumed = 0; out = [] } in
    if last_is_pad (c ∷ s) && not (len % 4 == 0) then none else elim (decode_loop (c ∷ s) start) [
      | none ↦ none
      | some st ↦ decode_finish len (last_is_pad (c ∷ s)) st
    ]
