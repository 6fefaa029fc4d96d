-- ===== src/Wire/Varint.antt =====
-- AppendVarint and ConsumeVarint: what is written, what is read, and the round trip.
use protowire_cpp.Common.{
  ℕ, zero, suc, ◌+◌, ◌*◌, ◌/◌, ◌%◌, ◌^◌, ◌≤◌, ◌<◌, bit_or, ◌≡◌, ap, arith, some, List, [], ◌∷◌,
  ◌++◌, append_assoc, ltb, if◌then◌else◌, length, All,
}
use protowire_cpp.Common.Bits.{bit_or-add, set_top_bit}
use protowire_cpp.Wire.{
  IsByte, IsU64, append_varint_loop, append_varint, consume_varint_loop, consume_varint,
}
use native.Mathlib.Nat.{div-add-mod, pow-le-pow_right}
use native.Mathlib.Numerals.{towards_suc}

-- The groups of seven bits of `v`, lowest first, for `v` below `128 ^ (k + 1)`.
unfoldable pub varint_bytes : ℕ → ℕ → List ℕ
varint_bytes zero v = v ∷ []
varint_bytes (suc k) v =
    let more = varint_bytes k (v / 128) in if ltb v 128 then v ∷ [] else (v % 128 + 128) ∷ more

append_varint_loop-varint_bytes :
    (k : ℕ) (out : List ℕ) (v : ℕ)
    → v < 128 ^ suc k
    → append_varint_loop k out v ≡ out ++ varint_bytes k v
unfolding append_varint_loop varint_bytes
append_varint_loop-varint_bytes zero out v h = let e : v % 256 ≡ v = omega arith in rw e
append_varint_loop-varint_bytes (suc k) out v h = ground (
  arith,
  set_top_bit (v % 256) (omega arith),
  append_varint_loop-varint_bytes k (out ++ (bit_or (v % 256) 0x80 ∷ [])) (v / 128) (omega arith),
  append_assoc out ((v % 128 + 128) ∷ []) (varint_bytes k (v / 128)),
)

-- A buffer of bytes keeps its bytes and gains the groups of the number.
append_varint-varint_bytes :
    (out : List ℕ) (v : ℕ) → IsU64 v → append_varint out v ≡ out ++ varint_bytes 9 v
unfolding append_varint
append_varint-varint_bytes out v h = append_varint_loop-varint_bytes 9 out v (omega arith)

pub varint_bytes-IsByte : (k v : ℕ) → v < 128 ^ suc k → All IsByte (varint_bytes k v)
unfolding varint_bytes
varint_bytes-IsByte zero v h = omega arith
varint_bytes-IsByte (suc k) v h = ground (arith, varint_bytes-IsByte k (v / 128) (omega arith))

pub length-varint_bytes :
    (k v : ℕ) → (1 ≤ length (varint_bytes k v)) × (length (varint_bytes k v) ≤ k + 1)
unfolding varint_bytes
length-varint_bytes zero v = omega arith
length-varint_bytes (suc k) v = ground (arith, length-varint_bytes k (v / 128))

shift_seven : (i : ℕ) → 2 ^ ((i + 1) * 7) ≡ 128 * 2 ^ (i * 7)
shift_seven i =
    let e : (i + 1) * 7 ≡ i * 7 + 7 = omega arith in rw e (simp towards_suc (omega arith))

split_group : (v i : ℕ) → v * 2 ^ (i * 7) ≡ v % 128 * 2 ^ (i * 7) + v / 128 * 2 ^ ((i + 1) * 7)
split_group v i = omega (
  arith,
  ap (λ (t : ℕ). t * 2 ^ (i * 7)) (div-add-mod v 128),
  ap (λ (t : ℕ). v / 128 * t) (shift_seven i),
)

tenth_byte : (i v : ℕ) → i ≡ 9 → v * 2 ^ (i * 7) < 2 ^ 64 → v < 2
tenth_byte i v e h = let h' : v * 2 ^ (9 * 7) < 2 ^ 64 = rw e at h in omega arith

last_byte :
    (v acc i : ℕ) (rest : List ℕ)
    → v < 128
    → i ≤ 9
    → acc < 2 ^ (i * 7)
    → v * 2 ^ (i * 7) < 2 ^ 64
    → consume_varint_loop (v ∷ rest) i acc ≡ some (acc + v * 2 ^ (i * 7), i + 1)
unfolding consume_varint_loop
last_byte v acc i rest hv hi ha hf = ground (arith, bit_or-add (i * 7) acc v ha, tenth_byte i v)

inner_byte :
    (v acc i : ℕ) (rest : List ℕ)
    → 128 ≤ v
    → i ≤ 9
    → acc < 2 ^ (i * 7)
    → v * 2 ^ (i * 7) < 2 ^ 64
    → consume_varint_loop ((v % 128 + 128) ∷ rest) i acc
      ≡ consume_varint_loop rest (i + 1) (acc + v % 128 * 2 ^ (i * 7))
unfolding consume_varint_loop
inner_byte v acc i rest hv hi ha hf =
    ground (arith, bit_or-add (i * 7) acc (v % 128) ha, tenth_byte i v, split_group v i)

group_bound : (g p acc : ℕ) → g < 128 → acc < p → acc + g * p < 128 * p
group_bound g p acc hg ha = grind arith

consume_varint_loop-varint_bytes :
    (k v acc i : ℕ) (rest : List ℕ)
    → v < 128 ^ suc k
    → i + k ≤ 9
    → acc < 2 ^ (i * 7)
    → v * 2 ^ (i * 7) < 2 ^ 64
    → consume_varint_loop (varint_bytes k v ++ rest) i acc
      ≡ some (acc + v * 2 ^ (i * 7), i + length (varint_bytes k v))
unfolding varint_bytes
consume_varint_loop-varint_bytes zero v acc i rest hv hi ha hf =
    last_byte v acc i rest hv (omega arith) ha hf
consume_varint_loop-varint_bytes (suc k) v acc i rest hv hi ha hf = ground (
  arith,
  last_byte v acc i rest,
  inner_byte v acc i (varint_bytes k (v / 128) ++ rest),
  split_group v i,
  shift_seven i,
  group_bound (v % 128) (2 ^ (i * 7)) acc (omega arith) ha,
  consume_varint_loop-varint_bytes k (v / 128) (acc + v % 128 * 2 ^ (i * 7)) (i + 1) rest
      (omega arith),
)

pub consume_varint-varint_bytes :
    (v : ℕ) (rest : List ℕ)
    → IsU64 v
    → consume_varint (varint_bytes 9 v ++ rest) ≡ some (v, length (varint_bytes 9 v))
unfolding consume_varint
consume_varint-varint_bytes v rest h =
    ground (arith, consume_varint_loop-varint_bytes 9 v 0 0 rest (omega arith) (omega arith))

shift_le : (i j : ℕ) → i * 7 ≤ j → 2 ^ (i * 7) ≤ 2 ^ j
shift_le i j h = pow-le-pow_right {n = 2} (omega arith) {i = i * 7} {j = j} h

-- One round, whatever the byte: what is accumulated stays below `2 ^ (7 * (i + 1))`.
round_bound :
    (b acc i : ℕ)
    → acc < 2 ^ (i * 7)
    → i ≤ 8
    → bit_or acc (b % 2 ^ 7 * 2 ^ (i * 7) % 2 ^ 64) < 2 ^ ((i + 1) * 7)
round_bound b acc i ha hi = ground (
  arith,
  fits,
  bit_or-add (i * 7) acc (b % 128) ha,
  group_bound (b % 128) (2 ^ (i * 7)) acc (omega arith) ha,
  shift_seven i,
)
  where
    fits : b % 128 * 2 ^ (i * 7) < 2 ^ 64
    fits = grind (arith, shift_le i 56 (omega arith))

tenth_bound :
    (b acc i : ℕ)
    → acc < 2 ^ (i * 7)
    → i ≡ 9
    → b ≤ 1
    → bit_or acc (b % 2 ^ 7 * 2 ^ (i * 7) % 2 ^ 64) < 2 ^ 64
tenth_bound b acc i ha e hb =
    let ha' : acc < 2 ^ 63 = rw e at ha in rw e (ground (arith, bit_or-add 63 acc (b % 128) ha'))

-- After `i` bytes, whatever they are, the value is below `2 ^ (7 * i)` and so a uint64.
consume_varint_loop_bounds :
    (span : List ℕ) (i acc v n : ℕ)
    → acc < 2 ^ (i * 7)
    → i ≤ 9
    → consume_varint_loop span i acc ≡ some (v, n)
    → IsU64 v × (i + 1 ≤ n) × (n ≤ 10) × (n ≤ i + length span)
unfolding consume_varint_loop
consume_varint_loop_bounds [] i acc v n ha hi e = cc
consume_varint_loop_bounds (b ∷ bs) i acc v n ha hi e =
    let acc' = bit_or acc (b % 2 ^ 7 * 2 ^ (i * 7) % 2 ^ 64) in
    ground (
      arith,
      round_bound b acc i ha,
      shift_le (i + 1) 63,
      tenth_bound b acc i ha,
      consume_varint_loop_bounds bs (i + 1) acc' v n,
    )

-- What ConsumeVarint returns on any input: a uint64, from 1 to 10 bytes, inside the span.
pub consume_varint_bounds :
    (span : List ℕ) (v n : ℕ)
    → consume_varint span ≡ some (v, n)
    → IsU64 v × (1 ≤ n) × (n ≤ 10) × (n ≤ length span)
unfolding consume_varint
consume_varint_bounds span v n e =
    ground (arith, consume_varint_loop_bounds span 0 0 v n (omega arith) (omega arith))

-- AppendVarint of a uint64 keeps what the buffer held and adds 1 to 10 bytes behind it.
pub append_varint_shape :
    (out : List ℕ) (v : ℕ)
    → IsU64 v
    → (bs : List ℕ) × (append_varint out v ≡ out ++ bs)
      × All IsByte bs
      × (1 ≤ length bs)
      × (length bs ≤ 10)
append_varint_shape out v h =
    let (lo, hi) = length-varint_bytes 9 v in
    (
      varint_bytes 9 v,
      append_varint-varint_bytes out v h,
      varint_bytes-IsByte 9 v (omega arith),
      lo,
      hi,
    )

-- A buffer gains what an empty one would.
pub append_varint-out :
    (out : List ℕ) (v : ℕ) → IsU64 v → append_varint out v ≡ out ++ append_varint [] v
append_varint-out out v h =
    rw (append_varint-varint_bytes out v h, append_varint-varint_bytes [] v h)
      (λ i. out ++ varint_bytes 9 v)

-- The same on an empty buffer.
pub append_varint_nil :
    (v : ℕ)
    → IsU64 v
    → All IsByte (append_varint [] v)
      × (1 ≤ length (append_varint [] v))
      × (length (append_varint [] v) ≤ 10)
append_varint_nil v h =
    let (bs, e, bytes, lo, hi) = append_varint_shape [] v h in rw e (bytes, lo, hi)

-- ConsumeVarint reads a uint64 that AppendVarint wrote back, whatever follows it, and consumes
-- just its bytes.
pub consume_varint-append_varint :
    (v : ℕ) (rest : List ℕ)
    → IsU64 v
    → consume_varint (append_varint [] v ++ rest) ≡ some (v, length (append_varint [] v))
consume_varint-append_varint v rest h =
    rw (append_varint-varint_bytes [] v h) (consume_varint-varint_bytes v rest h)

consume_varint_loop-append :
    (span tail : List ℕ) (i acc v n : ℕ)
    → consume_varint_loop span i acc ≡ some (v, n)
    → consume_varint_loop (span ++ tail) i acc ≡ some (v, n)
unfolding consume_varint_loop
consume_varint_loop-append [] tail i acc v n e = cc
consume_varint_loop-append (b ∷ bs) tail i acc v n e = ground (
  arith,
  consume_varint_loop-append bs tail (i + 1) (bit_or acc (b % 2 ^ 7 * 2 ^ (i * 7) % 2 ^ 64)) v n,
)

-- Where ConsumeVarint reads a number, it reads the same number and count with more behind the span.
pub consume_varint-append :
    (span tail : List ℕ) (v n : ℕ)
    → consume_varint span ≡ some (v, n)
    → consume_varint (span ++ tail) ≡ some (v, n)
unfolding consume_varint
consume_varint-append span tail v n e = consume_varint_loop-append span tail 0 0 v n e
