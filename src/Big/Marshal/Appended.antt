-- ===== src/Big/Marshal/Appended.antt =====
-- The fields that the Marshal functions of src/pb/big.cc append, behind what the buffer holds.
use protowire_cpp.Common.{
  ℕ, ◌^◌, ◌<◌, ◌≡◌, sym, ap, ◌∙◌, arith, Bool, true, false, List, [], ◌++◌, append_assoc,
  append-nil, if◌then◌else◌, is_empty, length, ◌&&◌, ◌==◌,
}
use protowire_cpp.Common.Int.{ℤ, pos, negsuc, pos_part, neg_part}
use protowire_cpp.Wire.{IsU64, varint, bytes, append_varint, append_tag, append_bytes}
use protowire_cpp.Wire.Varint.{append_varint-out}
use protowire_cpp.Wire.Fields.{append_tag-out, append_bytes-out}
use protowire_cpp.Big.{int32_of}
use protowire_cpp.Big.Marshal.{
  append_bytes_field, append_varint_field, append_flag, append_int_field, uint64_of, in_int32,
  append_float,
}

pub append_varint_field_nil :
    (num v : ℕ)
    → IsU64 v
    → append_varint_field [] num v ≡ append_tag [] num varint ++ append_varint [] v
unfolding append_varint_field
append_varint_field_nil num v h = append_varint-out (append_tag [] num varint) v h

pub append_bytes_field_nil :
    (num : ℕ) (content : List ℕ)
    → IsU64 (length content)
    → append_bytes_field [] num content ≡ append_tag [] num bytes ++ append_bytes [] content
unfolding append_bytes_field
append_bytes_field_nil num content h = append_bytes-out (append_tag [] num bytes) content h

pub append_varint_field-out :
    (out : List ℕ) (num v : ℕ)
    → num < 2 ^ 29
    → IsU64 v
    → append_varint_field out num v ≡ out ++ append_varint_field [] num v
unfolding append_varint_field
append_varint_field-out out num v hn h =
    append_varint-out (append_tag out num varint) v h
    ∙ ap (λ s. s ++ append_varint [] v) (append_tag-out out num varint hn tt)
    ∙ append_assoc out (append_tag [] num varint) (append_varint [] v)
    ∙ ap (λ s. out ++ s) (sym (append_varint-out (append_tag [] num varint) v h))

pub append_flag-out :
    (out : List ℕ) (num : ℕ) (b : Bool)
    → num < 2 ^ 29
    → append_flag out num b ≡ out ++ append_flag [] num b
unfolding append_flag
append_flag-out out num true h = append_varint_field-out out num 1 h (omega arith)
append_flag-out out num false h = sym (append-nil out)

pub uint64_of-IsU64 : (n : ℤ) → IsU64 (uint64_of n)
unfolding uint64_of
uint64_of-IsU64 n = ground arith

pub append_int_field-out :
    (out : List ℕ) (num : ℕ) (n : ℤ)
    → num < 2 ^ 29
    → append_int_field out num n ≡ out ++ append_int_field [] num n
unfolding append_int_field
append_int_field-out out num n h = test (pos_part n == 0 && neg_part n == 0)
  where
    test :
        (b : Bool)
        → (if b then out else append_varint_field out num (uint64_of n))
          ≡ out ++ (if b then [] else append_varint_field [] num (uint64_of n))
    test true = sym (append-nil out)
    test false = append_varint_field-out out num (uint64_of n) h (uint64_of-IsU64 n)

pub int32_of-uint64_of : (k : ℕ) → k < 2 ^ 31 → int32_of (uint64_of (pos k)) ≡ pos k
unfolding uint64_of int32_of
int32_of-uint64_of k h = ground arith

pub int32_of-in_int32 : (n : ℤ) → in_int32 n ≡ true → int32_of (uint64_of n) ≡ n
unfolding uint64_of int32_of in_int32
int32_of-in_int32 (pos n) h = ground arith
int32_of-in_int32 (negsuc n) h = ground arith

-- A float, field by field.
pub append_float_fields :
    (w : List ℕ) (n : ℤ) (prec : ℕ) (b : Bool)
    → IsU64 prec
    → append_float [] w n prec b
      ≡ (if is_empty w then [] else append_bytes_field [] 1 w)
        ++ (append_int_field [] 2 n ++ (append_varint_field [] 3 prec ++ append_flag [] 4 b))
unfolding append_float
append_float_fields w n prec b h =
    let out = if is_empty w then [] else append_bytes_field [] 1 w in
    let int = append_int_field [] 2 n in
    let varint = append_varint_field [] 3 prec in
    let flag = append_flag [] 4 b in
    append_flag-out (append_varint_field (append_int_field out 2 n) 3 prec) 4 b (omega arith)
    ∙ ap (λ s. s ++ flag)
        (append_varint_field-out (append_int_field out 2 n) 3 prec (omega arith) h
          ∙ ap (λ s. s ++ varint) (append_int_field-out out 2 n (omega arith)))
    ∙ append_assoc (out ++ int) varint flag
    ∙ append_assoc out int (varint ++ flag)
