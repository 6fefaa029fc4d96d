-- ===== src/Big/Unmarshal/FloatFields.antt =====
-- ReadFields of src/pb/big.cc on the fields of a float that MarshalBigFloatMsg appends.
use protowire_cpp.Common.{
  ℕ, zero, suc, ◌%◌, ◌^◌, ◌<◌, ◌≡◌, refl, ap, ◌∙◌, arith, Bool, true, false, not, List, [], ◌++◌,
  ◌==◌, ◌&&◌, if◌then◌else◌, is_empty,
}
use protowire_cpp.Common.Int.{ℤ, pos, negsuc, pos_part, neg_part}
use protowire_cpp.Common.Text.{codes}
use protowire_cpp.Wire.{IsShort}
use protowire_cpp.Big.{BigFloat, StatusOr, ok, int32_of}
use protowire_cpp.Big.Marshal.{
  append_bytes_field, append_flag, append_int_field, append_varint_field, uint64_of, in_int32,
  append_float,
}
use protowire_cpp.Big.Marshal.Appended.{append_float_fields, int32_of-in_int32}
use protowire_cpp.Big.Unmarshal.{float_field, read_message}
use protowire_cpp.Big.Unmarshal.Fields.{
  read_message-bytes, read_message-varint, read_message-int, read_message-flag,
}

abbrev pub float_with : List ℕ → ℤ → ℕ → Bool → BigFloat
float_with mantissa exponent prec negative = record {
  mantissa = mantissa;
  exponent = exponent;
  prec = prec;
  negative = negative;
}

abbrev pub read_float : List ℕ → BigFloat → StatusOr BigFloat
read_float span v = read_message (codes "BigFloat") float_field span v

set_exponent :
    (m : List ℕ) (n : ℤ)
    → in_int32 n ≡ true
    → (if pos_part n == 0 && neg_part n == 0
        then float_with m (pos 0) 0 false
        else float_with m (int32_of (uint64_of n)) 0 false)
      ≡ float_with m n 0 false
set_exponent m (pos zero) h = refl
set_exponent m (pos (suc k)) h =
    let some : (suc k == 0) ≡ false = ground arith in
    rw (some, int32_of-in_int32 (pos (suc k)) h) refl
set_exponent m (negsuc k) h =
    let some : (suc k == 0) ≡ false = ground arith in rw (some, int32_of-in_int32 (negsuc k) h) refl

set_flag :
    (m : List ℕ) (n : ℤ) (prec : ℕ) (b : Bool)
    → (if b then float_with m n prec true else float_with m n prec false) ≡ float_with m n prec b
set_flag m n prec true = refl
set_flag m n prec false = refl

-- The fields behind the mantissa.
read_tail :
    (m : List ℕ) (n : ℤ) (prec : ℕ) (b : Bool)
    → in_int32 n ≡ true
    → prec < 2 ^ 32
    → read_float
        (append_int_field [] 2 n ++ (append_varint_field [] 3 prec ++ append_flag [] 4 b))
        (float_with m (pos 0) 0 false)
      ≡ ok (float_with m n prec b)
unfolding float_field
read_tail m n prec b hn hp =
    let name = codes "BigFloat" in
    let flag = append_flag [] 4 b in
    let same : prec % 2 ^ 32 ≡ prec = omega arith in
    read_message-int name float_field 2 n (append_varint_field [] 3 prec ++ flag)
      (codes "exponent in BigFloat") _ (λ x. float_with m (int32_of x) 0 false) (omega arith)
      (omega arith) (λ value. refl)
    ∙ ap (λ v. read_float (append_varint_field [] 3 prec ++ flag) v) (set_exponent m n hn)
    ∙ read_message-varint name float_field 3 prec flag (codes "prec in BigFloat") _
        (λ x. float_with m n (x % 2 ^ 32) false) (omega arith) (omega arith) (omega arith) refl
    ∙ ap (λ p. read_float flag (float_with m n p false)) same
    ∙ read_message-flag name float_field 4 b (codes "negative in BigFloat") _
        (λ x. float_with m n prec (not (x == 0))) (omega arith) (omega arith) refl
    ∙ ap (λ v. ok v) (set_flag m n prec b)

-- The fields of a float with a mantissa, and of one without.
pub read_number :
    (w : List ℕ) (n : ℤ) (prec : ℕ) (b : Bool)
    → IsShort w
    → is_empty w ≡ false
    → in_int32 n ≡ true
    → prec < 2 ^ 32
    → read_float (append_float [] w n prec b) (float_with [] (pos 0) 0 false)
      ≡ ok (float_with w n prec b)
unfolding float_field
read_number w n prec b hw some hn hp =
    let tail = append_int_field [] 2 n ++ (append_varint_field [] 3 prec ++ append_flag [] 4 b) in
    ap (λ s. read_float s (float_with [] (pos 0) 0 false))
      (append_float_fields w n prec b (omega arith)
        ∙ ap (λ e. (if e then [] else append_bytes_field [] 1 w) ++ tail) some)
    ∙ read_message-bytes (codes "BigFloat") float_field 1 w tail (codes "mantissa in BigFloat") _
        (λ m. float_with m (pos 0) 0 false) (omega arith) (omega arith) hw refl
    ∙ read_tail w n prec b hn hp

pub read_nothing :
    (prec : ℕ) (b : Bool)
    → prec < 2 ^ 32
    → read_float (append_float [] [] (pos 0) prec b) (float_with [] (pos 0) 0 false)
      ≡ ok (float_with [] (pos 0) prec b)
unfolding in_int32
read_nothing prec b hp =
    ap (λ s. read_float s (float_with [] (pos 0) 0 false))
      (append_float_fields [] (pos 0) prec b (omega arith))
    ∙ read_tail [] (pos 0) prec b refl hp

pub read_unset :
    (b : Bool)
    → read_float (append_flag [] 4 b) (float_with [] (pos 0) 0 false)
      ≡ ok (float_with [] (pos 0) 0 b)
unfolding float_field
read_unset b =
    read_message-flag (codes "BigFloat") float_field 4 b (codes "negative in BigFloat") _
      (λ x. float_with [] (pos 0) 0 (not (x == 0))) (omega arith) (omega arith) refl
    ∙ ap (λ v. ok v) (set_flag [] (pos 0) 0 b)
