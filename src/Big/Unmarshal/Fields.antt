-- ===== src/Big/Unmarshal/Fields.antt =====
-- ReadFields of src/pb/big.cc: its rounds end, and it reads the fields that the Marshal functions append.
use protowire_cpp.Common.{
  ℕ, zero, suc, ◌^◌, ◌≤◌, ◌<◌, ◌≡◌, refl, sym, ap, ◌∙◌, arith, Bool, true, false, ◌&&◌, some, ◌⊎◌,
  inl, inr, List, [], ◌∷◌, ◌++◌, append_assoc, append-nil, ◌==◌, if◌then◌else◌, Bool-cases,
  Option-cases, length, drop, length-drop, drop-append, length-append,
}
use protowire_cpp.Common.Int.{ℤ, pos_part, neg_part}
use protowire_cpp.Wire.{
  IsU64, IsShort, WireType, varint, bytes, append_varint, append_tag, append_bytes, consume_tag,
}
use protowire_cpp.Wire.Varint.{append_varint_nil, consume_varint-append_varint}
use protowire_cpp.Wire.Fields.{
  IsNamed, consume_tag-append_tag, consume_tag_bounds, consume_bytes-append_bytes,
  consume_bytes_bounds,
}
use protowire_cpp.Big.{StatusOr, ok, error}
use protowire_cpp.Big.Marshal.{
  append_bytes_field, append_varint_field, append_flag, append_int_field, uint64_of,
}
use protowire_cpp.Big.Marshal.Appended.{
  append_bytes_field_nil, append_varint_field_nil, uint64_of-IsU64,
}
use protowire_cpp.Big.Unmarshal.{
  Field, bytes_field, varint_field, one_field, read_fields, read_message,
}

length-drop-le : {A : Type 0} (n : ℕ) (xs : List A) → length (drop n xs) ≤ length xs
length-drop-le zero xs = omega arith
length-drop-le (suc n) [] = omega arith
length-drop-le (suc n) (x ∷ xs) = omega (arith, length-drop-le n xs)

-- A status and its cases.
pub StatusOr-cases :
    {A : Type 0} (o : StatusOr A) → ((msg : List ℕ) × (o ≡ error msg)) ⊎ ((a : A) × (o ≡ ok a))
StatusOr-cases (error msg) = inl (msg, refl)
StatusOr-cases (ok a) = inr (a, refl)

short_field : (content : List ℕ) → IsShort content → length (append_bytes [] content) < 2 ^ 31
unfolding append_bytes
short_field content h =
    let (b, k1, k2) = append_varint_nil (length content) (omega arith) in
    omega (arith, k2, length-append (append_varint [] (length content)) content)

append_bytes-length : (content : List ℕ) → IsShort content → 1 ≤ length (append_bytes [] content)
append_bytes-length content h =
    let read = consume_bytes-append_bytes content [] (short_field content h) in
    let (k1, k2, k3) = consume_bytes_bounds _ content _ read in k1

bytes_field-append_bytes :
    {A : Type 0} (what content rest : List ℕ) (keep : List ℕ → A)
    → IsShort content
    → bytes_field what (append_bytes [] content ++ rest) keep
      ≡ ok (keep content, length (append_bytes [] content))
unfolding bytes_field
bytes_field-append_bytes what content rest keep h =
    rw (bytes_field, consume_bytes-append_bytes content rest (short_field content h)) refl

varint_field-append_varint :
    {A : Type 0} (what : List ℕ) (v : ℕ) (rest : List ℕ) (keep : ℕ → A)
    → IsU64 v
    → varint_field what (append_varint [] v ++ rest) keep ≡ ok (keep v, length (append_varint [] v))
unfolding varint_field
varint_field-append_varint what v rest keep h =
    rw (varint_field, consume_varint-append_varint v rest h) refl

module _ {A : Type 0} (message : List ℕ) (fn : List ℕ → ℕ → A → Field A) where
  -- A round takes the byte of a tag at least, so two counts of rounds that are enough agree.
  rounds_agree :
      (r s : ℕ) (span : List ℕ) (out : A)
      → length span ≤ r
      → length span ≤ s
      → read_fields message fn r span out ≡ read_fields message fn s span out
  unfolding read_fields
  rounds_agree r s [] out hr hs = refl
  rounds_agree zero s (b ∷ rest) out hr hs = absurd (omega arith)
  rounds_agree (suc r) zero (b ∷ rest) out hr hs = absurd (omega arith)
  rounds_agree (suc r) (suc s) (b ∷ rest) out hr hs = elim (Option-cases (consume_tag (b ∷ rest))) [
    | inl q ↦ rw (read_fields, q) refl
    | inr ((num, type, n), q) ↦
        let left = drop n (b ∷ rest) in
        let (k1, k2, k3, k4, k5) = consume_tag_bounds (b ∷ rest) num type n q in
        elim (StatusOr-cases (one_field message fn num type left out)) [
          | inl (msg, p) ↦ rw (read_fields, q, p) refl
          | inr ((out', consumed), p) ↦
              let short : length (drop consumed left) ≤ length rest =
                omega (arith, length-drop n (b ∷ rest) k5, length-drop-le consumed left) in
              rw (read_fields, q, p)
                (rounds_agree r s (drop consumed left) out' (omega arith) (omega arith))
        ]
  ]

  next_round :
      (rounds : ℕ) (span : List ℕ) (num : ℕ) (type : WireType) (n : ℕ) (out out' : A) (consumed : ℕ)
      → consume_tag span ≡ some (num, type, n)
      → one_field message fn num type (drop n span) out ≡ ok (out', consumed)
      → read_fields message fn (suc rounds) span out
        ≡ read_fields message fn rounds (drop consumed (drop n span)) out'
  unfolding read_fields
  next_round rounds [] num type n out out' consumed e p =
      absurd (let (k1, k2, k3, k4, k5) = consume_tag_bounds [] num type n e in omega arith)
  next_round rounds (b ∷ rest) num type n out out' consumed e p = rw (read_fields, e, p) refl

  taken :
      (num : ℕ) (type : WireType) (span : List ℕ) (out out' : A) (n : ℕ)
      → 1 ≤ n
      → fn span num out ≡ ok (out', n)
      → one_field message fn num type span out ≡ ok (out', n)
  unfolding one_field
  taken num type span out out' n h e = rw (one_field, e) (ground arith)

  -- A field in front is read by one round, which hands `fn` what is behind its tag.
  pub read_message-field :
      (num : ℕ) (type : WireType) (value rest : List ℕ) (out out' : A)
      → 1 ≤ num
      → num < 2 ^ 29
      → IsNamed type
      → 1 ≤ length value
      → fn (value ++ rest) num out ≡ ok (out', length value)
      → read_message message fn (append_tag [] num type ++ (value ++ rest)) out
        ≡ read_message message fn rest out'
  unfolding read_message
  read_message-field num type value rest out out' h1 h2 ht hv e =
      let tag = append_tag [] num type in
      let span = tag ++ (value ++ rest) in
      let q = consume_tag-append_tag num type (value ++ rest) h1 h2 ht in
      let (k1, k2, k3, k4, k5) = consume_tag_bounds span num type (length tag) q in
      let behind : drop (length tag) span ≡ value ++ rest =
        drop-append (length tag) tag (value ++ rest) refl in
      let left : drop (length value) (value ++ rest) ≡ rest =
        drop-append (length value) value rest refl in
      let p = taken num type (value ++ rest) out out' (length value) hv e in
      let p' : one_field message fn num type (drop (length tag) span) out
          ≡ ok (out', length value) =
        rw behind p in
      let run = next_round (length span) span num type (length tag) out out' (length value) q p' in
      rounds_agree (length span) (suc (length span)) span out (omega arith) (omega arith)
      ∙ run
      ∙ ap (λ s. read_fields message fn (length span) s out')
          (ap (drop (length value)) behind ∙ left)
      ∙ rounds_agree (length span) (length rest) rest out'
          (omega (arith, length-append tag (value ++ rest), length-append value rest)) (omega arith)

  -- A field of bytes, and one of a varint, that Marshal appended.
  pub read_message-bytes :
      (num : ℕ) (content rest what : List ℕ) (out : A) (keep : List ℕ → A)
      → 1 ≤ num
      → num < 2 ^ 29
      → IsShort content
      → fn (append_bytes [] content ++ rest) num out
        ≡ bytes_field what (append_bytes [] content ++ rest) keep
      → read_message message fn (append_bytes_field [] num content ++ rest) out
        ≡ read_message message fn rest (keep content)
  read_message-bytes num content rest what out keep h1 h2 hc e =
      let value = append_bytes [] content in
      rw
        (
          append_bytes_field_nil num content (omega arith),
          append_assoc (append_tag [] num bytes) value rest,
        )
        (read_message-field num bytes value rest out (keep content) h1 h2 tt
          (append_bytes-length content hc) (e ∙ bytes_field-append_bytes what content rest keep hc))

  pub read_message-varint :
      (num v : ℕ) (rest what : List ℕ) (out : A) (keep : ℕ → A)
      → 1 ≤ num
      → num < 2 ^ 29
      → IsU64 v
      → fn (append_varint [] v ++ rest) num out
        ≡ varint_field what (append_varint [] v ++ rest) keep
      → read_message message fn (append_varint_field [] num v ++ rest) out
        ≡ read_message message fn rest (keep v)
  read_message-varint num v rest what out keep h1 h2 hv e =
      let value = append_varint [] v in
      let (k1, k2, k3) = append_varint_nil v hv in
      rw (append_varint_field_nil num v hv, append_assoc (append_tag [] num varint) value rest)
        (read_message-field num varint value rest out (keep v) h1 h2 tt k2
          (e ∙ varint_field-append_varint what v rest keep hv))

  -- A flag that Marshal appended, or left out, at the end.
  pub read_message-flag :
      (num : ℕ) (b : Bool) (what : List ℕ) (out : A) (keep : ℕ → A)
      → 1 ≤ num
      → num < 2 ^ 29
      → fn (append_varint [] 1 ++ []) num out ≡ varint_field what (append_varint [] 1 ++ []) keep
      → read_message message fn (append_flag [] num b) out ≡ ok (if b then keep 1 else out)
  unfolding append_flag read_message read_fields
  read_message-flag num true what out keep h1 h2 e =
      ap (λ s. read_message message fn s out) (sym (append-nil (append_varint_field [] num 1)))
      ∙ read_message-varint num 1 [] what out keep h1 h2 (omega arith) e
  read_message-flag num false what out keep h1 h2 e = refl

  -- A number that Marshal appended, or left out at 0.
  pub read_message-int :
      (num : ℕ) (n : ℤ) (rest what : List ℕ) (out : A) (keep : ℕ → A)
      → 1 ≤ num
      → num < 2 ^ 29
      → ((value : List ℕ) → fn value num out ≡ varint_field what value keep)
      → read_message message fn (append_int_field [] num n ++ rest) out
        ≡ read_message message fn rest
            (if pos_part n == 0 && neg_part n == 0 then out else keep (uint64_of n))
  unfolding append_int_field
  read_message-int num n rest what out keep h1 h2 e =
      elim (Bool-cases (pos_part n == 0 && neg_part n == 0)) [
        | inl p ↦ rw p refl
        | inr p ↦ rw p (
            read_message-varint num (uint64_of n) rest what out keep h1 h2 (uint64_of-IsU64 n)
              (e (append_varint [] (uint64_of n) ++ rest)))
      ]
