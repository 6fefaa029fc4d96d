-- ===== src/Big/Unmarshal/Kept.antt =====
-- What ReadFields of src/pb/big.cc keeps of a message, and the numbers that the Unmarshal functions
-- accept.
use protowire_cpp.Common.{
  ℕ, zero, suc, not, inl, inr, List, [], ◌∷◌, ◌==◌, tested, tested_option, Option-cases, length,
  drop,
}
use protowire_cpp.Wire.{WireType, consume_tag, consume_bytes, consume_varint}
use protowire_cpp.Wire.Fields.{consume_bytes_piece}
use protowire_cpp.Wire.Skip.{consume_field_value}
use protowire_cpp.Big.{StatusOr, ok, error}
use protowire_cpp.Big.Magnitudes.{IsBytes}
use protowire_cpp.Big.Shifts.{All-take, All-drop}
use protowire_cpp.Big.Unmarshal.Fields.{StatusOr-cases}
use protowire_cpp.Big.Unmarshal.{
  Field, bytes_field, varint_field, one_field, read_fields, read_message,
}

-- A result, when there is one, with a property.
abbrev pub Result : {A : Type 0} → (A → Type 0) → StatusOr A → Type 0
Result P (error msg) = Unit
Result P (ok a) = P a

module _ {A : Type 0} (P : A → Type 0) where
  pub bytes_field-Result :
      (what span : List ℕ) (keep : List ℕ → A)
      → IsBytes span
      → ((b : List ℕ) → IsBytes b → P (keep b))
      → Result (λ r. P r.0) (bytes_field what span keep)
  unfolding bytes_field
  bytes_field-Result what span keep h k = elim (Option-cases (consume_bytes span)) [
    | inl q ↦ rw (bytes_field, q) tt
    | inr ((b, n), q) ↦
        let (len, m, e) = consume_bytes_piece span b n q in
        rw (bytes_field, q) (k b (rw e (All-take len (drop m span) (All-drop m span h))))
  ]

  pub varint_field-Result :
      (what span : List ℕ) (keep : ℕ → A)
      → ((x : ℕ) → P (keep x))
      → Result (λ r. P r.0) (varint_field what span keep)
  unfolding varint_field
  varint_field-Result what span keep k = elim (Option-cases (consume_varint span)) [
    | inl q ↦ rw (varint_field, q) tt
    | inr ((x, n), q) ↦ rw (varint_field, q) (k x)
  ]

  module _ (message : List ℕ) (fn : List ℕ → ℕ → A → Field A)
      (keeps : (span : List ℕ) (num : ℕ) (a : A)
        → IsBytes span
        → P a
        → Result (λ r. P r.0) (fn span num a)) where
    one_field-Result :
        (num : ℕ) (type : WireType) (span : List ℕ) (a : A)
        → IsBytes span
        → P a
        → Result (λ r. P r.0) (one_field message fn num type span a)
    unfolding one_field
    one_field-Result num type span a h k = elim (StatusOr-cases (fn span num a)) [
      | inl (msg, p) ↦ rw (one_field, p) tt
      | inr ((a', c), p) ↦
          let kept : P a' = rw p at (keeps span num a h k) in
          rw (one_field, p)
            (tested (Result {A = A × ℕ} (λ r. P r.0)) (not (c == 0)) (λ t. kept)
              (λ t.
                tested_option (Result {A = A × ℕ} (λ r. P r.0)) (consume_field_value span num type)
                  (λ q. tt) (λ n q. kept)))
    ]

    read_fields-Result :
        (rounds : ℕ) (span : List ℕ) (a : A)
        → IsBytes span
        → P a
        → Result P (read_fields message fn rounds span a)
    unfolding read_fields
    read_fields-Result rounds [] a h k = k
    read_fields-Result zero (b ∷ rest) a h k = tt
    read_fields-Result (suc rounds) (b ∷ rest) a h k =
        tested_option (Result P) (consume_tag (b ∷ rest)) (λ q. tt)
          (λ x q.
            let left = drop x.2 (b ∷ rest) in
            let bytes = All-drop x.2 (b ∷ rest) h in
            let kept = one_field-Result x.0 x.1 left a bytes k in
            elim (StatusOr-cases (one_field message fn x.0 x.1 left a)) [
              | inl (msg, p) ↦ rw p tt
              | inr ((a', c), p) ↦
                  let kept' : P a' = rw p at kept in
                  rw p (read_fields-Result rounds (drop c left) a' (All-drop c left bytes) kept')
            ])

    pub read_message-Result :
        (span : List ℕ) (a : A) → IsBytes span → P a → Result P (read_message message fn span a)
    unfolding read_message
    read_message-Result span a h k = read_fields-Result (length span) span a h k
