-- ===== src/GoQuote/Unquote/RoundTrip.antt =====
-- What GoQuote of src/detail/go_quote.cc writes is read back.
use protowire_cpp.Common.{
  ℕ, zero, suc, ◌≤◌, ◌≡◌, refl, ap, ◌∙◌, arith, Bool, true, false, ◌||◌, ◌==◌, some, List, [], ◌∷◌,
  ◌++◌, append-nil, length, length-append, ltb, leb, if◌then◌else◌, tested, take, drop, All, inl,
  inr, Bool-cases, All-back, take-append, drop-append,
}
use mathlib.Core.Path.{subst}
use native.Mathlib.Decide.{dec_lt}
use protowire_cpp.Common.Text.{codes}
use protowire_cpp.Wire.{IsByte}
use protowire_cpp.Utf8.{is_valid_rune, encode_rune}
use protowire_cpp.Utf8.Encode.{encode_one, encode_two, encode_three, encode_four}
use protowire_cpp.Utf8.Accepts.{IsScalar, length-encode_rune}
use protowire_cpp.GoQuote.{decode_rune, hex_digits, go_is_print, escaped, quote_loop, go_quote}
use protowire_cpp.GoQuote.Runes.{decode_rune-Opens, decode_rune-encode_rune}
use protowire_cpp.GoQuote.Unquote.{
  escape, letter, Said, unquote_loop, unquote, Said-nothing, Said-both, Said-plain, Said-escape,
  Said-byte, Said-short, Said-long,
}

Said-letter :
    (e c r : ℕ)
    → (r == c) ≡ true
    → c ≤ 0x7F
    → ((rest : List ℕ) → escape (e ∷ rest) ≡ some (c ∷ [], rest))
    → Said (b'\\' ∷ e ∷ []) (encode_rune r)
Said-letter e c r p h k =
    let same : r ≡ c = ground arith in rw (same, encode_one c h) (Said-escape (e ∷ []) (c ∷ []) k)

-- A byte that stands for itself.
abbrev IsPlain : ℕ → Type 0
IsPlain b = ((b == b'"') ≡ false) × ((b == b'\\') ≡ false)

Said-All : (bytes : List ℕ) → All IsPlain bytes → Said bytes bytes
Said-All [] h = Said-nothing
Said-All (b ∷ bytes) ((p, q), h) =
    Said-both (b ∷ []) bytes (b ∷ []) bytes (Said-plain b p q) (Said-All bytes h)

IsPlain-rune : (r : ℕ) → IsScalar r → IsPlain r → All IsPlain (encode_rune r)
unfolding is_valid_rune
IsPlain-rune r h (p, q) = elim (dec_lt r 0x80) [
  | yes t ↦ rw (encode_one r (omega arith)) ((p, q), tt)
  | no t ↦ elim (dec_lt r 0x800) [
    | yes u ↦
        rw (encode_two r (omega arith) (omega arith))
          ((ground arith, ground arith), ((ground arith, ground arith), tt))
    | no u ↦ elim (dec_lt r 0x10000) [
      | yes v ↦ rw (encode_three r (omega arith) (omega arith)) (
        (ground arith, ground arith),
        ((ground arith, ground arith), ((ground arith, ground arith), tt)),
      )
      | no v ↦ rw (encode_four r (omega arith) (ground arith)) (
        (ground arith, ground arith),
        (
          (ground arith, ground arith),
          ((ground arith, ground arith), ((ground arith, ground arith), tt)),
        ),
      )
    ]
  ]
]

Said-quoted : (r : ℕ) → (r == b'"' || r == b'\\') ≡ true → Said (b'\\' ∷ r ∷ []) (encode_rune r)
unfolding escape letter
Said-quoted r h = elim (Bool-cases (r == b'"')) [
  | inl p ↦
      let same : r ≡ b'"' = ground arith in
      rw same (Said-letter b'"' b'"' b'"' refl (omega arith) (λ rest. refl))
  | inr p ↦
      let same : r ≡ b'\\' = ground arith in
      rw same (Said-letter b'\\' b'\\' b'\\' refl (omega arith) (λ rest. refl))
]

-- A rune that EncodeRune wrote, in any of the forms that AppendEscaped gives it.
Said-rune :
    (table : List (ℕ × ℕ)) (r : ℕ)
    → IsScalar r
    → Said (escaped table r (encode_rune r) b'"') (encode_rune r)
unfolding escaped escape letter is_valid_rune
Said-rune table r h =
    let raw = encode_rune r in
    let said = λ (o : List ℕ). Said o raw in
    tested said (r == b'"' || r == b'\\') (Said-quoted r) (λ p.
      tested said (go_is_print table r)
        (λ q. Said-All raw (IsPlain-rune r h (ground arith, ground arith)))
        (λ q.
          tested said (r == 7) (λ t. Said-letter b'a' 7 r t (omega arith) (λ rest. refl))
            (λ t.
              tested said (r == 8) (λ t. Said-letter b'b' 8 r t (omega arith) (λ rest. refl))
                (λ t.
                  tested said (r == 12) (λ t. Said-letter b'f' 12 r t (omega arith) (λ rest. refl))
                    (λ t.
                      tested said (r == 10)
                        (λ t. Said-letter b'n' 10 r t (omega arith) (λ rest. refl))
                        (λ t.
                          tested said (r == 13)
                            (λ t. Said-letter b'r' 13 r t (omega arith) (λ rest. refl))
                            (λ t.
                              tested said (r == 9)
                                (λ t. Said-letter b't' 9 r t (omega arith) (λ rest. refl))
                                (λ t.
                                  tested said (r == 11)
                                    (λ t. Said-letter b'v' 11 r t (omega arith) (λ rest. refl))
                                    (λ t.
                                      tested said (ltb r 0x20 || r == 0x7F)
                                        (λ u.
                                          rw (encode_one r (ground arith))
                                            (Said-byte r (ground arith)))
                                        (λ u.
                                          tested said (ltb r 0x10000)
                                            (λ v. Said-short r (ground arith))
                                            (λ v. Said-long r (ground arith))))))))))))

-- The width behind bytes that are no rune.
bad_width : (s : List ℕ) → (decode_rune s).0 ≡ false → (decode_rune s).2 ≡ 1
unfolding decode_rune
bad_width s = ground arith

-- What a round of GoQuote appends, and what it leaves for the rounds behind it.
module _ (table : List (ℕ × ℕ)) (c : ℕ) (s : List ℕ) where
  appended : Bool × ℕ × ℕ → List ℕ
  appended x =
      if x.0 then escaped table x.1 (take x.2 (c ∷ s)) b'"' else codes "\\x" ++ hex_digits c 2

  one_round :
      (fuel : ℕ) (x : Bool × ℕ × ℕ)
      → (if leb 0x80 c then decode_rune (c ∷ s) else (true, c, 1)) ≡ x
      → quote_loop table (suc fuel) (c ∷ s) ≡ appended x ++ quote_loop table fuel (drop x.2 (c ∷ s))
  unfolding quote_loop appended
  one_round fuel (true, r, w) e = rw e refl
  one_round fuel (false, r, w) e = rw e refl

Said-loop :
    (table : List (ℕ × ℕ)) (fuel : ℕ) (s : List ℕ)
    → All IsByte s
    → length s ≤ fuel
    → Said (quote_loop table fuel s) s
unfolding quote_loop appended is_valid_rune
Said-loop table fuel [] h k = Said-nothing
Said-loop table zero (c ∷ s) h k = absurd (omega arith)
Said-loop table (suc fuel) (c ∷ s) (hc, h) k =
    let l = c ∷ s in
    let tried = λ (b : Bool). if b then decode_rune l else (true, c, 1) in
    elim (Bool-cases (leb 0x80 c)) [
      | inl p ↦ elim (Bool-cases (decode_rune l).0) [
        | inl q ↦
            let (r, rest, hr, lo, e) = decode_rune-Opens l q in
            let raw = encode_rune r in
            let x = ap decode_rune e ∙ decode_rune-encode_rune r rest hr lo in
            let front = ap (take (length raw)) e ∙ take-append (length raw) raw rest refl in
            let back = ap (drop (length raw)) e ∙ drop-append (length raw) raw rest refl in
            let bytes = All-back IsByte raw rest (subst (All IsByte) e (hc, h)) in
            let few : length rest ≤ fuel =
              omega (arith, ap length e, length-append raw rest, length-encode_rune r) in
            rw (one_round table c s fuel (true, r, length raw) (ap tried p ∙ x), front, back, e)
              (Said-both (escaped table r raw b'"') (quote_loop table fuel rest) raw rest
                (Said-rune table r hr) (Said-loop table fuel rest bytes few))
        | inr q ↦
            let one = Said-byte c hc in
            rw (one_round table c s fuel (decode_rune l) (ap tried p), q, bad_width l q)
              (Said-both (codes "\\x" ++ hex_digits c 2) (quote_loop table fuel s) (c ∷ []) s one
                (Said-loop table fuel s h (omega arith)))
      ]
      | inr p ↦
          let low : c ≤ 0x7F = ground arith in
          let one = rw (encode_one c low) at (Said-rune table c (ground arith)) in
          rw (one_round table c s fuel (true, c, 1) (ap tried p)) (
            Said-both (escaped table c (c ∷ []) b'"') (quote_loop table fuel s) (c ∷ []) s one
              (Said-loop table fuel s h (omega arith)))
    ]

-- What GoQuote writes for a string of bytes, whatever the table of printable runes, is text between
-- quotes from which a reader of the language's escapes gets back just that string.
pub unquote-go_quote :
    (table : List (ℕ × ℕ)) (s : List ℕ) → All IsByte s → unquote (go_quote table s) ≡ some s
unfolding unquote go_quote Said unquote_loop
unquote-go_quote table s h =
    let text = quote_loop table (length s) s in
    Said-loop table (length s) s h (omega arith) (b'"' ∷ []) [] end (length (text ++ (b'"' ∷ [])))
      (omega arith)
    ∙ ap (λ x. some x) (append-nil s)
  where
    end : (f : ℕ) → 1 ≤ f → unquote_loop f (b'"' ∷ []) ≡ some []
    end zero k = absurd (omega arith)
    end (suc f) k = refl
