-- ===== src/Utf8/Rounds.antt =====
-- One round of IsValidUTF8, by the class of the first byte.
use protowire_cpp.Common.{
  ℕ, suc, ◌≤◌, ◌<◌, ◌≡◌, ◌↔◌, ◌∙◌, arith, true, false, ◌&&◌, ◌==◌, none, some, List, [], ◌∷◌,
  within, if◌then◌else◌, length, drop,
}
use protowire_cpp.Utf8.{lead, sequence_ok, utf8_loop}

within_iff : (lo hi c : ℕ) → (within lo hi c ≡ true) ↔ ((lo ≤ c) × (c ≤ hi))
within_iff lo hi c = ground arith

lead_two : (c : ℕ) → 194 ≤ c → c ≤ 223 → lead c ≡ some (2, 128, 191)
unfolding lead
lead_two c lo hi = ground arith

abbrev second_lo : ℕ → ℕ
second_lo c = if c == 224 then 160 else 128

abbrev second_hi : ℕ → ℕ
second_hi c = if c == 237 then 159 else 191

lead_three : (c : ℕ) → 224 ≤ c → c ≤ 239 → lead c ≡ some (3, second_lo c, second_hi c)
unfolding lead
lead_three c lo hi = ground arith

abbrev fourth_lo : ℕ → ℕ
fourth_lo c = if c == 240 then 144 else 128

abbrev fourth_hi : ℕ → ℕ
fourth_hi c = if c == 244 then 143 else 191

lead_four : (c : ℕ) → 240 ≤ c → c ≤ 244 → lead c ≡ some (4, fourth_lo c, fourth_hi c)
unfolding lead
lead_four c lo hi = ground arith

lead_low : (c : ℕ) → c < 194 → lead c ≡ none
unfolding lead
lead_low c h = ground arith

lead_high : (c : ℕ) → 244 < c → lead c ≡ none
unfolding lead
lead_high c h = ground arith

three_ok :
    (lo hi c c1 c2 : ℕ) (s : List ℕ)
    → sequence_ok (3, lo, hi) (c ∷ c1 ∷ c2 ∷ s) ≡ (within lo hi c1 && within 128 191 c2)
unfolding sequence_ok
three_ok lo hi c c1 c2 s = ground arith

four_ok :
    (lo hi c c1 c2 c3 : ℕ) (s : List ℕ)
    → sequence_ok (4, lo, hi) (c ∷ c1 ∷ c2 ∷ c3 ∷ s)
      ≡ (within lo hi c1 && (within 128 191 c2 && within 128 191 c3))
unfolding sequence_ok
four_ok lo hi c c1 c2 c3 s = ground arith

cut_ok : (len lo hi : ℕ) (s : List ℕ) → length s < len → sequence_ok (len, lo, hi) s ≡ false
unfolding sequence_ok
cut_ok len lo hi s h = ground arith

module _ (f c : ℕ) where
  pub loop_one : (s : List ℕ) → c < 128 → utf8_loop (suc f) (c ∷ s) ≡ utf8_loop f s
  unfolding utf8_loop
  loop_one s h = ground arith

  loop_none : (s : List ℕ) → 128 ≤ c → lead c ≡ none → utf8_loop (suc f) (c ∷ s) ≡ false
  unfolding utf8_loop
  loop_none s h e = ground arith

  loop_some :
      (len lo hi : ℕ) (s : List ℕ)
      → 128 ≤ c
      → lead c ≡ some (len, lo, hi)
      → utf8_loop (suc f) (c ∷ s)
        ≡ (if sequence_ok (len, lo, hi) (c ∷ s) then utf8_loop f (drop len (c ∷ s)) else false)
  unfolding utf8_loop
  loop_some len lo hi s h e = ground (arith, e)

  pub loop_bad : (s : List ℕ) → 128 ≤ c → c < 194 → utf8_loop (suc f) (c ∷ s) ≡ false
  loop_bad s lo hi = loop_none s lo (lead_low c hi)

  pub loop_big : (s : List ℕ) → 244 < c → utf8_loop (suc f) (c ∷ s) ≡ false
  loop_big s lo = loop_none s (omega arith) (lead_high c lo)

  pub loop_two :
      (c1 : ℕ) (s : List ℕ)
      → 194 ≤ c
      → c ≤ 223
      → utf8_loop (suc f) (c ∷ c1 ∷ s) ≡ (if within 128 191 c1 then utf8_loop f s else false)
  unfolding sequence_ok
  loop_two c1 s lo hi = loop_some 2 128 191 (c1 ∷ s) (omega arith) (lead_two c lo hi) ∙ ground arith

  pub loop_three :
      (c1 c2 : ℕ) (s : List ℕ)
      → 224 ≤ c
      → c ≤ 239
      → utf8_loop (suc f) (c ∷ c1 ∷ c2 ∷ s) ≡ (
          if within (second_lo c) (second_hi c) c1 && within 128 191 c2
          then utf8_loop f s
          else false)
  loop_three c1 c2 s lo hi =
      loop_some 3 (second_lo c) (second_hi c) (c1 ∷ c2 ∷ s) (omega arith) (lead_three c lo hi)
      ∙ rw (three_ok (second_lo c) (second_hi c) c c1 c2 s)

  pub loop_four :
      (c1 c2 c3 : ℕ) (s : List ℕ)
      → 240 ≤ c
      → c ≤ 244
      → utf8_loop (suc f) (c ∷ c1 ∷ c2 ∷ c3 ∷ s) ≡ (
          if within (fourth_lo c) (fourth_hi c) c1 && (within 128 191 c2 && within 128 191 c3)
          then utf8_loop f s
          else false)
  loop_four c1 c2 c3 s lo hi =
      loop_some 4 (fourth_lo c) (fourth_hi c) (c1 ∷ c2 ∷ c3 ∷ s) (omega arith) (lead_four c lo hi)
      ∙ rw (four_ok (fourth_lo c) (fourth_hi c) c c1 c2 c3 s)

  -- A sequence that the string cuts short.
  pub cut_two : 194 ≤ c → c ≤ 223 → utf8_loop (suc f) (c ∷ []) ≡ false
  unfolding sequence_ok
  cut_two lo hi = loop_some 2 128 191 [] (omega arith) (lead_two c lo hi)

  pub cut_three :
      (s : List ℕ) → length s ≤ 1 → 224 ≤ c → c ≤ 239 → utf8_loop (suc f) (c ∷ s) ≡ false
  cut_three s h lo hi =
      loop_some 3 (second_lo c) (second_hi c) s (omega arith) (lead_three c lo hi)
      ∙ rw (cut_ok 3 (second_lo c) (second_hi c) (c ∷ s) (omega arith))

  pub cut_four : (s : List ℕ) → length s ≤ 2 → 240 ≤ c → c ≤ 244 → utf8_loop (suc f) (c ∷ s) ≡ false
  cut_four s h lo hi =
      loop_some 4 (fourth_lo c) (fourth_hi c) s (omega arith) (lead_four c lo hi)
      ∙ rw (cut_ok 4 (fourth_lo c) (fourth_hi c) (c ∷ s) (omega arith))
