-- ===== src/Parser/Braces/Bounds.antt =====
-- Where FindMatchingBrace finds its brace.
use protowire_cpp.Common.{
  ℕ, zero, suc, ◌+◌, ◌-◌, ◌≤◌, ◌<◌, ◌≡◌, ◌∙◌, refl, sym, ap, arith, Bool, true, ◌&&◌, none, some,
  List, [], ◌∷◌, ◌==◌, length, drop, get_or,
}
use protowire_cpp.Parser.Braces.{
  Mode, code, in_string, triple_string, in_bytes, line_comment, block_comment, BraceMatch, one_open,
  ScanEnd, still_open, closed, failed, ScanStep, stop, go_on, scan_inside, scan_quote, scan_pair,
  scan_code, scan_byte, scan, find_matching_brace,
}

-- What a scan of `s` from index `i` finds: a closing brace of `s`.
data Closes (i : ℕ) (s : List ℕ) : ScanEnd → Type 0 where
  opens : {k : ℕ} {m : BraceMatch} → Closes i s (still_open k m)
  fails : {k : ℕ} → Closes i s (failed k)
  closes : {j : ℕ} → i ≤ j → j < i + length s → get_or s (j - i) 0 ≡ 125 → Closes i s (closed j)

-- The loop body stops with a match at its own byte only, and that byte is a closing brace.
abbrev closes_here : ℕ → ℕ → ScanStep → Bool
closes_here i ch (go_on ahead m) = true
closes_here i ch (stop (still_open k m)) = true
closes_here i ch (stop (failed k)) = true
closes_here i ch (stop (closed j)) = (j == i) && (ch == 125)

scan_inside_here :
    (mode : Mode) (m : BraceMatch) (i ch : ℕ) → closes_here i ch (scan_inside mode m i ch) ≡ true
unfolding scan_inside
scan_inside_here code m i ch = refl
scan_inside_here in_string m i ch = ground arith
scan_inside_here triple_string m i ch = ground arith
scan_inside_here in_bytes m i ch = ground arith
scan_inside_here line_comment m i ch = refl
scan_inside_here block_comment m i ch = ground arith

scan_quote_here :
    (m : BraceMatch) (i ch : ℕ) (rest : List ℕ) → closes_here i ch (scan_quote m i rest) ≡ true
unfolding scan_quote
scan_quote_here m i ch [] = refl
scan_quote_here m i ch (a ∷ []) = refl
scan_quote_here m i ch (a ∷ b ∷ rest) = ground arith

scan_pair_here :
    (m : BraceMatch) (i ch : ℕ) (rest : List ℕ) → closes_here i ch (scan_pair m i ch rest) ≡ true
unfolding scan_pair
scan_pair_here m i ch [] = refl
scan_pair_here m i ch (a ∷ rest) = ground arith

scan_byte_here :
    (mode : Mode) (m : BraceMatch) (i ch : ℕ) (rest : List ℕ)
    → closes_here i ch (scan_byte mode m i ch rest) ≡ true
unfolding scan_byte scan_code
scan_byte_here code m i ch rest =
    ground (arith, scan_quote_here m i ch rest, scan_pair_here m i ch rest)
scan_byte_here in_string m i ch rest = scan_inside_here in_string m i ch
scan_byte_here triple_string m i ch rest = scan_inside_here triple_string m i ch
scan_byte_here in_bytes m i ch rest = scan_inside_here in_bytes m i ch
scan_byte_here line_comment m i ch rest = scan_inside_here line_comment m i ch
scan_byte_here block_comment m i ch rest = scan_inside_here block_comment m i ch

behind_byte : (i ch : ℕ) (s : List ℕ) (e : ScanEnd) → Closes (i + 1) s e → Closes i (ch ∷ s) e
behind_byte i ch s _ opens = opens
behind_byte i ch s _ fails = fails
behind_byte i ch s _ (closes {j} h k e) =
    closes (omega (arith, h)) (omega (arith, k))
      (let n : j - i ≡ suc (j - (i + 1)) = omega (arith, h) in rw n e)

at_byte :
    (i ch : ℕ) (s : List ℕ) (r : ScanStep) (next : ℕ → BraceMatch → ScanEnd)
    → closes_here i ch r ≡ true
    → ((ahead : ℕ) (m : BraceMatch) → Closes (i + 1) s (next ahead m))
    → Closes i (ch ∷ s) (elim r [ stop e ↦ e | go_on ahead m ↦ next ahead m ])
at_byte i ch s (go_on ahead m) next h k = behind_byte i ch s _ (k ahead m)
at_byte i ch s (stop (still_open j m)) next h k = opens
at_byte i ch s (stop (failed j)) next h k = fails
at_byte i ch s (stop (closed j)) next h k =
    closes (ground (arith, h)) (ground (arith, h))
      (let n : j - i ≡ 0 = ground (arith, h) in rw n (ground (arith, h)))

scan-Closes : (m : BraceMatch) (i ahead : ℕ) (s : List ℕ) → Closes i s (scan m i ahead s)
unfolding scan
scan-Closes m i ahead [] = opens
scan-Closes m i (suc ahead) (ch ∷ s) = behind_byte i ch s _ (scan-Closes m (i + 1) ahead s)
scan-Closes m i zero (ch ∷ s) =
    at_byte i ch s (scan_byte m.mode m i ch s) (λ a m'. scan m' (i + 1) a s)
      (scan_byte_here m.mode m i ch s) (λ a m'. scan-Closes m' (i + 1) a s)

length-drop_all : (n : ℕ) (s : List ℕ) → length (drop n s) ≡ length s - n
length-drop_all zero s = omega arith
length-drop_all (suc n) [] = omega arith
length-drop_all (suc n) (x ∷ s) = omega (arith, length-drop_all n s)

get_or-drop : (n k : ℕ) (s : List ℕ) → get_or (drop n s) k 0 ≡ get_or s (n + k) 0
get_or-drop zero k s = ap (λ i. get_or s i 0) (omega arith)
get_or-drop (suc n) k [] = refl
get_or-drop (suc n) k (x ∷ s) =
    let e : suc n + k ≡ suc (n + k) = omega arith in rw e (get_or-drop n k s)

closed_index :
    (e : ScanEnd) (close : ℕ)
    → (elim e [ closed i ↦ some i | failed i ↦ none | still_open i m ↦ none ]) ≡ some close
    → e ≡ closed close
closed_index (closed i) close h = ground (arith, h)
closed_index (failed i) close h = absurd (ground (arith, h))
closed_index (still_open i m) close h = absurd (ground (arith, h))

found :
    (i : ℕ) (s : List ℕ) (j : ℕ)
    → Closes i s (closed j)
    → (i ≤ j) × ((j < i + length s) × (get_or s (j - i) 0 ≡ 125))
found i s j (closes h k e) = (h, (k, e))

-- The match that FindMatchingBrace reports for a brace lies behind that brace and within the input, and
-- the byte there is a closing brace.
pub find_matching_brace_bounds :
    (input : List ℕ) (open_offset close : ℕ)
    → find_matching_brace input open_offset ≡ some close
    → (open_offset < close) × ((close < length input) × (get_or input close 0 ≡ 125))
unfolding find_matching_brace
find_matching_brace_bounds input o close h =
    let s = drop (o + 1) input in
    let at_close = closed_index (scan one_open (o + 1) 0 s) close h in
    let (low, (high, byte)) =
      found (o + 1) s close (rw⁻¹ at_close (scan-Closes one_open (o + 1) 0 s)) in
    let n = length-drop_all (o + 1) input in
    (
      omega (arith, low),
      (
        omega (arith, high, n),
        let there : o + 1 + (close - (o + 1)) ≡ close = omega (arith, low) in
            rw⁻¹ there (sym (get_or-drop (o + 1) (close - (o + 1)) input) ∙ byte),
      ),
    )
