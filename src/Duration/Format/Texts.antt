-- ===== src/Duration/Format/Texts.antt =====
-- The texts that FormatDuration of src/detail/duration.cc writes, segment by segment, and the loop of
-- ParseDuration over them.
use protowire_cpp.Common.{
  ℕ, zero, suc, ◌+◌, ◌*◌, ◌/◌, ◌%◌, ◌^◌, ◌≤◌, ◌<◌, ◌≡◌, refl, sym, ap, ◌∙◌, arith, Bool, true,
  false, some, List, [], ◌∷◌, ◌++◌, length, ltb, ◌==◌, ◌||◌, if◌then◌else◌, tested, append_assoc,
  append-nil,
}
use protowire_cpp.Common.Text.{codes, decimal, padded, is_digit}
use protowire_cpp.Common.Text.Decimals.{decimal-IsDecimalText}
use protowire_cpp.Utf8.{utf8, encode_rune}
use protowire_cpp.Duration.Segments.{segment_shrinks, segments_fuel}
use protowire_cpp.Duration.{max_uint64, unit_nanos, whole_part, point_part, segment, segments}
use protowire_cpp.Duration.Format.{trim_zeros, with_fraction, format_small, format_clock}
use protowire_cpp.Duration.Format.Fractions.{AllDigits}
use protowire_cpp.Duration.Format.Segment.{IsUnit, whole_segment, fraction_segment}

pub no_segment : (total : ℕ) (x : ℕ × List ℕ) → segment total [] ≡ some x → ⊥
unfolding segment whole_part point_part
no_segment total x e = ground (arith, e)

-- The loop over a text that opens with a segment.
pub next_segment :
    (fuel fuel' total total' : ℕ) (s rest : List ℕ)
    → segment total s ≡ some (total', rest)
    → length s ≤ fuel
    → length rest ≤ fuel'
    → segments fuel total s ≡ segments fuel' total' rest
unfolding segments
next_segment fuel fuel' total total' [] rest e h k = absurd (no_segment total (total', rest) e)
next_segment zero fuel' total total' (c ∷ s) rest e h k = absurd (omega arith)
next_segment (suc fuel) fuel' total total' (c ∷ s) rest e h k =
    let shorter = segment_shrinks total (c ∷ s) total' rest e in
    rw (segments, e) (segments_fuel fuel fuel' total' rest (omega arith) (omega arith))

pub last_segment :
    (fuel total total' : ℕ) (s : List ℕ)
    → segment total s ≡ some (total', [])
    → length s ≤ fuel
    → segments fuel total s ≡ some total'
unfolding segments
last_segment fuel total total' s e h = next_segment fuel 0 total total' s [] e h (omega arith)

-- The units at the end of a text.
pub nanos-IsUnit : IsUnit (codes "ns") 1 []
nanos-IsUnit =
    unfold unit_nanos point_part in record { stops = refl; no_point = λ any. refl; read = refl }

pub micros-IsUnit : IsUnit (utf8 "µs") (10 ^ 3) []
micros-IsUnit =
    unfold unit_nanos point_part encode_rune in
    record { stops = refl; no_point = λ any. refl; read = refl }

pub millis-IsUnit : IsUnit (codes "ms") (10 ^ 6) []
millis-IsUnit =
    unfold unit_nanos point_part in record { stops = refl; no_point = λ any. refl; read = refl }

pub seconds-IsUnit : IsUnit (codes "s") (10 ^ 9) []
seconds-IsUnit =
    unfold unit_nanos point_part in record { stops = refl; no_point = λ any. refl; read = refl }

-- Minutes and hours, in front of a digit.
pub minutes-IsUnit :
    (c : ℕ) (rest : List ℕ) → is_digit c ≡ true → IsUnit (codes "m") (60 * 1_000_000_000) (c ∷ rest)
minutes-IsUnit c rest h = record {
  stops = refl;
  no_point = λ any. unfold point_part in refl;
  read = minutes c rest h;
}
  where
    minutes :
        (c : ℕ) (rest : List ℕ)
        → is_digit c ≡ true
        → unit_nanos (b'm' ∷ c ∷ rest) ≡ some (60 * 1_000_000_000, 1)
    minutes c rest h = unfold unit_nanos in ground arith

pub hours-IsUnit : (c : ℕ) (rest : List ℕ) → IsUnit (codes "h") (3600 * 1_000_000_000) (c ∷ rest)
hours-IsUnit c rest = record {
  stops = refl;
  no_point = λ any. unfold point_part in refl;
  read = unfold unit_nanos in ground arith;
}

-- A segment that is written or, for 0, left out.
pub step_read :
    (b : Bool) (a nanos total n fuel : ℕ) (unit rest : List ℕ)
    → (b ≡ false → a ≡ 0)
    → IsUnit unit nanos rest
    → a < 10 ^ 18
    → total + a * nanos ≤ max_uint64
    → ((f : ℕ) → length rest ≤ f → segments f (total + a * nanos) rest ≡ some n)
    → length ((if b then decimal a ++ unit else []) ++ rest) ≤ fuel
    → segments fuel total ((if b then decimal a ++ unit else []) ++ rest) ≡ some n
step_read true a nanos total n fuel unit rest z u h k more hf =
    next_segment fuel (length rest) total (total + a * nanos) ((decimal a ++ unit) ++ rest) rest
      (ap (segment total) (append_assoc (decimal a) unit rest)
        ∙ whole_segment total a nanos unit rest u h k)
      hf (omega arith)
    ∙ more (length rest) (omega arith)
step_read false a nanos total n fuel unit rest z u h k more hf =
    let e : total ≡ total + a * nanos = rw (z refl) (omega arith) in
    ap (λ t. segments fuel t rest) e ∙ more fuel hf

-- A text that opens with a digit.
abbrev pub OpensDigit : List ℕ → Type 0
OpensDigit s = (c : ℕ) × (rest : List ℕ) × (is_digit c ≡ true) × (s ≡ c ∷ rest)

pub decimal-OpensDigit : (n : ℕ) (rest : List ℕ) → n < 10 ^ 18 → OpensDigit (decimal n ++ rest)
decimal-OpensDigit n rest h =
    let t = decimal-IsDecimalText 17 n h (omega arith) in opened (decimal n) t.all t.some
  where
    opened : (s : List ℕ) → AllDigits s → 1 ≤ length s → OpensDigit (s ++ rest)
    opened [] a k = absurd (omega arith)
    opened (c ∷ s) (p, a) k = (c, s ++ rest, p, refl)

pub fraction-OpensDigit :
    (whole width part : ℕ) (unit : List ℕ)
    → whole < 10 ^ 18
    → OpensDigit (with_fraction whole width part unit)
unfolding with_fraction
fraction-OpensDigit whole width part unit h =
    tested OpensDigit (part == 0) (λ z. decimal-OpensDigit whole unit h)
      (λ z. decimal-OpensDigit whole (b'.' ∷ (trim_zeros (padded width part) ++ unit)) h)

pub option-OpensDigit :
    (b : Bool) (a : ℕ) (unit rest : List ℕ)
    → a < 10 ^ 18
    → OpensDigit rest
    → OpensDigit ((if b then decimal a ++ unit else []) ++ rest)
option-OpensDigit true a unit rest h o =
    rw (append_assoc (decimal a) unit rest) (decimal-OpensDigit a (unit ++ rest) h)
option-OpensDigit false a unit rest h o = o

pub small_read :
    (n : ℕ)
    → n < 1_000_000_000
    → (fuel : ℕ) → length (format_small n) ≤ fuel
    → segments fuel 0 (format_small n) ≡ some n
unfolding format_small
small_read n h =
    let said = λ (s : List ℕ). (fuel : ℕ) → length s ≤ fuel → segments fuel 0 s ≡ some n in
    tested said (ltb n 1_000)
      (λ p fuel hf.
        let e : 0 + n * 1 ≡ n = omega arith in
        last_segment fuel 0 n (decimal n ++ codes "ns")
          (whole_segment 0 n 1 (codes "ns") [] nanos-IsUnit (omega arith) (omega arith)
            ∙ ap (λ x. some (x, [])) e)
          hf)
      (λ p.
        tested said (ltb n 1_000_000)
          (λ q fuel hf.
            fractional 2 (n / 1_000) (n % 1_000) (utf8 "µs") micros-IsUnit fuel (omega arith)
              (omega arith) (ground arith) (omega arith) hf)
          (λ q fuel hf.
            fractional 5 (n / 1_000_000) (n % 1_000_000) (codes "ms") millis-IsUnit fuel
              (omega arith) (omega arith) (omega arith) (omega arith) hf))
  where
    fractional :
        (w whole part : ℕ) (unit : List ℕ)
        → IsUnit unit (10 ^ suc w) []
        → (fuel : ℕ) → whole < 10 ^ 18
        → part < 10 ^ suc w
        → suc w ≤ 9
        → whole * 10 ^ suc w + part ≡ n
        → length (with_fraction whole (suc w) part unit) ≤ fuel
        → segments fuel 0 (with_fraction whole (suc w) part unit) ≡ some n
    fractional w whole part unit u fuel h1 h2 h3 e hf =
        last_segment fuel 0 n (with_fraction whole (suc w) part unit)
          (ap (segment 0) (sym (append-nil (with_fraction whole (suc w) part unit)))
            ∙ fraction_segment 0 whole part w unit [] u h1 h2 h3 (omega (arith, e))
            ∙ ap (λ x. some (x, [])) (omega (arith, e)))
          hf

pub minutes_before : (s : List ℕ) → OpensDigit s → IsUnit (codes "m") (60 * 1_000_000_000) s
minutes_before s (c, rest, p, e) = rw e (minutes-IsUnit c rest p)

pub hours_before : (s : List ℕ) → OpensDigit s → IsUnit (codes "h") (3600 * 1_000_000_000) s
hours_before s (c, rest, p, e) = rw e (hours-IsUnit c rest)

pub clock_read :
    (n : ℕ)
    → n ≤ 2 ^ 63
    → ((fuel : ℕ) → length (format_clock n) ≤ fuel → segments fuel 0 (format_clock n) ≡ some n)
      × OpensDigit (format_clock n)
unfolding format_clock
clock_read n hn =
    let s = n / 1_000_000_000 in
    let h = s / 3600 in
    let m = (s / 60) % 60 in
    let part = n % 1_000_000_000 in
    let end = with_fraction (s % 60) 9 part (codes "s") in
    let opens = fraction-OpensDigit (s % 60) 9 part (codes "s") (omega arith) in
    let late = ltb 0 h || ltb 0 m in
    let rest = (if late then decimal m ++ codes "m" else []) ++ end in
    let opens' = option-OpensDigit late m (codes "m") end (omega arith) opens in
    let before = 0 + h * (3600 * 1_000_000_000) in
    let total = before + m * (60 * 1_000_000_000) in
    let whole : total + (s % 60 * 10 ^ 9 + part) ≡ n = omega arith in
    let last : segment total end ≡ some (n, []) =
      ap (segment total) (sym (append-nil end))
      ∙ fraction_segment total (s % 60) part 8 (codes "s") [] seconds-IsUnit (omega arith)
          (omega arith) (omega arith) (omega (arith, whole))
      ∙ ap (λ x. some (x, [])) whole in
    (
      λ fuel hf.
          step_read (ltb 0 h) h (3600 * 1_000_000_000) 0 n fuel (codes "h") rest
            (λ e. ground (arith, e)) (hours_before rest opens') (omega arith) (omega arith)
            (λ f k.
              step_read late m (60 * 1_000_000_000) before n f (codes "m") end
                (λ e. ground (arith, e)) (minutes_before end opens) (omega arith) (omega arith)
                (λ g j. last_segment g total n end last j) k)
            hf,
      option-OpensDigit (ltb 0 h) h (codes "h") rest (omega arith) opens',
    )
