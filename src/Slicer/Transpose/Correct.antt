-- ===== src/Slicer/Transpose/Correct.antt =====
-- `transpose_64` transposes the matrix, bit by bit.
use xor_mining.Base.{
  ℕ, ◌+◌, ◌-◌, ◌*◌, ◌/◌, ◌%◌, ◌^◌, ◌<◌, ◌≤◌, bit_or, bit_and, Bool, true, false, ◌&&◌, ◌||◌, not,
  List, [], ◌∷◌, get_or, length, if◌then◌else◌, ◌==◌, ltb, leb, ◌≡◌, refl, ap, ap₂, ◌∙◌, arith,
  Bool-cases, inl, inr, passes, passes-below, lt→ltb, ltb→lt, All, ==_iff, dec_lt, get_or_outside,
}
use xor_mining.Word.{◌>>>◌, ◌<<<◌, test_bit, u64}
use xor_mining.Word.Bits.{
  test_bit-or, test_bit-and, test_bit-mod, test_bit-shr, test_bit-shl, test_bit-shl_low,
  lt_of_test_bit, test_bit_above,
}
use xor_mining.Gemv.Naive.{IsMatrix}
use xor_mining.Slicer.Transpose.{
  low_half, high_half, transpose_64, m1_hi, m1_lo, m2_hi, m2_lo, m3_hi, m3_lo, m4_hi, m4_lo, m5_hi,
  m5_lo, m6_hi, m6_lo,
}
use xor_mining.Slicer.Transpose.Stages.{
  rows_from, length-rows_from, get_or-rows_from, rows_of, upper, passed, first_loop-passed,
  block_loop-16, block_loop-8, block_loop-4, block_loop-2, block_loop-1,
}

-- A pass: how far its rows are apart, and its masks.
record Pass : Type 0 where
  distance : ℕ
  hi : ℕ
  lo : ℕ

-- The masks select the columns whose digit is 1, and 0: what `low_half` reads of them, and
-- `high_half`.
low_fits : Bool → Bool → Bool → Bool → Bool
low_fits true reach lo lo' = reach && (lo' && not lo)
low_fits false reach lo lo' = lo && not (reach && lo')

high_fits : Bool → Bool → Bool → Bool
high_fits true hi hi' = hi && not hi'
high_fits false hi hi' = hi' && not hi

fits_at : Pass → ℕ → Bool
unfolding low_fits high_fits
fits_at p c =
    let s = p.distance in
    let u = upper s c in
    low_fits u (leb s c) (test_bit p.lo c) (test_bit p.lo (c - s))
    && high_fits u (test_bit p.hi c) (test_bit p.hi (s + c))

Fits : Pass → Type 0
Fits p = passes (fits_at p) 0 64 ≡ true

shifted_bit : (s x c : ℕ) → c < 64 → test_bit (u64 (x <<< s)) c ≡ (leb s c && test_bit x (c - s))
shifted_bit s x c h = test_bit-mod 64 c (x <<< s) ∙ elim (Bool-cases (ltb c s)) [
  | inl low ↦ rw (lt→ltb c 64 h, test_bit-shl_low s c x (ground arith)) (ground arith)
  | inr high ↦
      let e : c ≡ s + (c - s) = ground arith in
      rw (lt→ltb c 64 h) (ap (test_bit (x <<< s)) e ∙ test_bit-shl s (c - s) x ∙ ground arith)
]

low_half_bits :
    (s lo a b c : ℕ)
    → c < 64
    → test_bit (low_half s lo a b) c ≡ (
        (test_bit a c && test_bit lo c) || (leb s c && (test_bit b (c - s) && test_bit lo (c - s))))
unfolding low_half
low_half_bits s lo a b c h =
    rw
      (
        test_bit-or c (bit_and a lo) (u64 (bit_and b lo <<< s)),
        test_bit-and c a lo,
        shifted_bit s (bit_and b lo) c h,
        test_bit-and (c - s) b lo,
      )
      refl

high_half_bits :
    (s hi a b c : ℕ)
    → test_bit (high_half s hi a b) c
      ≡ ((test_bit a (s + c) && test_bit hi (s + c)) || (test_bit b c && test_bit hi c))
unfolding high_half
high_half_bits s hi a b c =
    rw
      (
        test_bit-or c (bit_and a hi >>> s) (bit_and b hi),
        test_bit-and c b hi,
        test_bit-shr s c (bit_and a hi),
        test_bit-and (s + c) a hi,
      )
      refl

-- Where the bit of row `r` and column `c` stood before the pass.
abbrev source_row : ℕ → ℕ → ℕ → ℕ
source_row s r c =
    if upper s r then (if upper s c then r else r - s) else (if upper s c then r + s else r)

abbrev source_column : ℕ → ℕ → ℕ → ℕ
source_column s r c =
    if upper s r then (if upper s c then c else s + c) else (if upper s c then c - s else c)

low_choice :
    (u reach lo lo' a b : Bool)
    → low_fits u reach lo lo' ≡ true
    → ((a && lo) || (reach && (b && lo'))) ≡ (if u then b else a)
unfolding low_fits
low_choice true true false true a b h = ground arith
low_choice false false true lo' a b h = ground arith
low_choice false true true false a b h = ground arith
low_choice u reach lo lo' a b h = ground arith

high_choice :
    (u hi hi' a b : Bool)
    → high_fits u hi hi' ≡ true
    → ((a && hi') || (b && hi)) ≡ (if u then b else a)
unfolding high_fits
high_choice u hi hi' a b h = ground arith

and_parts : (a b : Bool) → (a && b) ≡ true → (a ≡ true) × (b ≡ true)
and_parts a b h = (ground arith, ground arith)

module _ (p : Pass) (fits : Fits p) (a b c : ℕ) (h : c < 64) where
  fit : fits_at p c ≡ true
  unfolding Fits
  fit = passes-below (fits_at p) 64 c fits h

  low_half_bit :
      test_bit (low_half p.distance p.lo a b) c
      ≡ (if upper p.distance c then test_bit b (c - p.distance) else test_bit a c)
  unfolding fits_at
  low_half_bit =
      low_half_bits p.distance p.lo a b c h
      ∙ low_choice (upper p.distance c) (leb p.distance c) (test_bit p.lo c)
          (test_bit p.lo (c - p.distance)) (test_bit a c) (test_bit b (c - p.distance))
          (and_parts _ _ fit).0

  high_half_bit :
      test_bit (high_half p.distance p.hi a b) c
      ≡ (if upper p.distance c then test_bit b c else test_bit a (p.distance + c))
  unfolding fits_at
  high_half_bit =
      high_half_bits p.distance p.hi a b c
      ∙ high_choice (upper p.distance c) (test_bit p.hi c) (test_bit p.hi (p.distance + c))
          (test_bit a (p.distance + c)) (test_bit b c) (and_parts _ _ fit).1

-- A pass moves each bit.
passed_bit :
    (p : Pass) (f : ℕ → ℕ) (r c : ℕ)
    → Fits p
    → c < 64
    → test_bit (passed p.distance p.hi p.lo f r) c
      ≡ test_bit (f (source_row p.distance r c)) (source_column p.distance r c)
unfolding passed
passed_bit p f r c fits h = elim (Bool-cases (upper p.distance r)) [
  | inl e ↦ rw e (
      high_half_bit p fits (f (r - p.distance)) (f r) c h
      ∙ elim (Bool-cases (upper p.distance c)) [ inl e' ↦ rw e' | inr e' ↦ rw e' ])
  | inr e ↦ rw e (
      low_half_bit p fits (f r) (f (r + p.distance)) c h
      ∙ elim (Bool-cases (upper p.distance c)) [ inl e' ↦ rw e' | inr e' ↦ rw e' ])
]

-- Several passes, the last first.
through : List Pass → (ℕ → ℕ) → ℕ → ℕ
through [] f = f
through (p ∷ ps) f = passed p.distance p.hi p.lo (through ps f)

-- The bit at `r` and `c` stood at `r'` and `c'` before all passes.
comes_from : List Pass → ℕ → ℕ → ℕ → ℕ → Bool
comes_from [] r c r' c' = (r == r') && (c == c')
comes_from (p ∷ ps) r c r' c' =
    ltb c 64 && comes_from ps (source_row p.distance r c) (source_column p.distance r c) r' c'

through_bit :
    (ps : List Pass) (f : ℕ → ℕ) (r c r' c' : ℕ)
    → All Fits ps
    → comes_from ps r c r' c' ≡ true
    → test_bit (through ps f r) c ≡ test_bit (f r') c'
unfolding through comes_from
through_bit [] f r c r' c' fits h =
    let (e, e') = and_parts _ _ h in
    ap₂ (λ a b. test_bit (f a) b) ((==_iff r r').0 e) ((==_iff c c').0 e')
through_bit (p ∷ ps) f r c r' c' fits h =
    let (lt, rest) = and_parts _ _ h in
    passed_bit p (through ps f) r c fits.0 (ltb→lt c 64 lt) ∙ through_bit ps f _ _ r' c' fits.1 rest

abbrev all_passes : List Pass
all_passes =
    record { distance = 1; hi = m6_hi; lo = m6_lo }
    ∷ record { distance = 2; hi = m5_hi; lo = m5_lo }
    ∷ record { distance = 4; hi = m4_hi; lo = m4_lo }
    ∷ record { distance = 8; hi = m3_hi; lo = m3_lo }
    ∷ record { distance = 16; hi = m2_hi; lo = m2_lo }
    ∷ record { distance = 32; hi = m1_hi; lo = m1_lo }
    ∷ []

all_passes-Fits : All Fits all_passes
unfolding Fits fits_at passes test_bit
all_passes-Fits = (refl, (refl, (refl, (refl, (refl, (refl, tt))))))

swapped_at : ℕ → Bool
swapped_at i = comes_from all_passes (i / 64) (i % 64) (i % 64) (i / 64)

swapped_table : passes swapped_at 0 4096 ≡ true
unfolding passes swapped_at comes_from
swapped_table = refl

swapped : (r c : ℕ) → r < 64 → c < 64 → comes_from all_passes r c c r ≡ true
unfolding swapped_at
swapped r c hr hc =
    let at = passes-below swapped_at 4096 (r * 64 + c) swapped_table (omega arith) in
    let e : (r * 64 + c) / 64 ≡ r = omega arith in
    let e' : (r * 64 + c) % 64 ≡ c = omega arith in rw (e, e') at at

transpose_64-through :
    (M T : List ℕ)
    → length T ≡ 64
    → transpose_64 M T ≡ rows_from 64 0 (through all_passes (λ i. get_or M i 0))
unfolding transpose_64 through
transpose_64-through M T e =
    rw
      (
        rows_of 64 T e,
        first_loop-passed,
        block_loop-16,
        block_loop-8,
        block_loop-4,
        block_loop-2,
        block_loop-1,
      )
      refl

pub length-transpose_64 : (M T : List ℕ) → length T ≡ 64 → length (transpose_64 M T) ≡ 64
length-transpose_64 M T e =
    rw (transpose_64-through M T e) (length-rows_from 64 0 (through all_passes (λ i. get_or M i 0)))

-- Bit `j` of row `i` of the result is bit `i` of row `j` of the matrix.
pub transpose_64-bit :
    (M T : List ℕ) (i j : ℕ)
    → length T ≡ 64
    → i < 64
    → j < 64
    → test_bit (get_or (transpose_64 M T) i 0) j ≡ test_bit (get_or M j 0) i
transpose_64-bit M T i j e hi hj =
    let z : 0 + i ≡ i = omega arith in
    ap (λ R. test_bit (get_or R i 0) j) (transpose_64-through M T e)
    ∙ ap (λ u. test_bit u j) (get_or-rows_from 64 0 i (through all_passes (λ i. get_or M i 0)) hi)
    ∙ ap (λ u. test_bit (through all_passes (λ i. get_or M i 0) u) j) z
    ∙ through_bit all_passes (λ i. get_or M i 0) i j j i all_passes-Fits (swapped i j hi hj)

-- The rows of the result are words.
masked : (a b i : ℕ) → b < 2 ^ 64 → 64 ≤ i → test_bit (bit_and a b) i ≡ false
masked a b i h le = rw (test_bit-and i a b, test_bit_above 64 i b h le) (ground arith)

or_lt :
    (a b : ℕ)
    → ((i : ℕ) → 64 ≤ i → test_bit a i ≡ false)
    → ((i : ℕ) → 64 ≤ i → test_bit b i ≡ false)
    → bit_or a b < 2 ^ 64
or_lt a b p q = lt_of_test_bit 64 (bit_or a b) (λ i le. rw (test_bit-or i a b, p i le, q i le) refl)

passed-lt : (s hi lo r : ℕ) (f : ℕ → ℕ) → hi < 2 ^ 64 → lo < 2 ^ 64 → passed s hi lo f r < 2 ^ 64
unfolding passed low_half high_half
passed-lt s hi lo r f h l = elim (Bool-cases (upper s r)) [
  | inl e ↦ rw e (
      or_lt _ _
        (λ i le.
          rw (test_bit-shr s i (bit_and (f (r - s)) hi))
            (masked (f (r - s)) hi (s + i) h (omega arith)))
        (λ i le. masked (f r) hi i h le))
  | inr e ↦ rw e (
      or_lt _ _ (λ i le. masked (f r) lo i l le)
        (λ i le. test_bit_above 64 i (u64 (bit_and (f (r + s)) lo <<< s)) (omega arith) le))
]

pub transpose_64-IsMatrix : (M T : List ℕ) → length T ≡ 64 → IsMatrix (transpose_64 M T)
unfolding through
transpose_64-IsMatrix M T e i = elim (dec_lt i 64) [
  | yes h ↦
      rw
        (
          transpose_64-through M T e,
          get_or-rows_from 64 0 i (through all_passes (λ i. get_or M i 0)) h,
        )
        (passed-lt 1 m6_hi m6_lo (0 + i) _ (omega arith) (omega arith))
  | no h ↦
      rw (get_or_outside (transpose_64 M T) i 0 (omega (arith, length-transpose_64 M T e)))
        (omega arith)
]
