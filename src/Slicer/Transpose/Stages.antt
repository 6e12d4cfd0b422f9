-- ===== src/Slicer/Transpose/Stages.antt =====
-- What one pass of `transpose_64` does to the bits of a matrix.
use xor_mining.Base.{
  ℕ, zero, suc, ◌+◌, ◌-◌, ◌/◌, ◌%◌, ◌<◌, Bool, List, [], ◌∷◌, get_or, length, if◌then◌else◌, ◌==◌,
  ◌≡◌, refl, ap, arith, get_or_ext,
}
use xor_mining.Slicer.Transpose.{
  low_half, high_half, first_loop, row_loop, block_loop, m1_hi, m1_lo, m2_hi, m2_lo, m3_hi, m3_lo,
  m4_hi, m4_lo, m5_hi, m5_lo, m6_hi, m6_lo,
}

-- The rows of a matrix, from a function of their index.
unfoldable pub rows_from : ℕ → ℕ → (ℕ → ℕ) → List ℕ
rows_from zero lo f = []
rows_from (suc n) lo f = f lo ∷ rows_from n (lo + 1) f

pub length-rows_from : (n lo : ℕ) (f : ℕ → ℕ) → length (rows_from n lo f) ≡ n
unfolding rows_from
length-rows_from zero lo f = refl
length-rows_from (suc n) lo f = ap suc (length-rows_from n (lo + 1) f)

pub get_or-rows_from : (n lo i : ℕ) (f : ℕ → ℕ) → i < n → get_or (rows_from n lo f) i 0 ≡ f (lo + i)
unfolding rows_from
get_or-rows_from zero lo i f h = absurd (omega arith)
get_or-rows_from (suc n) lo zero f h = let e : lo + 0 ≡ lo = omega arith in rw e
get_or-rows_from (suc n) lo (suc i) f h =
    let e : lo + suc i ≡ lo + 1 + i = omega arith in
    rw e (get_or-rows_from n (lo + 1) i f (omega arith))

pub rows_of : (n : ℕ) (T : List ℕ) → length T ≡ n → T ≡ rows_from n 0 (λ i. get_or T i 0)
rows_of n T e =
    get_or_ext 0 T (rows_from n 0 (λ i. get_or T i 0))
      (omega (arith, length-rows_from n 0 (λ i. get_or T i 0)))
      (λ i h.
        let z : 0 + i ≡ i = omega arith in
        rw (get_or-rows_from n 0 i (λ i. get_or T i 0) (omega arith), z) refl)

-- Digit `s` of an index, for a power of two `s`.
abbrev pub upper : ℕ → ℕ → Bool
upper s r = ((r / s) % 2) == 1

-- Row `r` after a pass over rows that are `s` apart.
unfoldable pub passed : ℕ → ℕ → ℕ → (ℕ → ℕ) → ℕ → ℕ
passed s hi lo f r =
    if upper s r then high_half s hi (f (r - s)) (f r) else low_half s lo (f r) (f (r + s))

pub first_loop-passed :
    (M : List ℕ) (g : ℕ → ℕ)
    → first_loop 32 0 M (rows_from 64 0 g)
      ≡ rows_from 64 0 (passed 32 m1_hi m1_lo (λ i. get_or M i 0))
unfolding first_loop rows_from passed
first_loop-passed M g = refl

pub block_loop-16 :
    (f : ℕ → ℕ)
    → block_loop 2 0 16 m2_hi m2_lo (rows_from 64 0 f) ≡ rows_from 64 0 (passed 16 m2_hi m2_lo f)
unfolding block_loop row_loop rows_from passed
block_loop-16 f = refl

pub block_loop-8 :
    (f : ℕ → ℕ)
    → block_loop 4 0 8 m3_hi m3_lo (rows_from 64 0 f) ≡ rows_from 64 0 (passed 8 m3_hi m3_lo f)
unfolding block_loop row_loop rows_from passed
block_loop-8 f = refl

pub block_loop-4 :
    (f : ℕ → ℕ)
    → block_loop 8 0 4 m4_hi m4_lo (rows_from 64 0 f) ≡ rows_from 64 0 (passed 4 m4_hi m4_lo f)
unfolding block_loop row_loop rows_from passed
block_loop-4 f = refl

pub block_loop-2 :
    (f : ℕ → ℕ)
    → block_loop 16 0 2 m5_hi m5_lo (rows_from 64 0 f) ≡ rows_from 64 0 (passed 2 m5_hi m5_lo f)
unfolding block_loop row_loop rows_from passed
block_loop-2 f = refl

pub block_loop-1 :
    (f : ℕ → ℕ)
    → block_loop 32 0 1 m6_hi m6_lo (rows_from 64 0 f) ≡ rows_from 64 0 (passed 1 m6_hi m6_lo f)
unfolding block_loop row_loop rows_from passed
block_loop-1 f = refl
