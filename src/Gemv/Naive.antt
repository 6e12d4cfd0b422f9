-- ===== src/Gemv/Naive.antt =====
-- `naive_gemv` computes the abstract product.
use native.Mathlib.Nat.{div-div-eq-div-mul, pow-suc, mod-eq_of_lt}
use native.Mathlib.Numerals.{add-one}
use xor_mining.Base.{
  ℕ, zero, suc, ◌+◌, ◌/◌, ◌%◌, ◌^◌, ◌<◌, bit_and, bit_xor, List, get_or, ◌≡◌, ◌⊎◌, sym, ◌∙◌, arith,
  inl, inr,
}
use xor_mining.Word.{test_bit, ◌>>>◌}
use xor_mining.Word.Mask.{bit_and_mask, bit_and-zero}
use xor_mining.Word.Xor.{bit_xor-zero, zero-bit_xor, bit_xor_assoc}
use xor_mining.Gemv.{mask_of, naive_gemv_loop, naive_gemv}
use xor_mining.Gemv.Linear.{pick, combine, combine-xor, combine-lt}

-- The mask of a bit keeps a word or clears it.
mask_of-pick : (x m : ℕ) → m < 2 ^ 64 → bit_and m (mask_of (bit_and x 1)) ≡ pick (test_bit x 0) m
unfolding mask_of test_bit
mask_of-pick x m h = rw (bit_and_mask 1 x) (elim (two_values (x % 2) (omega arith)) [
  | inl e ↦ rw e (bit_and-zero m)
  | inr e ↦ rw e (bit_and_mask 64 m ∙ mod-eq_of_lt h)
])
  where
    two_values : (r : ℕ) → r < 2 → (r ≡ 0) ⊎ (r ≡ 1)
    two_values r p = ground arith

-- The rows of a matrix are words.
abbrev pub IsMatrix : List ℕ → Type 0
IsMatrix M = (i : ℕ) → get_or M i 0 < 2 ^ 64

naive_gemv_loop-combine :
    (left i x y : ℕ) (M : List ℕ)
    → IsMatrix M
    → naive_gemv_loop left i x M y ≡ bit_xor y (combine M i left (x >>> i))
unfolding naive_gemv_loop combine
naive_gemv_loop-combine zero i x y M h = sym (bit_xor-zero y)
naive_gemv_loop-combine (suc left) i x y M h =
    let e : x >>> (i + 1) ≡ x >>> i >>> 1 =
      rw (add-one i, pow-suc 2 i) (sym (div-div-eq-div-mul x (2 ^ i) 2)) in
    rw (mask_of-pick (x >>> i) (get_or M i 0) (h i))
      (naive_gemv_loop-combine left (i + 1) x _ M h ∙ rw e (bit_xor_assoc y _ _))

-- `naive_gemv` sums the rows that the bits of the vector select.
pub naive_gemv-combine : (x : ℕ) (M : List ℕ) → IsMatrix M → naive_gemv x M ≡ combine M 0 64 x
unfolding naive_gemv
naive_gemv-combine x M h =
    let e : x / 1 ≡ x = omega arith in
    naive_gemv_loop-combine 64 0 x 0 M h ∙ rw e (zero-bit_xor (combine M 0 64 x))

-- The product by a matrix is linear.
pub naive_gemv-xor :
    (x y : ℕ) (M : List ℕ)
    → IsMatrix M
    → naive_gemv (bit_xor x y) M ≡ bit_xor (naive_gemv x M) (naive_gemv y M)
naive_gemv-xor x y M h =
    rw (naive_gemv-combine x M h, naive_gemv-combine y M h, naive_gemv-combine (bit_xor x y) M h)
      (combine-xor M 64 0 x y)

pub naive_gemv-lt : (x : ℕ) (M : List ℕ) → IsMatrix M → naive_gemv x M < 2 ^ 64
naive_gemv-lt x M h = rw (naive_gemv-combine x M h) (combine-lt M 64 64 0 x h)
