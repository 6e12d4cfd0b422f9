-- ===== src/Gemv/Linear.antt =====
-- The abstract product: the sum of the rows that the bits of a vector select, and its linearity.
use native.Mathlib.Nat.{div-div-eq-div-mul, pow-succ', one-le-pow}
use xor_mining.Base.{
  ℕ, zero, suc, ◌+◌, ◌/◌, ◌%◌, ◌^◌, ◌<◌, bit_xor, Bool, true, false, xor, List, get_or,
  if◌then◌else◌, ◌≡◌, refl, sym, ap, ap₂, ◌∙◌, arith, lt→ltb,
}
use xor_mining.Word.{test_bit, ◌>>>◌, ◌<<<◌}
use xor_mining.Word.Bits.{test_bit-xor, test_bit-zero, test_bit-mod, test_bit-shl_low}
use xor_mining.Word.Bits.{test_bit-shr}
use xor_mining.Word.Xor.{
  bit_xor-zero, zero-bit_xor, bit_xor_swap, bit_xor-shr, bit_xor_self, bit_xor_assoc, bit_xor-lt,
}

abbrev pub pick : Bool → ℕ → ℕ
pick b m = if b then m else 0

-- The sum of the rows `M[lo]` to `M[lo + n - 1]` that the bits 0 to `n - 1` of `x` select.
unfoldable pub combine : List ℕ → ℕ → ℕ → ℕ → ℕ
combine M lo zero x = 0
combine M lo (suc n) x =
    bit_xor (pick (test_bit x 0) (get_or M lo 0)) (combine M (lo + 1) n (x >>> 1))

pick-xor : (a b : Bool) (m : ℕ) → pick (xor a b) m ≡ bit_xor (pick a m) (pick b m)
unfolding xor
pick-xor true true m = sym (bit_xor_self m)
pick-xor true false m = sym (bit_xor-zero m)
pick-xor false true m = sym (zero-bit_xor m)
pick-xor false false m = refl

-- The product is linear.
pub combine-xor :
    (M : List ℕ) (n lo x y : ℕ)
    → combine M lo n (bit_xor x y) ≡ bit_xor (combine M lo n x) (combine M lo n y)
unfolding combine
combine-xor M zero lo x y = refl
combine-xor M (suc n) lo x y =
    simp (test_bit-xor, pick-xor, bit_xor-shr, combine-xor M n (lo + 1) (x >>> 1) (y >>> 1))
      (bit_xor_swap _ _ _ _)

pub combine-zero : (M : List ℕ) (n lo : ℕ) → combine M lo n 0 ≡ 0
unfolding combine
combine-zero M zero lo = refl
combine-zero M (suc n) lo = rw (test_bit-zero 0, combine-zero M n (lo + 1)) refl

combine_congr :
    (M : List ℕ) (n lo x y : ℕ)
    → ((i : ℕ) → i < n → test_bit x i ≡ test_bit y i)
    → combine M lo n x ≡ combine M lo n y
unfolding combine
combine_congr M zero lo x y h = refl
combine_congr M (suc n) lo x y h =
    ap₂ bit_xor (ap (λ b. pick b (get_or M lo 0)) (h 0 (omega arith))) (
      combine_congr M n (lo + 1) (x >>> 1) (y >>> 1)
        (λ i p. rw (test_bit-shr 1 i x, test_bit-shr 1 i y) (h (1 + i) (omega arith))))

-- Only the low `n` bits count.
pub combine-mod : (M : List ℕ) (n lo x : ℕ) → combine M lo n (x % 2 ^ n) ≡ combine M lo n x
combine-mod M n lo x = combine_congr M n lo _ x (λ i p. rw (test_bit-mod n i x, lt→ltb i n p) refl)

-- The rows split into a lower and an upper part.
pub combine-add :
    (M : List ℕ) (m n lo x : ℕ)
    → combine M lo (m + n) x ≡ bit_xor (combine M lo m x) (combine M (lo + m) n (x >>> m))
unfolding combine
combine-add M zero n lo x =
    let e : 0 + n ≡ n = omega arith in
    let e' : lo + 0 ≡ lo = omega arith in
    let e'' : x / 1 ≡ x = omega arith in rw (e, e', e'', zero-bit_xor (combine M lo n x)) refl
combine-add M (suc m) n lo x =
    let e : suc m + n ≡ suc (m + n) = omega arith in
    let e' : lo + suc m ≡ lo + 1 + m = omega arith in
    let e'' : x >>> suc m ≡ x >>> 1 >>> m =
      rw (pow-succ' 2 m) (sym (div-div-eq-div-mul x 2 (2 ^ m))) in
    ap (λ t. combine M lo t x) e
    ∙ ap (bit_xor (pick (test_bit x 0) (get_or M lo 0))) (combine-add M m n (lo + 1) (x >>> 1))
    ∙ sym (bit_xor_assoc _ _ _)
    ∙ ap₂ (λ t u. bit_xor (combine M lo (suc m) x) (combine M t n u)) (sym e') (sym e'')

test_bit-one : test_bit 1 0 ≡ true
unfolding test_bit
test_bit-one = refl

-- A vector with one bit set selects one row.
pub combine-single :
    (M : List ℕ) (n lo k : ℕ) → k < n → combine M lo n (1 <<< k) ≡ get_or M (lo + k) 0
unfolding combine
combine-single M zero lo k h = absurd (omega arith)
combine-single M (suc n) lo zero h =
    let e : lo + 0 ≡ lo = omega arith in
    rw (e, test_bit-one, combine-zero M n (lo + 1), bit_xor-zero (get_or M lo 0)) refl
combine-single M (suc n) lo (suc k) h =
    let e : lo + suc k ≡ lo + 1 + k = omega arith in
    let half : 1 <<< suc k >>> 1 ≡ 1 <<< k = omega (arith, pow-succ' 2 k) in
    rw
      (
        e,
        test_bit-shl_low (suc k) 0 1 (omega arith),
        half,
        zero-bit_xor (combine M (lo + 1) n (1 <<< k)),
      )
      (combine-single M n (lo + 1) k (omega arith))

pick-lt : (b : Bool) (m w : ℕ) → m < 2 ^ w → pick b m < 2 ^ w
pick-lt true m w h = h
pick-lt false m w h = one-le-pow w 2 (omega arith)

-- The sum of words of a width fits that width.
pub combine-lt :
    (M : List ℕ) (w n lo x : ℕ) → ((i : ℕ) → get_or M i 0 < 2 ^ w) → combine M lo n x < 2 ^ w
unfolding combine
combine-lt M w zero lo x h = one-le-pow w 2 (omega arith)
combine-lt M w (suc n) lo x h =
    bit_xor-lt w _ _ (pick-lt (test_bit x 0) (get_or M lo 0) w (h lo))
      (combine-lt M w n (lo + 1) (x >>> 1) h)
