-- ===== src/Slicer/Invert/Correct.antt =====
-- `invert` returns true exactly with a matrix that undoes the product, and false only for a matrix
-- whose products all miss one scalar product.
use native.Mathlib.Nat.{pow-le-pow_right}
use xor_mining.Word.Xor.{bit_xor-lt}
use xor_mining.Base.{
  ℕ, zero, suc, ◌+◌, ◌-◌, ◌%◌, ◌^◌, ◌<◌, ◌≤◌, ◌≢◌, bit_xor, Bool, true, false, xor, ◌&&◌, List,
  get_or, length, ◌≡◌, refl, ap, ap₂, sym, ◌∙◌, arith, Option, none, some, ltb, ℕ_discrete, dec_lt,
  Bool-cases, inl, inr,
}
use xor_mining.Word.{◌<<<◌, test_bit}
use xor_mining.Word.Bits.{test_bit-xor, test_bit-zero, test_bit_ext, test_bit_above}
use xor_mining.Gemv.{naive_gemv}
use xor_mining.Gemv.Linear.{pick, combine, combine-mod}
use xor_mining.Gemv.Naive.{IsMatrix, naive_gemv-combine}
use xor_mining.Gemv.Identity.{identity, unit_rows-get_or, combine-identity}
use xor_mining.Slicer.Rows.{swap, test_bit-unit, test_bit-pick, combine-rows}
use xor_mining.Slicer.Parity.{dot, dot-xor, dot_comm, dot-unit, combine-dot, zero-dot}
use xor_mining.Slicer.Invert.{Pair, find_pivot, eliminate_loop, invert_loop, invert}
use xor_mining.Slicer.Invert.Vectors.{
  IsSound, copy_loop-IsSound, swap-IsSound, eliminate_loop-IsSound,
}
use xor_mining.Slicer.Invert.Columns.{Units, round-Units, find_pivot-some, find_pivot-none}

-- A vector of 64 bits other than 0 that is orthogonal to all products by the matrix.
abbrev pub Singular : List ℕ → Type 0
Singular M0 =
    (v : ℕ) × ((v ≢ 0) × (v < 2 ^ 64) × ((x : ℕ) → x < 2 ^ 64 → dot (naive_gemv x M0) v ≡ false))

-- Column `j` of the first `n` rows, as a vector.
column : List ℕ → ℕ → ℕ → ℕ
column M j zero = 0
column M j (suc n) = bit_xor (column M j n) (pick (test_bit (get_or M n 0) j) (1 <<< n))

column-bit : (M : List ℕ) (j n i : ℕ) → n ≤ i → test_bit (column M j n) i ≡ false
unfolding column xor
column-bit M j zero i h = test_bit-zero i
column-bit M j (suc n) i h =
    rw
      (
        test_bit-xor i (column M j n) (pick (test_bit (get_or M n 0) j) (1 <<< n)),
        column-bit M j n i (omega arith),
        test_bit-pick (test_bit (get_or M n 0) j) (1 <<< n) i,
        test_bit-unit n i,
      )
      (ground arith)

dot-pick : (b : Bool) (x y : ℕ) → dot x (pick b y) ≡ (b && dot x y)
dot-pick true x y = refl
dot-pick false x y = dot_comm x 0 ∙ zero-dot x

right-xor : (x y z : ℕ) → dot x (bit_xor y z) ≡ xor (dot x y) (dot x z)
right-xor x y z = dot_comm x (bit_xor y z) ∙ dot-xor y z x ∙ ap₂ xor (dot_comm y x) (dot_comm z x)

column-dot :
    (M : List ℕ) (j n k : ℕ)
    → n ≤ j
    → j < 64
    → k < 64
    → Units j M
    → dot (get_or M k 0) (column M j n) ≡ (ltb k n && test_bit (get_or M k 0) j)
unfolding column xor
column-dot M j zero k le hj hk u =
    dot_comm (get_or M k 0) 0 ∙ zero-dot (get_or M k 0) ∙ ground arith
column-dot M j (suc n) k le hj hk u =
    right-xor (get_or M k 0) (column M j n) (pick (test_bit (get_or M n 0) j) (1 <<< n))
    ∙ ap₂ xor (column-dot M j n k (omega arith) hj hk u) (
        dot-pick (test_bit (get_or M n 0) j) (get_or M k 0) (1 <<< n)
        ∙ ap (λ u. test_bit (get_or M n 0) j && u)
            (dot-unit (get_or M k 0) n (omega arith) ∙ u k n hk (omega arith)))
    ∙ elim (ℕ_discrete k n) [ yes e ↦ rw e (ground arith) | no ne ↦ ground arith ]

shl-lt : (i : ℕ) → i < 64 → 1 <<< i < 2 ^ 64
shl-lt i lt =
    let le : 2 ^ i ≤ 2 ^ 63 = pow-le-pow_right (omega arith) {j = 63} (omega arith) in omega arith

column-lt : (M : List ℕ) (j n : ℕ) → n ≤ 64 → column M j n < 2 ^ 64
unfolding column
column-lt M j zero le = omega arith
column-lt M j (suc n) le =
    bit_xor-lt 64 (column M j n) (pick (test_bit (get_or M n 0) j) (1 <<< n))
      (column-lt M j n (omega arith)) (picked (test_bit (get_or M n 0) j))
  where
    picked : (b : Bool) → pick b (1 <<< n) < 2 ^ 64
    picked true = shl-lt n (omega arith)
    picked false = omega arith

-- Without a pivot in column `j`, the column depends on those before it.
stuck-Singular :
    (M0 : List ℕ) (s : Pair) (j : ℕ)
    → IsMatrix M0
    → IsSound M0 s
    → Units j s.M
    → j < 64
    → find_pivot (64 - j) j (1 <<< j) s.M ≡ none
    → Singular M0
unfolding xor
stuck-Singular M0 s j matrix is u hj e = (
  bit_xor (1 <<< j) (column s.M j j),
  (
    λ z. nonzero (ap (λ t. test_bit t j) z),
    bit_xor-lt 64 (1 <<< j) (column s.M j j) (shl-lt j hj) (column-lt s.M j j (omega arith)),
    λ x hx.
        let (y, (sum, back)) = is.spans x hx in
        ap (λ t. dot t (bit_xor (1 <<< j) (column s.M j j)))
          (naive_gemv-combine x M0 matrix ∙ sym sum)
        ∙ combine-dot s.M (bit_xor (1 <<< j) (column s.M j j)) 64 0 y
            (λ k hk. rw (zero_less k) (row k hk)),
  ),
)
  where
    zero_less : (n : ℕ) → 0 + n ≡ n
    zero_less n = omega arith

    row : (k : ℕ) → k < 64 → dot (get_or s.M k 0) (bit_xor (1 <<< j) (column s.M j j)) ≡ false
    row k hk =
        right-xor (get_or s.M k 0) (1 <<< j) (column s.M j j)
        ∙ ap₂ xor (dot-unit (get_or s.M k 0) j hj) (column-dot s.M j j k (omega arith) hj hk u)
        ∙ elim (Bool-cases (ltb k j)) [
          | inl low ↦ rw low (ground arith)
          | inr high ↦
              rw (high, find_pivot-none (64 - j) j j k s.M e (ground arith) (omega arith)) refl
        ]

    nonzero : test_bit (bit_xor (1 <<< j) (column s.M j j)) j ≡ test_bit 0 j → ⊥
    nonzero q =
        let bits =
          test_bit-xor j (1 <<< j) (column s.M j j)
          ∙ ap₂ xor (test_bit-unit j j) (column-bit s.M j j j (omega arith)) in
        ground (arith, sym bits ∙ q ∙ test_bit-zero j)

abbrev Verdict : List ℕ → Bool × Pair → Type 0
Verdict M0 (true, s) = IsSound M0 s × Units 64 s.M
Verdict M0 (false, s) = Singular M0

invert_loop-Verdict :
    (M0 : List ℕ) (left j : ℕ) (s : Pair)
    → IsMatrix M0
    → j + left ≡ 64
    → IsSound M0 s
    → Units j s.M
    → Verdict M0 (invert_loop left j s)
unfolding invert_loop
invert_loop-Verdict M0 zero j s matrix e is u = (is, λ k c hk hc. u k c hk (omega arith))
invert_loop-Verdict M0 (suc left) j s matrix e is u =
    on_pivot (find_pivot (64 - j) j (1 <<< j) s.M) refl
      (λ s' is' u'. invert_loop-Verdict M0 left (j + 1) s' matrix (omega arith) is' u')
  where
    next : ℕ → Pair
    next i = eliminate_loop 64 0 j (record s { M = swap s.M i j; minv = swap s.minv i j })

    on_pivot :
        (o : Option ℕ)
        → find_pivot (64 - j) j (1 <<< j) s.M ≡ o
        → ((s' : Pair)
            → IsSound M0 s'
            → Units (j + 1) s'.M
            → Verdict M0 (invert_loop left (j + 1) s'))
        → Verdict M0 (elim o [ none ↦ (false, s) | some i ↦ invert_loop left (j + 1) (next i) ])
    on_pivot none p rec = stuck-Singular M0 s j matrix is u (omega arith) p
    on_pivot (some i) p rec =
        let (lo, hi, bit) = find_pivot-some (64 - j) j j i s.M p in
        rec (next i)
          (eliminate_loop-IsSound M0 64 0 j _ (omega arith) (omega arith)
            (swap-IsSound M0 s i j (omega arith) (omega arith) is))
          (round-Units s i j is.long u p (omega arith))

Units-rows :
    (s : Pair) (M0 : List ℕ)
    → IsSound M0 s
    → Units 64 s.M
    → (k : ℕ) → k < 64
    → get_or s.M k 0 ≡ 1 <<< k
Units-rows s M0 is u k hk = test_bit_ext _ _ (λ i. elim (dec_lt i 64) [
  | yes p ↦ u k i hk p ∙ sym (test_bit-unit k i)
  | no p ↦
      test_bit_above 64 i (get_or s.M k 0) (is.words k) (omega arith)
      ∙ ground (arith, test_bit-unit k i)
])

-- The sums of the rows of a matrix whose columns are units.
Units-combine :
    (s : Pair) (M0 : List ℕ)
    → IsSound M0 s
    → Units 64 s.M
    → (y : ℕ) → combine s.M 0 64 y ≡ y % 2 ^ 64
Units-combine s M0 is u y =
    combine-rows s.M identity 64 0 y
      (λ k h. Units-rows s M0 is u (0 + k) (omega arith) ∙ unit (0 + k) (omega arith))
    ∙ combine-identity 64 0 y (omega arith)
    ∙ omega arith
  where
    unit : (k : ℕ) → k < 64 → 1 <<< k ≡ get_or identity k 0
    unit k h =
        let e : 0 + k ≡ k = omega arith in
        omega (arith, unit_rows-get_or 64 0 k h, ap (λ (n : ℕ). 2 ^ n) e)

-- What the two outcomes of `invert` say.
abbrev pub Inverted : List ℕ → Bool × List ℕ → Type 0
Inverted M (true, N) =
    IsMatrix N × (length N ≡ 64) × ((x : ℕ) → x < 2 ^ 64 → naive_gemv (naive_gemv x M) N ≡ x)
Inverted M (false, N) = Singular M

Verdict-Inverted :
    (M : List ℕ) (r : Bool × Pair) → IsMatrix M → Verdict M r → Inverted M (r.0, r.1.minv)
Verdict-Inverted M (false, s) matrix v = v
Verdict-Inverted M (true, s) matrix (is, u) = (
  is.words',
  is.long',
  λ x h.
      let (y, (sum, back)) = is.spans x h in
      ap (λ t. naive_gemv t s.minv)
        (naive_gemv-combine x M matrix ∙ sym sum ∙ Units-combine s M is u y)
      ∙ naive_gemv-combine (y % 2 ^ 64) s.minv is.words'
      ∙ combine-mod s.minv 64 0 y
      ∙ back,
)

-- If `invert` returns true, the product by its result undoes the product by the matrix. If it
-- returns false, then some vector other than 0 is orthogonal to all products by the matrix.
pub invert-Inverted :
    (local M Minv : List ℕ)
    → length local ≡ 64
    → length Minv ≡ 64
    → IsMatrix M
    → Inverted M (invert local M Minv)
unfolding invert
invert-Inverted local M Minv l l' matrix = Verdict-Inverted M _ matrix (
    invert_loop-Verdict M 64 0 _ matrix refl
      (copy_loop-IsSound M (record { M = local; minv = Minv }) matrix l l')
      (λ k c hk hc. absurd (omega arith)))
