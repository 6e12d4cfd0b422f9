-- ===== src/Slicer/Invert/Columns.antt =====
-- Where the elimination got through, the columns of the matrix are units.
use xor_mining.Base.{
  ℕ, zero, suc, ◌+◌, ◌-◌, ◌<◌, ◌≤◌, ◌≢◌, bit_and, bit_xor, Bool, true, false, not, xor, ◌&&◌, List,
  get_or, set, length, ◌≡◌, refl, ap, sym, ◌∙◌, arith, length-set, Bool-cases, inl, inr, ℕ_discrete,
  none, some, if◌then◌else◌, ◌==◌, get_or-set, eq_of_some,
}
use xor_mining.Word.{◌<<<◌, test_bit}
use xor_mining.Word.Bits.{test_bit-xor, test_bit-zero}
use xor_mining.Gemv.Linear.{pick}
use xor_mining.Slicer.Rows.{swap, test_bit-unit}
use xor_mining.Slicer.Parity.{bit_and-unit}
use xor_mining.Slicer.Invert.Vectors.{length-swap}
use xor_mining.Slicer.Invert.{Pair, eliminate_row, eliminate_loop, find_pivot}

unit_pos : (c : ℕ) → 1 <<< c ≢ 0
unit_pos c e = absurd (elim (Bool-cases (c == c)) [
  | inl t ↦ cc (test_bit-unit c c, test_bit-zero c, e, t)
  | inr f ↦ ground arith
])

-- The test of a bit by a mask.
pub mask_test : (x c : ℕ) → not (bit_and x (1 <<< c) == 0) ≡ test_bit x c
mask_test x c = rw (bit_and-unit x c) (by_bit (test_bit x c))
  where
    by_bit : (b : Bool) → not (pick b (1 <<< c) == 0) ≡ b
    by_bit true = ground (arith, unit_pos c)
    by_bit false = refl

-- What `find_pivot` finds.
pub find_pivot-some :
    (left k c i : ℕ) (M : List ℕ)
    → find_pivot left k (1 <<< c) M ≡ some i
    → (k ≤ i) × (i < k + left) × (test_bit (get_or M i 0) c ≡ true)
unfolding find_pivot
find_pivot-some zero k c i M e = cc
find_pivot-some (suc left) k c i M e =
    elim (Bool-cases (not (bit_and (get_or M k 0) (1 <<< c) == 0))) [
      | inl hit ↦
          let q : k ≡ i = eq_of_some (rw hit at e) in
          (omega arith, omega arith, rw (← q) (sym (mask_test (get_or M k 0) c) ∙ hit))
      | inr miss ↦
          let (lo, hi, bit) = find_pivot-some left (k + 1) c i M (rw miss at e) in
          (omega arith, omega arith, bit)
    ]

pub find_pivot-none :
    (left k c i : ℕ) (M : List ℕ)
    → find_pivot left k (1 <<< c) M ≡ none
    → k ≤ i
    → i < k + left
    → test_bit (get_or M i 0) c ≡ false
unfolding find_pivot
find_pivot-none zero k c i M e lo hi = absurd (omega arith)
find_pivot-none (suc left) k c i M e lo hi =
    elim (Bool-cases (not (bit_and (get_or M k 0) (1 <<< c) == 0))) [
      | inl hit ↦ let bad : some k ≡ none = rw hit at e in cc
      | inr miss ↦ elim (ℕ_discrete k i) [
        | yes q ↦ rw (← q) (sym (mask_test (get_or M k 0) c) ∙ miss)
        | no ne ↦ find_pivot-none left (k + 1) c i M (rw miss at e) (omega arith) (omega arith)
      ]
    ]

pub get_or-swap :
    (A : List ℕ) (i j k : ℕ)
    → i < length A
    → j < length A
    → get_or (swap A i j) k 0
      ≡ (if j == k then get_or A i 0 else if i == k then get_or A j 0 else get_or A k 0)
unfolding swap
get_or-swap A i j k hi hj =
    get_or-set (set A i (get_or A j 0)) j k (get_or A i 0) 0
      (omega (arith, length-set A i (get_or A j 0)))
    ∙ ap (λ u. if j == k then get_or A i 0 else u) (get_or-set A i k (get_or A j 0) 0 hi)

-- The first `n` columns are units; and column `j` is on the rows before `k`.
abbrev pub Units : ℕ → List ℕ → Type 0
Units n M = (k c : ℕ) → k < 64 → c < n → test_bit (get_or M k 0) c ≡ (k == c)

abbrev Cleared : ℕ → ℕ → List ℕ → Type 0
Cleared k0 j M = (k : ℕ) → k < k0 → test_bit (get_or M k 0) j ≡ (k == j)

swap-Units :
    (A : List ℕ) (i j : ℕ) → length A ≡ 64 → i < 64 → j ≤ i → Units j A → Units j (swap A i j)
swap-Units A i j l hi le u k c hk hc =
    ap (λ r. test_bit r c) (get_or-swap A i j k (omega arith) (omega arith))
    ∙ ground (arith, u k c, u i c, u j c)

-- One row of the elimination.
module _ (s : Pair) (j k : ℕ) (l : length s.M ≡ 64) (hj : j < 64) (hk : k < 64) where
  eliminate_row-M : (eliminate_row j k s).M ≡ (
      if not (k == j) && test_bit (get_or s.M k 0) j
      then set s.M k (bit_xor (get_or s.M k 0) (get_or s.M j 0))
      else s.M)
  unfolding eliminate_row
  eliminate_row-M =
      rw (← mask_test (get_or s.M k 0) j)
        (elim (Bool-cases (not (k == j) && not (bit_and (get_or s.M k 0) (1 <<< j) == 0))) [
          | inl e ↦ rw e refl
          | inr e ↦ rw e refl
        ])

  eliminate_row-bit :
      (r c : ℕ)
      → test_bit (get_or (eliminate_row j k s).M r 0) c ≡ (
          if (k == r) && (not (k == j) && test_bit (get_or s.M k 0) j)
          then xor (test_bit (get_or s.M r 0) c) (test_bit (get_or s.M j 0) c)
          else test_bit (get_or s.M r 0) c)
  eliminate_row-bit r c =
      rw eliminate_row-M (elim (Bool-cases (not (k == j) && test_bit (get_or s.M k 0) j)) [
        | inl e ↦ rw e (
            ap (λ u. test_bit u c)
              (get_or-set s.M k r (bit_xor (get_or s.M k 0) (get_or s.M j 0)) 0 (omega arith))
            ∙ elim (ℕ_discrete k r) [
              | yes q ↦ rw (← q, same k) (test_bit-xor c (get_or s.M k 0) (get_or s.M j 0))
              | no ne ↦ rw (differ k r ne) refl
            ])
        | inr e ↦ rw e (elim (Bool-cases (k == r)) [ inl q ↦ rw q refl | inr q ↦ rw q refl ])
      ])
    where
      same : (k : ℕ) → (k == k) ≡ true
      same k = ground arith

      differ : (k r : ℕ) → k ≢ r → (k == r) ≡ false
      differ k r ne = ground arith

  eliminate_row-Units :
      Units j s.M → test_bit (get_or s.M j 0) j ≡ true → Units j (eliminate_row j k s).M
  eliminate_row-Units u one r c hr hc =
      eliminate_row-bit r c ∙ unfold xor in ground (arith, u r c, u j c)

  eliminate_row-Cleared :
      test_bit (get_or s.M j 0) j ≡ true
      → Cleared k j s.M
      → Cleared (k + 1) j (eliminate_row j k s).M
        × (test_bit (get_or (eliminate_row j k s).M j 0) j ≡ true)
  eliminate_row-Cleared one c = (
    λ r h. eliminate_row-bit r j ∙ unfold xor in ground (arith, c r),
    eliminate_row-bit j j ∙ unfold xor in ground arith,
  )

length-eliminate_row : (s : Pair) (j k : ℕ) → length (eliminate_row j k s).M ≡ length s.M
unfolding eliminate_row
length-eliminate_row s j k =
    elim (Bool-cases (not (k == j) && not (bit_and (get_or s.M k 0) (1 <<< j) == 0))) [
      | inl e ↦ rw e (length-set s.M k _)
      | inr e ↦ rw e refl
    ]

-- The whole column.
eliminate_loop-Units :
    (left k j : ℕ) (s : Pair)
    → length s.M ≡ 64
    → j < 64
    → k + left ≡ 64
    → Units j s.M
    → test_bit (get_or s.M j 0) j ≡ true
    → Cleared k j s.M
    → Units (j + 1) (eliminate_loop left k j s).M
unfolding eliminate_loop
eliminate_loop-Units zero k j s l hj e u one c = λ r q hr hq. elim (ℕ_discrete q j) [
  | yes same ↦ rw same (c r (omega arith))
  | no ne ↦ u r q hr (omega arith)
]
eliminate_loop-Units (suc left) k j s l hj e u one c =
    let (c', one') = eliminate_row-Cleared s j k l hj (omega arith) one c in
    eliminate_loop-Units left (k + 1) j (eliminate_row j k s) (length-eliminate_row s j k ∙ l) hj
      (omega arith) (eliminate_row-Units s j k l hj (omega arith) u one) one' c'

-- One round of the outer loop: the exchange, and the elimination.
pub round-Units :
    (s : Pair) (i j : ℕ)
    → length s.M ≡ 64
    → Units j s.M
    → find_pivot (64 - j) j (1 <<< j) s.M ≡ some i
    → j < 64
    → Units
        (j + 1)
        (eliminate_loop 64 0 j (record s { M = swap s.M i j; minv = swap s.minv i j })).M
round-Units s i j l u e hj =
    let (lo, hi, bit) = find_pivot-some (64 - j) j j i s.M e in
    eliminate_loop-Units 64 0 j _ (length-swap s.M i j ∙ l) hj refl
      (swap-Units s.M i j l (omega arith) lo u)
      (ap (λ r. test_bit r j) (get_or-swap s.M i j j (omega arith) (omega arith)) ∙ ground arith)
      (λ k h. absurd (omega arith))
