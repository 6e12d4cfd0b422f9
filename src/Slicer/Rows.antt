-- ===== src/Slicer/Rows.antt =====
-- Row operations on 64 x 64 matrices over GF(2), and the products by the matrices they make:
-- preprocessing/slicer.c, `swap`.
use xor_mining.Base.{
  ℕ, zero, suc, ◌+◌, ◌-◌, ◌≤◌, ltb, ltb→lt, ◌<◌, ◌≢◌, bit_xor, Bool, true, false, xor, List, get_or,
  set, length, ◌≡◌, refl, ap, ap₂, sym, ◌∙◌, arith, ◌&&◌, ◌==◌, Bool-cases, inl, inr, length-set,
  get_or-set_self, get_or-set_ne,
}
use xor_mining.Word.{◌>>>◌, ◌<<<◌, test_bit}
use xor_mining.Word.Bits.{test_bit-xor, test_bit-zero, test_bit-shl, test_bit-shl_low}
use xor_mining.Word.Xor.{
  bit_xor-zero, bit_xor_assoc, bit_xor_comm, bit_xor_cancel_left, bit_xor_cancel,
}
use xor_mining.Gemv.Linear.{pick, combine, combine-xor, combine-single, combine-zero}

unfoldable pub swap : List ℕ → ℕ → ℕ → List ℕ
swap M i j = let tmp = get_or M i 0 in let M = set M i (get_or M j 0) in set M j tmp

-- The product reads the rows in its range.
pub combine-rows :
    (A B : List ℕ) (n lo y : ℕ)
    → ((i : ℕ) → i < n → get_or A (lo + i) 0 ≡ get_or B (lo + i) 0)
    → combine A lo n y ≡ combine B lo n y
unfolding combine
combine-rows A B zero lo y h = refl
combine-rows A B (suc n) lo y h =
    let here : lo + 0 ≡ lo = omega arith in
    let first : get_or A lo 0 ≡ get_or B lo 0 = rw here at (h 0 (omega arith)) in
    ap₂ bit_xor (ap (pick (test_bit y 0)) first) (
      combine-rows A B n (lo + 1) (y >>> 1)
        (λ i p. let e : lo + 1 + i ≡ lo + suc i = omega arith in rw e (h (suc i) (omega arith))))

exchange : (b : Bool) (a v : ℕ) → pick b v ≡ bit_xor (pick b a) (pick b (bit_xor a v))
exchange true a v = sym (bit_xor_cancel_left a v)
exchange false a v = sym (bit_xor-zero 0)

swap_last : (a b c : ℕ) → bit_xor (bit_xor a b) c ≡ bit_xor (bit_xor a c) b
swap_last a b c =
    bit_xor_assoc a b c ∙ ap (bit_xor a) (bit_xor_comm b c) ∙ sym (bit_xor_assoc a c b)

combine-set_first :
    (A : List ℕ) (n lo v y : ℕ)
    → lo < length A
    → combine (set A lo v) lo (suc n) y
      ≡ bit_xor (combine A lo (suc n) y) (pick (test_bit y 0) (bit_xor (get_or A lo 0) v))
unfolding combine
combine-set_first A n lo v y inside =
    ap₂ (λ a b. bit_xor (pick (test_bit y 0) a) b) (get_or-set_self A lo v 0 inside)
      (combine-rows (set A lo v) A n (lo + 1) (y >>> 1)
        (λ i p. get_or-set_ne A lo (lo + 1 + i) v 0 (λ e. omega arith)))
    ∙ ap (λ u. bit_xor u (combine A (lo + 1) n (y >>> 1)))
        (exchange (test_bit y 0) (get_or A lo 0) v)
    ∙ swap_last _ _ _

-- A row was replaced.
pub combine-set :
    (A : List ℕ) (n lo k v y : ℕ)
    → k < n
    → lo + k < length A
    → combine (set A (lo + k) v) lo n y
      ≡ bit_xor (combine A lo n y) (pick (test_bit y k) (bit_xor (get_or A (lo + k) 0) v))
unfolding combine test_bit
combine-set A zero lo k v y h inside = absurd (omega arith)
combine-set A (suc n) lo zero v y h inside =
    let here : lo + 0 ≡ lo = omega arith in
    ap (λ t. combine (set A t v) lo (suc n) y) here
    ∙ combine-set_first A n lo v y (omega arith)
    ∙ ap (λ t. bit_xor (combine A lo (suc n) y) (pick (test_bit y 0) (bit_xor (get_or A t 0) v)))
        (sym here)
combine-set A (suc n) lo (suc k) v y h inside =
    let here : lo + suc k ≡ lo + 1 + k = omega arith in
    ap (λ t. combine (set A t v) lo (suc n) y) here
    ∙ ap₂ (λ a b. bit_xor (pick (test_bit y 0) a) b)
        (get_or-set_ne A (lo + 1 + k) lo v 0 (λ e. omega arith))
        (combine-set A n (lo + 1) k v (y >>> 1) (omega arith) (omega arith))
    ∙ sym (bit_xor_assoc _ _ _)
    ∙ ap
        (λ t.
          bit_xor (combine A lo (suc n) y) (pick (test_bit y (suc k)) (bit_xor (get_or A t 0) v)))
        (sym here)

-- The same for a whole matrix.
pub combine-set_row :
    (A : List ℕ) (k v y : ℕ)
    → k < 64
    → length A ≡ 64
    → combine (set A k v) 0 64 y
      ≡ bit_xor (combine A 0 64 y) (pick (test_bit y k) (bit_xor (get_or A k 0) v))
combine-set_row A k v y h long =
    let e : 0 + k ≡ k = omega arith in rw e at (combine-set A 64 0 k v y h (omega arith))

combine-unit : (A : List ℕ) (k : ℕ) → k < 64 → combine A 0 64 (1 <<< k) ≡ get_or A k 0
combine-unit A k h = let e : 0 + k ≡ k = omega arith in rw e at (combine-single A 64 0 k h)

-- The vector that selects the same sum after the rows `i` and `j` have been exchanged, and after
-- row `j` has been added to row `k`.
abbrev pub swap_coordinates : ℕ → ℕ → ℕ → ℕ
swap_coordinates i j y =
    bit_xor y (pick (xor (test_bit y i) (test_bit y j)) (bit_xor (1 <<< i) (1 <<< j)))

abbrev pub add_coordinates : ℕ → ℕ → ℕ → ℕ
add_coordinates j k y = bit_xor y (pick (test_bit y k) (1 <<< j))

combine-pick :
    (A : List ℕ) (n lo : ℕ) (b : Bool) (m : ℕ)
    → combine A lo n (pick b m) ≡ pick b (combine A lo n m)
combine-pick A n lo true m = refl
combine-pick A n lo false m = combine-zero A n lo

pub test_bit-unit : (k i : ℕ) → test_bit (1 <<< k) i ≡ (k == i)
test_bit-unit k i = elim (Bool-cases (ltb i k)) [
  | inl low ↦ test_bit-shl_low k i 1 (ltb→lt i k low) ∙ ground arith
  | inr high ↦ unit_above k i (ground arith)
]
  where
    one_bit : (d : ℕ) → test_bit 1 d ≡ (0 == d)
    one_bit zero = unfold test_bit in refl
    one_bit (suc d) = unfold test_bit in test_bit-zero d ∙ ground arith

    unit_above : (k i : ℕ) → k ≤ i → test_bit (1 <<< k) i ≡ (k == i)
    unit_above k i le =
        let e : k + (i - k) ≡ i = omega arith in
        ap (test_bit (1 <<< k)) (sym e) ∙ test_bit-shl k (i - k) 1 ∙ one_bit (i - k) ∙ ground arith

pub test_bit-pick : (b : Bool) (m i : ℕ) → test_bit (pick b m) i ≡ (b && test_bit m i)
test_bit-pick true m i = refl
test_bit-pick false m i = test_bit-zero i

pub eq_false : (a b : ℕ) → a ≢ b → (a == b) ≡ false
eq_false a b ne = ground arith

pub eq_true : (a : ℕ) → (a == a) ≡ true
eq_true a = ground arith

keep_bit : (b : Bool) → xor b (b && false) ≡ b
unfolding xor
keep_bit b = ground arith

first_bit : (p q : Bool) → xor p (xor p q && xor true false) ≡ q
unfolding xor
first_bit p q = ground arith

second_bit : (p q : Bool) → xor q (xor p q && xor false true) ≡ p
unfolding xor
second_bit p q = ground arith

cancels :
    (p q : Bool) (x d : ℕ)
    → bit_xor (bit_xor (bit_xor x (pick (xor p q) d)) (pick q d)) (pick p d) ≡ x
unfolding xor
cancels true true x d = rw (bit_xor-zero x) (bit_xor_cancel x d)
cancels true false x d = rw (bit_xor-zero (bit_xor x d)) (bit_xor_cancel x d)
cancels false true x d = bit_xor-zero _ ∙ bit_xor_cancel x d
cancels false false x d = simp (bit_xor-zero)

pub combine-add_row :
    (A : List ℕ) (j k y : ℕ)
    → length A ≡ 64
    → j < 64
    → k < 64
    → j ≢ k
    → combine (set A k (bit_xor (get_or A k 0) (get_or A j 0))) 0 64 (add_coordinates j k y)
      ≡ combine A 0 64 y
combine-add_row A j k y long hj hk ne =
    let b = test_bit y k in
    let bit : test_bit (add_coordinates j k y) k ≡ b =
      rw
        (
          test_bit-xor k y (pick b (1 <<< j)),
          test_bit-pick b (1 <<< j) k,
          test_bit-unit j k,
          eq_false j k ne,
        )
        (keep_bit b) in
    let row : bit_xor (get_or A k 0) (bit_xor (get_or A k 0) (get_or A j 0)) ≡ get_or A j 0 =
      bit_xor_cancel_left (get_or A k 0) (get_or A j 0) in
    combine-set_row A k _ (add_coordinates j k y) hk long
    ∙ ap₂ bit_xor
        (combine-xor A 64 0 y (pick b (1 <<< j))
          ∙ ap (bit_xor (combine A 0 64 y))
              (combine-pick A 64 0 b (1 <<< j) ∙ ap (pick b) (combine-unit A j hj)))
        (ap₂ pick bit row)
    ∙ bit_xor_cancel (combine A 0 64 y) (pick b (get_or A j 0))

pub combine-swap :
    (A : List ℕ) (i j y : ℕ)
    → length A ≡ 64
    → i < 64
    → j < 64
    → i ≢ j
    → combine (swap A i j) 0 64 (swap_coordinates i j y) ≡ combine A 0 64 y
unfolding swap
combine-swap A i j y long hi hj ne =
    let p = test_bit y i in
    let q = test_bit y j in
    let D = bit_xor (get_or A i 0) (get_or A j 0) in
    let y' = swap_coordinates i j y in
    let M1 = set A i (get_or A j 0) in
    let bits = λ (t : ℕ).
      test_bit-xor t y (pick (xor p q) (bit_xor (1 <<< i) (1 <<< j)))
      ∙ ap (xor (test_bit y t)) (
          test_bit-pick (xor p q) (bit_xor (1 <<< i) (1 <<< j)) t
          ∙ ap (λ u. xor p q && u)
              (test_bit-xor t (1 <<< i) (1 <<< j)
                ∙ ap₂ xor (test_bit-unit i t) (test_bit-unit j t))) in
    let at_i : test_bit y' i ≡ q =
      bits i ∙ rw (eq_true i, eq_false j i (λ e. ne (sym e))) (first_bit p q) in
    let at_j : test_bit y' j ≡ p = bits j ∙ rw (eq_true j, eq_false i j ne) (second_bit p q) in
    let unswapped : combine A 0 64 y' ≡ bit_xor (combine A 0 64 y) (pick (xor p q) D) =
      combine-xor A 64 0 y _
      ∙ ap (bit_xor (combine A 0 64 y)) (
          combine-pick A 64 0 (xor p q) _
          ∙ ap (pick (xor p q)) (
              combine-xor A 64 0 (1 <<< i) (1 <<< j)
              ∙ ap₂ bit_xor (combine-unit A i hi) (combine-unit A j hj))) in
    combine-set_row M1 j (get_or A i 0) y' hj (length-set A i _ ∙ long)
    ∙ ap₂ bit_xor
        (combine-set_row A i (get_or A j 0) y' hi long
          ∙ ap₂ (λ a b. bit_xor a (pick b D)) unswapped at_i)
        (ap₂ pick at_j (
          ap (λ u. bit_xor u (get_or A i 0)) (get_or-set_ne A i j (get_or A j 0) 0 ne)
          ∙ bit_xor_comm (get_or A j 0) (get_or A i 0)))
    ∙ cancels p q (combine A 0 64 y) D
