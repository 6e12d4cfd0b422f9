-- ===== src/Slicer/Parity.antt =====
-- The scalar product over GF(2), as the parity of the bits of `x & y`.
use native.Mathlib.Nat.{div-div-eq-div-mul, pow-suc}
use native.Mathlib.Numerals.{add-one}
use xor_mining.Base.{
  ℕ, zero, suc, ◌+◌, ◌/◌, ◌%◌, ◌^◌, ◌<◌, bit_and, bit_xor, Bool, true, false, not, xor, ◌&&◌, List,
  get_or, ◌≡◌, refl, ap, ap₂, sym, ◌∙◌, arith, ◌==◌, ℕ_discrete,
}
use xor_mining.Word.{◌>>>◌, ◌<<<◌, test_bit}
use xor_mining.Word.Bits.{test_bit-xor, test_bit-and, test_bit_ext, test_bit-zero, test_bit-shr}
use xor_mining.Word.Mask.{bit_and-shr, bit_and_mask, bit_and-zero}
use xor_mining.Word.Xor.{bit_xor-shr}
use xor_mining.Gemv.Linear.{pick, combine}
use xor_mining.Slicer.Rows.{test_bit-unit}
use xor_mining.Slicer.Chain.{popcount, satisfy_equation}

-- Whether an odd number of the low `n` bits is set.
unfoldable pub odd_bits : ℕ → ℕ → Bool
odd_bits zero x = false
odd_bits (suc n) x = xor (test_bit x 0) (odd_bits n (x >>> 1))

abbrev pub dot : ℕ → ℕ → Bool
dot x y = odd_bits 64 (bit_and x y)

parity_step :
    (r p : ℕ) (b : Bool) → r < 2 → b ≡ ((p % 2) == 1) → (((r + p) % 2) == 1) ≡ xor (r == 1) b
unfolding xor
parity_step r p b h e = ground arith

popcount-odd : (n x : ℕ) → ((popcount n x % 2) == 1) ≡ odd_bits n x
unfolding popcount odd_bits test_bit
popcount-odd zero x = refl
popcount-odd (suc n) x =
    parity_step (x % 2) (popcount n (x / 2)) (odd_bits n (x / 2)) (omega arith)
      (sym (popcount-odd n (x / 2)))
    ∙ ground arith

even_or_odd : (r : ℕ) → r < 2 → (r == 0) ≡ not (r == 1)
even_or_odd r h = ground arith

pub satisfy_equation-dot : (x eq : ℕ) → satisfy_equation x eq ≡ not (dot x eq)
unfolding satisfy_equation
satisfy_equation-dot x eq =
    ap (λ r. r == 0) (bit_and_mask 1 (popcount 64 (bit_and x eq)))
    ∙ even_or_odd (popcount 64 (bit_and x eq) % 2) (omega arith)
    ∙ ap not (popcount-odd 64 (bit_and x eq))

xor_pairs : (a b c d : Bool) → xor (xor a b) (xor c d) ≡ xor (xor a c) (xor b d)
unfolding xor
xor_pairs a b c d = ground arith

odd_bits-xor : (n x y : ℕ) → odd_bits n (bit_xor x y) ≡ xor (odd_bits n x) (odd_bits n y)
unfolding odd_bits xor
odd_bits-xor zero x y = refl
odd_bits-xor (suc n) x y =
    rw (test_bit-xor 0 x y, bit_xor-shr x y 1, odd_bits-xor n (x >>> 1) (y >>> 1))
      (xor_pairs (test_bit x 0) (test_bit y 0) (odd_bits n (x >>> 1)) (odd_bits n (y >>> 1)))

odd_bits-zero : (n : ℕ) → odd_bits n 0 ≡ false
unfolding odd_bits xor
odd_bits-zero zero = refl
odd_bits-zero (suc n) = rw (test_bit-zero 0, odd_bits-zero n) refl

and_over_xor : (a b c : Bool) → (xor a b && c) ≡ xor (a && c) (b && c)
unfolding xor
and_over_xor a b c = ground arith

pub bit_and-xor : (a b c : ℕ) → bit_and (bit_xor a b) c ≡ bit_xor (bit_and a c) (bit_and b c)
bit_and-xor a b c = test_bit_ext _ _ (λ i.
    simp (test_bit-and, test_bit-xor) (and_over_xor (test_bit a i) (test_bit b i) (test_bit c i)))

and_flip : (a b : Bool) → (a && b) ≡ (b && a)
and_flip a b = ground arith

pub bit_and_comm : (a b : ℕ) → bit_and a b ≡ bit_and b a
bit_and_comm a b =
    test_bit_ext _ _ (λ i. simp (test_bit-and) (and_flip (test_bit a i) (test_bit b i)))

pub dot_comm : (x y : ℕ) → dot x y ≡ dot y x
dot_comm x y = ap (odd_bits 64) (bit_and_comm x y)

pub dot-xor : (x y z : ℕ) → dot (bit_xor x y) z ≡ xor (dot x z) (dot y z)
dot-xor x y z = ap (odd_bits 64) (bit_and-xor x y z) ∙ odd_bits-xor 64 (bit_and x z) (bit_and y z)

pub zero-dot : (z : ℕ) → dot 0 z ≡ false
zero-dot z = ap (odd_bits 64) (bit_and_comm 0 z ∙ bit_and-zero z) ∙ odd_bits-zero 64

pick_bit : (b : Bool) (m j : ℕ) → test_bit (pick b m) j ≡ (b && test_bit m j)
pick_bit true m j = refl
pick_bit false m j = test_bit-zero j

pick-dot : (b : Bool) (m v : ℕ) → dot m v ≡ false → dot (pick b m) v ≡ false
pick-dot true m v h = h
pick-dot false m v h = zero-dot v

-- Bit `j` of a product is a scalar product with column `j`.
pub combine-bit :
    (M : List ℕ) (column j n lo x : ℕ)
    → ((i : ℕ) → i < n → test_bit (get_or M (lo + i) 0) j ≡ test_bit column (lo + i))
    → test_bit (combine M lo n x) j ≡ odd_bits n (bit_and x (column >>> lo))
unfolding combine odd_bits
combine-bit M column j zero lo x h = test_bit-zero j
combine-bit M column j (suc n) lo x h =
    let here : lo + 0 ≡ lo = omega arith in
    let first : test_bit (get_or M lo 0) j ≡ test_bit column lo = rw here at (h 0 (omega arith)) in
    let shift : column >>> (lo + 1) ≡ column >>> lo >>> 1 =
      rw (add-one lo, pow-suc 2 lo) (sym (div-div-eq-div-mul column (2 ^ lo) 2)) in
    rw
      (
        test_bit-xor j (pick (test_bit x 0) (get_or M lo 0)) (combine M (lo + 1) n (x >>> 1)),
        pick_bit (test_bit x 0) (get_or M lo 0) j,
        first,
        combine-bit M column j n (lo + 1) (x >>> 1) (λ i p.
            let e : lo + 1 + i ≡ lo + suc i = omega arith in rw e (h (suc i) (omega arith))),
        shift,
        test_bit-and 0 x (column >>> lo),
        test_bit-shr lo 0 column,
        here,
        bit_and-shr x (column >>> lo) 1,
      )
      refl

-- A sum of rows that are all orthogonal to a vector is orthogonal to it.
pub combine-dot :
    (M : List ℕ) (v n lo x : ℕ)
    → ((i : ℕ) → i < n → dot (get_or M (lo + i) 0) v ≡ false)
    → dot (combine M lo n x) v ≡ false
unfolding combine xor
combine-dot M v zero lo x h = zero-dot v
combine-dot M v (suc n) lo x h =
    let here : lo + 0 ≡ lo = omega arith in
    let first : dot (get_or M lo 0) v ≡ false = rw here at (h 0 (omega arith)) in
    dot-xor (pick (test_bit x 0) (get_or M lo 0)) (combine M (lo + 1) n (x >>> 1)) v
    ∙ ap₂ xor (pick-dot (test_bit x 0) (get_or M lo 0) v first) (
        combine-dot M v n (lo + 1) (x >>> 1)
          (λ i p. let e : lo + 1 + i ≡ lo + suc i = omega arith in rw e (h (suc i) (omega arith))))

false-xor : (b : Bool) → xor false b ≡ b
unfolding xor
false-xor b = ground arith

-- The scalar product with a unit is a bit.
odd_bits-unit : (n c : ℕ) → c < n → odd_bits n (1 <<< c) ≡ true
unfolding odd_bits test_bit xor
odd_bits-unit zero c h = absurd (omega arith)
odd_bits-unit (suc n) zero h = rw (odd_bits-zero n) refl
odd_bits-unit (suc n) (suc c) h =
    let even : 1 <<< suc c % 2 ≡ 0 = omega (arith, pow-suc 2 c) in
    let half : 1 <<< suc c >>> 1 ≡ 1 <<< c = omega (arith, pow-suc 2 c) in
    rw (even, half) (false-xor (odd_bits n (1 <<< c)) ∙ odd_bits-unit n c (omega arith))

pub bit_and-unit : (x c : ℕ) → bit_and x (1 <<< c) ≡ pick (test_bit x c) (1 <<< c)
bit_and-unit x c = test_bit_ext _ _ (λ i.
    rw (test_bit-and i x (1 <<< c), pick_bit (test_bit x c) (1 <<< c) i, test_bit-unit c i)
      (at_one (test_bit x) c i))
  where
    at_one : (f : ℕ → Bool) (c i : ℕ) → (f i && (c == i)) ≡ (f c && (c == i))
    at_one f c i = elim (ℕ_discrete c i) [ yes e ↦ rw e refl | no ne ↦ ground arith ]

pub dot-unit : (x c : ℕ) → c < 64 → dot x (1 <<< c) ≡ test_bit x c
dot-unit x c h = ap (odd_bits 64) (bit_and-unit x c) ∙ by_bit (test_bit x c)
  where
    by_bit : (b : Bool) → odd_bits 64 (pick b (1 <<< c)) ≡ b
    by_bit true = odd_bits-unit 64 c h
    by_bit false = odd_bits-zero 64
