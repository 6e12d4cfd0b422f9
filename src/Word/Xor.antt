-- ===== src/Word/Xor.antt =====
-- The laws of exclusive or.
use native.Mathlib.Nat.{pow-suc, mul_assoc}
use xor_mining.Base.{
  ℕ, zero, suc, ◌+◌, ◌*◌, ◌/◌, ap₂, ◌^◌, ◌<◌, bit_xor, ◌≡◌, ap, arith, Bool, false, xor, ◌∙◌, sym,
  ◌↔◌,
}
use xor_mining.Word.{test_bit, ◌>>>◌}
use xor_mining.Word.Step.{bit_xor_step}
use xor_mining.Word.Bits.{
  test_bit-zero, test_bit_ext, test_bit-xor, test_bit-shr, test_bit_above, lt_of_test_bit,
}

xor_comm : (a b : Bool) → xor a b ≡ xor b a
unfolding xor
xor_comm a b = ground arith

xor_assoc : (a b c : Bool) → xor (xor a b) c ≡ xor a (xor b c)
unfolding xor
xor_assoc a b c = ground arith

xor_self : (a : Bool) → xor a a ≡ false
unfolding xor
xor_self a = ground arith

xor-false : (a : Bool) → xor a false ≡ a
unfolding xor
xor-false a = ground arith

pub bit_xor_comm : (a b : ℕ) → bit_xor a b ≡ bit_xor b a
bit_xor_comm a b =
    test_bit_ext _ _ (λ i. rw (test_bit-xor i a b, test_bit-xor i b a) (xor_comm _ _))

pub bit_xor_assoc : (a b c : ℕ) → bit_xor (bit_xor a b) c ≡ bit_xor a (bit_xor b c)
bit_xor_assoc a b c =
    test_bit_ext _ _
      (λ i. simp (test_bit-xor) (xor_assoc (test_bit a i) (test_bit b i) (test_bit c i)))

pub bit_xor_self : (a : ℕ) → bit_xor a a ≡ 0
bit_xor_self a =
    test_bit_ext _ _ (λ i. simp (test_bit-xor, test_bit-zero) (xor_self (test_bit a i)))

pub bit_xor-zero : (a : ℕ) → bit_xor a 0 ≡ a
bit_xor-zero a =
    test_bit_ext _ _ (λ i. simp (test_bit-xor, test_bit-zero) (xor-false (test_bit a i)))

pub zero-bit_xor : (a : ℕ) → bit_xor 0 a ≡ a
zero-bit_xor a = bit_xor_comm 0 a ∙ bit_xor-zero a

-- Adding the same word twice changes nothing.
pub bit_xor_cancel : (a b : ℕ) → bit_xor (bit_xor a b) b ≡ a
bit_xor_cancel a b = rw (bit_xor_assoc a b b, bit_xor_self b) (bit_xor-zero a)

pub bit_xor_cancel_left : (a b : ℕ) → bit_xor a (bit_xor a b) ≡ b
bit_xor_cancel_left a b = rw (← bit_xor_assoc a a b, bit_xor_self a) (zero-bit_xor b)

pub bit_xor_eq_zero_iff : (a b : ℕ) → (bit_xor a b ≡ 0) ↔ (a ≡ b)
bit_xor_eq_zero_iff a b = (
  λ e. sym (bit_xor_cancel a b) ∙ ap (λ t. bit_xor t b) e ∙ zero-bit_xor b,
  λ e. rw e (bit_xor_self b),
)

-- Exchange of the two middle words.
pub bit_xor_swap :
    (a b c d : ℕ) → bit_xor (bit_xor a b) (bit_xor c d) ≡ bit_xor (bit_xor a c) (bit_xor b d)
bit_xor_swap a b c d =
    test_bit_ext _ _
      (λ i. simp (test_bit-xor) (swap (test_bit a i) (test_bit b i) (test_bit c i) (test_bit d i)))
  where
    swap : (p q r s : Bool) → xor (xor p q) (xor r s) ≡ xor (xor p r) (xor q s)
    swap p q r s = unfold xor in ground arith

pub bit_xor-shr : (a b k : ℕ) → bit_xor a b >>> k ≡ bit_xor (a >>> k) (b >>> k)
bit_xor-shr a b k = test_bit_ext _ _ (λ i. simp (test_bit-shr, test_bit-xor))

pub bit_xor-lt : (k a b : ℕ) → a < 2 ^ k → b < 2 ^ k → bit_xor a b < 2 ^ k
bit_xor-lt k a b p q = lt_of_test_bit k (bit_xor a b) (λ i h.
    rw (test_bit-xor i a b, test_bit_above k i a p h, test_bit_above k i b q h) (xor-false false))

-- Sums of doubled numbers, and of one binary digit with a multiple of the next place.
pub bit_xor-double : (a b : ℕ) → bit_xor (a * 2) (b * 2) ≡ bit_xor a b * 2
bit_xor-double a b =
    let e0 : a * 2 / 2 ≡ a = omega arith in
    let e1 : b * 2 / 2 ≡ b = omega arith in bit_xor_step (a * 2) (b * 2) ∙ rw (e0, e1) (omega arith)

double_pow : (a k : ℕ) → a * 2 ^ suc k ≡ a * 2 ^ k * 2
double_pow a k = ap (λ u. a * u) (pow-suc 2 k) ∙ sym (mul_assoc a (2 ^ k) 2)

pub bit_xor-digit :
    (k d y : ℕ) → d < 2 → bit_xor (d * 2 ^ k) (y * 2 ^ (k + 1)) ≡ (d + y * 2) * 2 ^ k
bit_xor-digit zero d y h =
    let e0 : d * 1 / 2 ≡ 0 = omega arith in
    let e1 : y * 2 / 2 ≡ y = omega arith in
    bit_xor_step (d * 1) (y * 2) ∙ rw (e0, e1, zero-bit_xor y) (omega arith)
bit_xor-digit (suc k) d y h =
    let e0 : d * 2 ^ suc k ≡ d * 2 ^ k * 2 = double_pow d k in
    let e1 : y * 2 ^ (suc k + 1) ≡ y * 2 ^ (k + 1) * 2 =
      let e : suc k + 1 ≡ suc (k + 1) = omega arith in
      ap (λ u. y * 2 ^ u) e ∙ double_pow y (k + 1) in
    ap₂ bit_xor e0 e1
    ∙ bit_xor-double (d * 2 ^ k) (y * 2 ^ (k + 1))
    ∙ ap (λ u. u * 2) (bit_xor-digit k d y h)
    ∙ sym (double_pow (d + y * 2) k)

-- A multiple of a power of two and a smaller number have no digit in common.
pub bit_xor-low : (k a r : ℕ) → r < 2 ^ k → bit_xor (a * 2 ^ k) r ≡ a * 2 ^ k + r
bit_xor-low zero a r h = let e : r ≡ 0 = omega arith in rw e (bit_xor-zero (a * 1) ∙ omega arith)
bit_xor-low (suc k) a r h =
    let e : a * 2 ^ suc k ≡ a * 2 ^ k * 2 = double_pow a k in
    let half : a * 2 ^ k * 2 / 2 ≡ a * 2 ^ k = omega arith in
    let ih = bit_xor-low k a (r / 2) (omega (arith, pow-suc 2 k)) in
    rw e (bit_xor_step (a * 2 ^ k * 2) r ∙ rw (half, ih) (omega arith))

pub bit_xor-shl : (k a b : ℕ) → bit_xor (a * 2 ^ k) (b * 2 ^ k) ≡ bit_xor a b * 2 ^ k
bit_xor-shl zero a b =
    let e0 : a * 1 ≡ a = omega arith in
    let e1 : b * 1 ≡ b = omega arith in rw (e0, e1) (omega arith)
bit_xor-shl (suc k) a b =
    ap₂ bit_xor (double_pow a k) (double_pow b k)
    ∙ bit_xor-double (a * 2 ^ k) (b * 2 ^ k)
    ∙ ap (λ u. u * 2) (bit_xor-shl k a b)
    ∙ sym (double_pow (bit_xor a b) k)

-- Sums digit by digit, in base `2 ^ k`.
pub bit_xor-base :
    (k a b r s : ℕ)
    → r < 2 ^ k
    → s < 2 ^ k
    → bit_xor (a * 2 ^ k + r) (b * 2 ^ k + s) ≡ bit_xor a b * 2 ^ k + bit_xor r s
bit_xor-base k a b r s hr hs =
    ap₂ bit_xor (sym (bit_xor-low k a r hr)) (sym (bit_xor-low k b s hs))
    ∙ bit_xor_swap (a * 2 ^ k) r (b * 2 ^ k) s
    ∙ ap (λ u. bit_xor u (bit_xor r s)) (bit_xor-shl k a b)
    ∙ bit_xor-low k (bit_xor a b) (bit_xor r s) (bit_xor-lt k r s hr hs)
