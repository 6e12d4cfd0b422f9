-- ===== src/Word/Bits.antt =====
-- A word is determined by its bits, and each operation is described by the bits of its result.
use native.Mathlib.Nat.{
  pow-succ', div-div-eq-div-mul, div-add-mod, mod-lt, add-mul-mod_self_left, mod-eq_of_lt,
  one-le-pow, mul_left_comm, div-eq_of_lt, lt-div-mul-add,
}
use xor_mining.Base.{
  ℕ, zero, suc, ◌+◌, ◌-◌, ◌*◌, ◌/◌, ◌%◌, ◌^◌, ◌≤◌, ◌<◌, bit_and, bit_or, bit_xor, ◌≡◌, refl, ap,
  arith, false, xor, ◌&&◌, ◌||◌, ltb, ◌∙◌, sym,
}
use xor_mining.Word.Step.{bit_and_step, bit_or_step, bit_xor_step}
use xor_mining.Word.{test_bit, ◌>>>◌, ◌<<<◌}

pub test_bit-zero : (i : ℕ) → test_bit 0 i ≡ false
unfolding test_bit
test_bit-zero zero = refl
test_bit-zero (suc i) = test_bit-zero i

test_bit_ext_below : (n x y : ℕ) → x ≤ n → y ≤ n → ((i : ℕ) → test_bit x i ≡ test_bit y i) → x ≡ y
unfolding test_bit
test_bit_ext_below zero x y p q h = omega arith
test_bit_ext_below (suc n) x y p q h =
    let e = test_bit_ext_below n (x / 2) (y / 2) (omega arith) (omega arith) (λ i. h (suc i)) in
    ground (arith, h 0, e)

-- Two words with the same bits are one.
pub test_bit_ext : (x y : ℕ) → ((i : ℕ) → test_bit x i ≡ test_bit y i) → x ≡ y
test_bit_ext x y h = test_bit_ext_below (x + y) x y (omega arith) (omega arith) h

pub test_bit-xor : (i a b : ℕ) → test_bit (bit_xor a b) i ≡ xor (test_bit a i) (test_bit b i)
unfolding test_bit xor
test_bit-xor zero a b = ground (arith, bit_xor_step a b)
test_bit-xor (suc i) a b =
    let e : bit_xor a b / 2 ≡ bit_xor (a / 2) (b / 2) = omega (arith, bit_xor_step a b) in
    rw e (test_bit-xor i (a / 2) (b / 2))

pub test_bit-and : (i a b : ℕ) → test_bit (bit_and a b) i ≡ (test_bit a i && test_bit b i)
unfolding test_bit
test_bit-and zero a b = ground (arith, bit_and_step a b)
test_bit-and (suc i) a b =
    let e : bit_and a b / 2 ≡ bit_and (a / 2) (b / 2) = omega (arith, bit_and_step a b) in
    rw e (test_bit-and i (a / 2) (b / 2))

pub test_bit-or : (i a b : ℕ) → test_bit (bit_or a b) i ≡ (test_bit a i || test_bit b i)
unfolding test_bit
test_bit-or zero a b = ground (arith, bit_or_step a b)
test_bit-or (suc i) a b =
    let e : bit_or a b / 2 ≡ bit_or (a / 2) (b / 2) = omega (arith, bit_or_step a b) in
    rw e (test_bit-or i (a / 2) (b / 2))

shl-half : (x k : ℕ) → x * 2 ^ suc k / 2 ≡ x * 2 ^ k
shl-half x k = omega (arith, pow-succ' 2 k, ap (λ (t : ℕ). x * t) (pow-succ' 2 k))

shift_one : (x k : ℕ) → x / 2 ^ suc k ≡ x / 2 / 2 ^ k
shift_one x k = rw (pow-succ', ← div-div-eq-div-mul) refl

pub test_bit-shr : (k i x : ℕ) → test_bit (x >>> k) i ≡ test_bit x (k + i)
unfolding test_bit
test_bit-shr zero i x =
    let e : x / 1 ≡ x = omega arith in let e' : 0 + i ≡ i = omega arith in rw (e, e')
test_bit-shr (suc k) i x =
    let e : suc k + i ≡ suc (k + i) = omega arith in
    rw (shift_one x k, e) (test_bit-shr k i (x / 2))

-- The lowest digit of a remainder, and its other digits.
mod_two_mul : (x m : ℕ) → 0 < m → x % (2 * m) ≡ x / 2 % m * 2 + x % 2
mod_two_mul x m h =
    let e : x ≡ x / 2 % m * 2 + x % 2 + 2 * m * (x / 2 / m) =
      omega (arith, div-add-mod (x / 2) m, ap (λ (t : ℕ). 2 * t) (div-add-mod (x / 2) m)) in
    let small : x / 2 % m * 2 + x % 2 < 2 * m = omega (arith, mod-lt (x / 2) h) in
    ap (λ t. t % (2 * m)) e
    ∙ add-mul-mod_self_left (x / 2 % m * 2 + x % 2) (2 * m) (x / 2 / m)
    ∙ mod-eq_of_lt small

pub test_bit-mod : (k i x : ℕ) → test_bit (x % 2 ^ k) i ≡ (ltb i k && test_bit x i)
unfolding test_bit
test_bit-mod zero i x =
    let e : x % 1 ≡ 0 = omega arith in rw e (rw (test_bit-zero i) (ground arith))
test_bit-mod (suc k) zero x =
    let e = mod_two_mul x (2 ^ k) (one-le-pow k 2 (omega arith)) in
    rw (pow-succ' 2 k) (ground (arith, e))
test_bit-mod (suc k) (suc i) x =
    let e = mod_two_mul x (2 ^ k) (one-le-pow k 2 (omega arith)) in
    let half : x % (2 * 2 ^ k) / 2 ≡ x / 2 % 2 ^ k = omega (arith, e) in
    rw (pow-succ' 2 k, half, test_bit-mod k i (x / 2)) (ground arith)

-- Shifting left by `k` puts `k` zeros below.
pub test_bit-shl_low : (k i x : ℕ) → i < k → test_bit (x <<< k) i ≡ false
unfolding test_bit
test_bit-shl_low zero i x h = absurd (omega arith)
test_bit-shl_low (suc k) zero x h =
    rw (pow-succ' 2 k) (ground (arith, ap (λ (t : ℕ). t % 2) (mul_left_comm x 2 (2 ^ k))))
test_bit-shl_low (suc k) (suc i) x h = rw (shl-half x k) (test_bit-shl_low k i x (omega arith))

pub test_bit-shl : (k i x : ℕ) → test_bit (x <<< k) (k + i) ≡ test_bit x i
unfolding test_bit
test_bit-shl zero i x =
    let e : x * 1 ≡ x = omega arith in let e' : 0 + i ≡ i = omega arith in rw (e, e')
test_bit-shl (suc k) i x =
    let e : suc k + i ≡ suc (k + i) = omega arith in
    ap (test_bit (x <<< suc k)) e ∙ ap (λ t. test_bit t (k + i)) (shl-half x k) ∙ test_bit-shl k i x

-- A word fits `k` bits exactly when its bits from `k` on are zero.
pub test_bit_above : (k i x : ℕ) → x < 2 ^ k → k ≤ i → test_bit x i ≡ false
test_bit_above k i x h le =
    let e : i ≡ k + (i - k) = omega arith in
    rw (e, ← test_bit-shr k (i - k) x, div-eq_of_lt h) (test_bit-zero (i - k))

pub lt_of_test_bit : (k x : ℕ) → ((i : ℕ) → k ≤ i → test_bit x i ≡ false) → x < 2 ^ k
lt_of_test_bit k x h =
    let e : x / 2 ^ k ≡ 0 =
      test_bit_ext (x / 2 ^ k) 0
        (λ i. test_bit-shr k i x ∙ h (k + i) (omega arith) ∙ sym (test_bit-zero i)) in
    let f = lt-div-mul-add {a = x} (one-le-pow k 2 (omega arith)) in
    omega (arith, f, ap (λ (t : ℕ). t * 2 ^ k) e)
