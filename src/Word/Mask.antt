-- ===== src/Word/Mask.antt =====
-- `&` with a mask of low ones is a remainder.
use native.Mathlib.Nat.{pow-succ', one-le-pow}
use xor_mining.Base.{
  ℕ, zero, suc, ◌-◌, ◌/◌, ◌%◌, ◌^◌, bit_and, Bool, true, false, ◌≡◌, refl, arith, ◌&&◌, ltb,
}
use xor_mining.Word.{test_bit, ◌>>>◌}
use xor_mining.Word.Bits.{test_bit-and, test_bit_ext, test_bit-zero, test_bit-mod, test_bit-shr}

and_comm : (a b : Bool) → (a && b) ≡ (b && a)
and_comm a b = ground arith

and_false : (b : Bool) → (b && false) ≡ false
and_false true = refl
and_false false = refl

-- The bits of a mask of `k` ones.
test_bit-ones : (k i : ℕ) → test_bit (2 ^ k - 1) i ≡ ltb i k
unfolding test_bit
test_bit-ones zero i = rw (test_bit-zero i) (ground arith)
test_bit-ones (suc k) zero = ground (arith, pow-succ' 2 k, one-le-pow k 2)
test_bit-ones (suc k) (suc i) =
    let e : (2 ^ suc k - 1) / 2 ≡ 2 ^ k - 1 = omega (arith, pow-succ' 2 k) in
    rw (e, test_bit-ones k i) (ground arith)

-- `x & (2^k - 1)` keeps the low `k` bits.
pub bit_and_mask : (k x : ℕ) → bit_and x (2 ^ k - 1) ≡ x % 2 ^ k
bit_and_mask k x = test_bit_ext _ _ bits
  where
    bits : (i : ℕ) → test_bit (bit_and x (2 ^ k - 1)) i ≡ test_bit (x % 2 ^ k) i
    bits i =
        rw (test_bit-and i x (2 ^ k - 1), test_bit-mod k i x, test_bit-ones k i)
          (and_comm (test_bit x i) (ltb i k))

pub bit_and-zero : (x : ℕ) → bit_and x 0 ≡ 0
bit_and-zero x =
    test_bit_ext _ _ (λ i. rw (test_bit-and i x 0, test_bit-zero i) (and_false (test_bit x i)))

pub bit_and-shr : (a b k : ℕ) → bit_and a b >>> k ≡ bit_and (a >>> k) (b >>> k)
bit_and-shr a b k = test_bit_ext _ _ (λ i. simp (test_bit-shr, test_bit-and))
