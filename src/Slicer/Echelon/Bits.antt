-- ===== src/Slicer/Echelon/Bits.antt =====
-- The bits of a matrix of rows of `w` words, by row and column, and what a write to a word does to
-- them.
use native.Mathlib.Nat.{pow-le-pow_right, mod-eq_of_lt}
use xor_mining.Base.{
  ℕ, ◌+◌, ◌*◌, ◌/◌, ◌%◌, ◌^◌, ◌<◌, ◌≤◌, ◌≢◌, bit_xor, Bool, true, false, xor, ◌&&◌, List, get_or,
  set, length, ◌≡◌, ap, ap₂, sym, ◌∙◌, arith, get_or-set, if◌then◌else◌, ◌==◌, ℕ_discrete,
}
use xor_mining.Word.{◌>>>◌, ◌<<<◌, u64, test_bit}
use xor_mining.Word.Bits.{test_bit-xor, test_bit-zero, test_bit-shr}
use xor_mining.Word.Mask.{bit_and_mask}
use xor_mining.Gemv.Linear.{pick}
use xor_mining.Partition.Address.{unique_digits, below}
use xor_mining.Slicer.Rows.{test_bit-unit, eq_true, eq_false}
use xor_mining.Slicer.Echelon.{delta_of}

-- Word `l` of row `r`, and the bit at row `r` and column `c`.
abbrev pub cell : List ℕ → ℕ → ℕ → ℕ → ℕ
cell T w r l = get_or T (r * w + l) 0

abbrev pub bit_at : List ℕ → ℕ → ℕ → ℕ → Bool
bit_at T w r c = test_bit (cell T w r (c / 64)) (c % 64)

pub inside : (w r l : ℕ) → r < 64 → l < w → r * w + l < 64 * w
inside w r l hr hl = below r 64 l w hr hl

-- A read of a word behind a write to a word.
pub cell-set :
    (T : List ℕ) (w r l r' l' v : ℕ)
    → length T ≡ 64 * w
    → r < 64
    → l < w
    → l' < w
    → cell (set T (r * w + l) v) w r' l' ≡ (if (r == r') && (l == l') then v else cell T w r' l')
cell-set T w r l r' l' v long hr hl hl' =
    get_or-set T (r * w + l) (r' * w + l') v 0 (omega (arith, inside w r l hr hl))
    ∙ ap (λ b. if b then v else cell T w r' l') same
  where
    both : (a b c d : ℕ) → a ≡ b → c ≡ d → ((a == b) && (c == d)) ≡ true
    both a b c d p q = ground arith

    not_both : (a b c d : ℕ) → (a ≡ b → c ≢ d) → ((a == b) && (c == d)) ≡ false
    not_both a b c d h = ground arith

    differ : (a b : ℕ) → a ≢ b → (a == b) ≡ false
    differ a b h = ground arith

    equal : (a b : ℕ) → a ≡ b → (a == b) ≡ true
    equal a b h = ground arith

    same : ((r * w + l) == (r' * w + l')) ≡ ((r == r') && (l == l'))
    same = elim (ℕ_discrete (r * w + l) (r' * w + l')) [
      | yes e ↦
          let (p, q) = unique_digits w r r' l l' hl hl' e in equal _ _ e ∙ sym (both r r' l l' p q)
      | no ne ↦ differ _ _ ne ∙ sym (not_both r r' l l' (λ p q. ne (ap₂ (λ a b. a * w + b) p q)))
    ]

-- The difference of two bits as a number.
pub delta_of-pick : (a j b l : ℕ) → delta_of a j b l ≡ pick (xor (test_bit a j) (test_bit b l)) 1
unfolding delta_of
delta_of-pick a j b l =
    bit_and_mask 1 (bit_xor (a >>> j) (b >>> l))
    ∙ low_bit (bit_xor (a >>> j) (b >>> l))
    ∙ ap (λ u. pick u 1)
        (test_bit-xor 0 (a >>> j) (b >>> l)
          ∙ ap₂ xor (test_bit-shr j 0 a ∙ ap (test_bit a) (plus_zero j))
              (test_bit-shr l 0 b ∙ ap (test_bit b) (plus_zero l)))
  where
    plus_zero : (n : ℕ) → n + 0 ≡ n
    plus_zero n = omega arith

    low_bit : (x : ℕ) → x % 2 ^ 1 ≡ pick (test_bit x 0) 1
    low_bit x = unfold test_bit in ground arith

-- A word with a unit added, or not.
pub shifted-bit :
    (d : Bool) (b c : ℕ) → b < 64 → test_bit (u64 (pick d 1 <<< b)) c ≡ (d && (b == c))
shifted-bit false b c h =
    let z : 0 <<< b % 2 ^ 64 ≡ 0 = omega arith in ap (λ u. test_bit u c) z ∙ test_bit-zero c
shifted-bit true b c h = ap (λ u. test_bit u c) (mod-eq_of_lt (small b h)) ∙ test_bit-unit b c
  where
    small : (b : ℕ) → b < 64 → 1 <<< b < 2 ^ 64
    small b h =
        let le : 2 ^ b ≤ 2 ^ 63 = pow-le-pow_right (omega arith) {j = 63} (omega arith) in
        omega arith

-- The place of a column.
pub column_digits : (p c : ℕ) → ((p / 64 == c / 64) && (p % 64 == c % 64)) ≡ (p == c)
column_digits p c = elim (ℕ_discrete p c) [ yes e ↦ rw e (ground arith) | no ne ↦ ground arith ]

-- A bit of one word is toggled, or not.
pub bit_at-toggle :
    (T : List ℕ) (w r p r' c : ℕ) (d : Bool)
    → length T ≡ 64 * w
    → r < 64
    → p / 64 < w
    → c / 64 < w
    → bit_at
        (set T (r * w + p / 64) (bit_xor (cell T w r (p / 64)) (u64 (pick d 1 <<< (p % 64)))))
        w
        r'
        c
      ≡ xor (bit_at T w r' c) (d && ((r == r') && (p == c)))
bit_at-toggle T w r p r' c d long hr hp hc =
    ap (λ u. test_bit u (c % 64)) (cell-set T w r (p / 64) r' (c / 64) _ long hr hp hc)
    ∙ elim (ℕ_discrete r r') [
      | yes e ↦ elim (ℕ_discrete (p / 64) (c / 64)) [
        | yes q ↦
            rw (e, q, eq_true r', eq_true (c / 64))
              (test_bit-xor (c % 64) (cell T w r' (c / 64)) _
                ∙ ap (xor (bit_at T w r' c)) (
                    shifted-bit d (p % 64) (c % 64) (omega arith)
                    ∙ ap (λ u. d && u) (ground (arith, column_digits p c))))
        | no nq ↦
            rw (eq_false (p / 64) (c / 64) nq)
              (ground (arith, column_digits p c, keep (bit_at T w r' c) d))
      ]
      | no ne ↦ rw (eq_false r r' ne) (sym (keep (bit_at T w r' c) d))
    ]
  where
    keep : (b d : Bool) → xor b (d && false) ≡ b
    keep b d = unfold xor in ground arith
