-- ===== src/Gemv/Identity.antt =====
-- The identity matrix, whose product gives the vector back.
use native.Mathlib.Nat.{
  pow-succ', pow-le-pow_right, mod-eq_of_lt, one-le-pow, add-mul-mod_self_left, mul_assoc, mod-lt,
  div-add-mod,
}
use xor_mining.Base.{
  ℕ, zero, suc, ◌+◌, ◌*◌, ◌/◌, ◌%◌, ◌^◌, ◌≤◌, ◌<◌, ◌≡◌, sym, ap, ap₂, ◌∙◌, arith, bit_xor, List, [],
  ◌∷◌, get_or, length, refl, Bool-cases, inl, inr, ◌==◌,
}
use xor_mining.Word.{◌>>>◌, test_bit}
use xor_mining.Word.Xor.{bit_xor-digit}
use xor_mining.Gemv.{naive_gemv}
use xor_mining.Gemv.Linear.{pick, combine}
use xor_mining.Gemv.Naive.{IsMatrix, naive_gemv-combine}

-- The rows `1 << lo` to `1 << (lo + n - 1)`
unfoldable pub unit_rows : ℕ → ℕ → List ℕ
unit_rows zero lo = []
unit_rows (suc n) lo = 2 ^ lo ∷ unit_rows n (lo + 1)

abbrev pub identity : List ℕ
identity = unit_rows 64 0

pub unit_rows-get_or : (n lo k : ℕ) → k < n → get_or (unit_rows n lo) k 0 ≡ 2 ^ (lo + k)
unfolding unit_rows
unit_rows-get_or zero lo k h = absurd (omega arith)
unit_rows-get_or (suc n) lo zero h = let e : lo + 0 ≡ lo = omega arith in rw e
unit_rows-get_or (suc n) lo (suc k) h =
    let e : lo + suc k ≡ lo + 1 + k = omega arith in
    rw e (unit_rows-get_or n (lo + 1) k (omega arith))

row_lt : (lo : ℕ) → lo < 64 → 2 ^ lo < 2 ^ 64
row_lt lo h =
    let le : 2 ^ lo ≤ 2 ^ 63 = pow-le-pow_right (omega arith) {j = 63} (omega arith) in omega arith

unit_rows-IsMatrix : (n lo i : ℕ) → lo + n ≤ 64 → get_or (unit_rows n lo) i 0 < 2 ^ 64
unfolding unit_rows
unit_rows-IsMatrix zero lo i h = one-le-pow 64 2 (omega arith)
unit_rows-IsMatrix (suc n) lo zero h = row_lt lo (omega arith)
unit_rows-IsMatrix (suc n) lo (suc i) h = unit_rows-IsMatrix n (lo + 1) i (omega arith)

pub identity-IsMatrix : IsMatrix identity
identity-IsMatrix i = unit_rows-IsMatrix 64 0 i (omega arith)

pick_bit : (x m : ℕ) → pick (test_bit x 0) m ≡ (x % 2) * m
unfolding test_bit
pick_bit x m = elim (Bool-cases ((x % 2) == 1)) [
  | inl e ↦ let one : x % 2 ≡ 1 = ground arith in rw (e, one) (omega arith)
  | inr e ↦ let none : x % 2 ≡ 0 = ground arith in rw (e, none) (omega arith)
]

zero_less : (n : ℕ) → 0 + n ≡ n
zero_less n = omega arith

-- The lowest digit and the rest of a remainder.
mod-double : (x n : ℕ) → x % 2 ^ suc n ≡ x % 2 + (x / 2 % 2 ^ n) * 2
mod-double x n =
    let P = 2 ^ n in
    let q = x / 2 / P in
    let pos : 0 < P = one-le-pow n 2 (omega arith) in
    let small : x / 2 % P < P = mod-lt (x / 2) pos in
    let whole : x ≡ x % 2 + (x / 2 % P) * 2 + 2 * P * q =
      omega (arith, div-add-mod (x / 2) P, mul_assoc 2 P q) in
    rw (pow-succ' 2 n) (
      ap (λ u. u % (2 * P)) whole
      ∙ add-mul-mod_self_left (x % 2 + (x / 2 % P) * 2) (2 * P) q
      ∙ mod-eq_of_lt (omega arith))

pub combine-identity : (n lo x : ℕ) → lo + n ≤ 64 → combine identity lo n x ≡ (x % 2 ^ n) * 2 ^ lo
unfolding combine
combine-identity zero lo x h = let e : x % 1 ≡ 0 = omega arith in rw e (omega arith)
combine-identity (suc n) lo x h =
    let row : get_or identity lo 0 ≡ 2 ^ lo =
      unit_rows-get_or 64 0 lo (omega arith) ∙ ap (λ u. 2 ^ u) (zero_less lo) in
    ap₂ bit_xor (ap (pick (test_bit x 0)) row ∙ pick_bit x (2 ^ lo))
      (combine-identity n (lo + 1) (x >>> 1) (omega arith))
    ∙ bit_xor-digit lo (x % 2) (x / 2 % 2 ^ n) (omega arith)
    ∙ ap (λ u. u * 2 ^ lo) (sym (mod-double x n))

pub naive_gemv-identity : (x : ℕ) → x < 2 ^ 64 → naive_gemv x identity ≡ x
naive_gemv-identity x h =
    naive_gemv-combine x identity identity-IsMatrix
    ∙ combine-identity 64 0 x (omega arith)
    ∙ ap (λ u. u * 1) (mod-eq_of_lt h)
    ∙ omega arith

length-unit_rows : (n lo : ℕ) → length (unit_rows n lo) ≡ n
unfolding unit_rows
length-unit_rows zero lo = refl
length-unit_rows (suc n) lo = ap suc (length-unit_rows n (lo + 1))

pub length-identity : length identity ≡ 64
length-identity = length-unit_rows 64 0
