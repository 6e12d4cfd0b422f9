-- ===== src/Partition/Address.antt =====
-- The regions of the scratch space do not overlap, and together fit it.
use native.Mathlib.Nat.{mul-add-div_right, mul-add-mod_self_right, mod-eq_of_lt, div-eq_of_lt}
use xor_mining.Base.{ℕ, ◌+◌, ◌*◌, ◌/◌, ◌%◌, ◌^◌, ◌<◌, ◌≡◌, sym, ap, ◌∙◌, arith}
use xor_mining.Partition.{region}

pub quotient_of : (m a j : ℕ) → j < m → (a * m + j) / m ≡ a
quotient_of m a j h =
    let pos : 0 < m = omega arith in
    let z = div-eq_of_lt h in omega (arith, mul-add-div_right pos a j, z)

pub remainder_of : (m a j : ℕ) → j < m → (a * m + j) % m ≡ j
remainder_of m a j h = mul-add-mod_self_right a m j ∙ mod-eq_of_lt h

pub unique_digits : (m a b j k : ℕ) → j < m → k < m → a * m + j ≡ b * m + k → (a ≡ b) × (j ≡ k)
unique_digits m a b j k hj hk e = (
  sym (quotient_of m a j hj) ∙ ap (λ t. t / m) e ∙ quotient_of m b k hk,
  sym (remainder_of m a j hj) ∙ ap (λ t. t % m) e ∙ remainder_of m b k hk,
)

pub below : (a n j m : ℕ) → a < n → j < m → a * m + j < n * m
below a n j m ha hj = grind arith

-- The place of item `k` of thread `t` in partition `i`.
pub place : ℕ → ℕ → ℕ → ℕ → ℕ → ℕ
place T tsize i t k = tsize * T * i + tsize * t + k

place_as_digits : (T tsize i t k : ℕ) → place T tsize i t k ≡ (i * T + t) * tsize + k
unfolding place
place_as_digits T tsize i t k = omega arith

pub place_unique :
    (T tsize i t k i' t' k' : ℕ)
    → t < T
    → t' < T
    → k < tsize
    → k' < tsize
    → place T tsize i t k ≡ place T tsize i' t' k'
    → (i ≡ i') × (t ≡ t') × (k ≡ k')
place_unique T tsize i t k i' t' k' ht ht' hk hk' e =
    let (outer, e-k) =
      unique_digits tsize (i * T + t) (i' * T + t') k k' hk hk'
        (sym (place_as_digits T tsize i t k) ∙ e ∙ place_as_digits T tsize i' t' k') in
    let (e-i, e-t) = unique_digits T i i' t t' ht ht' outer in (e-i, e-t, e-k)

pub place-lt :
    (T tsize fan_out i t k : ℕ)
    → i < fan_out
    → t < T
    → k < tsize
    → place T tsize i t k < tsize * T * fan_out
place-lt T tsize fan_out i t k hi ht hk =
    rw (place_as_digits T tsize i t k)
      (grind (arith, below (i * T + t) (fan_out * T) k tsize (below i fan_out t T hi ht) hk))

-- While the scratch space has fewer than 2^32 items, the start of a region is not cut off.
pub region-place :
    (T tsize fan_out i t : ℕ)
    → i < fan_out
    → t < T
    → 0 < tsize
    → tsize * T * fan_out < 2 ^ 32
    → region (tsize * T) tsize i t ≡ place T tsize i t 0
unfolding region place
region-place T tsize fan_out i t hi ht pos small =
    let lt : tsize * T * i + tsize * t + 0 < tsize * T * fan_out =
      place-lt T tsize fan_out i t 0 hi ht pos in
    mod-eq_of_lt (omega arith) ∙ omega arith

pub place-suc : (T tsize i t k : ℕ) → place T tsize i t k + 1 ≡ place T tsize i t (k + 1)
unfolding place
place-suc T tsize i t k = omega arith

pub place-from : (T tsize i t j : ℕ) → place T tsize i t 0 + j ≡ place T tsize i t j
unfolding place
place-from T tsize i t j = omega arith
