-- ===== src/Word/Step.antt =====
-- One equation for each bit operation of C: the sum of the operation on the halves, doubled, and
-- the operation on the last digits.
use Prim.Native.Nat.{digits, differ, bitwise, bit_and-bitwise, bit_or-bitwise, bit_xor-bitwise}
use xor_mining.Base.{
  ℕ, zero, suc, ◌+◌, ◌-◌, ◌*◌, ◌/◌, ◌%◌, ◌≤◌, ◌<◌, bit_and, bit_or, bit_xor, min, max, ◌≡◌, refl,
  ap, ◌∙◌, arith,
}

-- The library's recursion counts rounds; rounds past the first number change nothing.
module _ (keep : ℕ → ℕ) (op : ℕ → ℕ → ℕ) where
  one_round_more :
      (rounds x y : ℕ) → x ≤ rounds → digits keep op (suc rounds) x y ≡ digits keep op rounds x y
  one_round_more zero zero y le = refl
  one_round_more zero (suc x) y le = absurd (omega arith)
  one_round_more (suc rounds) zero y le = refl
  one_round_more (suc rounds) (suc x) y le =
      ap (λ low. low * 2 + op (suc x % 2) (y % 2))
        (one_round_more rounds (suc x / 2) (y / 2) (omega arith))

  rounds_more :
      (extra rounds x y : ℕ)
      → x ≤ rounds
      → digits keep op (extra + rounds) x y ≡ digits keep op rounds x y
  rounds_more zero rounds x y le =
      let e : 0 + rounds ≡ rounds = omega arith in ap (λ n. digits keep op n x y) e
  rounds_more (suc extra) rounds x y le =
      let e : suc extra + rounds ≡ suc (extra + rounds) = omega arith in
      ap (λ n. digits keep op n x y) e
      ∙ one_round_more (extra + rounds) x y (omega arith)
      ∙ rounds_more extra rounds x y le

  bitwise_halves :
      (x y : ℕ)
      → bitwise keep op (suc x) y ≡ bitwise keep op (suc x / 2) (y / 2) * 2 + op (suc x % 2) (y % 2)
  bitwise_halves x y =
      let half = suc x / 2 in
      let e : x ≡ (x - half) + half = omega arith in
      ap (λ low. low * 2 + op (suc x % 2) (y % 2))
        (ap (λ n. digits keep op n half (y / 2)) e
          ∙ rounds_more (x - half) half half (y / 2) (omega arith))

pub bit_xor_step : (x y : ℕ) → bit_xor x y ≡ bit_xor (x / 2) (y / 2) * 2 + (x % 2 + y % 2) % 2
bit_xor_step zero y = simp bit_xor-bitwise (omega arith)
bit_xor_step (suc x) y = simp bit_xor-bitwise (
    bitwise_halves (λ k. k) differ x y
    ∙ ap (λ d. bitwise (λ k. k) differ (suc x / 2) (y / 2) * 2 + d)
        (last (suc x % 2) (y % 2) (omega arith) (omega arith)))
  where
    last : (d e : ℕ) → d < 2 → e < 2 → differ d e ≡ (d + e) % 2
    last zero e hd he = omega arith
    last (suc zero) zero hd he = refl
    last (suc zero) (suc zero) hd he = refl
    last (suc zero) (suc (suc e)) hd he = absurd (omega arith)
    last (suc (suc d)) e hd he = absurd (omega arith)

pub bit_and_step : (x y : ℕ) → bit_and x y ≡ bit_and (x / 2) (y / 2) * 2 + min (x % 2) (y % 2)
bit_and_step zero y = simp bit_and-bitwise (omega arith)
bit_and_step (suc x) y = simp bit_and-bitwise (bitwise_halves (λ k. 0) min x y)

pub bit_or_step : (x y : ℕ) → bit_or x y ≡ bit_or (x / 2) (y / 2) * 2 + max (x % 2) (y % 2)
bit_or_step zero y = simp bit_or-bitwise (omega arith)
bit_or_step (suc x) y = simp bit_or-bitwise (bitwise_halves (λ k. k) max x y)
