-- ===== src/Slicer/Isd/Weight.antt =====
-- The weight of a row counts the vectors that miss its equation, so a row lighter than the count of
-- the vectors has an equation that one of them satisfies.
use xor_mining.Base.{
  ℕ, zero, suc, ◌+◌, ◌-◌, ◌*◌, ◌/◌, ◌%◌, ◌<◌, ◌≤◌, ◌≢◌, ◌⊎◌, Bool, true, false, not, ◌&&◌, List,
  get_or, ◌≡◌, refl, ap, ap₂, sym, ◌∙◌, arith, if◌then◌else◌, ◌==◌, Bool-cases, inl, inr,
  ℕ_discrete, dec_lt,
}
use xor_mining.Word.{test_bit}
use xor_mining.Slicer.Parity.{dot, dot_comm}
use xor_mining.Slicer.Chain.{popcount}
use xor_mining.Slicer.Echelon.{Grid}
use xor_mining.Slicer.Echelon.Bits.{bit_at, cell}
use xor_mining.Slicer.Echelon.Sound.{IsSound}
use xor_mining.Slicer.Isd.{weight_loop}

-- How many of the `n` indices from `lo` on pass the test.
unfoldable pub ones : (ℕ → Bool) → ℕ → ℕ → ℕ
ones f lo zero = 0
ones f lo (suc n) = (if f lo then 1 else 0) + ones f (lo + 1) n

ones_congr :
    (f g : ℕ → Bool) (lo n : ℕ)
    → ((c : ℕ) → lo ≤ c → c < lo + n → f c ≡ g c)
    → ones f lo n ≡ ones g lo n
unfolding ones
ones_congr f g lo zero h = refl
ones_congr f g lo (suc n) h =
    ap₂ (λ b s. (if b then 1 else 0) + s) (h lo (omega arith) (omega arith))
      (ones_congr f g (lo + 1) n (λ c p q. h c (omega arith) (omega arith)))

ones-add : (f : ℕ → Bool) (lo m n : ℕ) → ones f lo (m + n) ≡ ones f lo m + ones f (lo + m) n
unfolding ones
ones-add f lo zero n =
    let e : 0 + n ≡ n = omega arith in
    let e' : lo + 0 ≡ lo = omega arith in rw (e, e') (omega arith)
ones-add f lo (suc m) n =
    let e : suc m + n ≡ suc (m + n) = omega arith in
    let e' : lo + suc m ≡ lo + 1 + m = omega arith in
    rw (e, e') (omega (arith, ones-add f (lo + 1) m n))

-- One index less.
ones-without :
    (f : ℕ → Bool) (a lo n : ℕ)
    → lo ≤ a
    → a < lo + n
    → f a ≡ true
    → ones f lo n ≡ suc (ones (λ c. f c && not (a == c)) lo n)
unfolding ones
ones-without f a lo zero p q e = absurd (omega arith)
ones-without f a lo (suc n) p q e = elim (ℕ_discrete a lo) [
  | yes same ↦
      ground (
        arith,
        ap f same,
        ones_congr f (λ c. f c && not (a == c)) (lo + 1) n (λ c r s. ground arith),
      )
  | no ne ↦ ground (arith, ones-without f a (lo + 1) n (omega arith) (omega arith) e)
]

-- As many indices as there are values that different indices stand for.
ones-ge :
    (m n : ℕ) (f : ℕ → Bool) (at : ℕ → ℕ)
    → ((v : ℕ) → v < m → at v < n)
    → ((u v : ℕ) → u < m → v < m → at u ≡ at v → u ≡ v)
    → ((v : ℕ) → v < m → f (at v) ≡ true)
    → m ≤ ones f 0 n
ones-ge zero n f at inside apart holds = omega arith
ones-ge (suc m) n f at inside apart holds =
    let less =
      ones-without f (at m) 0 n (omega arith) (omega (arith, inside m (omega arith)))
        (holds m (omega arith)) in
    let rest =
      ones-ge m n (λ c. f c && not (at m == c)) at (λ v h. inside v (omega arith))
        (λ u v hu hv. apart u v (omega arith) (omega arith))
        (λ v h.
          both (f (at v)) (at m) (at v) (holds v (omega arith))
            (λ q. omega (arith, apart m v (omega arith) (omega arith) q))) in
    omega (arith, less, rest)
  where
    both : (b : Bool) (x y : ℕ) → b ≡ true → x ≢ y → (b && not (x == y)) ≡ true
    both b x y p q = ground arith

popcount-ones : (n k x : ℕ) → popcount n x ≡ ones (λ c. test_bit x (c - k)) k n
unfolding popcount ones
popcount-ones zero k x = refl
popcount-ones (suc n) k x =
    let z : k - k ≡ 0 = omega arith in
    ap₂ ◌+◌ (low x ∙ ap (λ b. if test_bit x b then 1 else 0) (sym z)) (
      popcount-ones n (k + 1) (x / 2)
      ∙ ones_congr (λ c. test_bit (x / 2) (c - (k + 1))) (λ c. test_bit x (c - k)) (k + 1) n
          (λ c p q.
            let e : c - k ≡ suc (c - (k + 1)) = omega arith in rw e (unfold test_bit in refl)))
  where
    low : (x : ℕ) → x % 2 ≡ (if test_bit x 0 then 1 else 0)
    low x = unfold test_bit in ground arith

weight_loop-ones :
    (left l i w : ℕ) (T : List ℕ)
    → weight_loop left l i w T ≡ ones (bit_at T w i) (l * 64) (left * 64)
unfolding weight_loop
weight_loop-ones zero l i w T = unfold ones in refl
weight_loop-ones (suc left) l i w T =
    let whole : suc left * 64 ≡ 64 + left * 64 = omega arith in
    let next : l * 64 + 64 ≡ (l + 1) * 64 = omega arith in
    ap₂ ◌+◌
      (popcount-ones 64 (l * 64) (cell T w i l)
        ∙ ones_congr (λ c. test_bit (cell T w i l) (c - l * 64)) (bit_at T w i) (l * 64) 64
            (λ c p q.
              let word : l ≡ c / 64 = omega arith in
              let place : c - l * 64 ≡ c % 64 = omega arith in
              ap₂ (λ a b. test_bit (cell T w i a) b) word place))
      (weight_loop-ones left (l + 1) i w T ∙ ap (λ a. ones (bit_at T w i) a (left * 64)) (sym next))
    ∙ sym (ones-add (bit_at T w i) (l * 64) 64 (left * 64))
    ∙ ap (ones (bit_at T w i) (l * 64)) (sym whole)

find_false :
    (f : ℕ → Bool) (m : ℕ) → ((v : ℕ) × ((v < m) × (f v ≡ false))) ⊎ ((v : ℕ) → v < m → f v ≡ true)
find_false f zero = inr (λ v h. absurd (omega arith))
find_false f (suc m) = elim (Bool-cases (f m)) [
  | inr e ↦ inl (m, (omega arith, e))
  | inl e ↦ elim (find_false f m) [
    | inl (v, (lt, e')) ↦ inl (v, (omega arith, e'))
    | inr all ↦ inr (λ v h. elim (ℕ_discrete v m) [ yes q ↦ rw q e | no nq ↦ all v (omega arith) ])
  ]
]

-- A column for each vector.
column_of :
    (w : ℕ) (V : ℕ → ℕ) (g : Grid) (is : IsSound w V g) (v : ℕ)
    → (c : ℕ) × (v / 64 < w → (c / 64 < w) × (is.place c ≡ v))
column_of w V g is v = elim (dec_lt (v / 64) w) [
  | yes h ↦ let (c, here) = is.order.onto v h in (c, λ q. here)
  | no h ↦ (0, λ q. absurd (h q))
]

-- A row of `m` vectors that is lighter than `m`.
pub weight-lt :
    (w m i : ℕ) (V : ℕ → ℕ) (g : Grid)
    → m ≤ 64 * w
    → i < 64
    → IsSound w V g
    → weight_loop w 0 i w g.T < m
    → (v : ℕ) × ((v < m) × (dot (V v) (get_or g.E i 0) ≡ false))
weight-lt w m i V g le hi is light = elim (find_false (λ v. dot (V v) (get_or g.E i 0)) m) [
  | inl found ↦ found
  | inr all ↦
      let column = column_of w V g is in
      let some_ones : m ≤ ones (bit_at g.T w i) 0 (w * 64) =
        ones-ge m (w * 64) (bit_at g.T w i) (λ v. (column v).0)
          (λ v h. omega (arith, ((column v).1 (omega arith)).0))
          (λ u v hu hv q.
            sym ((column u).1 (omega arith)).1 ∙ ap is.place q ∙ ((column v).1 (omega arith)).1)
          (λ v h.
            let (inside, place) = (column v).1 (omega arith) in
            is.bits i (column v).0 hi inside
            ∙ dot_comm (get_or g.E i 0) (V (is.place (column v).0))
            ∙ ap (λ t. dot (V t) (get_or g.E i 0)) place
            ∙ all v h) in
      absurd (omega (arith, weight_loop-ones w 0 i w g.T, some_ones))
]
