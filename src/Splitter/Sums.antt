-- ===== src/Splitter/Sums.antt =====
-- Sums over the processes of preprocessing/splitter.c of what each of them holds.
use xor_mining.Base.{
  ℕ, zero, suc, ◌+◌, ◌<◌, ◌≤◌, ◌≡◌, refl, ap, ap₂, arith, inl, inr, ◌==◌, ==_iff, Bool-cases, false,
}
use xor_mining.Splitter.{put}

unfoldable pub total : (ℕ → ℕ) → ℕ → ℕ
total f zero = 0
total f (suc n) = total f n + f n

pub total-ext : (f g : ℕ → ℕ) (n : ℕ) → ((p : ℕ) → p < n → f p ≡ g p) → total f n ≡ total g n
unfolding total
total-ext f g zero h = refl
total-ext f g (suc n) h =
    ap₂ (λ a b. a + b) (total-ext f g n (λ p lt. h p (omega arith))) (h n (omega arith))

pub total_part : (f : ℕ → ℕ) (n p : ℕ) → p < n → f p ≤ total f n
unfolding total
total_part f zero p lt = absurd (omega arith)
total_part f (suc n) p lt = elim (Bool-cases (p == n)) [
  | inl e ↦ let same : p ≡ n = (==_iff _ _).0 e in rw same (omega arith)
  | inr e ↦ let rest = total_part f n p (ground (arith, e)) in omega arith
]

pub put_here : {A : Type 0} (f : ℕ → A) (q : ℕ) (v : A) → put f q v q ≡ v
put_here f q v = rw ((==_iff q q).1 refl) refl

pub put_else : {A : Type 0} (f : ℕ → A) (q p : ℕ) (v : A) → (p == q) ≡ false → put f q v p ≡ f p
put_else f q p v e = rw e refl

-- A sum when the process `q` holds `v`
pub total-put :
    {A : Type 0} (g : A → ℕ) (f : ℕ → A) (q : ℕ) (v : A) (n : ℕ)
    → q < n
    → total (λ p. g (put f q v p)) n + g (f q) ≡ total (λ p. g (f p)) n + g v
unfolding total
total-put g f q v zero lt = absurd (omega arith)
total-put g f q v (suc n) lt = elim (Bool-cases (n == q)) [
  | inl e ↦
      let same : n ≡ q = (==_iff _ _).0 e in
      let below =
        total-ext (λ p. g (put f q v p)) (λ p. g (f p)) n
          (λ p h. ap g (put_else f q p v (ground (arith, same)))) in
      let here : g (put f q v n) ≡ g v = ap g (rw same (put_here f q v)) in
      let old : g (f n) ≡ g (f q) = ap (λ a. g (f a)) same in omega (arith, below, here, old)
  | inr e ↦
      let rest = total-put g f q v n (ground (arith, e)) in
      let here : g (put f q v n) ≡ g (f n) = ap g (put_else f q n v e) in omega (arith, rest, here)
]

pub total_none : (f : ℕ → ℕ) (n : ℕ) → ((p : ℕ) → p < n → f p ≡ 0) → total f n ≡ 0
unfolding total
total_none f zero h = refl
total_none f (suc n) h =
    let rest = total_none f n (λ p lt. h p (omega arith)) in omega (arith, rest, h n (omega arith))
