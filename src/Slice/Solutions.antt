-- ===== src/Slice/Solutions.antt =====
-- The lifted triples are the solutions: the passage from the products back to the words.
use xor_mining.Base.{
  ℕ, ◌^◌, ◌<◌, ◌≡◌, ◌≢◌, refl, sym, ap, ap₂, ◌∙◌, arith, bit_xor, List, map, get_or, ◌↔◌, ◌∈◌,
  ∈-map,
}
use xor_mining.Word.{◌>>>◌}
use xor_mining.Word.Xor.{bit_xor_eq_zero_iff, bit_xor-lt}
use xor_mining.Gemv.{naive_gemv}
use xor_mining.Gemv.Naive.{naive_gemv-xor}
use xor_mining.Table.Cuckoo.{InRange}
use xor_mining.Join.{Triple, shift_of}
use xor_mining.Join.Scan.{triple}
use xor_mining.Join.Correct.{Joins}
use xor_mining.Result.{Solution}
use xor_mining.Slice.{Slice, local, lift}
use xor_mining.Slice.Input.{IsSlice, IsInput, IsSolution, image, naive_gemv-nonzero}

module _ (L0 L1 : List ℕ) (slice : Slice) (task_index : Triple) (is : IsSlice slice)
    (input : IsInput L0 L1) where
  abbrev M : List ℕ
  M = slice.M

  -- A triple of products that the third phase finds and the fourth keeps.
  abbrev pub Hit : Triple → Type 0
  Hit t =
      Joins (shift_of slice.l) (λ x. x ∈ image M L0) (λ y. y ∈ image M L1) t
      × InRange slice.cm 0 slice.n t.val2

  abbrev solution : ℕ → ℕ → ℕ → Solution
  solution a b c = record { val = record { val0 = a; val1 = b; val2 = c }; task_index = task_index }

  same_solution :
      {a b c a' b' c' : ℕ} → a ≡ a' → b ≡ b' → c ≡ c' → solution a b c ≡ solution a' b' c'
  same_solution e0 e1 e2 = rw (e0, e1, e2) refl

  -- The lift of a sum of products.
  lift_sum :
      (a b : ℕ)
      → a < 2 ^ 64
      → b < 2 ^ 64
      → lift slice.minv task_index (local (triple (naive_gemv a M) (naive_gemv b M)))
        ≡ solution a b (bit_xor a b)
  unfolding lift
  lift_sum a b ha hb = same_solution (is.inverts a ha) (is.inverts b hb) (
      ap (λ u. naive_gemv u slice.minv) (sym (naive_gemv-xor a b M is.matrix))
      ∙ is.inverts (bit_xor a b) (bit_xor-lt 64 a b ha hb))

  Hit-IsSolution :
      (t : Triple)
      → Hit t
      → IsSolution L0 L1 slice task_index (lift slice.minv task_index (local t))
  Hit-IsSolution t ((q, first, second, agree), third) =
      let (a, (in0, ea)) = (∈-map (λ x. naive_gemv x M) t.val0 L0).0 first in
      let (b, (in1, eb)) = (∈-map (λ x. naive_gemv x M) t.val1 L1).0 second in
      let t-eq : t ≡ triple (naive_gemv a M) (naive_gemv b M) = q ∙ ap₂ triple (sym ea) (sym eb) in
      let sums : t.val2 ≡ naive_gemv (bit_xor a b) M =
        ap (λ (u : Triple). u.val2) t-eq ∙ sym (naive_gemv-xor a b M is.matrix) in
      let lifted : lift slice.minv task_index (local t) ≡ solution a b (bit_xor a b) =
        ap (λ u. lift slice.minv task_index (local u)) t-eq
        ∙ lift_sum a b (input.words0 a in0) (input.words1 b in1) in
      rw lifted
        (record { task = refl; first = in0; second = in1; sum = refl; third = rw (← sums) third })

  solution-Hit :
      (s : Solution)
      → IsSolution L0 L1 slice task_index s
      → (t : Triple) × (Hit t × (lift slice.minv task_index (local t) ≡ s))
  solution-Hit s sol =
      let a = s.val.val0 in
      let b = s.val.val1 in
      let (k, (lo, hi, e)) = sol.third in
      let z : bit_xor (naive_gemv a M) (naive_gemv b M) ≡ get_or slice.cm k 0 =
        sym (naive_gemv-xor a b M is.matrix) ∙ ap (λ u. naive_gemv u M) (sym sol.sum) ∙ sym e in
      (
        triple (naive_gemv a M) (naive_gemv b M),
        (
          (
            (
              refl,
              (∈-map (λ x. naive_gemv x M) (naive_gemv a M) L0).1 (a, (sol.first, refl)),
              (∈-map (λ x. naive_gemv x M) (naive_gemv b M) L1).1 (b, (sol.second, refl)),
              ap (λ u. u >>> shift_of slice.l) z ∙ is.narrow k (omega arith),
            ),
            (k, (lo, hi, sym z)),
          ),
          lift_sum a b (input.words0 a sol.first) (input.words1 b sol.second) ∙ rebuild s sol,
        ),
      )
    where
      rebuild :
          (s : Solution)
          → IsSolution L0 L1 slice task_index s
          → solution s.val.val0 s.val.val1 (bit_xor s.val.val0 s.val.val1) ≡ s
      rebuild s sol =
          same_solution refl refl (sym sol.sum)
          ∙ ap (λ (q : Triple). record { val = s.val; task_index = q }) (sym sol.task)

  -- The lift turns the hits into the solutions.
  pub lifts_iff :
      (hits : List Triple) (s : Solution)
      → ((t : Triple) → (t ∈ hits) ↔ Hit t)
      → (s ∈ map (lift slice.minv task_index) (map local hits))
        ↔ IsSolution L0 L1 slice task_index s
  lifts_iff hits s iff = (
    λ m.
        let (loc, (there, e)) = (∈-map (lift slice.minv task_index) s (map local hits)).0 m in
        let (t, (in_hits, e')) = (∈-map local loc hits).0 there in
        rw (← e, ← e') (Hit-IsSolution t ((iff t).0 in_hits)),
    λ sol.
        let (t, (hit, e)) = solution-Hit s sol in
        (∈-map (lift slice.minv task_index) s (map local hits)).1
          (local t, ((∈-map local (local t) hits).1 (t, ((iff t).1 hit, refl)), e)),
  )

  -- No hit has the word 0 for its sum.
  pub sum-nonzero :
      (t : Triple)
      → Joins (shift_of slice.l) (λ x. x ∈ image M L0) (λ y. y ∈ image M L1) t
      → t.val2 ≢ 0
  sum-nonzero t (q, first, second, agree) z =
      let (a, (in0, ea)) = (∈-map (λ x. naive_gemv x M) t.val0 L0).0 first in
      let (b, (in1, eb)) = (∈-map (λ x. naive_gemv x M) t.val1 L1).0 second in
      let product : naive_gemv (bit_xor a b) M ≡ 0 =
        naive_gemv-xor a b M is.matrix
        ∙ ap₂ bit_xor ea eb
        ∙ sym (ap (λ (u : Triple). u.val2) q)
        ∙ z in
      naive_gemv-nonzero slice (bit_xor a b) is
        (bit_xor-lt 64 a b (input.words0 a in0) (input.words1 b in1))
        (λ same. input.apart a b in0 in1 ((bit_xor_eq_zero_iff a b).0 same)) product
