-- ===== src/Slicer/Echelon/Defect.antt =====
-- The loop of `echelonize` over the columns always ends, with its matrices in step.
use xor_mining.Base.{
  ℕ, zero, suc, ◌+◌, ◌*◌, ◌<◌, ◌≤◌, true, ◌≡◌, refl, ap, sym, ◌∙◌, arith, ℕ_discrete, Option, none,
  some,
}
use xor_mining.Base.Run.{ok, ◌>>=◌}
use xor_mining.Slicer.Rows.{eq_true, eq_false}
use xor_mining.Slicer.Echelon.{Grid, place_pivot, clear_column, pivot_loop, column_loop}
use xor_mining.Slicer.Echelon.Bits.{bit_at}
use xor_mining.Slicer.Echelon.Operations.{swap_words-bit}
use xor_mining.Slicer.Echelon.Sound.{IsSound, place_pivot-IsSound}
use xor_mining.Slicer.Echelon.Pivot.{
  Searched, pivot_loop-Searched, after, after-trials, clear_column-IsSound,
}

place_pivot-trials : (i j w : ℕ) (g : Grid) → (place_pivot i j w g).trials ≡ g.trials
unfolding place_pivot
place_pivot-trials i j w g = elim (ℕ_discrete j i) [
  | yes e ↦ rw (e, eq_true i) refl
  | no nj ↦ rw (eq_false j i nj) refl
]

module _ (w : ℕ) (V : ℕ → ℕ) (pos : 0 < w) where
  place_pivot-marked :
      (g : Grid) (i j : ℕ)
      → i < 64
      → j < 64
      → IsSound w V g
      → bit_at g.T w i j ≡ true
      → bit_at (place_pivot i j w g).T w j j ≡ true
  unfolding place_pivot
  place_pivot-marked g i j hi hj is bit = elim (ℕ_discrete j i) [
    | yes e ↦ rw (e, eq_true i) (rw e at bit)
    | no nj ↦ rw (eq_false j i nj) (
        swap_words-bit w i j hi hj (λ q. nj (sym q)) g.T j j is.long (ground arith)
        ∙ ap (λ r. bit_at g.T w r j) (ground arith)
        ∙ bit)
  ]

  module _ (lrand48 : ℕ → ℕ) where
    column_none :
        (fuel left j m : ℕ) (g g1 : Grid)
        → pivot_loop lrand48 fuel (j + 1) j m w g ≡ ok (none, g1)
        → column_loop lrand48 fuel (suc left) j m w g ≡ ok (j, g1)
    unfolding column_loop
    column_none fuel left j m g g1 run = rw run refl

    column_some :
        (fuel left j m i : ℕ) (g g1 : Grid)
        → pivot_loop lrand48 fuel (j + 1) j m w g ≡ ok (some i, g1)
        → column_loop lrand48 fuel (suc left) j m w g
          ≡ (clear_column j w (place_pivot i j w g1) >>= column_loop lrand48 fuel left (j + 1) m w)
    unfolding column_loop
    column_some fuel left j m i g g1 run = rw run refl

    pub record Columns (lo hi : ℕ) (r : ℕ × Grid) : Type 0 where
      pub sound : IsSound w V r.1
      pub from : lo ≤ r.0
      pub to : r.0 ≤ hi

    pub column_loop-Columns :
        (fuel left j m : ℕ) (g : Grid)
        → j + left ≤ 64
        → m ≤ 64 * w
        → g.trials ≤ 6
        → 6 + m < fuel
        → IsSound w V g
        → (r : ℕ × Grid) × ((column_loop lrand48 fuel left j m w g ≡ ok r) × Columns j (j + left) r)
    column_loop-Columns fuel zero j m g le hm few h is = (
      (j, g),
      (unfold column_loop in refl, record { sound = is; from = omega arith; to = omega arith }),
    )
    column_loop-Columns fuel (suc left) j m g le hm few h is =
        let ((pivot, g1), (run, s)) =
          pivot_loop-Searched w V pos lrand48 fuel (j + 1) j m g (omega arith) (omega arith) hm few
            (omega arith) is in
        on_pivot pivot g1 run s
          (λ g' few' is'. column_loop-Columns fuel left (j + 1) m g' (omega arith) hm few' h is')
      where
        Result : ℕ → ℕ → ℕ → Grid → Type 0
        Result left lo hi g =
            (r : ℕ × Grid) × ((column_loop lrand48 fuel left lo m w g ≡ ok r) × Columns lo hi r)

        on_pivot :
            (pivot : Option ℕ) (g1 : Grid)
            → pivot_loop lrand48 fuel (j + 1) j m w g ≡ ok (pivot, g1)
            → Searched w V pos j (pivot, g1)
            → ((g' : Grid) → g'.trials ≤ 6 → IsSound w V g' → Result left (j + 1) (j + 1 + left) g')
            → Result (suc left) j (j + suc left) g
        on_pivot none g1 run s rec = (
          (j, g1),
          (
            column_none fuel left j m g g1 run,
            record { sound = s.sound; from = omega arith; to = omega arith },
          ),
        )
        on_pivot (some i) g1 run s rec =
            let (hi, bit) = s.pivot i refl in
            let placed = place_pivot i j w g1 in
            let hj : j < 64 = omega arith in
            let placed-sound = place_pivot-IsSound w V pos g1 i j hi hj s.sound in
            let (pass, sound') =
              clear_column-IsSound w V pos j placed hj (place_pivot-marked g1 i j hi hj s.sound bit)
                placed-sound in
            let (r, (run', c)) =
              rec (after w V pos j placed)
                (rw (after-trials w V pos j placed, place_pivot-trials i j w g1) s.few) sound' in
            (
              r,
              (
                column_some fuel left j m i g g1 run
                    ∙ ap (λ x. x >>= column_loop lrand48 fuel left (j + 1) m w) pass
                    ∙ run',
                record { sound = c.sound; from = omega (arith, c.from); to = omega (arith, c.to) },
              ),
            )
