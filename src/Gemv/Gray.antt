-- ===== src/Gemv/Gray.antt =====
-- `matmul_init` visits the 256 indices of a table in the order of a Gray code.
use xor_mining.Base.{
  passes, passes-below, ℕ, zero, suc, ◌+◌, ◌-◌, ◌*◌, ◌<◌, bit_xor, true, List, get_or, set, length,
  ◌≡◌, refl, Bool-cases, inl, inr, ℕ_discrete, sym, ap, ◌∙◌, arith, ◌&&◌, ltb, ◌==◌, ==_iff,
  get_or-set, get_or-set_self, length-set,
}
use xor_mining.Word.{◌>>>◌, ◌<<<◌}
use xor_mining.Gemv.{ffs, gray, table_loop, init_table}
use xor_mining.Gemv.Linear.{combine, combine-xor, combine-zero, combine-single}

-- Each step of the code flips the bit that `ffs` finds.
gray_steps :
    passes
      (λ j.
        (gray (j + 1) == bit_xor (gray j) (1 <<< (ffs (j + 1) - 1)))
        && ltb (ffs (j + 1) - 1) 8
        && ltb (gray (j + 1)) 256)
      0
      255
    ≡ true
unfolding passes gray ffs
gray_steps = refl

-- The index at which the code reaches `g`: the sum of all shifts of `g`.
ungray : ℕ → ℕ
ungray g = let a = bit_xor g (g >>> 1) in let b = bit_xor a (a >>> 2) in bit_xor b (b >>> 4)

gray_onto : passes (λ g. (gray (ungray g) == g) && ltb (ungray g) 256) 0 256 ≡ true
unfolding passes gray ungray
gray_onto = refl

gray_step :
    (j : ℕ)
    → j < 255
    → (gray (j + 1) ≡ bit_xor (gray j) (1 <<< (ffs (j + 1) - 1)))
      × (ffs (j + 1) - 1 < 8)
      × (gray (j + 1) < 256)
gray_step j h = ground (arith, passes-below _ 255 j gray_steps h)

gray-ungray : (g : ℕ) → g < 256 → (gray (ungray g) ≡ g) × (ungray g < 256)
gray-ungray g h = ground (arith, passes-below _ 256 g gray_onto h)

module _ (M : List ℕ) (lo : ℕ) where
  -- The entries at the first `j` places of the code are filled in.
  abbrev Filled : ℕ → List ℕ → Type 0
  Filled j T = (length T ≡ 256) × ((k : ℕ) → k < j → get_or T (gray k) 0 ≡ combine M lo 8 (gray k))

  -- One more row makes the running sum that of the next place.
  row_added :
      (j tmp : ℕ)
      → j < 255
      → tmp ≡ combine M lo 8 (gray j)
      → bit_xor tmp (get_or M (lo + (ffs (j + 1) - 1)) 0) ≡ combine M lo 8 (gray (j + 1))
  row_added j tmp h t =
      let (next, small, inside) = gray_step j h in
      rw (t, next, combine-xor M 8 lo (gray j) (1 <<< (ffs (j + 1) - 1)))
        (ap (bit_xor (combine M lo 8 (gray j)))
          (sym (combine-single M 8 lo (ffs (j + 1) - 1) small)))

  Filled-set :
      (j v : ℕ) (T : List ℕ)
      → j < 255
      → v ≡ combine M lo 8 (gray (j + 1))
      → Filled (j + 1) T
      → Filled (j + 1 + 1) (set T (gray (j + 1)) v)
  Filled-set j v T h e f = (
    length-set T (gray (j + 1)) v ∙ f.0,
    λ k p.
        rw (get_or-set T (gray (j + 1)) (gray k) v 0 (rw (f.0) (gray_step j h).2))
          (elim (Bool-cases (gray (j + 1) == gray k)) [
            | inl same ↦ rw same (e ∙ ap (combine M lo 8) ((==_iff _ _).0 same))
            | inr other ↦ rw other (
                f.1 k (elim (ℕ_discrete k (j + 1)) [
                  | yes q ↦ absurd (ground (arith, ap gray q))
                  | no q ↦ omega arith
                ]))
          ]),
  )

  table_loop-Filled :
      (left j tmp : ℕ) (T : List ℕ)
      → j + 1 + left ≡ 256
      → tmp ≡ combine M lo 8 (gray j)
      → Filled (j + 1) T
      → Filled 256 (table_loop left (j + 1) M lo tmp T)
  unfolding table_loop
  table_loop-Filled zero j tmp T e t f = (f.0, λ k p. f.1 k (omega arith))
  table_loop-Filled (suc left) j tmp T e t f =
      let t' = row_added j tmp (omega arith) t in
      table_loop-Filled left (j + 1) _ _ (omega arith) t' (Filled-set j _ T (omega arith) t' f)

  Filled-first :
      (old : List ℕ) → length old ≡ 256 → (0 ≡ combine M lo 8 (gray 0)) × Filled 1 (set old 0 0)
  unfolding gray
  Filled-first old l =
      let z = combine-zero M 8 lo in
      (
        sym z,
        (
          length-set old 0 0 ∙ l,
          λ k p.
              let e : k ≡ 0 = omega arith in rw e (get_or-set_self old 0 0 0 (omega arith) ∙ sym z),
        ),
      )

-- The table holds the sum for each of the 256 bytes.
pub init_table-combine :
    (M : List ℕ) (i g : ℕ) (old : List ℕ)
    → length old ≡ 256
    → g < 256
    → get_or (init_table M i old) g 0 ≡ combine M (i * 8) 8 g
unfolding init_table
init_table-combine M i g old l h =
    let (e, inside) = gray-ungray g h in
    let start = Filled-first M (i * 8) old l in
    let done = table_loop-Filled M (i * 8) 255 0 0 (set old 0 0) (omega arith) start.0 start.1 in
    rw (← e) (done.1 (ungray g) inside)

pub length-init_table :
    (M : List ℕ) (i : ℕ) (old : List ℕ) → length old ≡ 256 → length (init_table M i old) ≡ 256
unfolding init_table
length-init_table M i old l =
    let start = Filled-first M (i * 8) old l in
    (table_loop-Filled M (i * 8) 255 0 0 (set old 0 0) (omega arith) start.0 start.1).0
