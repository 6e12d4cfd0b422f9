-- ===== src/Slicer/Echelon/Pivot.antt =====
-- One column of the elimination: the search for a pivot, and its use.
use native.Mathlib.Nat.{mod-lt}
use xor_mining.Base.{
  ℕ, zero, suc, ◌+◌, ◌-◌, ◌*◌, ◌/◌, ◌%◌, ◌<◌, ◌≤◌, bit_and, Bool, true, false, not, xor, ◌&&◌, List,
  get_or, ◌≡◌, refl, ap, ap₂, sym, ◌∙◌, arith, length-set, ◌==◌, Bool-cases, inl, inr, ltb, ltb→lt,
  ◌⊎◌, Option, none, some, eq_of_some,
}
use xor_mining.Base.Run.{ok}
use xor_mining.Word.{◌<<<◌, test_bit}
use xor_mining.Slicer.Rows.{eq_true}
use xor_mining.Slicer.Echelon.{
  Grid, swap_columns, clear_row, clear_loop, clear_column, toggle, examine, pivot_loop,
}
use xor_mining.Slicer.Echelon.Bits.{bit_at}
use xor_mining.Slicer.Echelon.Sound.{
  IsSound, IsToggled, toggle-bit, first_bit, clear_loop-IsToggled, swap_columns-IsSound,
}

Option-cases : (o : Option ℕ) → (o ≡ none) ⊎ ((i : ℕ) × (o ≡ some i))
Option-cases none = inl refl
Option-cases (some i) = inr (i, refl)

-- The row that `examine` finds has its bit set.
module _ (w : ℕ) (V : ℕ → ℕ) (pos : 0 < w) where
  examine-some :
      (left k j i : ℕ) (T : List ℕ)
      → j < 64
      → examine left k w (1 <<< j) T ≡ some i
      → (i < k + left) × (bit_at T w i j ≡ true)
  unfolding examine
  examine-some zero k j i T hj e = cc
  examine-some (suc left) k j i T hj e =
      elim (Bool-cases (not (bit_and (get_or T (k * w) 0) (1 <<< j) == 0))) [
        | inl hit ↦
            let q : k ≡ i = eq_of_some (rw hit at e) in
            (omega arith, rw (← q) (sym (first_bit w V pos T k j hj) ∙ hit))
        | inr miss ↦
            let (lt, bit) = examine-some left (k + 1) j i T hj (rw miss at e) in (omega arith, bit)
      ]

  -- What the search of a pivot leaves.
  pub record Searched (j : ℕ) (r : Option ℕ × Grid) : Type 0 where
    pub sound : IsSound w V r.1
    pub few : r.1.trials ≤ 6
    pub pivot : (i : ℕ) → r.0 ≡ some i → (i < 64) × (bit_at r.1.T w i j ≡ true)

  module _ (lrand48 : ℕ → ℕ) where
    -- The rounds of the search.
    module _ (fuel l j m : ℕ) (g : Grid) where
      round_found :
          {i : ℕ}
          → examine (64 - j) j w (1 <<< j) g.T ≡ some i
          → pivot_loop lrand48 (suc fuel) l j m w g ≡ ok (some i, g)
      unfolding pivot_loop
      round_found e = rw (e, pivot_loop) refl

      round_random :
          examine (64 - j) j w (1 <<< j) g.T ≡ none
          → (ltb 0 g.trials && ltb (j + 1) m) ≡ true
          → pivot_loop lrand48 (suc fuel) l j m w g
            ≡ pivot_loop lrand48 fuel l j m w (record g {
              T = swap_columns g.T w j (j + 1 + lrand48 g.calls % (m - (j + 1)));
              trials = g.trials - 1;
              calls = g.calls + 1;
            })
      unfolding pivot_loop
      round_random e try = rw (e, try, pivot_loop) refl

      round_next :
          examine (64 - j) j w (1 <<< j) g.T ≡ none
          → (ltb 0 g.trials && ltb (j + 1) m) ≡ false
          → ltb l m ≡ true
          → pivot_loop lrand48 (suc fuel) l j m w g
            ≡ pivot_loop lrand48 fuel (l + 1) j m w (record g { T = swap_columns g.T w j l })
      unfolding pivot_loop
      round_next e past more = rw (e, past, more, pivot_loop) refl

      round_done :
          examine (64 - j) j w (1 <<< j) g.T ≡ none
          → (ltb 0 g.trials && ltb (j + 1) m) ≡ false
          → ltb l m ≡ false
          → pivot_loop lrand48 (suc fuel) l j m w g ≡ ok (none, g)
      unfolding pivot_loop
      round_done e past more = rw (e, past, more, pivot_loop) refl

    -- The search ends, given fuel for the trials left and for the columns behind `l`.
    pub pivot_loop-Searched :
        (fuel l j m : ℕ) (g : Grid)
        → j < 64
        → j < l
        → m ≤ 64 * w
        → g.trials ≤ 6
        → g.trials + (m - l) < fuel
        → IsSound w V g
        → (r : Option ℕ × Grid) × ((pivot_loop lrand48 fuel l j m w g ≡ ok r) × Searched j r)
    pivot_loop-Searched zero l j m g hj hl hm few h is = absurd (omega arith)
    pivot_loop-Searched (suc fuel) l j m g hj hl hm few h is =
        elim (Option-cases (examine (64 - j) j w (1 <<< j) g.T)) [
          | inr (i, e) ↦
              let (lt, bit) = examine-some (64 - j) j j i g.T hj e in
              (
                (some i, g),
                (
                  round_found fuel l j m g e,
                  record {
                    sound = is;
                    few = few;
                    pivot =
                        λ k q. let same : i ≡ k = eq_of_some q in rw (← same) (omega arith, bit);
                  },
                ),
              )
          | inl e ↦ elim (Bool-cases (ltb 0 g.trials && ltb (j + 1) m)) [
            | inl try ↦
                let o = j + 1 + lrand48 g.calls % (m - (j + 1)) in
                let inner : j + 1 < m = ltb→lt (j + 1) m (ground arith) in
                let gap : 0 < m - (j + 1) = omega arith in
                let small : o < m = omega (arith, mod-lt (lrand48 g.calls) gap) in
                let (r, (run, s)) =
                  pivot_loop-Searched fuel l j m
                    (record g {
                      T = swap_columns g.T w j o;
                      trials = g.trials - 1;
                      calls = g.calls + 1;
                    })
                    hj hl hm (omega arith) (ground arith)
                    (swap_columns-IsSound w V pos g j o (g.trials - 1) (g.calls + 1) hj
                      (omega arith) (λ q. omega arith) is) in
                (r, (round_random fuel l j m g e try ∙ run, s))
            | inr past ↦ elim (Bool-cases (ltb l m)) [
              | inr done ↦ (
                (none, g),
                (
                  round_done fuel l j m g e past done,
                  record { sound = is; few = few; pivot = λ k q. absurd (cc) },
                ),
              )
              | inl more ↦
                  let (r, (run, s)) =
                    pivot_loop-Searched fuel (l + 1) j m (record g { T = swap_columns g.T w j l })
                      hj (omega arith) hm few (omega (arith, ltb→lt l m more))
                      (swap_columns-IsSound w V pos g j l g.trials g.calls hj
                        (omega (arith, ltb→lt l m more)) (λ q. omega arith) is) in
                  (r, (round_next fuel l j m g e past more ∙ run, s))
            ]
          ]
        ]

  abbrev pub after : ℕ → Grid → Grid
  after j g = toggle j w (clear_loop 64 0 j w (get_or g.T (j * w) 0) (toggle j w g))

  clear_loop-trials :
      (left k j old : ℕ) (g : Grid) → (clear_loop left k j w old g).trials ≡ g.trials
  unfolding clear_loop clear_row
  clear_loop-trials zero k j old g = refl
  clear_loop-trials (suc left) k j old g =
      clear_loop-trials left (k + 1) j old (clear_row k j w old g)
      ∙ elim (Bool-cases (not (bit_and (get_or g.T (k * w) 0) (1 <<< j) == 0))) [
        | inl e ↦ rw e refl
        | inr e ↦ rw e refl
      ]

  pub after-trials : (j : ℕ) (g : Grid) → (after j g).trials ≡ g.trials
  unfolding toggle
  after-trials j g = clear_loop-trials 64 0 j _ (toggle j w g)

  -- The elimination by the pivot on row `j` passes its assertions.
  pub clear_column-IsSound :
      (j : ℕ) (g : Grid)
      → j < 64
      → bit_at g.T w j j ≡ true
      → IsSound w V g
      → (clear_column j w g ≡ ok (after j g)) × IsSound w V (after j g)
  unfolding clear_column toggle xor
  clear_column-IsSound j g hj one is =
      let old = get_or g.T (j * w) 0 in
      let first : IsToggled w V pos j old is.place (toggle j w g) = record {
        long = length-set g.T _ _ ∙ is.long;
        long' = is.long';
        clear = toggle-bit w V pos g j j j is.long hj (ground arith) ∙ rw (one, eq_true j) refl;
        pivot = λ c hc. old-bit c hc ∙ is.bits j c hj (ground arith);
        bits = λ r c hr hc.
            ap (λ u. xor u ((j == r) && (j == c))) (toggle-bit w V pos g j r c is.long hj hc)
            ∙ twice (bit_at g.T w r c) ((j == r) && (j == c))
            ∙ is.bits r c hr hc;
      } in
      let last = clear_loop 64 0 j w old (toggle j w g) in
      let toggled =
        clear_loop-IsToggled w V pos 64 0 j old is.place (toggle j w g) hj (omega arith) first in
      let one' : bit_at (toggle j w last).T w j j ≡ true =
        toggle-bit w V pos last j j j toggled.long hj (ground arith)
        ∙ rw (toggled.clear, eq_true j) refl in
      (
        rw
            (
              first_bit w V pos g.T j j hj ∙ one,
              first_bit w V pos (toggle j w g).T j j hj ∙ first.clear,
              first_bit w V pos (toggle j w last).T j j hj ∙ one',
            )
            refl,
        record {
          long = length-set last.T _ _ ∙ toggled.long;
          long' = toggled.long';
          place = is.place;
          order = is.order;
          bits = λ r c hr hc.
              toggle-bit w V pos last j r c toggled.long hj hc ∙ toggled.bits r c hr hc;
        },
      )
    where
      twice : (a b : Bool) → xor (xor a b) b ≡ a
      twice a b = unfold xor in ground arith

      old-bit : (c : ℕ) → c < 64 → test_bit (get_or g.T (j * w) 0) c ≡ bit_at g.T w j c
      old-bit c h =
          let start : j * w ≡ j * w + c / 64 = omega arith in
          let low : c ≡ c % 64 = omega arith in ap₂ (λ a b. test_bit (get_or g.T a 0) b) start low
