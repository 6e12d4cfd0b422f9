-- ===== src/Slicer/Echelon/Sound.antt =====
-- The elimination keeps its matrices in step: up to an order of the columns, row `r` of `T` holds
-- the scalar products of row `r` of `E` with the given vectors.
use native.Mathlib.Nat.{pow-le-pow_right, mod-eq_of_lt}
use xor_mining.Base.{
  ℕ, zero, suc, ◌+◌, ◌-◌, ◌*◌, ◌/◌, ◌%◌, ◌^◌, ◌<◌, ◌≤◌, ◌≢◌, bit_and, bit_xor, Bool, true, false,
  not, xor, ◌&&◌, List, get_or, set, length, ◌≡◌, refl, ap, ap₂, sym, ◌∙◌, arith, length-set,
  get_or-set_self, get_or-set_ne, if◌then◌else◌, ◌==◌, ℕ_discrete, Bool-cases, inl, inr,
}
use xor_mining.Word.{◌<<<◌, u64, test_bit}
use xor_mining.Gemv.Linear.{pick}
use xor_mining.Slicer.Rows.{swap, eq_true, eq_false}
use xor_mining.Slicer.Parity.{dot, dot-xor}
use xor_mining.Slicer.Invert.Vectors.{length-swap}
use xor_mining.Slicer.Invert.Columns.{get_or-swap, mask_test}
use xor_mining.Slicer.Echelon.{
  Grid, swap_columns, add_words, place_pivot, clear_row, clear_loop, toggle,
}
use xor_mining.Slicer.Echelon.Bits.{bit_at, bit_at-toggle}
use xor_mining.Slicer.Echelon.Operations.{
  exchanged, swap_columns-bit, length-swap_columns, swap_words-bit, length-swap_words,
  add_words-bit, length-add_words,
}

-- `place` orders the columns of `w` words.
pub record IsOrder (w : ℕ) (place : ℕ → ℕ) : Type 0 where
  pub into : (c : ℕ) → c / 64 < w → place c / 64 < w
  pub onto : (i : ℕ) → i / 64 < w → (c : ℕ) × ((c / 64 < w) × (place c ≡ i))

pub record IsSound (w : ℕ) (V : ℕ → ℕ) (g : Grid) : Type 0 where
  pub long : length g.T ≡ 64 * w
  pub long' : length g.E ≡ 64
  pub place : ℕ → ℕ
  pub order : IsOrder w place
  pub bits : (r c : ℕ) → r < 64 → c / 64 < w → bit_at g.T w r c ≡ dot (get_or g.E r 0) (V (place c))

exchanged_twice : (a b c : ℕ) → a ≢ b → exchanged a b (exchanged a b c) ≡ c
exchanged_twice a b c ne = elim (ℕ_discrete a c) [
  | yes e ↦ rw (e, eq_true c, eq_false c b (λ q. ne (e ∙ q)), eq_true b) refl
  | no na ↦ elim (ℕ_discrete b c) [
    | yes e ↦ rw (e, eq_false a c na, eq_true c, eq_true a) refl
    | no nb ↦ rw (eq_false a c na, eq_false b c nb, eq_false a c na, eq_false b c nb) refl
  ]
]

exchanged_inside : (w a b c : ℕ) → a / 64 < w → b / 64 < w → c / 64 < w → exchanged a b c / 64 < w
exchanged_inside w a b c ha hb hc = ground arith

module _ (w : ℕ) (V : ℕ → ℕ) (pos : 0 < w) where
  pub swap_columns-IsSound :
      (g : Grid) (j l trials calls : ℕ)
      → j < 64
      → l / 64 < w
      → j ≢ l
      → IsSound w V g
      → IsSound w V (record g { T = swap_columns g.T w j l; trials = trials; calls = calls })
  swap_columns-IsSound g j l trials calls hj hl ne is = record {
    long = length-swap_columns w j l hj hl ne g.T is.long;
    long' = is.long';
    place = λ c. is.place (exchanged j l c);
    order = record {
      into = λ c h. is.order.into _ (exchanged_inside w j l c (ground arith) hl h);
      onto = λ i h.
          let (c, (hc, e)) = is.order.onto i h in
          (
            exchanged j l c,
            (
              exchanged_inside w j l c (ground arith) hl hc,
              ap is.place (exchanged_twice j l c ne) ∙ e,
            ),
          );
    };
    bits = λ r c hr hc.
        swap_columns-bit w j l hj hl ne g.T r c is.long hr hc
        ∙ is.bits r _ hr (exchanged_inside w j l c (ground arith) hl hc);
  }

  exchanged_row :
      (E : List ℕ) (i j r : ℕ)
      → i < length E
      → j < length E
      → i ≢ j
      → get_or (swap E i j) r 0 ≡ get_or E (exchanged i j r) 0
  exchanged_row E i j r hi hj ne = get_or-swap E i j r hi hj ∙ elim (ℕ_discrete i r) [
    | yes e ↦ rw (e, eq_true r, eq_false j r (λ q. ne (e ∙ sym q))) refl
    | no ni ↦ elim (ℕ_discrete j r) [
      | yes e ↦ rw (e, eq_true r, eq_false i r ni) refl
      | no nj ↦ rw (eq_false i r ni, eq_false j r nj) refl
    ]
  ]

  pub place_pivot-IsSound :
      (g : Grid) (i j : ℕ) → i < 64 → j < 64 → IsSound w V g → IsSound w V (place_pivot i j w g)
  unfolding place_pivot
  place_pivot-IsSound g i j hi hj is = elim (ℕ_discrete j i) [
    | yes e ↦ rw (e, eq_true i) is
    | no nj ↦ rw (eq_false j i nj) (record {
      long = length-swap_words w 0 i j w g.T ∙ is.long;
      long' = length-swap g.E i j ∙ is.long';
      place = is.place;
      order = is.order;
      bits = λ r c hr hc.
          swap_words-bit w i j hi hj (λ q. nj (sym q)) g.T r c is.long hc
          ∙ is.bits (exchanged i j r) c (ground arith) hc
          ∙ ap (λ u. dot u (V (is.place c)))
              (sym (
                exchanged_row g.E i j r (omega (arith, is.long')) (omega (arith, is.long'))
                  (λ q. nj (sym q))));
    })
  ]

  pub first_bit :
      (T : List ℕ) (r j : ℕ)
      → j < 64
      → not (bit_and (get_or T (r * w) 0) (1 <<< j) == 0) ≡ bit_at T w r j
  first_bit T r j hj =
      let start : r * w ≡ r * w + j / 64 = omega arith in
      let low : j ≡ j % 64 = omega arith in
      mask_test (get_or T (r * w) 0) j ∙ ap₂ (λ a b. test_bit (get_or T a 0) b) start low

  unit_word : (j : ℕ) → j < 64 → 1 <<< j ≡ u64 (pick true 1 <<< (j % 64))
  unit_word j hj =
      let low : j % 64 ≡ j = omega arith in
      let le : 2 ^ j ≤ 2 ^ 63 = pow-le-pow_right (omega arith) {j = 63} (omega arith) in
      rw low (sym (mod-eq_of_lt (omega arith)))

  pub toggle-bit :
      (g : Grid) (j r c : ℕ)
      → length g.T ≡ 64 * w
      → j < 64
      → c / 64 < w
      → bit_at (toggle j w g).T w r c ≡ xor (bit_at g.T w r c) ((j == r) && (j == c))
  unfolding toggle
  toggle-bit g j r c long hj hc =
      let start : j * w ≡ j * w + j / 64 = omega arith in
      ap₂ (λ a d. bit_at (set g.T a (bit_xor (get_or g.T a 0) d)) w r c) start (unit_word j hj)
      ∙ bit_at-toggle g.T w j j r c true long hj (ground arith) hc

  -- Between the two toggles of bit `j` on row `j`.
  pub record IsToggled (j old : ℕ) (place : ℕ → ℕ) (g : Grid) : Type 0 where
    pub long : length g.T ≡ 64 * w
    pub long' : length g.E ≡ 64
    pub clear : bit_at g.T w j j ≡ false
    pub pivot : (c : ℕ) → c < 64 → test_bit old c ≡ dot (get_or g.E j 0) (V (place c))
    pub bits :
        (r c : ℕ)
        → r < 64
        → c / 64 < w
        → xor (bit_at g.T w r c) ((j == r) && (j == c)) ≡ dot (get_or g.E r 0) (V (place c))

  join_bits :
      (a x p q b : Bool) → xor a (false && b) ≡ p → x ≡ q → xor (xor a x) (false && b) ≡ xor p q
  join_bits a x p q b e e' = unfold xor in ground arith

  drop_bit : (x b : Bool) → xor x (b && false) ≡ x
  drop_bit x b = unfold xor in ground arith

  -- What is added to row `k`: row `j`, with its toggled bit restored.
  pivot-bit :
      (j old : ℕ) (place : ℕ → ℕ) (g : Grid) (c : ℕ)
      → j < 64
      → c / 64 < w
      → IsToggled j old place g
      → (if (c / 64) == 0 then test_bit old (c % 64) else bit_at g.T w j c)
        ≡ dot (get_or g.E j 0) (V (place c))
  pivot-bit j old place g c hj hc is = elim (ℕ_discrete (c / 64) 0) [
    | yes z ↦ let low : c % 64 ≡ c = omega arith in rw (z, low) (is.pivot c (omega arith))
    | no nz ↦ rw (eq_false (c / 64) 0 nz) (
        sym (drop_bit (bit_at g.T w j c) (j == j))
        ∙ ap (λ b. xor (bit_at g.T w j c) ((j == j) && b))
            (sym (eq_false j c (λ q. nz (ground arith))))
        ∙ is.bits j c hj hc)
  ]

  added-IsToggled :
      (j old : ℕ) (place : ℕ → ℕ) (k : ℕ) (g : Grid)
      → j < 64
      → k < 64
      → k ≢ j
      → IsToggled j old place g
      → IsToggled j old place (record g {
        E = set g.E k (bit_xor (get_or g.E k 0) (get_or g.E j 0));
        T = add_words (w - 1) 1 k j w (set g.T (k * w) (bit_xor (get_or g.T (k * w) 0) old));
      })
  added-IsToggled j old place k g hj hk ne is =
      let row = λ (r c : ℕ). add_words-bit w k j hk ne g.T old r c is.long in
      let Ej = get_or-set_ne g.E k j (bit_xor (get_or g.E k 0) (get_or g.E j 0)) 0 ne in
      record {
        long = length-add_words (w - 1) 1 k j w _ ∙ length-set g.T _ _ ∙ is.long;
        long' = length-set g.E k _ ∙ is.long';
        clear =
            row j j (ground arith)
            ∙ ap
                (λ b.
                  if b
                  then xor (bit_at g.T w k j)
                      (if (j / 64) == 0 then test_bit old (j % 64) else bit_at g.T w j j)
                  else bit_at g.T w j j)
                (eq_false k j ne)
            ∙ is.clear;
        pivot = λ c hc. is.pivot c hc ∙ ap (λ u. dot u (V (place c))) (sym Ej);
        bits = λ r c hr hc. elim (ℕ_discrete k r) [
          | yes e ↦ rw (← e) (
              ap₂ (λ a b. xor a (b && (j == c)))
                (row k c hc
                  ∙ ap
                      (λ b.
                        if b
                        then xor (bit_at g.T w k c)
                            (if (c / 64) == 0 then test_bit old (c % 64) else bit_at g.T w j c)
                        else bit_at g.T w k c)
                      (eq_true k))
                (eq_false j k (λ q. ne (sym q)))
              ∙ join_bits _ _ _ _ (j == c)
                  (ap (λ b. xor (bit_at g.T w k c) (b && (j == c)))
                      (sym (eq_false j k (λ q. ne (sym q))))
                    ∙ is.bits k c hk hc)
                  (pivot-bit j old place g c hj hc is)
              ∙ sym (dot-xor (get_or g.E k 0) (get_or g.E j 0) (V (place c)))
              ∙ ap (λ u. dot u (V (place c)))
                  (sym (get_or-set_self g.E k _ 0 (omega (arith, is.long')))))
          | no nr ↦
              ap (λ a. xor a ((j == r) && (j == c)))
                (row r c hc
                  ∙ ap
                      (λ b.
                        if b
                        then xor (bit_at g.T w k c)
                            (if (c / 64) == 0 then test_bit old (c % 64) else bit_at g.T w j c)
                        else bit_at g.T w r c)
                      (eq_false k r nr))
              ∙ is.bits r c hr hc
              ∙ ap (λ u. dot u (V (place c))) (sym (get_or-set_ne g.E k r _ 0 nr))
        ];
      }

  clear_row-IsToggled :
      (j old : ℕ) (place : ℕ → ℕ) (k : ℕ) (g : Grid)
      → j < 64
      → k < 64
      → IsToggled j old place g
      → IsToggled j old place (clear_row k j w old g)
  unfolding clear_row
  clear_row-IsToggled j old place k g hj hk is =
      elim (Bool-cases (not (bit_and (get_or g.T (k * w) 0) (1 <<< j) == 0))) [
        | inr e ↦ rw e is
        | inl e ↦
            let marked : bit_at g.T w k j ≡ true = sym (first_bit g.T k j hj) ∙ e in
            let ne : k ≢ j = λ q. ground (arith, is.clear, marked, ap (λ r. bit_at g.T w r j) q) in
            rw e (added-IsToggled j old place k g hj hk ne is)
      ]

  pub clear_loop-IsToggled :
      (left k j old : ℕ) (place : ℕ → ℕ) (g : Grid)
      → j < 64
      → k + left ≤ 64
      → IsToggled j old place g
      → IsToggled j old place (clear_loop left k j w old g)
  unfolding clear_loop
  clear_loop-IsToggled zero k j old place g hj le is = is
  clear_loop-IsToggled (suc left) k j old place g hj le is =
      clear_loop-IsToggled left (k + 1) j old place _ hj (omega arith)
        (clear_row-IsToggled j old place k g hj (omega arith) is)
