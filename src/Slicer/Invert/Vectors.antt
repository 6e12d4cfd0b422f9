-- ===== src/Slicer/Invert/Vectors.antt =====
-- The elimination keeps what the two matrices span: each vector is a sum of rows of `Minv`, and the
-- same sum of rows of `M` is the product of the vector by the given matrix.
use native.Mathlib.Nat.{pow-le-pow_right, mod-eq_of_lt}
use xor_mining.Base.{
  ℕ, zero, suc, ◌+◌, ◌*◌, ◌^◌, ◌<◌, ◌≤◌, ◌≢◌, bit_and, bit_xor, Bool, true, not, ◌&&◌, List, get_or,
  set, length, ◌≡◌, refl, ap, ◌∙◌, arith, length-set, get_or-set_self, get_or-set_ne,
  get_or_outside, get_or_ext, Bool-cases, inl, inr, dec_lt, ℕ_discrete, ◌==◌,
}
use xor_mining.Word.{◌<<<◌}
use xor_mining.Word.Xor.{bit_xor-lt}
use xor_mining.Gemv.Linear.{combine}
use xor_mining.Gemv.Naive.{IsMatrix}
use xor_mining.Gemv.Identity.{identity, unit_rows-get_or, combine-identity}
use xor_mining.Slicer.Rows.{
  swap, combine-rows, combine-add_row, combine-swap, add_coordinates, swap_coordinates,
}
use xor_mining.Slicer.Invert.{Pair, copy_loop, eliminate_row, eliminate_loop}

pub record IsSound (M0 : List ℕ) (s : Pair) : Type 0 where
  pub long : length s.M ≡ 64
  pub long' : length s.minv ≡ 64
  pub words : IsMatrix s.M
  pub words' : IsMatrix s.minv
  pub spans :
      (x : ℕ)
      → x < 2 ^ 64
      → (y : ℕ) × ((combine s.M 0 64 y ≡ combine M0 0 64 x) × (combine s.minv 0 64 y ≡ x))

pub set-IsMatrix : (A : List ℕ) (k v : ℕ) → IsMatrix A → v < 2 ^ 64 → IsMatrix (set A k v)
set-IsMatrix A k v is h i = elim (ℕ_discrete k i) [
  | yes e ↦ elim (dec_lt k (length A)) [
    | yes inside ↦ rw (← e, get_or-set_self A k v 0 inside) h
    | no outside ↦
        rw (get_or_outside (set A k v) i 0 (omega (arith, length-set A k v))) (omega arith)
  ]
  | no ne ↦ rw (get_or-set_ne A k i v 0 ne) (is i)
]

pub swap-IsMatrix : (A : List ℕ) (i j : ℕ) → IsMatrix A → IsMatrix (swap A i j)
unfolding swap
swap-IsMatrix A i j is = set-IsMatrix _ j _ (set-IsMatrix A i _ is (is j)) (is i)

pub length-swap : (A : List ℕ) (i j : ℕ) → length (swap A i j) ≡ length A
unfolding swap
length-swap A i j = length-set _ j _ ∙ length-set A i _

pub swap_same : (A : List ℕ) (j : ℕ) → j < length A → swap A j j ≡ A
unfolding swap
swap_same A j h = get_or_ext 0 (swap A j j) A (length-swap A j j) (λ i p. elim (ℕ_discrete j i) [
  | yes e ↦ rw (← e) (
      get_or-set_self (set A j (get_or A j 0)) j (get_or A j 0) 0
        (omega (arith, length-set A j (get_or A j 0))))
  | no ne ↦
      get_or-set_ne (set A j (get_or A j 0)) j i (get_or A j 0) 0 ne
      ∙ get_or-set_ne A j i (get_or A j 0) 0 ne
])

guard_ne : (j k : ℕ) (b : Bool) → (not (k == j) && b) ≡ true → j ≢ k
guard_ne j k b e q = ground arith

module _ (M0 : List ℕ) where
  -- The copy.
  abbrev Copied : ℕ → Pair → Type 0
  Copied n s = (k : ℕ) → k < n → (get_or s.M k 0 ≡ get_or M0 k 0) × (get_or s.minv k 0 ≡ 1 <<< k)

  copy_loop-Copied :
      (left i : ℕ) (s : Pair)
      → i + left ≡ 64
      → length s.M ≡ 64
      → length s.minv ≡ 64
      → Copied i s
      → Copied 64 (copy_loop left i M0 s)
        × (length (copy_loop left i M0 s).M ≡ 64)
        × (length (copy_loop left i M0 s).minv ≡ 64)
  unfolding copy_loop
  copy_loop-Copied zero i s e l l' h = (λ k p. h k (omega arith), l, l')
  copy_loop-Copied (suc left) i s e l l' h =
      copy_loop-Copied left (i + 1) _ (omega arith) (length-set s.M i _ ∙ l)
        (length-set s.minv i _ ∙ l')
        (λ k p. elim (ℕ_discrete i k) [
          | yes q ↦ rw (← q) (
            get_or-set_self s.M i (get_or M0 i 0) 0 (omega arith),
            get_or-set_self s.minv i (1 <<< i) 0 (omega arith),
          )
          | no ne ↦ (
            get_or-set_ne s.M i k _ 0 ne ∙ (h k (omega arith)).0,
            get_or-set_ne s.minv i k _ 0 ne ∙ (h k (omega arith)).1,
          )
        ])

  power_word : (k : ℕ) → k < 64 → 1 <<< k < 2 ^ 64
  power_word k h =
      let le : 2 ^ k ≤ 2 ^ 63 = pow-le-pow_right (omega arith) {j = 63} (omega arith) in omega arith

  rows-IsMatrix :
      (A : List ℕ) → length A ≡ 64 → ((k : ℕ) → k < 64 → get_or A k 0 < 2 ^ 64) → IsMatrix A
  rows-IsMatrix A l h i = elim (dec_lt i 64) [
    | yes p ↦ h i p
    | no p ↦ rw (get_or_outside A i 0 (omega arith)) (omega arith)
  ]

  Copied-IsSound :
      (s : Pair) → IsMatrix M0 → Copied 64 s → length s.M ≡ 64 → length s.minv ≡ 64 → IsSound M0 s
  Copied-IsSound s is c l l' = record {
    long = l;
    long' = l';
    words = rows-IsMatrix s.M l (λ k h. rw (c k h).0 (is k));
    words' = rows-IsMatrix s.minv l' (λ k h. rw (c k h).1 (power_word k h));
    spans = λ x h. (
      x,
      (
        combine-rows s.M M0 64 0 x (λ k p. (c (0 + k) (omega arith)).0),
        combine-rows s.minv identity 64 0 x (λ k p.
              (c (0 + k) (omega arith)).1
              ∙ omega (
                arith,
                unit_rows-get_or 64 0 (0 + k) (omega arith),
                ap (λ (n : ℕ). 2 ^ n) (zero_less k),
                ap (λ (n : ℕ). 2 ^ n) (zero_less (0 + k)),
              ))
            ∙ combine-identity 64 0 x (omega arith)
            ∙ ap (λ u. u * 1) (mod-eq_of_lt h)
            ∙ omega arith,
      ),
    );
  }
    where
      zero_less : (n : ℕ) → 0 + n ≡ n
      zero_less n = omega arith

  pub copy_loop-IsSound :
      (s : Pair)
      → IsMatrix M0
      → length s.M ≡ 64
      → length s.minv ≡ 64
      → IsSound M0 (copy_loop 64 0 M0 s)
  copy_loop-IsSound s is l l' =
      let (c, m, n) = copy_loop-Copied 64 0 s refl l l' (λ k p. absurd (omega arith)) in
      Copied-IsSound _ is c m n

  -- The exchange of two rows.
  pub swap-IsSound :
      (s : Pair) (i j : ℕ)
      → i < 64
      → j < 64
      → IsSound M0 s
      → IsSound M0 (record s { M = swap s.M i j; minv = swap s.minv i j })
  swap-IsSound s i j hi hj is = record {
    long = length-swap s.M i j ∙ is.long;
    long' = length-swap s.minv i j ∙ is.long';
    words = swap-IsMatrix s.M i j is.words;
    words' = swap-IsMatrix s.minv i j is.words';
    spans = λ x h.
        let (y, (e, e')) = is.spans x h in
        elim (ℕ_discrete i j) [
          | yes q ↦ rw (← q) (
            y,
            (
              ap (λ A. combine A 0 64 y) (swap_same s.M i (omega (arith, is.long))) ∙ e,
              ap (λ A. combine A 0 64 y) (swap_same s.minv i (omega (arith, is.long'))) ∙ e',
            ),
          )
          | no ne ↦ (
            swap_coordinates i j y,
            (
              combine-swap s.M i j y is.long hi hj ne ∙ e,
              combine-swap s.minv i j y is.long' hi hj ne ∙ e',
            ),
          )
        ];
  }

  -- The addition of row `j` to another row.
  add_row-IsSound :
      (s : Pair) (j k : ℕ)
      → j < 64
      → k < 64
      → j ≢ k
      → IsSound M0 s
      → IsSound M0 (record s {
        M = set s.M k (bit_xor (get_or s.M k 0) (get_or s.M j 0));
        minv = set s.minv k (bit_xor (get_or s.minv k 0) (get_or s.minv j 0));
      })
  add_row-IsSound s j k hj hk ne is = record {
    long = length-set s.M k _ ∙ is.long;
    long' = length-set s.minv k _ ∙ is.long';
    words = set-IsMatrix s.M k _ is.words (bit_xor-lt 64 _ _ (is.words k) (is.words j));
    words' = set-IsMatrix s.minv k _ is.words' (bit_xor-lt 64 _ _ (is.words' k) (is.words' j));
    spans = λ x h.
        let (y, (e, e')) = is.spans x h in
        (
          add_coordinates j k y,
          (
            combine-add_row s.M j k y is.long hj hk ne ∙ e,
            combine-add_row s.minv j k y is.long' hj hk ne ∙ e',
          ),
        );
  }

  eliminate_row-IsSound :
      (s : Pair) (j k : ℕ) → j < 64 → k < 64 → IsSound M0 s → IsSound M0 (eliminate_row j k s)
  unfolding eliminate_row
  eliminate_row-IsSound s j k hj hk is =
      elim (Bool-cases (not (k == j) && not (bit_and (get_or s.M k 0) (1 <<< j) == 0))) [
        | inl e ↦ rw e (add_row-IsSound s j k hj hk (guard_ne j k _ e) is)
        | inr e ↦ rw e is
      ]

  pub eliminate_loop-IsSound :
      (left k j : ℕ) (s : Pair)
      → j < 64
      → k + left ≤ 64
      → IsSound M0 s
      → IsSound M0 (eliminate_loop left k j s)
  unfolding eliminate_loop
  eliminate_loop-IsSound zero k j s hj le is = is
  eliminate_loop-IsSound (suc left) k j s hj le is =
      eliminate_loop-IsSound left (k + 1) j _ hj (omega arith)
        (eliminate_row-IsSound s j k hj (omega arith) is)
