-- ===== src/Slicer/Echelon/Free.antt =====
-- The equations that `check_rank_defect` adds hold of all vectors.
use xor_mining.Base.{
  ℕ, zero, suc, ◌+◌, ◌-◌, ◌*◌, ◌/◌, ◌%◌, ◌<◌, ◌≤◌, true, false, List, [], get_or, set, length, ◌≡◌,
  refl, ap, ap₂, sym, ◌∙◌, arith, length-set, get_or-set_self, get_or-set_ne, length-replicate,
  replicate, ◌==◌, ℕ_discrete, Bool-cases, inl, inr, ==_iff,
}
use xor_mining.Base.Run.{ok, ◌>>=◌, Finishes, Finishes-bind, Finishes-require, Finishes-weaken}
use xor_mining.Word.{◌<<<◌, test_bit}
use xor_mining.Word.Bits.{test_bit-zero}
use xor_mining.Slicer.Parity.{dot, dot-unit, dot_comm}
use xor_mining.Slicer.Transpose.{transpose, transpose_loop}
use xor_mining.Slicer.Transpose.Columns.{transpose-bit, length-transpose}
use xor_mining.Slicer.Echelon.{
  Grid, examine, pivot_loop, column_loop, identity_loop, echelonize, zero_row, defect_loop,
  check_rank_defect,
}
use xor_mining.Slicer.Echelon.Bits.{cell}
use xor_mining.Slicer.Echelon.Sound.{IsSound}
use xor_mining.Slicer.Echelon.Defect.{Columns, column_loop-Columns}

identity_loop-units :
    (left i : ℕ) (E : List ℕ)
    → i + left ≡ 64
    → length E ≡ 64
    → ((k : ℕ) → k < i → get_or E k 0 ≡ 1 <<< k)
    → ((k : ℕ) → k < 64 → get_or (identity_loop left i E) k 0 ≡ 1 <<< k)
      × (length (identity_loop left i E) ≡ 64)
unfolding identity_loop
identity_loop-units zero i E e l h = (λ k p. h k (omega arith), l)
identity_loop-units (suc left) i E e l h =
    identity_loop-units left (i + 1) _ (omega arith) (length-set E i _ ∙ l) (λ k p.
      elim (ℕ_discrete i k) [
        | yes q ↦ rw (← q) (get_or-set_self E i (1 <<< i) 0 (omega arith))
        | no ne ↦ get_or-set_ne E i k _ 0 ne ∙ h k (omega arith)
      ])

-- The transposed matrix and the identity are in step.
start-IsSound :
    (M E T : List ℕ) (w calls : ℕ)
    → length T ≡ 64 * w
    → length E ≡ 64
    → IsSound w
        (λ v. get_or M v 0)
        (record { T = transpose M w T; E = identity_loop 64 0 E; trials = 6; calls = calls })
start-IsSound M E T w calls long long' =
    let (units, l) = identity_loop-units 64 0 E refl long' (λ k p. absurd (omega arith)) in
    record {
      long = length-transpose M T w ∙ long;
      long' = l;
      place = λ c. c;
      order = record { into = λ c h. h; onto = λ i h. (i, (h, refl)) };
      bits = λ r c hr hc.
          let flip : r * w + c / 64 ≡ c / 64 + r * w = omega arith in
          let whole : c / 64 * 64 + c % 64 ≡ c = omega arith in
          ap (λ a. test_bit (get_or (transpose M w T) a 0) (c % 64)) flip
          ∙ transpose-bit M T w (c / 64) r (c % 64) (omega arith) hc hr (omega arith)
          ∙ ap (λ a. test_bit (get_or M a 0) r) whole
          ∙ sym (dot-unit (get_or M c 0) r hr)
          ∙ dot_comm (get_or M c 0) (1 <<< r)
          ∙ ap (λ u. dot u (get_or M c 0)) (sym (units r hr));
    }

-- What the assertions say of a row that passes them.
zero_row-Finishes :
    (left s r w : ℕ) (T : List ℕ)
    → Finishes (zero_row left s r w T) (λ u. (l : ℕ) → s ≤ l → l < s + left → cell T w r l ≡ 0)
unfolding zero_row
zero_row-Finishes zero s r w T = λ l lo hi. absurd (omega arith)
zero_row-Finishes (suc left) s r w T =
    Finishes-require (get_or T (r * w + s) 0 == 0) (λ u. zero_row left (s + 1) r w T) _
      (λ z.
        Finishes-weaken (zero_row left (s + 1) r w T) _ _ (zero_row-Finishes left (s + 1) r w T)
          (λ u h l lo hi. elim (ℕ_discrete s l) [
            | yes e ↦ rw (← e) ((==_iff _ _).0 z)
            | no ne ↦ h l (omega arith) (omega arith)
          ]))

-- The equations before number `k`, and the rows stored from there on.
pub record Stored (w : ℕ) (g : Grid) (old : List ℕ) (r k left : ℕ) (out : List ℕ × ℕ) : Type 0 where
  pub size : length out.0 ≡ 64
  pub count : out.1 ≡ k + left
  pub before : (i : ℕ) → i < k → get_or out.0 i 0 ≡ get_or old i 0
  pub rows : (i : ℕ) → i < left → get_or out.0 (k + i) 0 ≡ get_or g.E (r + i) 0
  pub zeros : (i l : ℕ) → i < left → l < w → cell g.T w (r + i) l ≡ 0

defect_loop-Stored :
    (left r w : ℕ) (g : Grid) (equations : List ℕ) (k : ℕ)
    → length equations ≡ 64
    → k + left ≤ 64
    → Finishes (defect_loop left r w g equations k) (Stored w g equations r k left)
unfolding defect_loop
defect_loop-Stored zero r w g equations k l le = record {
  size = l;
  count = omega arith;
  before = λ i h. refl;
  rows = λ i h. absurd (omega arith);
  zeros = λ i l h. absurd (omega arith);
}
defect_loop-Stored (suc left) r w g equations k l le =
    Finishes-bind (zero_row w 0 r w g.T) _ _ _ (zero_row-Finishes w 0 r w g.T) (λ u zero_here.
      Finishes-weaken (defect_loop left (r + 1) w g (set equations k (get_or g.E r 0)) (k + 1)) _ _
        (defect_loop-Stored left (r + 1) w g (set equations k (get_or g.E r 0)) (k + 1)
          (length-set equations k _ ∙ l) (omega arith))
        (λ out s. record {
          size = s.size;
          count = omega (arith, s.count);
          before =
              λ i h. s.before i (omega arith) ∙ get_or-set_ne equations k i _ 0 (λ q. omega arith);
          rows = λ i h. on_first i h s;
          zeros = λ i l h hl. first_zero i l h hl s zero_here;
        }))
  where
    zero_more : (a : ℕ) → a + 0 ≡ a
    zero_more a = omega arith

    one_more : (a i : ℕ) → a + suc i ≡ a + 1 + i
    one_more a i = omega arith

    on_first :
        {out : List ℕ × ℕ} (i : ℕ)
        → i < suc left
        → Stored w g (set equations k (get_or g.E r 0)) (r + 1) (k + 1) left out
        → get_or out.0 (k + i) 0 ≡ get_or g.E (r + i) 0
    on_first zero h s =
        rw (zero_more k, zero_more r)
          (s.before k (omega arith) ∙ get_or-set_self equations k (get_or g.E r 0) 0 (omega arith))
    on_first (suc i) h s = rw (one_more k i, one_more r i) (s.rows i (omega arith))

    first_zero :
        {out : List ℕ × ℕ} (i q : ℕ)
        → i < suc left
        → q < w
        → Stored w g (set equations k (get_or g.E r 0)) (r + 1) (k + 1) left out
        → ((l : ℕ) → 0 ≤ l → l < 0 + w → cell g.T w r l ≡ 0)
        → cell g.T w (r + i) q ≡ 0
    first_zero zero q h hq s here = rw (zero_more r) (here q (omega arith) (omega arith))
    first_zero (suc i) q h hq s here = rw (one_more r i) (s.zeros i q (omega arith) hq)

-- The equations after a check: those of before, and free ones, which hold of all vectors.
pub record Extended (w : ℕ) (M old : List ℕ) (k : ℕ) (out : List ℕ × ℕ × ℕ) : Type 0 where
  pub size : length out.0 ≡ 64
  pub from : k ≤ out.1
  pub to : out.1 ≤ 64
  pub before : (i : ℕ) → i < k → get_or out.0 i 0 ≡ get_or old i 0
  pub free :
      (i v : ℕ) → k ≤ i → i < out.1 → v / 64 < w → dot (get_or M v 0) (get_or out.0 i 0) ≡ false

same_equations :
    (w : ℕ) (M equations : List ℕ) (k calls : ℕ)
    → length equations ≡ 64
    → k ≤ 64
    → Extended w M equations k (equations, k, calls)
same_equations w M equations k calls l le = record {
  size = l;
  from = omega arith;
  to = le;
  before = λ i h. refl;
  free = λ i v lo hi. absurd (omega arith);
}

-- A row of zeros is an equation that holds of all vectors.
Stored-Extended :
    (w : ℕ) (M old : List ℕ) (g : Grid) (r k left calls : ℕ) (out : List ℕ × ℕ)
    → (0 < w → IsSound w (λ v. get_or M v 0) g)
    → r + left ≤ 64
    → k + left ≤ 64
    → Stored w g old r k left out
    → Extended w M old k (out.0, out.1, calls)
Stored-Extended w M old g r k left calls out sound le le' s = record {
  size = s.size;
  from = omega (arith, s.count);
  to = omega (arith, s.count);
  before = s.before;
  free = λ i v lo hi hv.
      let is = sound (omega arith) in
      let (c, (hc, place)) = is.order.onto v hv in
      let at : k + (i - k) ≡ i = omega arith in
      let row : get_or out.0 i 0 ≡ get_or g.E (r + (i - k)) 0 =
        ap (λ a. get_or out.0 a 0) (sym at) ∙ s.rows (i - k) (omega (arith, s.count)) in
      dot_comm (get_or M v 0) (get_or out.0 i 0)
      ∙ ap₂ (λ a b. dot a (get_or M b 0)) row (sym place)
      ∙ sym (is.bits (r + (i - k)) c (omega (arith, s.count)) hc)
      ∙ ap (λ u. test_bit u (c % 64)) (s.zeros (i - k) (c / 64) (omega (arith, s.count)) hc)
      ∙ test_bit-zero (c % 64);
}

module _ (lrand48 : ℕ → ℕ) where
  column_loop-empty :
      (fuel left calls : ℕ) (E : List ℕ)
      → let g : Grid = record { T = []; E = E; trials = 6; calls = calls } in
        column_loop lrand48 (suc fuel) left 0 0 0 g ≡ ok (0, g)
  unfolding column_loop pivot_loop examine
  column_loop-empty fuel zero calls E = refl
  column_loop-empty fuel (suc left) calls E = refl

  module _ (fuel m k calls : ℕ) (M equations : List ℕ) (j : ℕ) (g : Grid)
      (run : echelonize lrand48 fuel
          (transpose M ((m + 63) / 64) (replicate (64 * ((m + 63) / 64)) 0))
          m
          ((m + 63) / 64)
          (64 - k)
          (replicate 64 0)
          calls
        ≡ ok (j, g)) where
    check_full :
        (j == (64 - k)) ≡ true
        → check_rank_defect lrand48 fuel M m equations k calls ≡ ok (equations, k, g.calls)
    unfolding check_rank_defect
    check_full e = rw run (rw e refl)

    check_defect :
        (j == (64 - k)) ≡ false
        → check_rank_defect lrand48 fuel M m equations k calls ≡ (
            defect_loop (64 - k - j) j ((m + 63) / 64) g equations k
            >>= (λ out. ok (out.0, out.1, g.calls)))
    unfolding check_rank_defect
    check_defect e = rw run (rw e refl)

  -- `echelonize` on transposed vectors ends, if there is a vector.
  pub echelonize-Columns :
      (fuel m d calls : ℕ) (M T E : List ℕ) (pos : 0 < (m + 63) / 64)
      → d ≤ 64
      → 6 + m < fuel
      → length T ≡ 64 * ((m + 63) / 64)
      → length E ≡ 64
      → (r : ℕ × Grid) × ((echelonize lrand48 fuel
              (transpose M ((m + 63) / 64) T)
              m
              ((m + 63) / 64)
              d
              E
              calls
            ≡ ok r)
          × Columns ((m + 63) / 64) (λ v. get_or M v 0) pos lrand48 0 (0 + d) r)
  unfolding echelonize
  echelonize-Columns fuel m d calls M T E pos le h l l' =
      column_loop-Columns ((m + 63) / 64) (λ v. get_or M v 0) pos lrand48 fuel d 0 m _ (omega arith)
        (omega arith) (omega arith) h (start-IsSound M E T ((m + 63) / 64) calls l l')

  -- The run in `check_rank_defect`.
  echelonize_ends :
      (fuel m k calls : ℕ) (M : List ℕ)
      → k ≤ 64
      → 6 + m < fuel
      → (r : ℕ × Grid) × ((echelonize lrand48 fuel
              (transpose M ((m + 63) / 64) (replicate (64 * ((m + 63) / 64)) 0))
              m
              ((m + 63) / 64)
              (64 - k)
              (replicate 64 0)
              calls
            ≡ ok r)
          × (r.0 ≤ 64 - k)
          × (0 < (m + 63) / 64 → IsSound ((m + 63) / 64) (λ v. get_or M v 0) r.1))
  unfolding echelonize transpose transpose_loop replicate
  echelonize_ends zero zero k calls M le h = absurd (omega arith)
  echelonize_ends (suc fuel) zero k calls M le h = (
    (0, _),
    (
      column_loop-empty fuel (64 - k) calls (identity_loop 64 0 (replicate 64 0)),
      omega arith,
      λ p. absurd (omega arith),
    ),
  )
  echelonize_ends fuel (suc m) k calls M le h =
      let w = (suc m + 63) / 64 in
      let (r, (run, c)) =
        echelonize-Columns fuel (suc m) (64 - k) calls M (replicate (64 * w) 0) (replicate 64 0)
          (omega arith) (omega arith) h (length-replicate {A = ℕ} (64 * w) 0)
          (length-replicate {A = ℕ} 64 0) in
      (r, (run, omega (arith, c.to), λ p. c.sound))

  pub check_rank_defect-Extended :
      (fuel m k calls : ℕ) (M equations : List ℕ)
      → length equations ≡ 64
      → k ≤ 64
      → 6 + m < fuel
      → Finishes
          (check_rank_defect lrand48 fuel M m equations k calls)
          (Extended ((m + 63) / 64) M equations k)
  check_rank_defect-Extended fuel m k calls M equations l le h =
      let ((j, g), (run, small, sound)) = echelonize_ends fuel m k calls M le h in
      elim (Bool-cases (j == (64 - k))) [
        | inl e ↦
            rw (check_full fuel m k calls M equations j g run e)
              (same_equations ((m + 63) / 64) M equations k g.calls l le)
        | inr e ↦ rw (check_defect fuel m k calls M equations j g run e) (
            Finishes-bind (defect_loop (64 - k - j) j ((m + 63) / 64) g equations k) _ _ _
              (defect_loop-Stored (64 - k - j) j ((m + 63) / 64) g equations k l (omega arith))
              (λ out s.
                Stored-Extended ((m + 63) / 64) M equations g j k (64 - k - j) g.calls out sound
                  (omega arith) (omega arith) s))
      ]
