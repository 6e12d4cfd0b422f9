-- ===== src/Checker/Sound.antt =====
-- A slice that passes the check has the form that `process_slice` needs.
use native.Mathlib.Nat.{mod-eq_of_lt, one-le-pow, zero-div}
use xor_mining.Base.{
  ℕ, zero, suc, ◌+◌, ◌-◌, ◌*◌, ◌/◌, ◌%◌, ◌^◌, ◌≤◌, ◌<◌, ◌≡◌, ◌≢◌, refl, sym, ap, ap₂, ◌∙◌, arith,
  bit_and, bit_xor, Bool, true, false, List, get_or, length, if◌then◌else◌, ◌==◌, ==_iff, ltb,
  eq_of_some, ◌&&◌, ℕ_discrete, some,
}
use xor_mining.Base.Run.{
  Run, ok, exits, fault, looped, ◌>>=◌, bind_inverse, require_inverse, looped_inverse, is_ok,
  stopped,
}
use xor_mining.Word.{◌>>>◌, ◌<<<◌, test_bit}
use xor_mining.Word.Mask.{bit_and-shr, bit_and_mask}
use xor_mining.Gemv.{naive_gemv}
use xor_mining.Gemv.Linear.{pick, combine}
use xor_mining.Gemv.Naive.{IsMatrix, naive_gemv-combine, naive_gemv-xor}
use xor_mining.Gemv.Identity.{identity, combine-identity, unit_rows-get_or}
use xor_mining.Table.Cuckoo.{InRange}
use xor_mining.Partition.Correct.{shift_lem, key-lt, two_pow_add}
use xor_mining.Partition.Address.{quotient_of}
use xor_mining.Slice.{Slice}
use xor_mining.Slice.Input.{IsSlice, naive_gemv-zero}
use xor_mining.Checker.{left_mask, binary_search, check_rows, check_words, check_slice}
use xor_mining.Checker.Search.{SortedRange, binary_search_iff}

mask_value : (a P W : ℕ) → W ≡ (a + 1) * P → 0 < P → W - 1 - (1 * P - 1) ≡ a * P + 0
mask_value a P W e pos = let split : (a + 1) * P ≡ a * P + P = grind arith in omega (arith, split)

-- The words that the mask accepts.
left_mask-shr : (l : ℕ) → l ≤ 64 → left_mask l >>> (64 - l) ≡ 2 ^ l - 1
unfolding left_mask
left_mask-shr l le =
    let P = 2 ^ (64 - l) in
    let pos : 0 < P = one-le-pow (64 - l) 2 (omega arith) in
    let some : 0 < 2 ^ l = one-le-pow l 2 (omega arith) in
    let small : l % 256 ≡ l = omega (arith, le) in
    let e : 64 ≡ l + (64 - l) = omega arith in
    let whole : 2 ^ 64 ≡ 2 ^ l * P = ap (λ n. 2 ^ n) e ∙ two_pow_add l (64 - l) in
    let pred : 2 ^ l ≡ 2 ^ l - 1 + 1 = omega (arith, some) in
    ap (λ n. (2 ^ 64 - 1 - ((1 <<< (64 - n)) - 1)) >>> (64 - l)) small
    ∙ ap (λ u. u / P) (mask_value (2 ^ l - 1) P (2 ^ 64) (whole ∙ ap (λ a. a * P) pred) pos)
    ∙ quotient_of P (2 ^ l - 1) 0 pos

narrow_of : (l x : ℕ) → l ≤ 64 → x < 2 ^ 64 → bit_and x (left_mask l) ≡ 0 → x >>> (64 - l) ≡ 0
narrow_of l x le lt e =
    sym (mod-eq_of_lt (key-lt l x le lt))
    ∙ sym (bit_and_mask l (x >>> (64 - l)))
    ∙ ap (bit_and (x >>> (64 - l))) (sym (left_mask-shr l le))
    ∙ sym (bit_and-shr x (left_mask l) (64 - l))
    ∙ ap (λ u. u >>> (64 - l)) e
    ∙ zero-div (2 ^ (64 - l))

-- If the product by `N` takes each row of `M` to its unit, it undoes the product by `M`.
module _ (M N : List ℕ) (matrix : IsMatrix M) (inverse : IsMatrix N)
    (rows : (k : ℕ) → k < 64 → naive_gemv (get_or M k 0) N ≡ 1 <<< k) where
  unit : (k : ℕ) → k < 64 → 1 <<< k ≡ get_or identity k 0
  unit k h =
      let e : 0 + k ≡ k = omega arith in omega (arith, unit_rows-get_or 64 0 k h, ap (λ n. 2 ^ n) e)

  pick-row :
      (b : Bool) (k : ℕ)
      → k < 64
      → naive_gemv (pick b (get_or M k 0)) N ≡ pick b (get_or identity k 0)
  pick-row true k h = rows k h ∙ unit k h
  pick-row false k h = naive_gemv-zero N inverse

  rows-combine :
      (n lo x : ℕ) → lo + n ≤ 64 → naive_gemv (combine M lo n x) N ≡ combine identity lo n x
  unfolding combine
  rows-combine zero lo x h = naive_gemv-zero N inverse
  rows-combine (suc n) lo x h =
      naive_gemv-xor (pick (test_bit x 0) (get_or M lo 0)) (combine M (lo + 1) n (x >>> 1)) N
        inverse
      ∙ ap₂ bit_xor (pick-row (test_bit x 0) lo (omega arith))
          (rows-combine n (lo + 1) (x >>> 1) (omega arith))

  undoes : (x : ℕ) → x < 2 ^ 64 → naive_gemv (naive_gemv x M) N ≡ x
  undoes x lt =
      ap (λ u. naive_gemv u N) (naive_gemv-combine x M matrix)
      ∙ rows-combine 64 0 x (omega arith)
      ∙ combine-identity 64 0 x (omega arith)
      ∙ ap (λ u. u * 1) (mod-eq_of_lt lt)
      ∙ omega arith

-- What the rows and the words passed.
abbrev UnitRow : Slice → ℕ → Type 0
UnitRow slice j =
    (naive_gemv (get_or slice.M j 0) slice.minv ≡ 1 <<< j)
    × (naive_gemv (get_or slice.minv j 0) slice.M ≡ 1 <<< j)

check_rows-passed :
    (left k : ℕ) (slice : Slice) {u : Unit {0}}
    → check_rows left k slice ≡ ok u
    → (j : ℕ) → k ≤ j
    → j < k + left
    → UnitRow slice j
unfolding check_rows
check_rows-passed zero k slice e j lo hi = absurd (omega arith)
check_rows-passed (suc left) k slice e j lo hi =
    let (first, e₁) =
      require_inverse (naive_gemv (get_or slice.M k 0) slice.minv == (1 <<< k)) _ e in
    let (second, e₂) =
      require_inverse (naive_gemv (get_or slice.minv k 0) slice.M == (1 <<< k)) _ e₁ in
    elim (ℕ_discrete k j) [
      | yes same ↦ rw (← same) ((==_iff _ _).0 first, (==_iff _ _).0 second)
      | no other ↦ check_rows-passed left (k + 1) slice e₂ j (omega arith) (omega arith)
    ]

abbrev WordPassed : Slice → List ℕ → ℕ → Type 0
WordPassed slice L j =
    (bit_and (get_or slice.cm j 0) (left_mask slice.l) ≡ 0)
    × (binary_search (length L) (naive_gemv (get_or slice.cm j 0) slice.minv) L 0 (length L)
        ≡ some true)

check_words-passed :
    (left k : ℕ) (slice : Slice) (L zs : List ℕ)
    → check_words left k slice L ≡ ok zs
    → (j : ℕ) → k ≤ j
    → j < k + left
    → WordPassed slice L j
unfolding check_words
check_words-passed zero k slice L zs e j lo hi = absurd (omega arith)
check_words-passed (suc left) k slice L zs e j lo hi =
    let (masked, e₁) =
      require_inverse (bit_and (get_or slice.cm k 0) (left_mask slice.l) == 0) _ e in
    let (found, (e₂, e₃)) =
      bind_inverse (looped (binary_search (length L) _ L 0 (length L))) _ e₁ in
    let (hit, e₄) = require_inverse found _ e₃ in
    let (rest, (e₅, e₆)) = bind_inverse (check_words left (k + 1) slice L) _ e₄ in
    elim (ℕ_discrete k j) [
      | yes same ↦ rw (← same) (
        (==_iff _ _).0 masked,
        looped_inverse (binary_search (length L) _ L 0 (length L)) e₂ ∙ ap some hit,
      )
      | no other ↦ check_words-passed left (k + 1) slice L rest e₅ j (omega arith) (omega arith)
    ]

pub guards_passed :
    (short inside : Bool) (run : Run (List ℕ)) {zs : List ℕ}
    → (if short then exits else if inside then run else fault) ≡ ok zs
    → (short ≡ false) × (inside ≡ true) × (run ≡ ok zs)
unfolding is_ok
guards_passed true inside run e = absurd (stopped refl e)
guards_passed false true run e = (refl, refl, e)
guards_passed false false run e = absurd (stopped refl e)

in_range : (l : ℕ) → l % 256 ≡ l → (ltb 0 (l % 256) && ltb (l % 256) 65) ≡ true → (0 < l) × (l ≤ 64)
in_range l same e =
    let e' : (ltb 0 l && ltb l 65) ≡ true = rw same at e in (ground (arith, e'), ground (arith, e'))

found_in :
    (L : List ℕ) (z : ℕ)
    → 0 < length L
    → SortedRange L 0 (length L)
    → binary_search (length L) z L 0 (length L) ≡ some true
    → InRange L 0 (length L) z
found_in L z holds sorted e =
    let (b, run, iff) = binary_search_iff (length L) z L 0 (length L) holds (omega arith) sorted in
    iff.0 (eq_of_some (sym run ∙ e))

-- A slice of fewer than 512 words and fewer than 256 equations (`LEFT_MASK` takes a byte) that
-- passes the check against a sorted list of hashes, none of them 0, has the form that
-- `process_slice` needs, and at least `l` equations. Its words, multiplied by the inverse, stand in
-- the list.
pub check_slice-IsSlice :
    (l : ℕ) (L : List ℕ) (slice : Slice) (zs : List ℕ)
    → IsMatrix slice.M
    → IsMatrix slice.minv
    → ((k : ℕ) → k < slice.n → get_or slice.cm k 0 < 2 ^ 64)
    → slice.l < 256
    → slice.n < 512
    → 0 < length L
    → SortedRange L 0 (length L)
    → ((k : ℕ) → k < length L → get_or L k 0 ≢ 0)
    → check_slice l L slice ≡ ok zs
    → IsSlice slice
      × (l ≤ slice.l)
      × ((k : ℕ)
          → k < slice.n
          → InRange L 0 (length L) (naive_gemv (get_or slice.cm k 0) slice.minv))
unfolding check_slice
check_slice-IsSlice l L slice zs matrix inverse words byte few holds sorted nonzero e =
    let (enough, inside, run) =
      guards_passed (ltb slice.l l) (ltb 0 (slice.l % 256) && ltb (slice.l % 256) 65)
        (check_rows 64 0 slice >>= (λ _. check_words slice.n 0 slice L)) e in
    let same : slice.l % 256 ≡ slice.l = omega (arith, byte) in
    let (pos, width) = in_range slice.l same inside in
    let (u, (rows, items)) = bind_inverse (check_rows 64 0 slice) _ run in
    let row = check_rows-passed 64 0 slice rows in
    let word = check_words-passed slice.n 0 slice L zs items in
    let lift = λ (k : ℕ). naive_gemv (get_or slice.cm k 0) slice.minv in
    let found : (k : ℕ) → k < slice.n → InRange L 0 (length L) (lift k) =
      λ k hk. found_in L (lift k) holds sorted (word k (omega arith) (omega arith)).1 in
    (
      record {
        matrix = matrix;
        inverse = inverse;
        inverts =
            undoes slice.M slice.minv matrix inverse
              (λ k hk. (row k (omega arith) (omega arith)).0);
        some = pos;
        width = width;
        few = few;
        nonzero = λ k hk z.
            let (j, (lo, hi, at)) = found k hk in
            nonzero j (omega (arith, hi))
              (at ∙ ap (λ u. naive_gemv u slice.minv) z ∙ naive_gemv-zero slice.minv inverse);
        narrow = λ k hk.
            ap (λ h. get_or slice.cm k 0 >>> h) (shift_lem slice.l width)
            ∙ narrow_of slice.l (get_or slice.cm k 0) width (words k hk)
                (word k (omega arith) (omega arith)).0;
      },
      ground arith,
      found,
    )
