-- ===== src/Checker/Counts.antt =====
-- What preprocessing/slice_checker.c shows of a file of slices that it accepts.
use xor_mining.Base.{
  ℕ, zero, suc, ◌+◌, ◌-◌, ◌<◌, ◌≤◌, ◌≡◌, refl, sym, ap, ◌∙◌, arith, bit_and, Bool, true, false,
  List, [], ◌∷◌, ◌++◌, append_assoc, append-nil, get_or, get_or_ext, length, if◌then◌else◌, ◌==◌,
  ==_iff, ltb, Bool-cases, inl, inr,
}
use xor_mining.Base.Run.{
  Run, ok, endless, exits, fault, ◌>>=◌, bind_inverse, require_inverse, looped, is_ok, stopped,
}
use xor_mining.Base.Count.{count}
use xor_mining.Gemv.{naive_gemv}
use xor_mining.Slice.{Slice}
use xor_mining.Task.{header_size}
use xor_mining.Task.Walk.{Walk}
use xor_mining.Checker.{left_mask, binary_search, check_rows, check_words, check_slice}
use xor_mining.Checker.Sound.{guards_passed}
use xor_mining.Checker.Whole.{file_loop, compare_loop, checker}

-- The words of a slice from `k` on, multiplied by the inverse
unfoldable pub lifts : ℕ → ℕ → Slice → List ℕ
lifts zero k slice = []
lifts (suc left) k slice = naive_gemv (get_or slice.cm k 0) slice.minv ∷ lifts left (k + 1) slice

unfoldable pub all_lifts : List Slice → List ℕ
all_lifts [] = []
all_lifts (slice ∷ slices) = lifts slice.n 0 slice ++ all_lifts slices

check_words-lifts :
    (left k : ℕ) (slice : Slice) (L : List ℕ) {zs : List ℕ}
    → check_words left k slice L ≡ ok zs
    → ok (lifts left k slice) ≡ ok zs
unfolding check_words lifts
check_words-lifts zero k slice L e = e
check_words-lifts (suc left) k slice L e =
    let (_, e₁) = require_inverse (bit_and (get_or slice.cm k 0) (left_mask slice.l) == 0) _ e in
    let (found, (_, e₃)) = bind_inverse (looped (binary_search (length L) _ L 0 (length L))) _ e₁ in
    let (_, e₄) = require_inverse found _ e₃ in
    let (rest, (e₅, e₆)) = bind_inverse (check_words left (k + 1) slice L) _ e₄ in
    let tail = check_words-lifts left (k + 1) slice L e₅ in
    ap (λ r. r >>= λ zs. ok (naive_gemv (get_or slice.cm k 0) slice.minv ∷ zs)) tail ∙ e₆

check_slice-lifts :
    (l : ℕ) (L : List ℕ) (slice : Slice) {zs : List ℕ}
    → check_slice l L slice ≡ ok zs
    → ok (lifts slice.n 0 slice) ≡ ok zs
unfolding check_slice
check_slice-lifts l L slice e =
    let (_, _, run) = guards_passed _ _ _ e in
    let (_, (_, words)) = bind_inverse (check_rows 64 0 slice) _ run in
    check_words-lifts slice.n 0 slice L words

ok-injective : {xs ys : List ℕ} → ok xs ≡ ok ys → xs ≡ ys
ok-injective e = ap value e
  where
    value : Run (List ℕ) → List ℕ
    value (ok xs) = xs
    value endless = []
    value exits = []
    value fault = []

-- The round of the loop on a slice went on.
round_passed :
    (beyond full : Bool) (overflow rest : Run (List ℕ)) {zs : List ℕ}
    → (if beyond then fault else if full then overflow >>= (λ _. fault) else rest) ≡ ok zs
    → rest ≡ ok zs
unfolding is_ok
round_passed true full overflow rest e = absurd (stopped refl e)
round_passed false true overflow rest e =
    let (_, (_, e')) = bind_inverse overflow _ e in absurd (stopped refl e')
round_passed false false overflow rest e = e

file_loop-lifts :
    (left l : ℕ) (L words : List ℕ) (end off : ℕ) (slices : List Slice) (M : List ℕ) {M' : List ℕ}
    → Walk words end off slices
    → file_loop left l L words end off M ≡ ok M'
    → M' ≡ M ++ all_lifts slices
unfolding file_loop all_lifts is_ok
file_loop-lifts zero l L words end off slices M walk e = absurd (stopped refl e)
file_loop-lifts (suc left) l L words end off [] M le e =
    let over : ltb off end ≡ false = ground (arith, le) in
    sym (ok-injective (rw over at e)) ∙ sym (append-nil M)
file_loop-lifts (suc left) l L words end off (slice ∷ slices) M (lt, whole, same, walk) e =
    let more : ltb off end ≡ true = ground (arith, lt) in
    let rest =
      round_passed (ltb (length words) (off + header_size + slice.n))
        (ltb (length L - length M) slice.n)
        (check_slice l L (record slice { n = length L - length M + 1 }))
        (check_slice l L slice >>= λ zs.
          file_loop left l L words end (off + header_size + slice.n) (M ++ zs))
        (rw (more, same) at e) in
    let (zs, (checked, e')) = bind_inverse (check_slice l L slice) _ rest in
    let taken = ok-injective (check_slice-lifts l L slice checked) in
    file_loop-lifts left l L words end (off + 130 + slice.n) slices (M ++ zs) walk e'
    ∙ append_assoc M zs (all_lifts slices)
    ∙ ap (λ r. M ++ (r ++ all_lifts slices)) (sym taken)

compare_loop-same :
    (left i : ℕ) (L M : List ℕ) {u : Unit {0}}
    → compare_loop left i L M ≡ ok u
    → (j : ℕ) → i ≤ j
    → j < i + left
    → get_or L j 0 ≡ get_or M j 0
unfolding compare_loop
compare_loop-same zero i L M e j le lt = absurd (omega (arith, le, lt))
compare_loop-same (suc left) i L M e j le lt =
    let (here, rest) = require_inverse (get_or L i 0 == get_or M i 0) _ e in
    elim (Bool-cases (j == i)) [
      | inl q ↦ let same : j ≡ i = (==_iff _ _).0 q in rw same ((==_iff _ _).0 here)
      | inr q ↦
          compare_loop-same left (i + 1) L M rest j (ground (arith, q, le)) (omega (arith, lt))
    ]

-- `qsort` permutes the list.
pub record Permutes (sort : List ℕ → List ℕ) : Type 0 where
  pub same_count : (z : ℕ) (xs : List ℕ) → count z (sort xs) ≡ count z xs
  pub same_length : (xs : List ℕ) → length (sort xs) ≡ length xs

-- If the program accepts a file of slices, the words of all slices, multiplied by their inverses, are
-- the hashes, each as often as it stands in the list of hashes; this asks of `qsort` that it permutes
-- the list.
pub checker-count :
    (sort : List ℕ → List ℕ) (l : ℕ) (hashes words : List ℕ) (slices : List Slice)
    → Permutes sort
    → Walk words (length words) 0 slices
    → checker sort l hashes words ≡ ok tt
    → (z : ℕ) → count z (all_lifts slices) ≡ count z hashes
unfolding checker
checker-count sort l hashes words slices p walk e z =
    let L = sort hashes in
    let (M, (run, e₁)) =
      bind_inverse (file_loop (suc (length words)) l L words (length words) 0 []) _ e in
    let (sizes, e₂) = require_inverse (length M == length L) _ e₁ in
    let size : length M ≡ length L = (==_iff _ _).0 sizes in
    let M-is : M ≡ all_lifts slices =
      file_loop-lifts _ l L words (length words) 0 slices [] walk run in
    let same : L ≡ sort M =
      get_or_ext 0 L (sort M) (sym (p.same_length M ∙ size)) (λ j lt.
        compare_loop-same (length L) 0 L (sort M) e₂ j (omega arith) (omega (arith, lt))) in
    ap (λ r. count z r) (sym M-is)
    ∙ sym (p.same_count z M)
    ∙ ap (λ r. count z r) (sym same)
    ∙ p.same_count z hashes
