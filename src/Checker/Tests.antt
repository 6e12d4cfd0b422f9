-- ===== src/Checker/Tests.antt =====
-- A search in a list of three words, and the check of a slice with the identity matrix.
use xor_mining.Base.{
  ℕ, zero, suc, ◌^◌, ◌≤◌, ◌<◌, ◌≡◌, ◌≢◌, refl, arith, Bool, true, List, [], ◌∷◌, get_or, some, ◌↔◌,
}
use xor_mining.Base.Run.{ok}
use xor_mining.Gemv.{naive_gemv, naive_gemv_loop, mask_of}
use xor_mining.Gemv.Identity.{identity, unit_rows, identity-IsMatrix}
use xor_mining.Table.Cuckoo.{InRange}
use xor_mining.Slice.{Slice}
use xor_mining.Slice.Input.{IsSlice}
use xor_mining.Checker.{left_mask, binary_search, check_rows, check_words, check_slice}
use xor_mining.Base.Count.{count}
use xor_mining.Task.{slice_at}
use xor_mining.Task.Packed.{IsSized, pack_all, followed, Walk-pack_all}
use xor_mining.Checker.Whole.{file_loop, compare_loop, checker}
use xor_mining.Checker.Counts.{all_lifts, checker-count}
use xor_mining.Checker.Search.{SortedRange, binary_search_iff}
use xor_mining.Checker.Sound.{check_slice-IsSlice}

abbrev hashes : List ℕ
hashes = 6 ∷ []

hashes-SortedRange : SortedRange hashes 0 1
hashes-SortedRange zero zero lo le hi = omega arith
hashes-SortedRange zero (suc j) lo le hi = absurd (omega arith)
hashes-SortedRange (suc i) j lo le hi = absurd (omega arith)

binary_search_iff_example :
    (b : Bool) × (binary_search 1 6 hashes 0 1 ≡ some b) × ((b ≡ true) ↔ InRange hashes 0 1 6)
binary_search_iff_example =
    binary_search_iff 1 6 hashes 0 1 (omega arith) (omega arith) hashes-SortedRange

abbrev slice : Slice
slice = record { M = identity; minv = identity; n = 1; l = 19; cm = 6 ∷ [] }

slice-checked : check_slice 19 hashes slice ≡ ok (6 ∷ [])
unfolding check_slice check_rows check_words naive_gemv naive_gemv_loop mask_of unit_rows left_mask
    binary_search
slice-checked = refl

slice-words : (k : ℕ) → k < 1 → get_or {A = ℕ} (6 ∷ []) k 0 < 2 ^ 64
slice-words zero h = omega arith
slice-words (suc k) h = absurd (omega arith)

hashes-nonzero : (k : ℕ) → k < 1 → get_or hashes k 0 ≢ 0
hashes-nonzero zero h = λ e. absurd (omega arith)
hashes-nonzero (suc k) h = absurd (omega arith)

check_slice-IsSlice_example :
    IsSlice slice
    × (19 ≤ 19)
    × ((k : ℕ) → k < 1 → InRange hashes 0 1 (naive_gemv (get_or slice.cm k 0) identity))
check_slice-IsSlice_example =
    check_slice-IsSlice 19 hashes slice (6 ∷ []) identity-IsMatrix identity-IsMatrix slice-words
      (omega arith) (omega arith) (omega arith) hashes-SortedRange hashes-nonzero slice-checked

-- A file of one slice
abbrev file : List ℕ
file = pack_all (slice ∷ [])

slice-IsSized : IsSized slice
unfolding unit_rows
slice-IsSized = record { rows = refl; inverse_rows = refl; words = refl }

checker-accepts : checker (λ xs. xs) 19 hashes file ≡ ok tt
unfolding checker file_loop compare_loop slice_at check_slice check_rows check_words naive_gemv
    naive_gemv_loop mask_of unit_rows left_mask binary_search
checker-accepts = refl

checker-count_example : count 6 (all_lifts (followed (slice ∷ []))) ≡ count 6 hashes
checker-count_example =
    checker-count (λ xs. xs) 19 hashes file (followed (slice ∷ []))
      (record { same_count = λ z xs. refl; same_length = λ xs. refl })
      (Walk-pack_all (slice ∷ []) (slice-IsSized, tt)) checker-accepts 6
