-- ===== src/Checker/Whole.antt =====
-- The rest of `main` of preprocessing/slice_checker.c: the loop over the slices of a file and the
-- final comparison. `sort` is `qsort` with `cmp`. The options and the loads are left out.
use xor_mining.Base.{
  ℕ, zero, suc, ◌+◌, ◌-◌, List, [], ◌++◌, get_or, length, if◌then◌else◌, ◌==◌, ltb,
}
use xor_mining.Base.Run.{Run, ok, endless, fault, ◌>>=◌, require}
use xor_mining.Task.{header_size, slice_at}
use xor_mining.Checker.{check_slice}

-- `while ((u64 *) slice < slice_end)` with `left` rounds to go. `M` is what was copied so far; it
-- has room for as many words as there are hashes, and the word after those faults, if it passes.
unfoldable pub file_loop : ℕ → ℕ → List ℕ → List ℕ → ℕ → ℕ → List ℕ → Run (List ℕ)
file_loop zero l L words end off M = endless
file_loop (suc left) l L words end off M =
    let slice = slice_at words off in
    let next = off + header_size + slice.n in
    let room = length L - length M in
    let rest = check_slice l L slice >>= λ zs. file_loop left l L words end next (M ++ zs) in
    let overflow : Run (List ℕ) = check_slice l L (record slice { n = room + 1 }) >>= λ zs. fault in
    if ltb off end
    then (if ltb (length words) next then fault else if ltb room slice.n then overflow else rest)
    else ok M

-- The comparison of `L` and `M`.
unfoldable pub compare_loop : ℕ → ℕ → List ℕ → List ℕ → Run (Unit {0})
compare_loop zero i L M = ok tt
compare_loop (suc left) i L M = do
  _ ← require (get_or L i 0 == get_or M i 0)
  compare_loop left (i + 1) L M

-- A round of the first loop goes on by more than one word, so there are fewer rounds than words.
unfoldable pub checker : (List ℕ → List ℕ) → ℕ → List ℕ → List ℕ → Run (Unit {0})
checker sort l hashes words = do
  let L = sort hashes
  M ← file_loop (suc (length words)) l L words (length words) 0 []
  _ ← require (length M == length L)
  compare_loop (length L) 0 L (sort M)
