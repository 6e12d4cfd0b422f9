-- ===== src/Checker.antt =====
-- The check of one slice in preprocessing/slice_checker.c: the loops of `main` over the rows and
-- the words of a slice, and `binary_search`. The list of hashes is sorted by then.
pub mod Search
pub mod Sound
pub mod Whole
pub mod Counts
mod Tests
use xor_mining.Base.{
  ℕ, zero, suc, ◌+◌, ◌-◌, ◌*◌, ◌/◌, ◌%◌, ◌^◌, bit_and, Bool, true, false, ◌&&◌, List, [], ◌∷◌, ◌++◌,
  get_or, length, if◌then◌else◌, ◌==◌, ltb, Option, none, some,
}
use xor_mining.Base.Run.{Run, ok, exits, fault, ◌>>=◌, ◌>>◌, looped, require}
use xor_mining.Word.{◌<<<◌}
use xor_mining.Gemv.{naive_gemv}
use xor_mining.Slice.{Slice}

-- `LEFT_MASK` of a `u8`, which is from 1 to 64; other shifts have no defined result.
unfoldable pub left_mask : ℕ → ℕ
left_mask n = 2 ^ 64 - 1 - ((1 <<< (64 - n % 256)) - 1)

-- `binary_search` in `L[lo]` to `L[lo + size - 1]`, with `left` calls to go; an empty range is
-- searched for ever.
unfoldable pub binary_search : ℕ → ℕ → List ℕ → ℕ → ℕ → Option Bool
binary_search zero x L lo size = none
binary_search (suc left) x L lo size =
    let mid = size / 2 in
    let probe = get_or L (lo + mid) 0 in
    let lo' = if ltb x probe then lo else lo + mid in
    let size' = if ltb x probe then mid else size - mid in
    let rest = binary_search left x L lo' size' in
    if x == probe then some true else if size == 1 then some false else rest

-- `M*Minv = I`, row by row
unfoldable pub check_rows : ℕ → ℕ → Slice → Run (Unit {0})
check_rows zero k slice = ok tt
check_rows (suc left) k slice = do
  _ ← require (naive_gemv (get_or slice.M k 0) slice.minv == (1 <<< k))
  _ ← require (naive_gemv (get_or slice.minv k 0) slice.M == (1 <<< k))
  check_rows left (k + 1) slice

-- The words of the slice; the result is what goes to `M`.
unfoldable pub check_words : ℕ → ℕ → Slice → List ℕ → Run (List ℕ)
check_words zero k slice L = ok []
check_words (suc left) k slice L = do
  _ ← require (bit_and (get_or slice.cm k 0) (left_mask slice.l) == 0)
  let z = naive_gemv (get_or slice.cm k 0) slice.minv
  found ← looped (binary_search (length L) z L 0 (length L))
  _ ← require found
  zs ← check_words left (k + 1) slice L
  ok (z ∷ zs)

-- One slice; a number of equations that is out of range as a `u8` makes the shift of `LEFT_MASK`
-- undefined.
unfoldable pub check_slice : ℕ → List ℕ → Slice → Run (List ℕ)
check_slice l L slice =
    let run = check_rows 64 0 slice >>= λ _. check_words slice.n 0 slice L in
    if ltb slice.l l
    then exits
    else if ltb 0 (slice.l % 256) && ltb (slice.l % 256) 65
    then run
    else fault
