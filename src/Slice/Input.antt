-- ===== src/Slice/Input.antt =====
-- What `process_slice` needs of its input, and the solutions that it is to report.
use xor_mining.Base.{
  ℕ, ◌^◌, ◌≤◌, ◌<◌, ◌≡◌, ◌≢◌, refl, sym, ap, ap₂, ◌∙◌, bit_xor, List, [], ◌∷◌, map, length, get_or,
  ◌↔◌, ◌∈◌, All,
}
use xor_mining.Word.{◌>>>◌}
use xor_mining.Gemv.{MatmulTable, naive_gemv, matmul_init, gemm}
use xor_mining.Gemv.Linear.{combine-zero}
use xor_mining.Gemv.Naive.{IsMatrix, naive_gemv-combine}
use xor_mining.Gemv.Correct.{IsTable, gemv-matmul_init}
use xor_mining.Table.Cuckoo.{InRange}
use xor_mining.Join.{Triple, shift_of}
use xor_mining.Join.Correct.{InPieces}
use xor_mining.Result.{Solution}
use xor_mining.Slice.{Slice, Schedule}

-- The product by `Minv` undoes the product by `M` on words. `CM` has at most 511 words, none of
-- them 0, which are zero on the top `l` bits, with `l` from 1 to 64.
pub record IsSlice (slice : Slice) : Type 0 where
  pub matrix : IsMatrix slice.M
  pub inverse : IsMatrix slice.minv
  pub inverts : (x : ℕ) → x < 2 ^ 64 → naive_gemv (naive_gemv x slice.M) slice.minv ≡ x
  pub some : 0 < slice.l
  pub width : slice.l ≤ 64
  pub few : slice.n < 512
  pub nonzero : (k : ℕ) → k < slice.n → get_or slice.cm k 0 ≢ 0
  pub narrow : (k : ℕ) → k < slice.n → get_or slice.cm k 0 >>> shift_of slice.l ≡ 0

-- The two lists: 64-bit words, those of the first not 0, and none in both.
pub record IsInput (L0 L1 : List ℕ) : Type 0 where
  pub words0 : (x : ℕ) → x ∈ L0 → x < 2 ^ 64
  pub words1 : (y : ℕ) → y ∈ L1 → y < 2 ^ 64
  pub nonzero : (x : ℕ) → x ∈ L0 → x ≢ 0
  pub apart : (x y : ℕ) → x ∈ L0 → y ∈ L1 → x ≢ y

-- What OpenMP promises: `split` deals out the items to `T` threads, and the threads of the third
-- phase take all partitions.
pub record IsSchedule (p T : ℕ) (schedule : Schedule) : Type 0 where
  pub threads : (xs : List ℕ) → length (schedule.split xs) ≡ T
  pub splits : (xs : List ℕ) (x : ℕ) → InPieces x (schedule.split xs) ↔ (x ∈ xs)
  pub assigned : All (All (λ i. i < 2 ^ p)) schedule.assign
  pub covers : (i : ℕ) → i < 2 ^ p → InPieces i schedule.assign

-- The products of the words of a list by a matrix.
abbrev pub image : List ℕ → List ℕ → List ℕ
image M L = map (λ x. naive_gemv x M) L

-- A reported solution: a word of each list, and their sum, which stands in the slice after the
-- product by `M`.
pub record IsSolution (L0 L1 : List ℕ) (slice : Slice) (task_index : Triple) (s : Solution)
    : Type 0 where
  pub task : s.task_index ≡ task_index
  pub first : s.val.val0 ∈ L0
  pub second : s.val.val1 ∈ L1
  pub sum : s.val.val2 ≡ bit_xor s.val.val0 s.val.val1
  pub third : InRange slice.cm 0 slice.n (naive_gemv s.val.val2 slice.M)

pub gemm-image :
    (L M : List ℕ) (memory : MatmulTable)
    → IsMatrix M
    → IsTable memory
    → gemm L (matmul_init M memory) ≡ image M L
unfolding gemm
gemm-image [] M memory m is = refl
gemm-image (x ∷ L) M memory m is =
    ap₂ ◌∷◌ (gemv-matmul_init x M memory m is) (gemm-image L M memory m is)

pub naive_gemv-zero : (M : List ℕ) → IsMatrix M → naive_gemv 0 M ≡ 0
naive_gemv-zero M m = naive_gemv-combine 0 M m ∙ combine-zero M 64 0

-- The product by an invertible matrix is zero only for zero.
pub naive_gemv-nonzero :
    (slice : Slice) (x : ℕ) → IsSlice slice → x < 2 ^ 64 → x ≢ 0 → naive_gemv x slice.M ≢ 0
naive_gemv-nonzero slice x is lt nz z = nz (
    sym (is.inverts x lt)
    ∙ ap (λ u. naive_gemv u slice.minv) z
    ∙ naive_gemv-zero slice.minv is.inverse)
