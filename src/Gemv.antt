-- ===== src/Gemv.antt =====
-- Products of a 64-bit row vector by a 64 x 64 matrix over GF(2): ijoux/joux_v3.c, `naive_gemv`,
-- `gemv`, `matmul_init` and `gemm`. A matrix is the list of its 64 rows, each a word.
pub mod Linear
pub mod Naive
pub mod Gray
pub mod Correct
pub mod Identity
mod Tests
use xor_mining.Base.{
  ℕ, zero, suc, ◌+◌, ◌-◌, ◌*◌, ◌/◌, ◌%◌, ◌^◌, bit_and, bit_xor, Bool, true, false, List, [], ◌∷◌,
  map, get_or, set, replicate, if◌then◌else◌, ◌==◌,
}
use xor_mining.Word.{◌>>>◌, u64}

-- `(u64) (-((i64) bit))`: negation in two's complement
unfoldable pub mask_of : ℕ → ℕ
mask_of bit = u64 (2 ^ 64 - bit)

-- The loop of `naive_gemv` at index `i`, with `left` rounds to go.
unfoldable pub naive_gemv_loop : ℕ → ℕ → ℕ → List ℕ → ℕ → ℕ
naive_gemv_loop zero i x M y = y
naive_gemv_loop (suc left) i x M y =
    let bit = bit_and (x >>> i) 1 in
    let mask = mask_of bit in
    naive_gemv_loop left (i + 1) x M (bit_xor y (bit_and (get_or M i 0) mask))

unfoldable pub naive_gemv : ℕ → List ℕ → ℕ
naive_gemv x M = naive_gemv_loop 64 0 x M 0

-- `M->tables`: eight tables of 256 words
abbrev pub MatmulTable : Type 0
MatmulTable = List (List ℕ)

-- `M->tables[t][b]`
abbrev pub entry : MatmulTable → ℕ → ℕ → ℕ
entry T t b = get_or (get_or T t []) b 0

unfoldable pub gemv : ℕ → MatmulTable → ℕ
gemv x T =
    let r = bit_xor 0 (entry T 0 (bit_and x 0x00ff)) in
    let r = bit_xor r (entry T 1 (bit_and (x >>> 8) 0x00ff)) in
    let r = bit_xor r (entry T 2 (bit_and (x >>> 16) 0x00ff)) in
    let r = bit_xor r (entry T 3 (bit_and (x >>> 24) 0x00ff)) in
    let r = bit_xor r (entry T 4 (bit_and (x >>> 32) 0x00ff)) in
    let r = bit_xor r (entry T 5 (bit_and (x >>> 40) 0x00ff)) in
    let r = bit_xor r (entry T 6 (bit_and (x >>> 48) 0x00ff)) in
    bit_xor r (entry T 7 (bit_and (x >>> 56) 0x00ff))

-- `ffs` of the C library, one more than the index of the lowest bit set; an `int` has 32 bits.
unfoldable pub ffs_loop : ℕ → ℕ → ℕ
ffs_loop zero j = 0
ffs_loop (suc left) j = let rest = ffs_loop left (j / 2) in if (j % 2) == 1 then 1 else rest + 1

unfoldable pub ffs : ℕ → ℕ
unfolding ffs_loop
ffs j = if j == 0 then 0 else ffs_loop 32 j

-- `j ^ (j >> 1)`
unfoldable pub gray : ℕ → ℕ
gray j = bit_xor j (j >>> 1)

-- The inner loop of `matmul_init` at `j`: the entries of one table, for rows `lo` to `lo + 7`.
unfoldable pub table_loop : ℕ → ℕ → List ℕ → ℕ → ℕ → List ℕ → List ℕ
table_loop zero j M lo tmp T = T
table_loop (suc left) j M lo tmp T =
    let k = ffs j - 1 in
    let tmp = bit_xor tmp (get_or M (lo + k) 0) in
    table_loop left (j + 1) M lo tmp (set T (gray j) tmp)

-- One table of `matmul_init`; `old` is what the uninitialised array holds.
unfoldable pub init_table : List ℕ → ℕ → List ℕ → List ℕ
init_table M i old = let lo = i * 8 in table_loop 255 1 M lo 0 (set old 0 0)

-- The rounds of the outer loop are independent, and run in parallel.
unfoldable pub init_loop : ℕ → ℕ → List ℕ → MatmulTable → MatmulTable
init_loop zero i M T = T
init_loop (suc left) i M T = init_loop left (i + 1) M (set T i (init_table M i (get_or T i [])))

unfoldable pub matmul_init : List ℕ → MatmulTable → MatmulTable
matmul_init M T = init_loop 8 0 M T

-- `OUT[i] = gemv(IN[i], M)`; every index is written once
unfoldable pub gemm : List ℕ → MatmulTable → List ℕ
gemm IN T = map (λ x. gemv x T) IN
