-- ===== src/Slicer/Transpose.antt =====
-- Transposition of 64 x 64 matrices over GF(2): preprocessing/slicer.c, `transpose_64` and
-- `transpose`.
pub mod Stages
pub mod Correct
pub mod Columns
use xor_mining.Base.{
  ℕ, zero, suc, ◌+◌, ◌*◌, ◌/◌, ◌%◌, ◌^◌, bit_and, bit_or, List, get_or, set, drop, replicate,
}
use xor_mining.Word.{◌>>>◌, ◌<<<◌, u64}

abbrev pub m1_hi : ℕ
m1_hi = 0xffffffff00000000

abbrev pub m1_lo : ℕ
m1_lo = 0x00000000ffffffff

abbrev pub m2_hi : ℕ
m2_hi = 0xffff0000ffff0000

abbrev pub m2_lo : ℕ
m2_lo = 0x0000ffff0000ffff

abbrev pub m3_hi : ℕ
m3_hi = 0xff00ff00ff00ff00

abbrev pub m3_lo : ℕ
m3_lo = 0x00ff00ff00ff00ff

abbrev pub m4_hi : ℕ
m4_hi = 0xf0f0f0f0f0f0f0f0

abbrev pub m4_lo : ℕ
m4_lo = 0x0f0f0f0f0f0f0f0f

abbrev pub m5_hi : ℕ
m5_hi = 0xcccccccccccccccc

abbrev pub m5_lo : ℕ
m5_lo = 0x3333333333333333

abbrev pub m6_hi : ℕ
m6_hi = 0xaaaaaaaaaaaaaaaa

abbrev pub m6_lo : ℕ
m6_lo = 0x5555555555555555

-- `val1` and `val2` of a loop whose rows are `s` apart.
unfoldable pub low_half : ℕ → ℕ → ℕ → ℕ → ℕ
low_half s lo a b = bit_or (bit_and a lo) (u64 (bit_and b lo <<< s))

unfoldable pub high_half : ℕ → ℕ → ℕ → ℕ → ℕ
high_half s hi a b = bit_or (bit_and a hi >>> s) (bit_and b hi)

-- The first loop, from row `l`, with `left` rounds to go: it reads `M` and fills `T`.
unfoldable pub first_loop : ℕ → ℕ → List ℕ → List ℕ → List ℕ
first_loop zero l M T = T
first_loop (suc left) l M T =
    let T = set T l (low_half 32 m1_lo (get_or M l 0) (get_or M (l + 32) 0)) in
    let T = set T (l + 32) (high_half 32 m1_hi (get_or M l 0) (get_or M (l + 32) 0)) in
    first_loop left (l + 1) M T

-- The inner loop of the others, and the outer one: `l0` goes up in steps of `2 * s`.
unfoldable pub row_loop : ℕ → ℕ → ℕ → ℕ → ℕ → List ℕ → List ℕ
row_loop zero l s hi lo T = T
row_loop (suc left) l s hi lo T =
    let val1 = low_half s lo (get_or T l 0) (get_or T (l + s) 0) in
    let val2 = high_half s hi (get_or T l 0) (get_or T (l + s) 0) in
    row_loop left (l + 1) s hi lo (set (set T l val1) (l + s) val2)

unfoldable pub block_loop : ℕ → ℕ → ℕ → ℕ → ℕ → List ℕ → List ℕ
block_loop zero l0 s hi lo T = T
block_loop (suc left) l0 s hi lo T = block_loop left (l0 + 2 * s) s hi lo (row_loop s l0 s hi lo T)

-- `T` comes with what the memory of the result holds.
unfoldable pub transpose_64 : List ℕ → List ℕ → List ℕ
transpose_64 M T =
    let T = first_loop 32 0 M T in
    let T = block_loop 2 0 16 m2_hi m2_lo T in
    let T = block_loop 4 0 8 m3_hi m3_lo T in
    let T = block_loop 8 0 4 m4_hi m4_lo T in
    let T = block_loop 16 0 2 m5_hi m5_lo T in block_loop 32 0 1 m6_hi m6_lo T

-- `T[i + j * w] = S[j]` for each `j`
unfoldable pub scatter_loop : ℕ → ℕ → ℕ → ℕ → List ℕ → List ℕ → List ℕ
scatter_loop zero j i w S T = T
scatter_loop (suc left) j i w S T =
    scatter_loop left (j + 1) i w S (set T (i + j * w) (get_or S j 0))

-- `transpose`: the `w` blocks of 64 rows become `w` columns of words. The local `S` is written
-- before it is read.
unfoldable pub transpose_loop : ℕ → ℕ → List ℕ → ℕ → List ℕ → List ℕ
transpose_loop zero i M w T = T
transpose_loop (suc left) i M w T =
    let S = transpose_64 (drop (i * 64) M) (replicate 64 0) in
    transpose_loop left (i + 1) M w (scatter_loop 64 0 i w S T)

unfoldable pub transpose : List ℕ → ℕ → List ℕ → List ℕ
transpose M w T = transpose_loop w 0 M w T
