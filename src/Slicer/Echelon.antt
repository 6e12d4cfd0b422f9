-- ===== src/Slicer/Echelon.antt =====
-- Elimination on a transposed matrix of 64 rows of `w` words, with exchanges of columns:
-- preprocessing/slicer.c, `swap_columns`, `echelonize` and `check_rank_defect`.
pub mod Bits
pub mod Operations
pub mod Sound
pub mod Pivot
pub mod Defect
pub mod Free
use xor_mining.Base.{
  ℕ, zero, suc, ◌+◌, ◌-◌, ◌*◌, ◌/◌, ◌%◌, ◌^◌, bit_and, bit_xor, Bool, true, false, not, ◌&&◌, List,
  [], ◌∷◌, get_or, set, replicate, Option, none, some, if◌then◌else◌, ◌==◌, ltb,
}
use xor_mining.Base.Run.{Run, ok, endless, exits, ◌>>=◌, ◌>>◌, require}
use xor_mining.Word.{◌>>>◌, ◌<<<◌, u64}
use xor_mining.Slicer.Rows.{swap}
use xor_mining.Slicer.Transpose.{transpose}

-- The words `a` of column `j` and `b` of column `l` on row `i`; `lw` and `lbit` say where column
-- `l` is.
unfoldable pub delta_of : ℕ → ℕ → ℕ → ℕ → ℕ
delta_of a j b lbit = bit_and (bit_xor (a >>> j) (b >>> lbit)) 1

unfoldable pub swap_columns_row : ℕ → ℕ → ℕ → ℕ → ℕ → List ℕ → List ℕ
swap_columns_row i w j lw lbit T =
    let delta = delta_of (get_or T (i * w) 0) j (get_or T (i * w + lw) 0) lbit in
    let T = set T (i * w) (bit_xor (get_or T (i * w) 0) (u64 (delta <<< j))) in
    set T (i * w + lw) (bit_xor (get_or T (i * w + lw) 0) (u64 (delta <<< lbit)))

unfoldable pub swap_columns_loop : ℕ → ℕ → ℕ → ℕ → ℕ → ℕ → List ℕ → List ℕ
swap_columns_loop zero i w j lw lbit T = T
swap_columns_loop (suc left) i w j lw lbit T =
    swap_columns_loop left (i + 1) w j lw lbit (swap_columns_row i w j lw lbit T)

unfoldable pub swap_columns : List ℕ → ℕ → ℕ → ℕ → List ℕ
swap_columns T w j l = swap_columns_loop 64 0 w j (l / 64) (l % 64) T

-- The matrix `T`, the change of basis `E`, the trials left, and the calls made of `lrand48`.
pub record Grid : Type 0 where
  pub T : List ℕ
  pub E : List ℕ
  pub trials : ℕ
  pub calls : ℕ

-- `for (k = j; k < 64; k++)`: the first row with a non-zero coefficient.
unfoldable pub examine : ℕ → ℕ → ℕ → ℕ → List ℕ → Option ℕ
examine zero k w mask T = none
examine (suc left) k w mask T =
    if not (bit_and (get_or T (k * w) 0) mask == 0) then some k else examine left (k + 1) w mask T

-- The search for a pivot on column `j`, with other columns exchanged for it, and the row found.
-- `lrand48 n` is the result of call `n` of the library's generator.
module _ (lrand48 : ℕ → ℕ) where
  unfoldable pub pivot_loop : ℕ → ℕ → ℕ → ℕ → ℕ → Grid → Run (Option ℕ × Grid)
  pivot_loop zero l j m w g = endless
  pivot_loop (suc fuel) l j m w g = elim (examine (64 - j) j w (1 <<< j) g.T) [
    | some i ↦ ok (some i, g)
    | none ↦ elim (ltb 0 g.trials && ltb (j + 1) m) [
      | true ↦
          let o = j + 1 + lrand48 g.calls % (m - (j + 1)) in
          pivot_loop fuel l j m w
            (record g { T = swap_columns g.T w j o; trials = g.trials - 1; calls = g.calls + 1 })
      | false ↦ elim (ltb l m) [
        | false ↦ ok (none, g)
        | true ↦ pivot_loop fuel (l + 1) j m w (record g { T = swap_columns g.T w j l })
      ]
    ]
  ]

-- The exchange of the words `k` to `k + left - 1` of rows `i` and `j`.
unfoldable pub swap_words : ℕ → ℕ → ℕ → ℕ → ℕ → List ℕ → List ℕ
swap_words zero k i j w T = T
swap_words (suc left) k i j w T = swap_words left (k + 1) i j w (swap T (i * w + k) (j * w + k))

unfoldable pub place_pivot : ℕ → ℕ → ℕ → Grid → Grid
place_pivot i j w g =
    if not (j == i) then record g { E = swap g.E i j; T = swap_words w 0 i j w g.T } else g

-- `T[k * w + l] ^= T[j * w + l]`
unfoldable pub add_words : ℕ → ℕ → ℕ → ℕ → ℕ → List ℕ → List ℕ
add_words zero l k j w T = T
add_words (suc left) l k j w T =
    add_words left (l + 1) k j w
      (set T (k * w + l) (bit_xor (get_or T (k * w + l) 0) (get_or T (j * w + l) 0)))

-- One row of the elimination, and all; `old` is the first word of the pivot's row.
unfoldable pub clear_row : ℕ → ℕ → ℕ → ℕ → Grid → Grid
clear_row k j w old g =
    if not (bit_and (get_or g.T (k * w) 0) (1 <<< j) == 0)
    then record g {
      E = set g.E k (bit_xor (get_or g.E k 0) (get_or g.E j 0));
      T = add_words (w - 1) 1 k j w (set g.T (k * w) (bit_xor (get_or g.T (k * w) 0) old));
    }
    else g

unfoldable pub clear_loop : ℕ → ℕ → ℕ → ℕ → ℕ → Grid → Grid
clear_loop zero k j w old g = g
clear_loop (suc left) k j w old g = clear_loop left (k + 1) j w old (clear_row k j w old g)

-- `T[j * w] ^= mask`
unfoldable pub toggle : ℕ → ℕ → Grid → Grid
toggle j w g = record g { T = set g.T (j * w) (bit_xor (get_or g.T (j * w) 0) (1 <<< j)) }

abbrev pub is_marked : ℕ → ℕ → Grid → Bool
is_marked j w g = not (bit_and (get_or g.T (j * w) 0) (1 <<< j) == 0)

-- The use of the pivot, with its assertions.
unfoldable pub clear_column : ℕ → ℕ → Grid → Run Grid
clear_column j w g = do
  require (is_marked j w g)
  let old = get_or g.T (j * w) 0
  let g1 = toggle j w g
  require (not (is_marked j w g1))
  let g2 = toggle j w (clear_loop 64 0 j w old g1)
  require (is_marked j w g2)
  ok g2

-- The loop over the columns from `j`, with `left` to go; `fuel` is for each search of a pivot.
module _ (lrand48 : ℕ → ℕ) where
  unfoldable pub column_loop : ℕ → ℕ → ℕ → ℕ → ℕ → Grid → Run (ℕ × Grid)
  column_loop fuel zero j m w g = ok (j, g)
  column_loop fuel (suc left) j m w g = do
    (pivot, g1) ← pivot_loop lrand48 fuel (j + 1) j m w g
    elim pivot [
      | none ↦ ok (j, g1)
      | some i ↦ do
        g2 ← clear_column j w (place_pivot i j w g1)
        column_loop fuel left (j + 1) m w g2
    ]

unfoldable pub identity_loop : ℕ → ℕ → List ℕ → List ℕ
identity_loop zero i E = E
identity_loop (suc left) i E = identity_loop left (i + 1) (set E i (1 <<< i))

-- `echelonize`: the count of echelonized columns, and the matrices.
module _ (lrand48 : ℕ → ℕ) where
  unfoldable pub echelonize : ℕ → List ℕ → ℕ → ℕ → ℕ → List ℕ → ℕ → Run (ℕ × Grid)
  echelonize fuel T m w d E calls =
      column_loop lrand48 fuel d 0 m w
        (record { T = T; E = identity_loop 64 0 E; trials = 6; calls = calls })

-- `T[r * w + s] != 0` fails the run; `s` goes from `s` on.
unfoldable pub zero_row : ℕ → ℕ → ℕ → ℕ → List ℕ → Run (Unit {0})
zero_row zero s r w T = ok tt
zero_row (suc left) s r w T = do require (get_or T (r * w + s) 0 == 0); zero_row left (s + 1) r w T

-- The loop that stores the free equations: the rows from `r`, with `left` to go.
unfoldable pub defect_loop : ℕ → ℕ → ℕ → Grid → List ℕ → ℕ → Run (List ℕ × ℕ)
defect_loop zero r w g equations k = ok (equations, k)
defect_loop (suc left) r w g equations k = do
  zero_row w 0 r w g.T
  defect_loop left (r + 1) w g (set equations k (get_or g.E r 0)) (k + 1)

-- `check_rank_defect`: the equations, their number, and the calls of `lrand48` so far. The local
-- matrices are written before they are read.
module _ (lrand48 : ℕ → ℕ) where
  unfoldable pub check_rank_defect : ℕ → List ℕ → ℕ → List ℕ → ℕ → ℕ → Run (List ℕ × ℕ × ℕ)
  check_rank_defect fuel M m equations k calls = do
    let w = (m + 63) / 64
    let d = 64 - k
    let T = transpose M w (replicate (64 * w) 0)
    (j, g) ← echelonize lrand48 fuel T m w d (replicate 64 0) calls
    (if j == d
        then ok (equations, k, g.calls)
        else (defect_loop (d - j) j w g equations k >>= λ out. ok (out.0, out.1, g.calls)))
