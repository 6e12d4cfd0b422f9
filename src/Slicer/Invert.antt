-- ===== src/Slicer/Invert.antt =====
-- Inversion of a 64 x 64 matrix over GF(2) by elimination: preprocessing/slicer.c, `invert`.
pub mod Columns
pub mod Vectors
pub mod Correct
use xor_mining.Base.{
  ℕ, zero, suc, ◌+◌, ◌-◌, ◌*◌, ◌^◌, bit_and, bit_xor, Bool, true, false, not, ◌&&◌, List, [], ◌∷◌,
  get_or, set, Option, none, some, if◌then◌else◌, ◌==◌,
}
use xor_mining.Word.{◌<<<◌}
use xor_mining.Slicer.Rows.{swap}

-- The local matrix `M` and the result `Minv`.
pub record Pair : Type 0 where
  pub M : List ℕ
  pub minv : List ℕ

-- The loop that copies `M_` to `M` and sets `Minv` to the identity.
unfoldable pub copy_loop : ℕ → ℕ → List ℕ → Pair → Pair
copy_loop zero i M_ s = s
copy_loop (suc left) i M_ s =
    copy_loop left (i + 1) M_
      (record s { M = set s.M i (get_or M_ i 0); minv = set s.minv i (1 <<< i) })

-- The first row from `k` on with a bit of the mask.
unfoldable pub find_pivot : ℕ → ℕ → ℕ → List ℕ → Option ℕ
find_pivot zero k mask M = none
find_pivot (suc left) k mask M =
    if not (bit_and (get_or M k 0) mask == 0) then some k else find_pivot left (k + 1) mask M

-- The loop that eliminates column `j` from the rows other than `j`.
unfoldable pub eliminate_row : ℕ → ℕ → Pair → Pair
eliminate_row j k s =
    if not (k == j) && not (bit_and (get_or s.M k 0) (1 <<< j) == 0)
    then record s {
      M = set s.M k (bit_xor (get_or s.M k 0) (get_or s.M j 0));
      minv = set s.minv k (bit_xor (get_or s.minv k 0) (get_or s.minv j 0));
    }
    else s

unfoldable pub eliminate_loop : ℕ → ℕ → ℕ → Pair → Pair
eliminate_loop zero k j s = s
eliminate_loop (suc left) k j s = eliminate_loop left (k + 1) j (eliminate_row j k s)

-- The outer loop at column `j`: whether it got through, and the matrices.
unfoldable pub invert_loop : ℕ → ℕ → Pair → Bool × Pair
invert_loop zero j s = (true, s)
invert_loop (suc left) j s = elim (find_pivot (64 - j) j (1 <<< j) s.M) [
  | none ↦ (false, s)
  | some i ↦
      invert_loop left (j + 1)
        (eliminate_loop 64 0 j (record s { M = swap s.M i j; minv = swap s.minv i j }))
]

-- `local` is what the memory of the local matrix holds, and `Minv` that of the result.
unfoldable pub invert : List ℕ → List ℕ → List ℕ → Bool × List ℕ
invert local M_ Minv =
    let s = copy_loop 64 0 M_ (record { M = local; minv = Minv }) in
    let (ok, s) = invert_loop 64 0 s in (ok, s.minv)
