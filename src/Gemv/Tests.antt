-- ===== src/Gemv/Tests.antt =====
-- The products at small inputs: a matrix of two rows, over a table that holds other data.
use xor_mining.Base.{ℕ, zero, suc, ◌≡◌, arith, List, [], ◌∷◌, replicate}
use xor_mining.Gemv.{MatmulTable, naive_gemv, gemv, matmul_init}
use xor_mining.Gemv.Naive.{IsMatrix}
use xor_mining.Gemv.Correct.{replicate-IsTable, gemv-matmul_init}

abbrev rows : List ℕ
rows = 5 ∷ 6 ∷ []

rows-IsMatrix : IsMatrix rows
rows-IsMatrix zero = omega arith
rows-IsMatrix (suc zero) = omega arith
rows-IsMatrix (suc (suc i)) = omega arith

abbrev old : MatmulTable
old = replicate 8 (replicate 256 7)

gemv-matmul_init_example : gemv 3 (matmul_init rows old) ≡ naive_gemv 3 rows
gemv-matmul_init_example = gemv-matmul_init 3 rows old rows-IsMatrix (replicate-IsTable 7)
