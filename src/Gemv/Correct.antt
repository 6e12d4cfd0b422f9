-- ===== src/Gemv/Correct.antt =====
-- The tables of `matmul_init` make `gemv` the product by the matrix.
use xor_mining.Base.{
  ℕ, zero, suc, ◌+◌, ◌*◌, ◌%◌, ◌≤◌, ◌<◌, bit_and, bit_xor, List, [], get_or, set, length, ◌≡◌, refl,
  sym, ap, ◌∙◌, arith, replicate, get_or-replicate_inside, length-replicate, get_or-set_self,
  get_or-set_ne, length-set, ℕ_discrete,
}
use xor_mining.Word.{◌>>>◌}
use xor_mining.Word.Xor.{zero-bit_xor, bit_xor_assoc}
use xor_mining.Gemv.{MatmulTable, entry, gemv, init_table, init_loop, matmul_init, naive_gemv}
use xor_mining.Gemv.Linear.{combine, combine-add, combine-mod}
use xor_mining.Word.Mask.{bit_and_mask}
use xor_mining.Gemv.Naive.{IsMatrix, naive_gemv-combine}
use xor_mining.Gemv.Gray.{init_table-combine, length-init_table}

-- The memory of a `matmul_table_t`: eight tables of 256 words.
pub record IsTable (T : MatmulTable) : Type 0 where
  pub tables : length T ≡ 8
  pub words : (i : ℕ) → i < 8 → length (get_or T i []) ≡ 256

-- Tables of one word are well formed.
pub replicate-IsTable : (w : ℕ) → IsTable (replicate 8 (replicate 256 w))
replicate-IsTable w = record {
  tables = length-replicate 8 (replicate 256 w);
  words = λ i h.
      ap length (get_or-replicate_inside 8 i (replicate 256 w) [] h)
      ∙ length-replicate {A = ℕ} 256 w;
}

-- The tables from `i` on are filled in.
module _ (M : List ℕ) where
  init_loop-below :
      (left i t : ℕ) (T : MatmulTable) → t < i → get_or (init_loop left i M T) t [] ≡ get_or T t []
  unfolding init_loop
  init_loop-below zero i t T h = refl
  init_loop-below (suc left) i t T h =
      init_loop-below left (i + 1) t _ (omega arith)
      ∙ get_or-set_ne T i t (init_table M i (get_or T i [])) [] (omega arith)

  init_loop-get_or :
      (left i t : ℕ) (T : MatmulTable)
      → i + left ≡ length T
      → i ≤ t
      → t < length T
      → get_or (init_loop left i M T) t [] ≡ init_table M t (get_or T t [])
  unfolding init_loop
  init_loop-get_or zero i t T e lo hi = absurd (omega arith)
  init_loop-get_or (suc left) i t T e lo hi = elim (ℕ_discrete i t) [
    | yes q ↦
        rw (← q)
          (init_loop-below left (i + 1) i _ (omega arith) ∙ get_or-set_self T i _ [] (omega arith))
    | no q ↦
        let T' = set T i (init_table M i (get_or T i [])) in
        let same = length-set T i (init_table M i (get_or T i [])) in
        init_loop-get_or left (i + 1) t T' (omega (arith, same)) (omega arith) (omega (arith, same))
        ∙ ap (init_table M t) (get_or-set_ne T i t (init_table M i (get_or T i [])) [] q)
  ]

  length-init_loop : (left i : ℕ) (T : MatmulTable) → length (init_loop left i M T) ≡ length T
  unfolding init_loop
  length-init_loop zero i T = refl
  length-init_loop (suc left) i T = length-init_loop left (i + 1) _ ∙ length-set T i _

-- Entry `b` of table `t` is the sum of the rows `8 t + k` for the bits `k` of `b`.
entry-matmul_init :
    (M : List ℕ) (T : MatmulTable) (t b : ℕ)
    → IsTable T
    → t < 8
    → b < 256
    → entry (matmul_init M T) t b ≡ combine M (t * 8) 8 b
unfolding matmul_init
entry-matmul_init M T t b is ht hb =
    rw (init_loop-get_or M 8 0 t T (sym is.tables) (omega arith) (rw is.tables ht))
      (init_table-combine M t b (get_or T t []) (is.words t ht) hb)

-- The tables are of the size that `gemv` reads.
pub matmul_init-IsTable : (M : List ℕ) (T : MatmulTable) → IsTable T → IsTable (matmul_init M T)
unfolding matmul_init
matmul_init-IsTable M T is = record {
  tables = length-init_loop M 8 0 T ∙ is.tables;
  words = λ t h.
      rw (init_loop-get_or M 8 0 t T (sym is.tables) (omega arith) (rw is.tables h))
        (length-init_table M t (get_or T t []) (is.words t h));
}

module _ (M : List ℕ) (T : MatmulTable) (is : IsTable T) (x : ℕ) where
  byte :
      (t s : ℕ)
      → t < 8
      → entry (matmul_init M T) t (bit_and (x >>> s) 0x00ff) ≡ combine M (t * 8) 8 (x >>> s)
  byte t s h = rw (bit_and_mask 8 (x >>> s)) (
      entry-matmul_init M T t (x >>> s % 256) is h (omega arith)
      ∙ combine-mod M 8 (t * 8) (x >>> s))

  -- One line of `gemv` adds the rows of one byte to the running sum.
  add_byte :
      (t s n r : ℕ)
      → t < 8
      → x >>> s >>> 8 ≡ x >>> (s + 8)
      → bit_xor r (combine M (t * 8) (8 + n) (x >>> s))
        ≡ bit_xor
            (bit_xor r (entry (matmul_init M T) t (bit_and (x >>> s) 0x00ff)))
            (combine M (t * 8 + 8) n (x >>> (s + 8)))
  add_byte t s n r h e = rw (byte t s h) (
      ap (bit_xor r) (
        combine-add M 8 n (t * 8) (x >>> s)
        ∙ ap (λ u. bit_xor (combine M (t * 8) 8 (x >>> s)) (combine M (t * 8 + 8) n u)) e)
      ∙ sym (bit_xor_assoc r _ _))

  combine_bytes : combine M 0 64 x ≡ gemv x (matmul_init M T)
  unfolding gemv
  combine_bytes =
      let start : x ≡ x >>> 0 = omega arith in
      sym (zero-bit_xor (combine M 0 64 x))
      ∙ ap (λ u. bit_xor 0 (combine M 0 64 u)) start
      ∙ add_byte 0 0 56 _ (omega arith) (omega arith)
      ∙ add_byte 1 8 48 _ (omega arith) (omega arith)
      ∙ add_byte 2 16 40 _ (omega arith) (omega arith)
      ∙ add_byte 3 24 32 _ (omega arith) (omega arith)
      ∙ add_byte 4 32 24 _ (omega arith) (omega arith)
      ∙ add_byte 5 40 16 _ (omega arith) (omega arith)
      ∙ add_byte 6 48 8 _ (omega arith) (omega arith)
      ∙ ap (bit_xor _) (sym (byte 7 56 (omega arith)))
      ∙ ap
          (λ u.
            bit_xor
              (bit_xor
                (bit_xor
                  (bit_xor
                    (bit_xor
                      (bit_xor
                        (bit_xor (bit_xor 0 (entry (matmul_init M T) 0 (bit_and u 0x00ff)))
                          (entry (matmul_init M T) 1 (bit_and (x >>> 8) 0x00ff)))
                        (entry (matmul_init M T) 2 (bit_and (x >>> 16) 0x00ff)))
                      (entry (matmul_init M T) 3 (bit_and (x >>> 24) 0x00ff)))
                    (entry (matmul_init M T) 4 (bit_and (x >>> 32) 0x00ff)))
                  (entry (matmul_init M T) 5 (bit_and (x >>> 40) 0x00ff)))
                (entry (matmul_init M T) 6 (bit_and (x >>> 48) 0x00ff)))
              (entry (matmul_init M T) 7 (bit_and (x >>> 56) 0x00ff)))
          (sym start)

-- `gemv` with the tables that `matmul_init` builds from a matrix, over whatever the memory held,
-- is `naive_gemv` with that matrix.
pub gemv-matmul_init :
    (x : ℕ) (M : List ℕ) (T : MatmulTable)
    → IsMatrix M
    → IsTable T
    → gemv x (matmul_init M T) ≡ naive_gemv x M
gemv-matmul_init x M T m is = sym (naive_gemv-combine x M m ∙ combine_bytes M T is x)
