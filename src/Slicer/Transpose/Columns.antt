-- ===== src/Slicer/Transpose/Columns.antt =====
-- `transpose` of a matrix of 64-bit rows: the row of a column is spread over `w` words.
use xor_mining.Base.{
  ℕ, zero, suc, ◌+◌, ◌*◌, ◌^◌, ◌<◌, ◌≤◌, ◌≡◌, ◌≢◌, refl, ap, ◌∙◌, arith, List, [], ◌∷◌, get_or,
  drop, replicate, length, length-set, length-replicate, get_or-set_self, get_or-set_ne, ℕ_discrete,
}
use xor_mining.Word.{test_bit}
use xor_mining.Partition.Address.{unique_digits, below}
use xor_mining.Slicer.Transpose.{transpose_64, scatter_loop, transpose_loop, transpose}
use xor_mining.Slicer.Transpose.Correct.{transpose_64-bit, transpose_64-IsMatrix}

pub get_or-drop : (xs : List ℕ) (n i : ℕ) → get_or (drop n xs) i 0 ≡ get_or xs (n + i) 0
get_or-drop xs zero i = let e : 0 + i ≡ i = omega arith in rw e
get_or-drop [] (suc n) i = refl
get_or-drop (x ∷ xs) (suc n) i =
    let e : suc n + i ≡ suc (n + i) = omega arith in rw e (get_or-drop xs n i)

apart : (w i j i' j' : ℕ) → i < w → i' < w → (i ≡ i' → j ≢ j') → i + j * w ≢ i' + j' * w
apart w i j i' j' h h' ne e =
    let (rows, columns) = unique_digits w j j' i i' h h' (omega (arith, e)) in ne columns rows

length-scatter_loop :
    (left j i w : ℕ) (S T : List ℕ) → length (scatter_loop left j i w S T) ≡ length T
unfolding scatter_loop
length-scatter_loop zero j i w S T = refl
length-scatter_loop (suc left) j i w S T =
    length-scatter_loop left (j + 1) i w S _ ∙ length-set T _ _

-- What the loop leaves alone: other columns of words, and rows before `j`.
scatter_loop-other :
    (left j i w i' j' : ℕ) (S T : List ℕ)
    → i < w
    → i' < w
    → (i ≡ i' → j' < j)
    → get_or (scatter_loop left j i w S T) (i' + j' * w) 0 ≡ get_or T (i' + j' * w) 0
unfolding scatter_loop
scatter_loop-other zero j i w i' j' S T h h' ne = refl
scatter_loop-other (suc left) j i w i' j' S T h h' ne =
    scatter_loop-other left (j + 1) i w i' j' S _ h h' (λ e. omega (arith, ne e))
    ∙ get_or-set_ne T (i + j * w) (i' + j' * w) (get_or S j 0) 0
        (apart w i j i' j' h h' (λ e e'. omega (arith, ne e)))

scatter_loop-same :
    (left j i w j' : ℕ) (S T : List ℕ)
    → i < w
    → j ≤ j'
    → j' < j + left
    → (j + left) * w ≤ length T
    → get_or (scatter_loop left j i w S T) (i + j' * w) 0 ≡ get_or S j' 0
unfolding scatter_loop
scatter_loop-same zero j i w j' S T h lo hi long = absurd (omega arith)
scatter_loop-same (suc left) j i w j' S T h lo hi long =
    let shift : j + 1 + left ≡ j + suc left = omega arith in
    let inside : j * w + i < (j + suc left) * w = below j (j + suc left) i w (omega arith) h in
    elim (ℕ_discrete j j') [
      | yes e ↦ rw (← e) (
          scatter_loop-other left (j + 1) i w i j S _ h h (λ q. omega arith)
          ∙ get_or-set_self T (i + j * w) (get_or S j 0) 0 (omega arith))
      | no ne ↦
          scatter_loop-same left (j + 1) i w j' S _ h (omega arith) (omega arith)
            (omega (arith, length-set T (i + j * w) (get_or S j 0), ap (λ (t : ℕ). t * w) shift))
    ]

abbrev block : List ℕ → ℕ → List ℕ
block M i = transpose_64 (drop (i * 64) M) (replicate 64 0)

transpose_loop-other :
    (left i w i' j' : ℕ) (M T : List ℕ)
    → i + left ≤ w
    → i' < i
    → get_or (transpose_loop left i M w T) (i' + j' * w) 0 ≡ get_or T (i' + j' * w) 0
unfolding transpose_loop
transpose_loop-other zero i w i' j' M T le lt = refl
transpose_loop-other (suc left) i w i' j' M T le lt =
    transpose_loop-other left (i + 1) w i' j' M _ (omega arith) (omega arith)
    ∙ scatter_loop-other 64 0 i w i' j' (block M i) T (omega arith) (omega arith)
        (λ e. absurd (omega arith))

transpose_loop-same :
    (left i w i' j' : ℕ) (M T : List ℕ)
    → i + left ≤ w
    → i ≤ i'
    → i' < i + left
    → j' < 64
    → 64 * w ≤ length T
    → get_or (transpose_loop left i M w T) (i' + j' * w) 0 ≡ get_or (block M i') j' 0
unfolding transpose_loop
transpose_loop-same zero i w i' j' M T le lo hi h long = absurd (omega arith)
transpose_loop-same (suc left) i w i' j' M T le lo hi h long = elim (ℕ_discrete i i') [
  | yes e ↦ rw (← e) (
      transpose_loop-other left (i + 1) w i j' M _ (omega arith) (omega arith)
      ∙ scatter_loop-same 64 0 i w j' (block M i) T (omega arith) (omega arith) (omega arith)
          (omega arith))
  | no ne ↦
      transpose_loop-same left (i + 1) w i' j' M _ (omega arith) (omega arith) (omega arith) h
        (omega (arith, length-scatter_loop 64 0 i w (block M i) T))
]

length-transpose_loop :
    (left i w : ℕ) (M T : List ℕ) → length (transpose_loop left i M w T) ≡ length T
unfolding transpose_loop
length-transpose_loop zero i w M T = refl
length-transpose_loop (suc left) i w M T =
    length-transpose_loop left (i + 1) w M _ ∙ length-scatter_loop 64 0 i w _ T

pub length-transpose : (M T : List ℕ) (w : ℕ) → length (transpose M w T) ≡ length T
unfolding transpose
length-transpose M T w = length-transpose_loop w 0 w M T

-- Bit `b` of word `i` of row `j` is bit `j` of row `i * 64 + b` of the matrix.
pub transpose-bit :
    (M T : List ℕ) (w i j b : ℕ)
    → 64 * w ≤ length T
    → i < w
    → j < 64
    → b < 64
    → test_bit (get_or (transpose M w T) (i + j * w) 0) b ≡ test_bit (get_or M (i * 64 + b) 0) j
unfolding transpose
transpose-bit M T w i j b long hi hj hb =
    ap (λ u. test_bit u b)
      (transpose_loop-same w 0 w i j M T (omega arith) (omega arith) (omega arith) hj long)
    ∙ transpose_64-bit (drop (i * 64) M) (replicate 64 0) j b (length-replicate 64 0) hj hb
    ∙ ap (λ u. test_bit u j) (get_or-drop M (i * 64) b)

-- Each word of a row is a word.
pub transpose-lt :
    (M T : List ℕ) (w i j : ℕ)
    → 64 * w ≤ length T
    → i < w
    → j < 64
    → get_or (transpose M w T) (i + j * w) 0 < 2 ^ 64
unfolding transpose
transpose-lt M T w i j long hi hj =
    rw (transpose_loop-same w 0 w i j M T (omega arith) (omega arith) (omega arith) hj long)
      (transpose_64-IsMatrix (drop (i * 64) M) (replicate 64 0) (length-replicate 64 0) j)
