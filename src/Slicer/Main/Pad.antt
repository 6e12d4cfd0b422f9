-- ===== src/Slicer/Main/Pad.antt =====
-- The matrix of a slice: its top columns are the equations, and it has an inverse.
use xor_mining.Base.{
  ℕ, zero, suc, ◌+◌, ◌-◌, ◌*◌, ◌^◌, ◌<◌, ◌≤◌, Bool, true, false, List, get_or, length, replicate,
  ◌≡◌, refl, ap, sym, ◌∙◌, arith, length-set, length-replicate, get_or-set_self, get_or-set_ne,
  ℕ_discrete, dec_lt,
}
use xor_mining.Base.Run.{Run, ok, Ends, Ends-weaken}
use xor_mining.Word.{◌>>>◌, test_bit}
use xor_mining.Word.Bits.{test_bit_ext, test_bit-shr, test_bit-zero, test_bit_above}
use xor_mining.Gemv.{naive_gemv}
use xor_mining.Gemv.Naive.{IsMatrix, naive_gemv-combine, naive_gemv-lt}
use xor_mining.Slicer.Parity.{dot, combine-bit}
use xor_mining.Slicer.Transpose.{transpose_64}
use xor_mining.Slicer.Transpose.Correct.{
  transpose_64-bit, transpose_64-IsMatrix, length-transpose_64,
}
use xor_mining.Slicer.Invert.{invert}
use xor_mining.Slicer.Invert.Correct.{Singular, Inverted, invert-Inverted}
use xor_mining.Slicer.Main.{random_loop, equations_loop, pad_loop}

-- The matrices of a slice with `k` equations.
pub record IsPadded (k : ℕ) (equations : List ℕ) (out : List ℕ × List ℕ × ℕ) : Type 0 where
  pub matrix : IsMatrix out.0
  pub inverse : IsMatrix out.1
  pub long : length out.0 ≡ 64
  pub inverts : (x : ℕ) → x < 2 ^ 64 → naive_gemv (naive_gemv x out.0) out.1 ≡ x
  pub columns :
      (i x : ℕ) → i < k → test_bit (naive_gemv x out.0) (64 - k + i) ≡ dot x (get_or equations i 0)

-- A bit of the product by a transposed matrix.
product-bit :
    (T memory : List ℕ) (x j : ℕ)
    → length memory ≡ 64
    → j < 64
    → test_bit (naive_gemv x (transpose_64 T memory)) j ≡ dot x (get_or T j 0)
product-bit T memory x j long hj =
    let whole : get_or T j 0 >>> 0 ≡ get_or T j 0 = omega arith in
    ap (λ y. test_bit y j)
      (naive_gemv-combine x (transpose_64 T memory) (transpose_64-IsMatrix T memory long))
    ∙ combine-bit (transpose_64 T memory) (get_or T j 0) j 64 0 x
        (λ i h. transpose_64-bit T memory (0 + i) j long (omega arith) hj)
    ∙ ap (dot x) whole

length-random_loop :
    (lrand48 : ℕ → ℕ) (left i calls : ℕ) (T : List ℕ)
    → length (random_loop lrand48 left i calls T) ≡ length T
unfolding random_loop
length-random_loop lrand48 zero i calls T = refl
length-random_loop lrand48 (suc left) i calls T =
    length-random_loop lrand48 left (i + 1) (calls + 3) _ ∙ length-set T i _

equations_loop-other :
    (left i k q : ℕ) (equations T : List ℕ)
    → q < i
    → get_or (equations_loop left i k equations T) (64 - k + q) 0 ≡ get_or T (64 - k + q) 0
unfolding equations_loop
equations_loop-other zero i k q equations T h = refl
equations_loop-other (suc left) i k q equations T h =
    equations_loop-other left (i + 1) k q equations _ (omega arith)
    ∙ get_or-set_ne T (64 - k + i) (64 - k + q) _ 0 (λ e. omega arith)

equations_loop-same :
    (left i k q : ℕ) (equations T : List ℕ)
    → k ≤ 64
    → length T ≡ 64
    → i + left ≡ k
    → i ≤ q
    → q < k
    → get_or (equations_loop left i k equations T) (64 - k + q) 0 ≡ get_or equations q 0
unfolding equations_loop
equations_loop-same zero i k q equations T le long e lo hi = absurd (omega arith)
equations_loop-same (suc left) i k q equations T le long e lo hi = elim (ℕ_discrete i q) [
  | yes p ↦ rw (← p) (
      equations_loop-other left (i + 1) k i equations _ (omega arith)
      ∙ get_or-set_self T (64 - k + i) (get_or equations i 0) 0 (omega arith))
  | no ne ↦
      equations_loop-same left (i + 1) k q equations _ le (length-set T _ _ ∙ long) (omega arith)
        (omega arith) hi
]

-- The matrix that one trial tries.
abbrev pub completion : (ℕ → ℕ) → ℕ → List ℕ → ℕ → List ℕ
completion lrand48 k equations calls =
    transpose_64
      (equations_loop k 0 k equations (random_loop lrand48 (64 - k) 0 calls (replicate 64 0)))
      (replicate 64 0)

-- The matrices of all trials are singular.
pub AllSingular : (ℕ → ℕ) → ℕ → ℕ → List ℕ → ℕ → Type 0
AllSingular lrand48 zero k equations calls = Unit
AllSingular lrand48 (suc trials) k equations calls =
    Singular (completion lrand48 k equations calls)
    × AllSingular lrand48 trials k equations (calls + 3 * (64 - k))

found :
    (k : ℕ) (equations M : List ℕ) (good : Bool) (N : List ℕ) (calls : ℕ)
    (rest : Run (List ℕ × List ℕ × ℕ)) (E : Type 0)
    → IsMatrix M
    → length M ≡ 64
    → ((i x : ℕ) → i < k → test_bit (naive_gemv x M) (64 - k + i) ≡ dot x (get_or equations i 0))
    → Inverted M (good, N)
    → Ends rest (IsPadded k equations) E
    → Ends
        (elim good [ true ↦ ok (M, N, calls) | false ↦ rest ])
        (IsPadded k equations)
        (Singular M × E)
found k equations M true N calls rest E m l c i r = record {
  matrix = m;
  inverse = i.0;
  long = l;
  inverts = i.2;
  columns = c;
}
found k equations M false N calls rest E m l c i r =
    Ends-weaken rest _ _ E (Singular M × E) r (λ e. (i, e)) (λ a p. p)

-- The trials end: with an inverse, or by `errx`, when the matrices of all of them are singular.
pub pad_loop-IsPadded :
    (lrand48 : ℕ → ℕ) (trials k : ℕ) (equations : List ℕ) (calls : ℕ)
    → k ≤ 64
    → Ends
        (pad_loop lrand48 trials k equations calls)
        (IsPadded k equations)
        (AllSingular lrand48 trials k equations calls)
unfolding pad_loop AllSingular
pad_loop-IsPadded lrand48 zero k equations calls le = tt
pad_loop-IsPadded lrand48 (suc trials) k equations calls le =
    let zeros : List ℕ = replicate 64 0 in
    let l64 : length zeros ≡ 64 = length-replicate 64 0 in
    let R = random_loop lrand48 (64 - k) 0 calls zeros in
    let T = equations_loop k 0 k equations R in
    let M = transpose_64 T zeros in
    found k equations M (invert zeros M zeros).0 (invert zeros M zeros).1 _ _ _
      (transpose_64-IsMatrix T zeros l64) (length-transpose_64 T zeros l64)
      (λ i x hi.
        product-bit T zeros x (64 - k + i) l64 (omega arith)
        ∙ ap (dot x) (
            equations_loop-same k 0 k i equations R le
              (length-random_loop lrand48 (64 - k) 0 calls zeros ∙ l64) (omega arith) (omega arith)
              hi))
      (invert-Inverted zeros M zeros l64 l64 (transpose_64-IsMatrix T zeros l64))
      (pad_loop-IsPadded lrand48 trials k equations _ le)

-- A product whose top bits are zero, if the equations hold.
pub narrow :
    (k x : ℕ) (equations : List ℕ) (out : List ℕ × List ℕ × ℕ)
    → k ≤ 64
    → IsPadded k equations out
    → ((i : ℕ) → i < k → dot x (get_or equations i 0) ≡ false)
    → naive_gemv x out.0 >>> (64 - k) ≡ 0
narrow k x equations out le is holds = test_bit_ext _ _ (λ i.
    test_bit-shr (64 - k) i (naive_gemv x out.0)
    ∙ elim (dec_lt i k) [
      | yes h ↦ is.columns i x h ∙ holds i h
      | no h ↦
          test_bit_above 64 (64 - k + i) (naive_gemv x out.0) (naive_gemv-lt x out.0 is.matrix)
            (omega arith)
    ]
    ∙ sym (test_bit-zero i))
