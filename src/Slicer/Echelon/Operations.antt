-- ===== src/Slicer/Echelon/Operations.antt =====
-- What the operations of the elimination do to the bits of the matrix.
use xor_mining.Base.{
  ℕ, zero, suc, ◌+◌, ◌-◌, ◌*◌, ◌/◌, ◌%◌, ◌<◌, ◌≤◌, ◌≢◌, bit_xor, Bool, true, false, xor, ◌&&◌, List,
  get_or, set, length, ◌≡◌, refl, ap, ap₂, sym, ◌∙◌, arith, length-set, if◌then◌else◌, ◌==◌,
  ℕ_discrete, leb, ltb,
}
use xor_mining.Word.{◌<<<◌, u64, test_bit}
use xor_mining.Word.Bits.{test_bit-xor}
use xor_mining.Gemv.Linear.{pick}
use xor_mining.Slicer.Rows.{swap, eq_true, eq_false}
use xor_mining.Slicer.Invert.Vectors.{length-swap}
use xor_mining.Slicer.Echelon.{
  delta_of, swap_columns_row, swap_columns_loop, swap_columns, swap_words, add_words,
}
use xor_mining.Slicer.Echelon.Bits.{cell, bit_at, cell-set, delta_of-pick, bit_at-toggle}

abbrev pub exchanged : ℕ → ℕ → ℕ → ℕ
exchanged a b c = if a == c then b else if b == c then a else c

-- The toggle of bit `p` on row `r`, if `d`.
abbrev flip : List ℕ → ℕ → ℕ → ℕ → Bool → List ℕ
flip T w r p d =
    set T (r * w + p / 64) (bit_xor (cell T w r (p / 64)) (u64 (pick d 1 <<< (p % 64))))

exchange_bits :
    (x y : Bool) (same : Bool)
    → xor (xor x (xor x y && (same && true))) (xor x y && (same && false)) ≡ (if same then y else x)
unfolding xor
exchange_bits x y same = ground arith

-- Two columns of row `i` change places.
flip_twice :
    (T : List ℕ) (w i j l r c : ℕ)
    → length T ≡ 64 * w
    → i < 64
    → j / 64 < w
    → l / 64 < w
    → c / 64 < w
    → j ≢ l
    → bit_at
        (flip
          (flip T w i j (xor (bit_at T w i j) (bit_at T w i l)))
          w
          i
          l
          (xor (bit_at T w i j) (bit_at T w i l)))
        w
        r
        c
      ≡ (if i == r then bit_at T w r (exchanged j l c) else bit_at T w r c)
flip_twice T w i j l r c long hi hj hl hc ne =
    let D = xor (bit_at T w i j) (bit_at T w i l) in
    bit_at-toggle (flip T w i j D) w i l r c D (length-set T _ _ ∙ long) hi hl hc
    ∙ ap (λ u. xor u (D && ((i == r) && (l == c)))) (bit_at-toggle T w i j r c D long hi hj hc)
    ∙ elim (ℕ_discrete i r) [
      | no nr ↦ rw (eq_false i r nr) (none (bit_at T w r c) D)
      | yes e ↦ rw (e, eq_true r) (columns (bit_at T w r) j l c ne)
    ]
  where
    none : (x d : Bool) → xor (xor x (d && false)) (d && false) ≡ x
    none x d = unfold xor in ground arith

    columns :
        (f : ℕ → Bool) (j l c : ℕ)
        → j ≢ l
        → xor (xor (f c) (xor (f j) (f l) && (j == c))) (xor (f j) (f l) && (l == c))
          ≡ f (exchanged j l c)
    columns f j l c ne = elim (ℕ_discrete j c) [
      | yes e ↦ rw (e, eq_true c, eq_false l c (λ q. ne (e ∙ sym q))) (unfold xor in ground arith)
      | no nj ↦ elim (ℕ_discrete l c) [
        | yes e ↦ rw (e, eq_true c, eq_false j c nj) (unfold xor in ground arith)
        | no nl ↦ rw (eq_false j c nj, eq_false l c nl) (none (f c) (xor (f j) (f l)))
      ]
    ]

one_row :
    (i r left : ℕ) (new new' old old' other : Bool)
    → new ≡ (if i == r then old' else old)
    → new' ≡ (if i == r then other else old')
    → (if leb (i + 1) r && ltb r (i + 1 + left) then new' else new)
      ≡ (if leb i r && ltb r (i + suc left) then old' else old)
one_row i r left new new' old old' other here there = ground arith

module _ (w j l : ℕ) (hj : j < 64) (hl : l / 64 < w) (ne : j ≢ l) where
  -- The two writes of a round.
  swapped_row :
      (T : List ℕ) (i : ℕ)
      → swap_columns_row i w j (l / 64) (l % 64) T
        ≡ flip
            (flip T w i j (xor (bit_at T w i j) (bit_at T w i l)))
            w
            i
            l
            (xor (bit_at T w i j) (bit_at T w i l))
  unfolding swap_columns_row
  swapped_row T i =
      let start : i * w ≡ i * w + j / 64 = omega arith in
      let low : j ≡ j % 64 = omega arith in
      let D = xor (bit_at T w i j) (bit_at T w i l) in
      let delta : delta_of (get_or T (i * w) 0) j (get_or T (i * w + l / 64) 0) (l % 64)
          ≡ pick D 1 =
        delta_of-pick _ j _ (l % 64)
        ∙ ap₂ (λ a b. pick (xor (test_bit (get_or T a 0) b) (bit_at T w i l)) 1) start low in
      let first =
        λ (d : ℕ). ap₂ (λ a b. set T a (bit_xor (get_or T a 0) (u64 (d <<< b)))) start low in
      ap₂
        (λ T1 d.
          set T1 (i * w + l / 64) (bit_xor (get_or T1 (i * w + l / 64) 0) (u64 (d <<< (l % 64)))))
        (first _
          ∙ ap (λ d. set T (i * w + j / 64) (bit_xor (cell T w i (j / 64)) (u64 (d <<< (j % 64)))))
              delta)
        delta

  length-swap_columns_row :
      (T : List ℕ) (i : ℕ) → length (swap_columns_row i w j (l / 64) (l % 64) T) ≡ length T
  unfolding swap_columns_row
  length-swap_columns_row T i = length-set _ _ _ ∙ length-set T _ _

  row-bit :
      (T : List ℕ) (i r c : ℕ)
      → length T ≡ 64 * w
      → i < 64
      → c / 64 < w
      → bit_at (swap_columns_row i w j (l / 64) (l % 64) T) w r c
        ≡ (if i == r then bit_at T w r (exchanged j l c) else bit_at T w r c)
  row-bit T i r c long hi hc =
      ap (λ U. bit_at U w r c) (swapped_row T i)
      ∙ flip_twice T w i j l r c long hi (ground arith) hl hc ne

  exchanged-inside : (c : ℕ) → c / 64 < w → exchanged j l c / 64 < w
  exchanged-inside c h = elim (ℕ_discrete j c) [
    | yes e ↦ rw (e, eq_true c) hl
    | no nj ↦ elim (ℕ_discrete l c) [
      | yes e ↦ rw (eq_false j c nj, e, eq_true c) (ground arith)
      | no nl ↦ rw (eq_false j c nj, eq_false l c nl) h
    ]
  ]

  swap_columns_loop-bit :
      (left i : ℕ) (T : List ℕ) (r c : ℕ)
      → length T ≡ 64 * w
      → i + left ≤ 64
      → c / 64 < w
      → (bit_at (swap_columns_loop left i w j (l / 64) (l % 64) T) w r c ≡ (
          if leb i r && ltb r (i + left) then bit_at T w r (exchanged j l c) else bit_at T w r c))
        × (length (swap_columns_loop left i w j (l / 64) (l % 64) T) ≡ 64 * w)
  unfolding swap_columns_loop
  swap_columns_loop-bit zero i T r c long le hc = (ground arith, long)
  swap_columns_loop-bit (suc left) i T r c long le hc =
      let T' = swap_columns_row i w j (l / 64) (l % 64) T in
      let (bits, long') =
        swap_columns_loop-bit left (i + 1) T' r c (length-swap_columns_row T i ∙ long) (omega arith)
          hc in
      let here = row-bit T i r c long (omega arith) hc in
      let there = row-bit T i r (exchanged j l c) long (omega arith) (exchanged-inside c hc) in
      (
        bits ∙ one_row i r left _ _ _ _ (bit_at T w r (exchanged j l (exchanged j l c))) here there,
        long',
      )

  pub swap_columns-bit :
      (T : List ℕ) (r c : ℕ)
      → length T ≡ 64 * w
      → r < 64
      → c / 64 < w
      → bit_at (swap_columns T w j l) w r c ≡ bit_at T w r (exchanged j l c)
  unfolding swap_columns
  swap_columns-bit T r c long hr hc =
      (swap_columns_loop-bit 64 0 T r c long (omega arith) hc).0 ∙ ground arith

  pub length-swap_columns :
      (T : List ℕ) → length T ≡ 64 * w → length (swap_columns T w j l) ≡ 64 * w
  unfolding swap_columns
  length-swap_columns T long = (swap_columns_loop-bit 64 0 T 0 0 long (omega arith) (omega arith)).1

-- The exchange of two rows, word by word.
pub length-swap_words :
    (left k i j w : ℕ) (T : List ℕ) → length (swap_words left k i j w T) ≡ length T
unfolding swap_words
length-swap_words zero k i j w T = refl
length-swap_words (suc left) k i j w T = length-swap_words left (k + 1) i j w _ ∙ length-swap T _ _

module _ (w i j : ℕ) (hi : i < 64) (hj : j < 64) (ne : i ≢ j) where
  swap-cell :
      (T : List ℕ) (k r l : ℕ)
      → length T ≡ 64 * w
      → k < w
      → l < w
      → cell (swap T (i * w + k) (j * w + k)) w r l
        ≡ (if k == l then cell T w (exchanged i j r) l else cell T w r l)
  unfolding swap
  swap-cell T k r l long hk hl =
      let T1 = set T (i * w + k) (cell T w j k) in
      cell-set T1 w j k r l (cell T w i k) (length-set T _ _ ∙ long) hj hk hl
      ∙ ap (λ u. if (j == r) && (k == l) then cell T w i k else u)
          (cell-set T w i k r l (cell T w j k) long hi hk hl)
      ∙ elim (ℕ_discrete k l) [
        | yes e ↦ rw (e, eq_true l) (rows (λ r. cell T w r l) i j r ne)
        | no nk ↦ rw (eq_false k l nk) (neither (j == r) (i == r) _ _ _)
      ]
    where
      neither :
          (a b : Bool) (x y z : ℕ) → (if a && false then x else if b && false then y else z) ≡ z
      neither a b x y z = ground arith

      rows :
          (f : ℕ → ℕ) (i j r : ℕ)
          → i ≢ j
          → (if (j == r) && true then f i else if (i == r) && true then f j else f r)
            ≡ f (exchanged i j r)
      rows f i j r ne = elim (ℕ_discrete i r) [
        | yes e ↦ rw (e, eq_true r, eq_false j r (λ q. ne (e ∙ sym q))) refl
        | no ni ↦ elim (ℕ_discrete j r) [
          | yes e ↦ rw (e, eq_true r, eq_false i r ni) refl
          | no nj ↦ rw (eq_false i r ni, eq_false j r nj) refl
        ]
      ]

  swap_words-cell :
      (left k : ℕ) (T : List ℕ) (r l : ℕ)
      → length T ≡ 64 * w
      → k + left ≡ w
      → l < w
      → cell (swap_words left k i j w T) w r l
        ≡ (if leb k l then cell T w (exchanged i j r) l else cell T w r l)
  unfolding swap_words
  swap_words-cell zero k T r l long e hl = ground arith
  swap_words-cell (suc left) k T r l long e hl =
      swap_words-cell left (k + 1) _ r l (length-swap T _ _ ∙ long) (omega arith) hl
      ∙ one_word k l _ _ _ _ (cell T w (exchanged i j (exchanged i j r)) l)
          (swap-cell T k r l long (omega arith) hl)
          (swap-cell T k (exchanged i j r) l long (omega arith) hl)
    where
      one_word :
          (k l : ℕ) (new new' old old' other : ℕ)
          → new ≡ (if k == l then old' else old)
          → new' ≡ (if k == l then other else old')
          → (if leb (k + 1) l then new' else new) ≡ (if leb k l then old' else old)
      one_word k l new new' old old' other here there = ground arith

  pub swap_words-bit :
      (T : List ℕ) (r c : ℕ)
      → length T ≡ 64 * w
      → c / 64 < w
      → bit_at (swap_words w 0 i j w T) w r c ≡ bit_at T w (exchanged i j r) c
  swap_words-bit T r c long hc =
      ap (λ u. test_bit u (c % 64))
        (swap_words-cell w 0 T r (c / 64) long (omega arith) hc ∙ ground arith)

-- The addition of the words from `l` on of row `j` to row `k`.
pub length-add_words :
    (left l k j w : ℕ) (T : List ℕ) → length (add_words left l k j w T) ≡ length T
unfolding add_words
length-add_words zero l k j w T = refl
length-add_words (suc left) l k j w T = length-add_words left (l + 1) k j w _ ∙ length-set T _ _

one_addition :
    (k r l l' nk nj nr ok oj or v : ℕ)
    → nk ≡ (if true && (l == l') then v else ok)
    → nj ≡ (if false && (l == l') then v else oj)
    → nr ≡ (if (k == r) && (l == l') then v else or)
    → (l ≡ l' → v ≡ bit_xor ok oj)
    → (if (k == r) && leb (l + 1) l' then bit_xor nk nj else nr)
      ≡ (if (k == r) && leb l l' then bit_xor ok oj else or)
one_addition k r l l' nk nj nr ok oj or v a b c d = elim (ℕ_discrete l l') [
  | yes e ↦ ground (arith, d e)
  | no nl ↦ ground arith
]

first_word :
    (k r l' nk nj nr ok oj or v old : ℕ)
    → nk ≡ (if true && (0 == l') then v else ok)
    → nj ≡ (if false && (0 == l') then v else oj)
    → nr ≡ (if (k == r) && (0 == l') then v else or)
    → (0 ≡ l' → v ≡ bit_xor ok old)
    → (if (k == r) && leb 1 l' then bit_xor nk nj else nr)
      ≡ (if k == r then bit_xor ok (if l' == 0 then old else oj) else or)
first_word k r l' nk nj nr ok oj or v old a b c d = elim (ℕ_discrete 0 l') [
  | yes e ↦ ground (arith, d e)
  | no nl ↦ ground arith
]

module _ (w k j : ℕ) (hk : k < 64) (ne : k ≢ j) where
  add_words-cell :
      (left l : ℕ) (T : List ℕ) (r l' : ℕ)
      → length T ≡ 64 * w
      → l + left ≡ w
      → l' < w
      → cell (add_words left l k j w T) w r l'
        ≡ (if (k == r) && leb l l' then bit_xor (cell T w k l') (cell T w j l') else cell T w r l')
  unfolding add_words
  add_words-cell zero l T r l' long e hl = ground arith
  add_words-cell (suc left) l T r l' long e hl =
      let v = bit_xor (cell T w k l) (cell T w j l) in
      let read = λ (q : ℕ). cell-set T w k l q l' v long hk (omega arith) hl in
      add_words-cell left (l + 1) _ r l' (length-set T _ _ ∙ long) (omega arith) hl
      ∙ one_addition k r l l' _ _ _ (cell T w k l') (cell T w j l') (cell T w r l') v
          (read k ∙ ap (λ b. if b && (l == l') then v else cell T w k l') (eq_true k))
          (read j ∙ ap (λ b. if b && (l == l') then v else cell T w j l') (eq_false k j ne))
          (read r) (λ q. ap (λ t. bit_xor (cell T w k t) (cell T w j t)) q)

  -- With word 0 done by another write, the row gets the sum of the two.
  pub add_words-bit :
      (T : List ℕ) (old r c : ℕ)
      → length T ≡ 64 * w
      → c / 64 < w
      → bit_at (add_words (w - 1) 1 k j w (set T (k * w) (bit_xor (get_or T (k * w) 0) old))) w r c
        ≡ (if k == r
            then xor
                (bit_at T w k c)
                (if (c / 64) == 0 then test_bit old (c % 64) else bit_at T w j c)
            else bit_at T w r c)
  add_words-bit T old r c long hc =
      let v = bit_xor (cell T w k 0) old in
      let start : k * w ≡ k * w + 0 = omega arith in
      let read = λ (q : ℕ). cell-set T w k 0 q (c / 64) v long hk (omega arith) hc in
      ap (λ t. bit_at (add_words (w - 1) 1 k j w (set T t (bit_xor (get_or T t 0) old))) w r c)
        start
      ∙ ap (λ u. test_bit u (c % 64))
          (add_words-cell (w - 1) 1 (set T (k * w + 0) v) r (c / 64) (length-set T _ _ ∙ long)
              (omega arith) hc
            ∙ first_word k r (c / 64) _ _ _ (cell T w k (c / 64)) (cell T w j (c / 64))
                (cell T w r (c / 64)) v old
                (read k
                  ∙ ap (λ b. if b && (0 == (c / 64)) then v else cell T w k (c / 64)) (eq_true k))
                (read j
                  ∙ ap (λ b. if b && (0 == (c / 64)) then v else cell T w j (c / 64))
                      (eq_false k j ne))
                (read r) (λ q. ap (λ t. bit_xor (cell T w k t) old) q))
      ∙ spread (k == r) ((c / 64) == 0) (cell T w k (c / 64)) (cell T w j (c / 64))
          (cell T w r (c / 64)) old (c % 64)
    where
      spread :
          (a b : Bool) (x y z o i : ℕ)
          → test_bit (if a then bit_xor x (if b then o else y) else z) i ≡ (
              if a
              then xor (test_bit x i) (if b then test_bit o i else test_bit y i)
              else test_bit z i)
      spread true true x y z o i = test_bit-xor i x o
      spread true false x y z o i = test_bit-xor i x y
      spread false b x y z o i = refl
