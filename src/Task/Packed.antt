-- ===== src/Task/Packed.antt =====
-- The walk over slices that were written one after the other, as the file of the slicer holds them.
use xor_mining.Base.{
  ℕ, zero, suc, ◌+◌, ◌≤◌, ◌≡◌, lt→ltb, refl, sym, ap, ◌∙◌, arith, List, [], ◌∷◌, ◌++◌, append_assoc,
  append-nil, length, length-append, get_or, take, drop, All,
}
use xor_mining.Base.Run.{Run, ok, ◌>>=◌}
use xor_mining.Gemv.{MatmulTable}
use xor_mining.Join.{Triple}
use xor_mining.Slice.{Slice, Context, Schedule, process_slice}
use xor_mining.Slice.Checkup.{bind_same}
use xor_mining.Task.{slice_at, slices_loop}
use xor_mining.Task.Walk.{Walk, slices_loop-end, ltb-false}

-- The words of `struct slice_t`, with its flexible array.
abbrev pub pack : Slice → List ℕ
pack s = s.M ++ (s.minv ++ (s.n ∷ s.l ∷ s.cm))

abbrev pub pack_all : List Slice → List ℕ
pack_all [] = []
pack_all (s ∷ slices) = pack s ++ pack_all slices

-- The arrays have the sizes that the struct gives them.
pub record IsSized (s : Slice) : Type 0 where
  pub rows : length s.M ≡ 64
  pub inverse_rows : length s.minv ≡ 64
  pub words : length s.cm ≡ s.n

-- The slices as they are read: the array of a slice runs on into the slices behind it.
abbrev pub followed : List Slice → List Slice
followed [] = []
followed (s ∷ slices) = record s { cm = s.cm ++ pack_all slices } ∷ followed slices

module _ {A : Type 0} where
  pub drop-append : (xs ys : List A) (k : ℕ) → drop (length xs + k) (xs ++ ys) ≡ drop k ys
  drop-append [] ys k = let e : 0 + k ≡ k = omega arith in ap (λ n. drop n ys) e
  drop-append (x ∷ xs) ys k =
      let e : suc (length xs) + k ≡ suc (length xs + k) = omega arith in
      ap (λ n. drop n (x ∷ xs ++ ys)) e ∙ drop-append xs ys k

  get_or-append :
      (xs ys : List A) (k : ℕ) (d : A) → get_or (xs ++ ys) (length xs + k) d ≡ get_or ys k d
  get_or-append [] ys k d = let e : 0 + k ≡ k = omega arith in ap (λ n. get_or ys n d) e
  get_or-append (x ∷ xs) ys k d =
      let e : suc (length xs) + k ≡ suc (length xs + k) = omega arith in
      ap (λ n. get_or (x ∷ xs ++ ys) n d) e ∙ get_or-append xs ys k d

  pub take-append : (xs ys : List A) → take (length xs) (xs ++ ys) ≡ xs
  take-append [] ys = refl
  take-append (x ∷ xs) ys = ap (λ zs. x ∷ zs) (take-append xs ys)

module _ (before M minv tail : List ℕ) (n l : ℕ) (rows : length M ≡ 64)
    (inverse_rows : length minv ≡ 64) where
  abbrev body : List ℕ
  body = M ++ (minv ++ (n ∷ l ∷ tail))

  abbrev start : ℕ
  start = length before

  drop-body :
      (k m : ℕ) → k ≡ 64 + m → drop (start + k) (before ++ body) ≡ drop m (minv ++ (n ∷ l ∷ tail))
  drop-body k m e =
      drop-append before body k
      ∙ ap (λ j. drop j body) (omega (arith, e, rows))
      ∙ drop-append M (minv ++ (n ∷ l ∷ tail)) m

  get_or-body :
      (k m : ℕ) → k ≡ 128 + m → get_or (before ++ body) (start + k) 0 ≡ get_or (n ∷ l ∷ tail) m 0
  get_or-body k m e =
      get_or-append before body k 0
      ∙ ap (λ j. get_or body j 0) (omega (arith, e, rows))
      ∙ get_or-append M (minv ++ (n ∷ l ∷ tail)) (64 + m) 0
      ∙ ap (λ j. get_or (minv ++ (n ∷ l ∷ tail)) j 0) (omega (arith, inverse_rows))
      ∙ get_or-append minv (n ∷ l ∷ tail) m 0

  take-body : take 64 (drop start (before ++ body)) ≡ M
  take-body =
      ap (λ j. take 64 (drop j (before ++ body))) (omega arith)
      ∙ ap (take 64) (drop-append before body 0)
      ∙ ap (λ j. take j body) (sym rows)
      ∙ take-append M (minv ++ (n ∷ l ∷ tail))

  take-drop-body : take 64 (drop (start + 64) (before ++ body)) ≡ minv
  take-drop-body =
      ap (take 64) (drop-body 64 0 refl)
      ∙ ap (λ j. take j (minv ++ (n ∷ l ∷ tail))) (sym inverse_rows)
      ∙ take-append minv (n ∷ l ∷ tail)

  drop-body_past : drop (start + 130) (before ++ body) ≡ tail
  drop-body_past =
      let past : 66 ≡ length minv + 2 = omega (arith, inverse_rows) in
      drop-body 130 66 refl
      ∙ ap (λ j. drop j (minv ++ (n ∷ l ∷ tail))) past
      ∙ drop-append minv (n ∷ l ∷ tail) 2

  slice_at-body :
      slice_at (before ++ body) start ≡ record { M = M; minv = minv; n = n; l = l; cm = tail }
  unfolding slice_at
  slice_at-body =
      rw (take-body, take-drop-body, get_or-body 128 0 refl, get_or-body 129 1 refl, drop-body_past)
        refl

pack-body :
    (s : Slice) (rest : List ℕ) → pack s ++ rest ≡ s.M ++ (s.minv ++ (s.n ∷ s.l ∷ (s.cm ++ rest)))
pack-body s rest =
    append_assoc s.M (s.minv ++ (s.n ∷ s.l ∷ s.cm)) rest
    ∙ ap (λ xs. s.M ++ xs) (append_assoc s.minv (s.n ∷ s.l ∷ s.cm) rest)

length-pack : (s : Slice) → IsSized s → length (pack s) ≡ 130 + s.n
length-pack s sized = omega (
  arith,
  length-append s.M (s.minv ++ (s.n ∷ s.l ∷ s.cm)),
  length-append s.minv (s.n ∷ s.l ∷ s.cm),
  sized.rows,
  sized.inverse_rows,
  sized.words,
)

Walk-from :
    (slices : List Slice) (before words : List ℕ) (off : ℕ)
    → All IsSized slices
    → words ≡ before ++ pack_all slices
    → off ≡ length before
    → Walk words (length words) off (followed slices)
Walk-from [] before words off sized e at_off =
    omega (arith, at_off, ap length (e ∙ append-nil before))
Walk-from (s ∷ slices) before words off sized e at_off =
    let size = length-pack s sized.0 in
    let whole : length words ≡ length before + (130 + s.n + length (pack_all slices)) = omega (
      arith,
      ap length e,
      length-append before (pack s ++ pack_all slices),
      length-append (pack s) (pack_all slices),
      size,
    ) in
    (
      omega (arith, whole, at_off),
      omega (arith, whole, at_off),
      ap (λ o. slice_at words o) at_off
          ∙ ap (λ xs. slice_at xs (length before))
              (e ∙ ap (λ xs. before ++ xs) (pack-body s (pack_all slices)))
          ∙ slice_at-body before s.M s.minv (s.cm ++ pack_all slices) s.n s.l sized.0.rows
              sized.0.inverse_rows,
      Walk-from slices (before ++ pack s) words (off + 130 + s.n) sized.1
          (e ∙ sym (append_assoc before (pack s) (pack_all slices)))
          (omega (arith, at_off, length-append before (pack s), size)),
    )

-- Packed slices are those that the walk comes to, in order and with no word left over.
pub Walk-pack_all :
    (slices : List Slice)
    → All IsSized slices
    → Walk (pack_all slices) (length (pack_all slices)) 0 (followed slices)
Walk-pack_all slices sized = Walk-from slices [] (pack_all slices) 0 sized refl refl

-- `process_slice` on each of some slices, in order
unfoldable pub each_slice : Schedule → MatmulTable → Triple → List Slice → Context → Run Context
each_slice schedule memory task_index [] self = ok self
each_slice schedule memory task_index (slice ∷ slices) self =
    process_slice schedule memory self slice task_index
    >>= each_slice schedule memory task_index slices

slices_loop-Walk :
    (schedule : Schedule) (memory : MatmulTable) (task_index : Triple) (words : List ℕ) (end : ℕ)
    (slices : List Slice) (left off : ℕ) (self : Context)
    → Walk words end off slices
    → end ≤ off + left
    → slices_loop (suc left) schedule memory words end task_index off self
      ≡ each_slice schedule memory task_index slices self
unfolding slices_loop each_slice
slices_loop-Walk schedule memory task_index words end [] left off self walk fuel =
    slices_loop-end left schedule memory words end task_index off self walk
slices_loop-Walk schedule memory task_index words end (slice ∷ slices) zero off self walk fuel =
    absurd (omega (arith, walk.0))
slices_loop-Walk schedule memory task_index words end (slice ∷ slices) (suc left) off self
      (more, whole, here, walk) fuel =
    rw (here, lt→ltb off end more, ltb-false (length words) (off + 130 + slice.n) whole)
      (bind_same (process_slice schedule memory self slice task_index) (λ self'.
        slices_loop-Walk schedule memory task_index words end slices left (off + 130 + slice.n)
          self' walk (omega arith)))

-- On slices of the sizes that the struct gives them, packed one after the other, the loop does
-- `process_slice` on each slice, in order and once, and nothing else; the array `CM` of a slice
-- runs on into the slices behind it. One round for each word is enough.
pub slices_loop-pack_all :
    (schedule : Schedule) (memory : MatmulTable) (task_index : Triple) (slices : List Slice)
    (self : Context)
    → All IsSized slices
    → slices_loop
        (suc (length (pack_all slices)))
        schedule
        memory
        (pack_all slices)
        (length (pack_all slices))
        task_index
        0
        self
      ≡ each_slice schedule memory task_index (followed slices) self
slices_loop-pack_all schedule memory task_index slices self sized =
    slices_loop-Walk schedule memory task_index (pack_all slices) (length (pack_all slices))
      (followed slices) (length (pack_all slices)) 0 self (Walk-pack_all slices sized) (omega arith)
