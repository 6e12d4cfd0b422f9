-- ===== src/Slicer/Main.antt =====
-- The main loop of the slicer: preprocessing/slicer.c, `main` from the set-up of the lists to the
-- last slice, and `myrand`. The slices are a list, in place of the memory of the output.
pub mod Setup
pub mod Pad
pub mod Products
pub mod Correct
pub mod Feeds
use xor_mining.Base.{
  ℕ, zero, suc, ◌+◌, ◌-◌, ◌*◌, ◌/◌, ◌%◌, ◌^◌, Bool, true, false, List, [], ◌∷◌, get_or, set, length,
  replicate, if◌then◌else◌, ◌==◌, ltb,
}
use xor_mining.Base.Run.{Run, ok, endless, exits, fault, ◌>>=◌, ◌>>◌, require}
use xor_mining.Word.{◌<<<◌, u64}
use xor_mining.Gemv.{naive_gemv}
use xor_mining.Slice.{Slice}
use xor_mining.Slicer.Transpose.{transpose_64}
use xor_mining.Slicer.Chain.{Store, Lists, update, list_insert, list_clear}
use xor_mining.Slicer.Invert.{invert}
use xor_mining.Slicer.Isd.{Machine, Slicing, slice_it}

-- `items[i].x = L[i]; list_insert(active, &items[i])`; item `i` stands at address `i`.
unfoldable pub setup_loop : ℕ → ℕ → ℕ → List ℕ → Store → Store
setup_loop zero i active L s = s
setup_loop (suc left) i active L s =
    let s = record s { word = update s.word i (get_or L i 0) } in
    setup_loop left (i + 1) active L (list_insert active i s)

-- The dummy nodes stand behind the items; `memory` is what the fields hold before.
unfoldable pub setup : List ℕ → Store → Run Lists
setup L memory = do
  let n = length L
  let s = record memory { word = update (update memory.word n 0) (n + 1) 0 }
  s1 ← list_clear n s
  s2 ← list_clear (n + 1) s1
  ok (record { store = setup_loop n 0 n L s2; active = n; reject = n + 1; m = n })

-- `a + (b << 31) + (c << 62)`, from three calls of `lrand48`
unfoldable pub myrand : (ℕ → ℕ) → ℕ → ℕ
myrand lrand48 calls =
    u64 (lrand48 calls + (lrand48 (calls + 1) <<< 31) + (lrand48 (calls + 2) <<< 62))

-- The rows of `T`: random ones, from row `i` on, and the equations.
unfoldable pub random_loop : (ℕ → ℕ) → ℕ → ℕ → ℕ → List ℕ → List ℕ
random_loop lrand48 zero i calls T = T
random_loop lrand48 (suc left) i calls T =
    random_loop lrand48 left (i + 1) (calls + 3) (set T i (myrand lrand48 calls))

unfoldable pub equations_loop : ℕ → ℕ → ℕ → List ℕ → List ℕ → List ℕ
equations_loop zero i k equations T = T
equations_loop (suc left) i k equations T =
    equations_loop left (i + 1) k equations (set T (64 - k + i) (get_or equations i 0))

-- `while (!ok)`: the matrix of the slice and its inverse, and the calls so far. The trial number
-- 1001 ends the program, whatever its outcome.
unfoldable pub pad_loop : (ℕ → ℕ) → ℕ → ℕ → List ℕ → ℕ → Run (List ℕ × List ℕ × ℕ)
pad_loop lrand48 zero k equations calls = exits
pad_loop lrand48 (suc trials) k equations calls =
    let T =
      equations_loop k 0 k equations (random_loop lrand48 (64 - k) 0 calls (replicate 64 0)) in
    let M = transpose_64 T (replicate 64 0) in
    let (good, Minv) = invert (replicate 64 0) M (replicate 64 0) in
    let calls = calls + 3 * (64 - k) in
    elim good [ true ↦ ok (M, Minv, calls) | false ↦ pad_loop lrand48 trials k equations calls ]

-- The products of the active vectors by the matrix, from `item` on.
unfoldable pub multiply_active : ℕ → ℕ → List ℕ → Lists → Run (List ℕ)
multiply_active zero item M ls = endless
multiply_active (suc fuel) item M ls =
    let rest = multiply_active fuel (ls.store.next item) M ls in
    if item == ls.active
    then ok []
    else (rest >>= λ cm. ok (naive_gemv (ls.store.word item) M ∷ cm))

-- The active vectors are discarded, and the rejected ones become active.
unfoldable pub next_lists : ℕ → Lists → Run Lists
next_lists n ls = do
  store ← list_clear ls.active ls.store
  ok (record { store = store; active = ls.reject; reject = ls.active; m = n })

-- One round of `while (n > 0)`: the slice, and the lists and calls for the next.
unfoldable pub one_slice : Machine → ℕ → ℕ → ℕ → Lists → ℕ → ℕ → ℕ → Run (Slice × Slicing × ℕ)
one_slice machine rounds fuel l ls n calls tests = do
  s ← slice_it machine rounds fuel l (replicate 64 0) ls calls tests
  (M, Minv, calls') ← pad_loop machine.lrand48 1000 s.k s.equations s.calls
  cm ← multiply_active fuel (s.lists.store.next s.lists.active) M s.lists
  let n' = n - s.lists.m
  ls' ← next_lists n' s.lists
  ok (
    record { M = M; minv = Minv; n = s.lists.m; l = s.k; cm = cm },
    record s { lists = ls'; calls = calls' },
    n',
  )

-- The division by `64 - l`, which has no defined value for 64
unfoldable pub divide : ℕ → Run (Unit {0})
divide l = if l == 64 then fault else ok tt

unfoldable pub slicing_loop : Machine → ℕ → ℕ → ℕ → ℕ → Lists → ℕ → ℕ → ℕ → Run (List Slice)
slicing_loop machine zero rounds fuel l ls n calls tests = if ltb 0 n then endless else ok []
slicing_loop machine (suc slices) rounds fuel l ls n calls tests = elim (ltb 0 n) [
  | false ↦ ok []
  | true ↦ do
    _ ← divide l
    (slice, s, n') ← one_slice machine rounds fuel l ls n calls tests
    more ← slicing_loop machine slices rounds fuel l s.lists n' s.calls s.tests
    ok (slice ∷ more)
]

unfoldable pub slicer : Machine → ℕ → ℕ → ℕ → Store → List ℕ → Run (List Slice)
slicer machine rounds fuel l memory L = do
  ls ← setup L memory
  _ ← divide l
  slicing_loop machine (length L) rounds fuel l ls (length L) 0 0
