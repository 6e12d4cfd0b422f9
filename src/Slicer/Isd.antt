-- ===== src/Slicer/Isd.antt =====
-- The search for equations that many active vectors satisfy: preprocessing/slicer.c, `slice_it`.
-- The times of the passes are set by the caller, and show in the tests of the clock only.
pub mod Weight
pub mod Rounds
pub mod Correct
use xor_mining.Base.{
  ℕ, zero, suc, ◌+◌, ◌-◌, ◌*◌, ◌/◌, ◌%◌, Bool, true, false, List, [], ◌∷◌, get_or, set, replicate,
  if◌then◌else◌, ◌==◌, ltb, leb,
}
use xor_mining.Base.Run.{Run, ok, endless, ◌>>=◌, ◌>>◌, require}
use xor_mining.Slicer.Rows.{swap}
use xor_mining.Slicer.Transpose.{transpose}
use xor_mining.Slicer.Chain.{Lists, popcount, filter_active}
use xor_mining.Slicer.Echelon.{Grid, echelonize, check_rank_defect}

-- What the program takes from outside: the results of `lrand48`, those of the tests
-- `wtime() < stop`, in the order of the calls, and `ceil(m * GV(d / m))` as a number.
pub record Machine : Type 0 where
  pub lrand48 : ℕ → ℕ
  pub in_time : ℕ → Bool
  pub expected_w : ℕ → ℕ → ℕ

-- The active vectors in the order of the list, from `item` on.
unfoldable pub copy_active : ℕ → ℕ → Lists → Run (List ℕ)
copy_active zero item ls = endless
copy_active (suc fuel) item ls =
    let rest = copy_active fuel (ls.store.next item) ls in
    if item == ls.active then ok [] else (rest >>= λ words. ok (ls.store.word item ∷ words))

-- `while (i < rows) M[i++] = 0`, behind the `m` vectors
unfoldable pub padded : ℕ → List ℕ → List ℕ
padded zero words = words
padded (suc left) [] = 0 ∷ padded left []
padded (suc left) (x ∷ words) = x ∷ padded left words

-- The variables of a search.
pub record Search : Type 0 where
  pub M : List ℕ
  pub T : List ℕ
  pub best_weight : ℕ
  pub best_equation : ℕ
  pub calls : ℕ
  pub tests : ℕ

-- `swap(M, i, i + lrand48() % (m - i))` for the rows from `i` on
unfoldable pub permute_loop : (ℕ → ℕ) → ℕ → ℕ → ℕ → List ℕ → ℕ → List ℕ × ℕ
permute_loop lrand48 zero i m M calls = (M, calls)
permute_loop lrand48 (suc left) i m M calls =
    permute_loop lrand48 left (i + 1) m (swap M i (i + lrand48 calls % (m - i))) (calls + 1)

-- The weight of row `i`, from word `l` on.
unfoldable pub weight_loop : ℕ → ℕ → ℕ → ℕ → List ℕ → ℕ
weight_loop zero l i w T = 0
weight_loop (suc left) l i w T =
    popcount 64 (get_or T (i * w + l) 0) + weight_loop left (l + 1) i w T

-- The look for a row of low weight, from row `i` on.
unfoldable pub best_loop : ℕ → ℕ → ℕ → Grid → ℕ × ℕ → ℕ × ℕ
best_loop zero i w g best = best
best_loop (suc left) i w g best =
    let weight = weight_loop w 0 i w g.T in
    best_loop left (i + 1) w g (if ltb weight best.0 then (weight, get_or g.E i 0) else best)

-- One iteration, on `m` vectors with `k` equations.
unfoldable pub iterate : Machine → ℕ → ℕ → ℕ → Search → Run Search
iterate machine fuel m k s = do
  let w = (m + 63) / 64
  let d = 64 - k
  let (M, calls) = permute_loop machine.lrand48 d 0 m s.M s.calls
  (j, g) ← echelonize machine.lrand48 fuel (transpose M w s.T) m w d (replicate 64 0) calls
  require (j == d)
  let (weight, equation) = best_loop (64 - k) 0 w g (s.best_weight, s.best_equation)
  ok (record s { M = M; T = g.T; best_weight = weight; best_equation = equation; calls = g.calls })

-- The loop over the iterations, behind the first test of `it == 0`.
unfoldable pub search_loop : Machine → ℕ → ℕ → ℕ → ℕ → Search → Run Search
search_loop machine zero fuel m k s = endless
search_loop machine (suc rounds) fuel m k s = do
  s' ← iterate machine fuel m k s
  elim (ltb s'.best_weight (machine.expected_w m (64 - k))) [
    | true ↦ ok s'
    | false ↦ elim (machine.in_time s'.tests) [
      | true ↦ search_loop machine rounds fuel m k (record s' { tests = s'.tests + 1 })
      | false ↦ ok (record s' { tests = s'.tests + 1 })
    ]
  ]

-- The lists, the equations and their number, and the calls and tests so far.
pub record Slicing : Type 0 where
  pub lists : Lists
  pub equations : List ℕ
  pub k : ℕ
  pub calls : ℕ
  pub tests : ℕ

-- A pass of `slice_it` behind the check for a rank defect.
unfoldable pub isd_pass : Machine → ℕ → ℕ → List ℕ → Slicing → Run Slicing
isd_pass machine rounds fuel M s = do
  require (leb (64 - s.k) s.lists.m)
  found ← search_loop machine rounds fuel s.lists.m s.k (record {
    M = M;
    T = replicate (64 * ((s.lists.m + 63) / 64)) 0;
    best_weight = s.lists.m;
    best_equation = 0;
    calls = s.calls;
    tests = s.tests;
  })
  lists ← filter_active fuel found.best_equation s.lists
  ok (record {
    lists = lists;
    equations = set s.equations s.k found.best_equation;
    k = s.k + 1;
    calls = found.calls;
    tests = found.tests;
  })

-- The loop `while (k < l)`, on `passes` passes.
unfoldable pub slice_loop : Machine → ℕ → ℕ → ℕ → ℕ → Slicing → Run Slicing
slice_loop machine zero rounds fuel l s = if ltb s.k l then endless else ok s
slice_loop machine (suc passes) rounds fuel l s = elim (ltb s.k l) [
  | false ↦ ok s
  | true ↦ do
    words ← copy_active fuel (s.lists.store.next s.lists.active) s.lists
    let M = padded (64 * ((s.lists.m + 63) / 64)) words
    (equations, k, calls) ←
        check_rank_defect machine.lrand48 fuel M s.lists.m s.equations s.k s.calls
    let s' = record s { equations = equations; k = k; calls = calls }
    elim (leb l k) [
      | true ↦ ok s'
      | false ↦ isd_pass machine rounds fuel M s' >>= slice_loop machine passes rounds fuel l
    ]
]

-- `slice_it` with its assertion; `equations` is the caller's array.
unfoldable pub slice_it : Machine → ℕ → ℕ → ℕ → List ℕ → Lists → ℕ → ℕ → Run Slicing
slice_it machine rounds fuel l equations lists calls tests = do
  s ←
      slice_loop machine l rounds fuel l
        (record { lists = lists; equations = equations; k = 0; calls = calls; tests = tests })
  require (leb l s.k)
  ok s
