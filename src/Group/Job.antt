-- ===== src/Group/Job.antt =====
-- The groups of a job: `do_job` does the groups of a run of indices, and all jobs together meet
-- every group of the grid.
use native.Mathlib.Nat.{mod-lt, div-lt_iff_lt-mul, div-add-mod', mul-le-mul_right}
use xor_mining.Base.{
  ℕ, zero, suc, ◌+◌, ◌-◌, ◌*◌, ◌/◌, ◌%◌, ◌≤◌, ◌<◌, ◌≡◌, refl, ap, ap₂, ◌∙◌, arith, List, [], ◌∷◌,
  ◌∈◌, inl, inr, ◌⊎◌, ◌↔◌, ℕ_discrete, lt→ltb, not, false, ltb, ◌==◌, ◌^◌,
}
use xor_mining.Base.Run.{Run, ok}
use xor_mining.Partition.Address.{below, quotient_of, remainder_of}
use xor_mining.Group.{TgContext, count_loop, tg_grid_size, njobs, undefined_job, do_job}

-- The work on a group that only notes its place.
abbrev pub note_group : ℕ → ℕ → List (ℕ × ℕ) → Run (List (ℕ × ℕ))
note_group i j log = ok ((i, j) ∷ log)

-- The places of the indices from `k` to `k + left - 1`.
abbrev pub Places : ℕ → ℕ → ℕ → ℕ × ℕ → Type 0
Places g k left q = (m : ℕ) × ((k ≤ m) × (m < k + left) × ((m / g, m % g) ≡ q))

count_loop-Places :
    (g left k : ℕ) (log : List (ℕ × ℕ))
    → (log' : List (ℕ × ℕ)) × (count_loop (λ m. note_group (m / g) (m % g)) left k log ≡ ok log')
      × ((q : ℕ × ℕ)
          → (q ∈ log → q ∈ log')
            × (Places g k left q → q ∈ log')
            × (q ∈ log' → (q ∈ log) ⊎ Places g k left q))
unfolding count_loop
count_loop-Places g zero k log =
    (log, refl, λ q. (λ m. m, λ (m, (lo, hi, e)). absurd (omega arith), λ m. inl m))
count_loop-Places g (suc left) k log =
    let (log', run, iff) = count_loop-Places g left (k + 1) ((k / g, k % g) ∷ log) in
    (
      log',
      run,
      λ q.
          let (old, new, back) = iff q in
          (
            λ m. old (inr m),
            λ (m, (lo, hi, e)). elim (ℕ_discrete k m) [
              | yes same ↦ old (inl (ap (λ n. (n / g, n % g)) same ∙ e))
              | no other ↦ new (m, (omega arith, omega arith, e))
            ],
            λ m. elim (back m) [
              | inl (inl here) ↦ inr (k, (omega arith, omega arith, here))
              | inl (inr before) ↦ inl before
              | inr (n, (lo, hi, e)) ↦ inr (n, (omega arith, omega arith, e))
            ],
          ),
    )

-- The sizes are above 0, and the number of groups fits an `int`.
pub record IsSized (ctx : TgContext) : Type 0 where
  pub cores : 0 < ctx.cpu_grid_size
  pub tasks : 0 < ctx.per_core_grid_size
  pub groups : 0 < ctx.tg_per_job
  pub fits : tg_grid_size ctx * tg_grid_size ctx < 2 ^ 31

step : (job n : ℕ) → (job + 1) * n ≡ job * n + n
step job n = grind arith

not_zero : (n : ℕ) → 0 < n → (n == 0) ≡ false
not_zero n pos = ground (arith, pos)

in_range : (n : ℕ) → n < 2 ^ 31 → not (ltb n (2 ^ 31)) ≡ false
in_range n lt = ap not (lt→ltb n (2 ^ 31) lt)

undefined_job-false :
    (ctx : TgContext) (job : ℕ) → IsSized ctx → job < njobs ctx → undefined_job ctx job ≡ false
unfolding undefined_job njobs
undefined_job-false ctx job sized lt =
    let n = ctx.tg_per_job in
    let area = tg_grid_size ctx * tg_grid_size ctx in
    let up : (job + 1) * n ≤ area / n * n = mul-le-mul_right n (omega (arith, lt)) in
    rw
      (
        not_zero ctx.cpu_grid_size sized.cores,
        not_zero ctx.per_core_grid_size sized.tasks,
        not_zero n sized.groups,
        in_range ((job + 1) * n) (omega (arith, up, div-add-mod' area n, sized.fits)),
        in_range area sized.fits,
      )
      refl

-- With sizes above 0 and a number of groups that fits an `int`, a job below `njobs` does the groups
-- at its indices, and no others.
pub do_job-Places :
    (ctx : TgContext) (job : ℕ)
    → IsSized ctx
    → job < njobs ctx
    → (log : List (ℕ × ℕ)) × (do_job note_group ctx job [] ≡ ok log)
      × ((q : ℕ × ℕ)
          → (q ∈ log) ↔ Places (tg_grid_size ctx) (job * ctx.tg_per_job) ctx.tg_per_job q)
unfolding do_job
do_job-Places ctx job sized lt =
    let g = tg_grid_size ctx in
    let n = ctx.tg_per_job in
    let count : (job + 1) * n - job * n ≡ n = omega (arith, step job n) in
    let (log, run, iff) = count_loop-Places g n (job * n) [] in
    (
      log,
      rw (undefined_job-false ctx job sized lt, lt→ltb job (njobs ctx) lt, count) run,
      λ q.
          let (old, new, back) = iff q in
          (λ m. elim (back m) [ inl bad ↦ absurd bad | inr places ↦ places ], new),
    )

-- With sizes above 0 and a number of groups that fits an `int`, when the groups of the grid are a
-- multiple of the groups of a job, each group of the grid is done by a job.
pub do_job-covers :
    (ctx : TgContext) (i j : ℕ)
    → IsSized ctx
    → njobs ctx * ctx.tg_per_job ≡ tg_grid_size ctx * tg_grid_size ctx
    → i < tg_grid_size ctx
    → j < tg_grid_size ctx
    → (job : ℕ) × (log : List (ℕ × ℕ)) × (job < njobs ctx)
      × (do_job note_group ctx job [] ≡ ok log)
      × ((i, j) ∈ log)
do_job-covers ctx i j sized whole hi hj =
    let g = tg_grid_size ctx in
    let n = ctx.tg_per_job in
    let k = i * g + j in
    let k-lt : k < njobs ctx * n = rw whole (below i g j g hi hj) in
    let job-lt : k / n < njobs ctx = (div-lt_iff_lt-mul sized.groups).1 k-lt in
    let (log, run, iff) = do_job-Places ctx (k / n) sized job-lt in
    let rest : k % n < n = mod-lt k sized.groups in
    (
      k / n,
      log,
      job-lt,
      run,
      (iff (i, j)).1 (
        k,
        (
          omega (arith, div-add-mod' k n),
          omega (arith, div-add-mod' k n, rest),
          ap₂ (λ a b. (a, b)) (quotient_of g i j hj) (remainder_of g i j hj),
        ),
      ),
    )
