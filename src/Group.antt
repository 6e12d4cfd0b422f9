-- ===== src/Group.antt =====
-- The task groups of ijoux/do_task_group.c: the numbers of the tasks of a core, its loop over them,
-- and the groups of a job. The numbers are `int` in the source, not negative after `setup`, and
-- the products of `do_job` and `setup` that do not fit one are faults; what MPI and the file system
-- do is left out, and `iterated_joux_task` and the work on one group are arguments.
pub mod Index
pub mod Work
pub mod Job
pub mod Load
pub mod Setup
pub mod Sections
pub mod Tasks
mod Tests
use xor_mining.Base.{
  ℕ, zero, suc, ◌+◌, ◌-◌, ◌*◌, ◌/◌, ◌%◌, ◌^◌, bit_xor, List, [], ◌∷◌, get_or, take, drop, Bool, not,
  ◌||◌, if◌then◌else◌, ◌==◌, ltb,
}
use xor_mining.Base.Run.{Run, ok, exits, fault, ◌>>=◌}
use xor_mining.Word.{u32, u64}
use xor_mining.Join.{Triple}
use xor_mining.Result.{TaskResult, result_init, report_all}
use xor_mining.Task.{JTask}

-- `struct tg_context_t`, what the computations read of it
pub record TgContext : Type 0 where
  pub task_grid_size : ℕ
  pub cpu_grid_size : ℕ
  pub per_core_grid_size : ℕ
  pub tg_per_job : ℕ
  pub cpu_i : ℕ
  pub cpu_j : ℕ

-- The end of `setup`: the place of a rank in the grid of cores
unfoldable pub own_coordinates : TgContext → ℕ → TgContext
own_coordinates ctx rank = record ctx {
  cpu_i = rank / ctx.cpu_grid_size;
  cpu_j = rank % ctx.cpu_grid_size;
}

unfoldable pub tg_task_base : TgContext → ℕ → ℕ → Triple
tg_task_base ctx tg_i tg_j =
    let base0 = u32 (tg_i * ctx.cpu_grid_size + ctx.cpu_i) in
    let base1 = u32 (tg_j * ctx.cpu_grid_size + ctx.cpu_j) in
    record { val0 = base0; val1 = base1; val2 = bit_xor base0 base1 }

unfoldable pub tg_task_idx : TgContext → ℕ → ℕ → ℕ → ℕ → Triple
tg_task_idx ctx tg_i tg_j task_i task_j =
    let base = tg_task_base ctx tg_i tg_j in
    let idx0 = u32 (base.val0 * ctx.per_core_grid_size + task_i) in
    let idx1 = u32 (base.val1 * ctx.per_core_grid_size + task_j) in
    record { val0 = idx0; val1 = idx1; val2 = bit_xor idx0 idx1 }

-- An entry of an array, where a read past the end has no defined behaviour.
unfoldable pub entry_at : {A : Type 0} → List A → ℕ → Run A
entry_at [] i = fault
entry_at (x ∷ xs) zero = ok x
entry_at (x ∷ xs) (suc i) = entry_at xs i

-- The descriptor of task `(r, s)` in `tg_task_work`
unfoldable pub task_at : List JTask → ℕ → ℕ → Run JTask
task_at all_tasks r s = do
  a ← entry_at all_tasks r
  b ← entry_at all_tasks s
  c ← entry_at all_tasks (bit_xor r s)
  ok (record {
    L0 = a.L0;
    L1 = b.L1;
    n0 = a.n0;
    n1 = b.n1;
    slices = c.slices;
    slices_size = c.slices_size;
  })

-- The body of the two loops of `tg_task_work`; `joux` is `iterated_joux_task`.
unfoldable pub do_task :
    (JTask → Triple → Run TaskResult)
    → TgContext
    → ℕ
    → ℕ
    → List JTask
    → ℕ
    → ℕ
    → TaskResult
    → Run TaskResult
do_task joux ctx tg_i tg_j all_tasks r s all_solutions = do
  task ← task_at all_tasks r s
  result ← joux task (tg_task_idx ctx tg_i tg_j r s)
  report_all result.solutions all_solutions

-- `for (s = 0; s < n; s++)`, from `s` with `left` rounds to go
unfoldable pub count_loop : {S : Type 0} → (ℕ → S → Run S) → ℕ → ℕ → S → Run S
count_loop body zero s state = ok state
count_loop body (suc left) s state = body s state >>= count_loop body left (s + 1)

unfoldable pub tg_task_work :
    (JTask → Triple → Run TaskResult) → TgContext → ℕ → ℕ → List JTask → Run TaskResult
tg_task_work joux ctx tg_i tg_j all_tasks =
    count_loop (λ r. count_loop (do_task joux ctx tg_i tg_j all_tasks r) ctx.per_core_grid_size 0)
      ctx.per_core_grid_size 0 result_init

-- `tg_grid_size` and `njobs` in `do_job`
unfoldable pub tg_grid_size : TgContext → ℕ
tg_grid_size ctx = ctx.task_grid_size / ctx.cpu_grid_size / ctx.per_core_grid_size

unfoldable pub njobs : TgContext → ℕ
njobs ctx = tg_grid_size ctx * tg_grid_size ctx / ctx.tg_per_job

-- The divisions by 0 of `do_job`, and the products that do not fit an `int`; these have no defined
-- behaviour.
unfoldable pub undefined_job : TgContext → ℕ → Bool
undefined_job ctx job =
    ((ctx.cpu_grid_size == 0) || ((ctx.per_core_grid_size == 0) || (ctx.tg_per_job == 0)))
    || (not (ltb ((job + 1) * ctx.tg_per_job) (2 ^ 31))
        || not (ltb (tg_grid_size ctx * tg_grid_size ctx) (2 ^ 31)))

-- `do_job`; `group` is `do_task_group`.
unfoldable pub do_job : {S : Type 0} → (ℕ → ℕ → S → Run S) → TgContext → ℕ → S → Run S
do_job group ctx job state =
    let tg_from = job * ctx.tg_per_job in
    let tg_to = (job + 1) * ctx.tg_per_job in
    let g = tg_grid_size ctx in
    let run = count_loop (λ k. group (k / g) (k % g)) (tg_to - tg_from) tg_from state in
    let checked = if ltb job (njobs ctx) then run else exits in
    if undefined_job ctx job then fault else checked
