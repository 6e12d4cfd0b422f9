-- ===== src/Group/Work.antt =====
-- The loop of a core over its tasks: the solutions of all tasks, in order.
use xor_mining.Base.{
  ℕ, zero, suc, ◌+◌, ◌≤◌, ◌<◌, ◌≡◌, refl, sym, ap, ◌∙◌, ◌^◌, bit_xor, get_or, arith, List, [], ◌++◌,
  append_assoc, append-nil, length, length-append,
}
use xor_mining.Base.Run.{Run, ok}
use xor_mining.Join.{Triple}
use xor_mining.Result.{Solution, TaskResult, result_init}
use xor_mining.Result.Report.{IsFresh, result_init-IsFresh, report_all-append}
use xor_mining.Task.{JTask}
use xor_mining.Word.Xor.{bit_xor-lt}
use xor_mining.Group.Sections.{Holds, AllHold}
use xor_mining.Group.Tasks.{task_at-Holds}
use xor_mining.Group.{TgContext, tg_task_idx, task_at, do_task, count_loop, tg_task_work}

-- The solutions of the tasks `(r, s)`, for `s` from `s` on, and for all rows from `r` on.
abbrev pub row_from : (ℕ → ℕ → List Solution) → ℕ → ℕ → ℕ → List Solution
row_from sols r s zero = []
row_from sols r s (suc left) = sols r s ++ row_from sols r (s + 1) left

abbrev pub rows_from : (ℕ → ℕ → List Solution) → ℕ → ℕ → ℕ → List Solution
rows_from sols size r zero = []
rows_from sols size r (suc left) = row_from sols r 0 size ++ rows_from sols size (r + 1) left

module _ (joux : JTask → Triple → Run TaskResult) (ctx : TgContext) (tg_i tg_j : ℕ)
    (xs ys zs : List (List ℕ)) (all_tasks : List JTask) (sols : ℕ → ℕ → List Solution) where
  -- With the numbers of task `(r, s)`, `joux` returns these solutions on every descriptor that
  -- holds section `r` of the first file, `s` of the second and `r ^ s` of the third.
  unfoldable pub Runs : ℕ → ℕ → Type 0
  Runs r s =
      (task : JTask)
      → Holds (get_or xs r []) (get_or ys s []) (get_or zs (bit_xor r s) []) task
      → (result : TaskResult) × (joux task (tg_task_idx ctx tg_i tg_j r s) ≡ ok result)
        × (result.solutions ≡ sols r s)

  -- The descriptor of task `(r, s)` is made and runs, with these solutions.
  record Ran (r s : ℕ) : Type 0 where
    task : JTask
    result : TaskResult
    built : task_at all_tasks r s ≡ ok task
    run : joux task (tg_task_idx ctx tg_i tg_j r s) ≡ ok result
    returned : result.solutions ≡ sols r s

  Runs-Ran :
      (r s : ℕ)
      → AllHold xs ys zs all_tasks
      → r < length all_tasks
      → s < length all_tasks
      → bit_xor r s < length all_tasks
      → Runs r s
      → Ran r s
  unfolding Runs
  Runs-Ran r s all hr hs ht runs =
      let (task, built, holds) = task_at-Holds xs ys zs all_tasks r s all hr hs ht in
      let (result, run, returned) = runs task holds in
      record { task = task; result = result; built = built; run = run; returned = returned }

  -- The array holds these solutions more than before.
  Adds : TaskResult → List Solution → Run TaskResult → Type 0
  Adds r new run =
      (r' : TaskResult) × (run ≡ ok r') × IsFresh r' × (r'.solutions ≡ r.solutions ++ new)

  do_task-Adds :
      (r s : ℕ) (all : TaskResult)
      → Ran r s
      → IsFresh all
      → all.size + length (sols r s) ≤ 128
      → Adds all (sols r s) (do_task joux ctx tg_i tg_j all_tasks r s all)
  unfolding do_task Adds
  do_task-Adds r s all runs fresh room =
      let (all', run, fresh', kept) =
        report_all-append runs.result.solutions all fresh
          (omega (arith, ap length runs.returned)) in
      (
        all',
        rw (runs.built, runs.run) run,
        fresh',
        kept ∙ ap (λ xs. all.solutions ++ xs) runs.returned,
      )

  -- A loop whose rounds add solutions adds those of all rounds.
  row-Adds :
      (r left s : ℕ) (all : TaskResult)
      → ((t : ℕ) → s ≤ t → t < s + left → Ran r t)
      → IsFresh all
      → all.size + length (row_from sols r s left) ≤ 128
      → Adds all
          (row_from sols r s left)
          (count_loop (do_task joux ctx tg_i tg_j all_tasks r) left s all)
  unfolding count_loop Adds
  row-Adds r zero s all runs fresh room = (all, refl, fresh, sym (append-nil all.solutions))
  row-Adds r (suc left) s all runs fresh room =
      let split = length-append (sols r s) (row_from sols r (s + 1) left) in
      let (all₁, run, fresh₁, kept) =
        do_task-Adds r s all (runs s (omega arith) (omega arith)) fresh (omega (arith, split)) in
      let size : all₁.size ≡ all.size + length (sols r s) = omega (
        arith,
        ap length kept,
        length-append all.solutions (sols r s),
        fresh.count,
        fresh₁.count,
      ) in
      let (all', run', fresh', kept') =
        row-Adds r left (s + 1) all₁ (λ t lo hi. runs t (omega arith) (omega arith)) fresh₁
          (omega (arith, split, size)) in
      (
        all',
        rw run run',
        fresh',
        kept'
            ∙ ap (λ xs. xs ++ row_from sols r (s + 1) left) kept
            ∙ append_assoc all.solutions (sols r s) (row_from sols r (s + 1) left),
      )

  rows-Adds :
      (size left r : ℕ) (all : TaskResult)
      → ((q s : ℕ) → r ≤ q → q < r + left → s < size → Ran q s)
      → IsFresh all
      → all.size + length (rows_from sols size r left) ≤ 128
      → Adds all
          (rows_from sols size r left)
          (count_loop (λ q. count_loop (do_task joux ctx tg_i tg_j all_tasks q) size 0) left r all)
  unfolding count_loop Adds
  rows-Adds size zero r all runs fresh room = (all, refl, fresh, sym (append-nil all.solutions))
  rows-Adds size (suc left) r all runs fresh room =
      let row = row_from sols r 0 size in
      let split = length-append row (rows_from sols size (r + 1) left) in
      let (all₁, run, fresh₁, kept) =
        row-Adds r size 0 all (λ s lo hi. runs r s (omega arith) (omega arith) (omega arith)) fresh
          (omega (arith, split)) in
      let held : all₁.size ≡ all.size + length row =
        omega (arith, ap length kept, length-append all.solutions row, fresh.count, fresh₁.count) in
      let (all', run', fresh', kept') =
        rows-Adds size left (r + 1) all₁ (λ q s lo hi hs. runs q s (omega arith) (omega arith) hs)
          fresh₁ (omega (arith, split, held)) in
      (
        all',
        rw run run',
        fresh',
        kept'
            ∙ ap (λ xs. xs ++ rows_from sols size (r + 1) left) kept
            ∙ append_assoc all.solutions row (rows_from sols size (r + 1) left),
      )

  -- Let a core have a power of two of rows of tasks, with tasks that hold the sections of three
  -- files. If for all `r` and `s` the computation `joux` returns the solutions of task `(r, s)` on
  -- any descriptor that holds section `r` of the first file, `s` of the second and `r ^ s` of the
  -- third, and all tasks have at most 128 solutions together, then `tg_task_work` ends, and returns
  -- the solutions of all tasks, row by row.
  pub tg_task_work-rows :
      (k : ℕ)
      → ctx.per_core_grid_size ≡ 2 ^ k
      → length all_tasks ≡ ctx.per_core_grid_size
      → AllHold xs ys zs all_tasks
      → ((r s : ℕ) → r < ctx.per_core_grid_size → s < ctx.per_core_grid_size → Runs r s)
      → length (rows_from sols ctx.per_core_grid_size 0 ctx.per_core_grid_size) ≤ 128
      → (all : TaskResult) × (tg_task_work joux ctx tg_i tg_j all_tasks ≡ ok all)
        × (all.solutions ≡ rows_from sols ctx.per_core_grid_size 0 ctx.per_core_grid_size)
  unfolding tg_task_work Adds result_init
  tg_task_work-rows k power size holds runs room =
      let (all, run, fresh, kept) =
        rows-Adds ctx.per_core_grid_size ctx.per_core_grid_size 0 result_init
          (λ r s lo hi hs. ran r s (omega arith) hs) result_init-IsFresh (omega arith) in
      (all, run, kept)
    where
      ran : (r s : ℕ) → r < ctx.per_core_grid_size → s < ctx.per_core_grid_size → Ran r s
      ran r s hr hs =
          let hr' : r < 2 ^ k = rw (← power) hr in
          let hs' : s < 2 ^ k = rw (← power) hs in
          let inside : bit_xor r s < ctx.per_core_grid_size = rw power (bit_xor-lt k r s hr' hs') in
          Runs-Ran r s holds (omega (arith, size, hr)) (omega (arith, size, hs))
            (omega (arith, size, inside)) (runs r s hr hs)
