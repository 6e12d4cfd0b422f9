-- ===== src/Group/Tests.antt =====
-- A grid of 2 x 2 groups, each with 3 x 3 cores of 4 x 4 tasks, and jobs of two groups.
use xor_mining.Base.{
  ℕ, ◌+◌, ◌*◌, ◌<◌, ◌≡◌, refl, arith, bit_xor, ◌^◌, get_or, true, none, some, length, List, [], ◌∷◌,
  ◌∈◌, ◌↔◌,
}
use xor_mining.Base.Run.{Run, ok, Finishes}
use xor_mining.Join.{Triple}
use xor_mining.Result.{Solution, TaskResult}
use xor_mining.Task.{JTask}
use xor_mining.Group.{
  TgContext, own_coordinates, tg_task_base, tg_task_idx, task_at, tg_task_work, tg_grid_size, njobs,
  do_job,
}
use xor_mining.Group.Index.{IsGrid, numbers, tg_task_idx-covers, tg_task_idx_unique}
use xor_mining.Group.Tasks.{task_at-tg_task_idx}
use xor_mining.Group.Work.{Runs, rows_from, tg_task_work-rows}
use xor_mining.Group.Setup.{Options, setup, IsPlaced, setup-IsPlaced}
use xor_mining.Group.Load.{load_tg_data}
use xor_mining.Group.Sections.{grouped, ends, joined, Holds, AllHold, load_tg_data-AllHold}
use xor_mining.Group.Job.{IsSized, note_group, Places, do_job-Places, do_job-covers}

abbrev ctx : TgContext
ctx = record {
  task_grid_size = 24;
  cpu_grid_size = 3;
  per_core_grid_size = 4;
  tg_per_job = 2;
  cpu_i = 1;
  cpu_j = 2;
}

ctx-IsGrid : IsGrid 2 ctx
ctx-IsGrid = record { cores = omega arith; tasks = omega arith; fits = omega arith }

tg_task_idx-covers_example :
    (rank : ℕ) × (i : ℕ) × (j : ℕ) × (r : ℕ) × (s : ℕ) × (rank < 3 * 3)
    × (i < 2)
    × (j < 2)
    × (r < 4)
    × (s < 4)
    × (tg_task_idx (own_coordinates ctx rank) i j r s ≡ numbers 23 7)
tg_task_idx-covers_example = tg_task_idx-covers 2 ctx ctx-IsGrid 23 7 (omega arith) (omega arith)

tg_task_idx_unique_example :
    ◌≡◌ {A = ℕ} 5 5 × ◌≡◌ {A = ℕ} 1 1 × ◌≡◌ {A = ℕ} 0 0 × ◌≡◌ {A = ℕ} 3 3 × ◌≡◌ {A = ℕ} 2 2
tg_task_idx_unique_example =
    tg_task_idx_unique 2 ctx ctx-IsGrid 5 5 1 1 0 0 3 3 2 2 (omega arith) (omega arith)
      (omega arith) (omega arith) (omega arith) (omega arith) (omega arith) (omega arith)
      (omega arith) (omega arith) refl

abbrev first_list : List (List ℕ)
first_list = (5 ∷ []) ∷ (6 ∷ 7 ∷ []) ∷ []

abbrev second_list : List (List ℕ)
second_list = (9 ∷ []) ∷ [] ∷ []

abbrev slice_lists : List (List ℕ)
slice_lists = [] ∷ (8 ∷ []) ∷ []

abbrev first_task : JTask
first_task = record { L0 = 5 ∷ []; L1 = 9 ∷ []; n0 = 1; n1 = 1; slices = []; slices_size = 0 }

abbrev second_task : JTask
second_task = record { L0 = 6 ∷ 7 ∷ []; L1 = []; n0 = 2; n1 = 0; slices = 8 ∷ []; slices_size = 1 }

abbrev two_tasks : List JTask
two_tasks = first_task ∷ second_task ∷ []

two_tasks-AllHold : AllHold first_list second_list slice_lists two_tasks
two_tasks-AllHold = (held, (held', tt))
  where
    held : Holds (5 ∷ []) (9 ∷ []) [] first_task
    held = record {
      size0 = refl;
      words0 = refl;
      size1 = refl;
      words1 = refl;
      slices_size = refl;
      slices = refl;
    }

    held' : Holds (6 ∷ 7 ∷ []) [] (8 ∷ []) second_task
    held' = record {
      size0 = refl;
      words0 = refl;
      size1 = refl;
      words1 = refl;
      slices_size = refl;
      slices = refl;
    }

abbrev two_rows : TgContext
two_rows = record ctx { per_core_grid_size = 2 }

two_rows-IsGrid : IsGrid 2 two_rows
two_rows-IsGrid = record { cores = omega arith; tasks = omega arith; fits = omega arith }

task_at-tg_task_idx_example :
    (task : JTask) × (task_at two_tasks 1 0 ≡ ok task)
    × Holds (6 ∷ 7 ∷ []) (9 ∷ []) (8 ∷ []) task
    × (tg_task_idx two_rows 1 0 1 0 ≡ record {
      val0 = (tg_task_base two_rows 1 0).val0 * 2 + 1;
      val1 = (tg_task_base two_rows 1 0).val1 * 2 + 0;
      val2 = (tg_task_base two_rows 1 0).val2 * 2 + 1;
    })
task_at-tg_task_idx_example =
    task_at-tg_task_idx 2 two_rows 1 1 0 1 0 first_list second_list slice_lists two_tasks
      two_rows-IsGrid refl (omega arith) (omega arith) (omega arith) (omega arith) (omega arith)
      (omega arith) two_tasks-AllHold refl

ctx-IsSized : IsSized ctx
unfolding tg_grid_size
ctx-IsSized = record {
  cores = omega arith;
  tasks = omega arith;
  groups = omega arith;
  fits = omega arith;
}

do_job-Places_example :
    (log : List (ℕ × ℕ)) × (do_job note_group ctx 1 [] ≡ ok log)
    × ((q : ℕ × ℕ) → (q ∈ log) ↔ Places (tg_grid_size ctx) (1 * 2) 2 q)
unfolding njobs tg_grid_size
do_job-Places_example = do_job-Places ctx 1 ctx-IsSized (omega arith)

do_job-covers_example :
    (job : ℕ) × (log : List (ℕ × ℕ)) × (job < njobs ctx)
    × (do_job note_group ctx job [] ≡ ok log)
    × ((1, 0) ∈ log)
unfolding njobs tg_grid_size
do_job-covers_example = do_job-covers ctx 1 0 ctx-IsSized refl (omega arith) (omega arith)

-- A computation that returns the sizes of its descriptor, with the numbers of the task.
abbrev sizes : ℕ → ℕ → ℕ → Triple → Solution
sizes a b c index = record { val = record { val0 = a; val1 = b; val2 = c }; task_index = index }

abbrev joux : JTask → Triple → Run TaskResult
joux t index = ok (record {
  size = 1;
  capacity = 128;
  solutions = sizes t.n0 t.n1 t.slices_size index ∷ [];
  bytes = 6144;
})

abbrev task_sizes : ℕ → ℕ → List Solution
task_sizes r s =
    sizes (length (get_or first_list r [])) (length (get_or second_list s []))
      (length (get_or slice_lists (bit_xor r s) [])) (tg_task_idx two_rows 0 1 r s)
    ∷ []

joux-Runs :
    (r s : ℕ)
    → r < 2
    → s < 2
    → Runs joux two_rows 0 1 first_list second_list slice_lists two_tasks task_sizes r s
unfolding Runs
joux-Runs r s hr hs task holds = (_, refl, rw (holds.size0, holds.size1, holds.slices_size) refl)

tg_task_work-rows_example :
    (all : TaskResult) × (tg_task_work joux two_rows 0 1 two_tasks ≡ ok all)
    × (all.solutions ≡ rows_from task_sizes 2 0 2)
tg_task_work-rows_example =
    tg_task_work-rows joux two_rows 0 1 first_list second_list slice_lists two_tasks task_sizes 1
      refl refl two_tasks-AllHold joux-Runs (omega arith)

abbrev two_sections : List (List ℕ)
two_sections = (5 ∷ []) ∷ (6 ∷ 7 ∷ []) ∷ []

abbrev two_slices : List (List ℕ)
two_slices = [] ∷ (8 ∷ []) ∷ []

load_tg_data-AllHold_example :
    (tasks : List JTask) × (load_tg_data 2
        (grouped two_sections)
        (grouped two_sections)
        (grouped two_slices)
      ≡ ok tasks)
    × AllHold two_sections two_sections two_slices tasks
unfolding ends joined
load_tg_data-AllHold_example =
    load_tg_data-AllHold 2 two_sections two_sections two_slices refl refl refl small small small'
  where
    small : length (grouped two_sections) < 2 ^ 64
    small = omega arith

    small' : length (grouped two_slices) < 2 ^ 64
    small' = omega arith

abbrev one_group : Options
one_group = record {
  tg_per_job = none;
  cpu_grid_size = some 3;
  per_core_grid_size = some 4;
  task_grid_size = none;
  has_input_dir = true;
  i = some 1;
  j = some 0;
  job = none;
}

setup-IsPlaced_example : Finishes (setup one_group 5 9) (IsPlaced one_group 5)
setup-IsPlaced_example = setup-IsPlaced one_group 5 9 (omega arith) (omega arith) (omega arith)
