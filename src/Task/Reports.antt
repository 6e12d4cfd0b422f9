-- ===== src/Task/Reports.antt =====
-- `iterated_joux_task` returns the solutions of all slices.
use xor_mining.Base.{ℕ, ◌+◌, ◌<◌, ◌≡◌, List, [], ◌∷◌, ◌++◌, length, ◌⊎◌}
use xor_mining.Base.Run.{Run, ok, fault}
use xor_mining.Join.{Triple}
use xor_mining.Result.{Solution, TaskResult}
use xor_mining.Slice.{Slice, Context, Schedule}
use xor_mining.Slice.Input.{IsSolution}
use xor_mining.Slice.Found.{solutions_of}
use xor_mining.Slice.Keeps.{Keeps}
use xor_mining.Task.Walk.{Walk}

-- A solution of one of the slices.
abbrev pub FromSlices : List ℕ → List ℕ → Triple → List Slice → Solution → Type 0
FromSlices L0 L1 task_index [] s = ⊥
FromSlices L0 L1 task_index (slice ∷ slices) s =
    IsSolution L0 L1 slice task_index s ⊎ FromSlices L0 L1 task_index slices s

-- The solutions of all slices, in the order in which the program comes to them.
abbrev pub all_solutions : Schedule → ℕ → List ℕ → List ℕ → Triple → List Slice → List Solution
all_solutions schedule p L0 L1 task_index [] = []
all_solutions schedule p L0 L1 task_index (slice ∷ slices) =
    solutions_of schedule p L0 L1 slice task_index
    ++ all_solutions schedule p L0 L1 task_index slices

-- The run ended with these solutions after the earlier ones, or there are more than 128 in all and
-- it faulted.
abbrev Ends : Run Context → TaskResult → List Solution → Type 0
Ends run result sols =
    ((self' : Context) × (run ≡ ok self') × (self'.result.solutions ≡ result.solutions ++ sols))
    ⊎ ((run ≡ fault) × (128 < result.size + length sols))
