-- ===== src/Group/Load.antt =====
-- `load_tg_data` of ijoux/do_task_group.c: the lists and slices of a group of tasks, from three
-- files that hold several sections each, after their number and their offsets. The files are
-- arguments, as arrays of words.
use xor_mining.Base.{ℕ, zero, suc, ◌+◌, ◌-◌, ◌^◌, List, [], ◌∷◌, drop, ◌==◌}
use xor_mining.Base.Run.{Run, ok, ◌>>=◌, require}
use xor_mining.Word.{u64}
use xor_mining.Task.{JTask}
use xor_mining.Group.{entry_at}

-- A pointer into the file, as the words from there on, and a size.
unfoldable pub section_at : ℕ → List ℕ → Run (List ℕ × ℕ)
section_at r A = do
  from ← entry_at A (r + 1)
  to ← entry_at A (r + 2)
  ok (drop from A, u64 (to + (2 ^ 64 - from)))

-- The loop over the sections, from `r` with `left` rounds to go
unfoldable pub sections_loop : ℕ → ℕ → List ℕ → Run (List (List ℕ × ℕ))
sections_loop zero r A = ok []
sections_loop (suc left) r A = do
  section ← section_at r A
  sections ← sections_loop left (r + 1) A
  ok (section ∷ sections)

-- One of the three files
unfoldable pub load_sections : ℕ → List ℕ → Run (List (List ℕ × ℕ))
load_sections per_core_grid_size A = do
  n ← entry_at A 0
  _ ← require (n == per_core_grid_size)
  sections_loop n 0 A

-- The fields of the tasks, which the three loops fill in
unfoldable pub fill_tasks : List (List ℕ × ℕ) → List (List ℕ × ℕ) → List (List ℕ × ℕ) → List JTask
fill_tasks [] ys zs = []
fill_tasks (a ∷ xs) [] zs = []
fill_tasks (a ∷ xs) (b ∷ ys) [] = []
fill_tasks (a ∷ xs) (b ∷ ys) (c ∷ zs) =
    record { L0 = a.0; L1 = b.0; n0 = a.1; n1 = b.1; slices = c.0; slices_size = c.1 }
    ∷ fill_tasks xs ys zs

unfoldable pub load_tg_data : ℕ → List ℕ → List ℕ → List ℕ → Run (List JTask)
load_tg_data per_core_grid_size A B C = do
  xs ← load_sections per_core_grid_size A
  ys ← load_sections per_core_grid_size B
  zs ← load_sections per_core_grid_size C
  ok (fill_tasks xs ys zs)
