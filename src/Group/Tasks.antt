-- ===== src/Group/Tasks.antt =====
-- The descriptors that `tg_task_work` of ijoux/do_task_group.c makes: their lists and slices are
-- those of the sections with the numbers of the task.
use xor_mining.Base.{
  ℕ, zero, suc, ◌+◌, ◌*◌, ◌^◌, ◌<◌, ◌≡◌, refl, arith, bit_xor, List, [], ◌∷◌, get_or, length,
}
use xor_mining.Base.Run.{ok}
use xor_mining.Join.{Triple}
use xor_mining.Task.{JTask}
use xor_mining.Group.{TgContext, tg_task_base, tg_task_idx, entry_at, task_at}
use xor_mining.Group.Index.{IsGrid, tg_task_idx-plain, tg_task_idx-slices}
use xor_mining.Group.Sections.{Holds, AllHold}

entry_at-Holds :
    (xs ys zs : List (List ℕ)) (tasks : List JTask) (i : ℕ)
    → AllHold xs ys zs tasks
    → i < length tasks
    → (task : JTask) × (entry_at tasks i ≡ ok task)
      × Holds (get_or xs i []) (get_or ys i []) (get_or zs i []) task
unfolding entry_at
entry_at-Holds xs ys zs [] i all lt = absurd (omega (arith, lt))
entry_at-Holds [] ys zs (task ∷ tasks) i all lt = absurd all
entry_at-Holds (x ∷ xs) [] zs (task ∷ tasks) i all lt = absurd all
entry_at-Holds (x ∷ xs) (y ∷ ys) [] (task ∷ tasks) i all lt = absurd all
entry_at-Holds (x ∷ xs) (y ∷ ys) (z ∷ zs) (task ∷ tasks) zero (here, all) lt = (task, refl, here)
entry_at-Holds (x ∷ xs) (y ∷ ys) (z ∷ zs) (task ∷ tasks) (suc i) (here, all) lt =
    entry_at-Holds xs ys zs tasks i all (omega (arith, lt))

-- The descriptor of task `(r, s)` has the first list of section `r`, the second of section `s`,
-- and the slices of section `r ^ s`.
pub task_at-Holds :
    (xs ys zs : List (List ℕ)) (tasks : List JTask) (r s : ℕ)
    → AllHold xs ys zs tasks
    → r < length tasks
    → s < length tasks
    → bit_xor r s < length tasks
    → (task : JTask) × (task_at tasks r s ≡ ok task)
      × Holds (get_or xs r []) (get_or ys s []) (get_or zs (bit_xor r s) []) task
unfolding task_at
task_at-Holds xs ys zs tasks r s all hr hs ht =
    let (a, run_a, ha) = entry_at-Holds xs ys zs tasks r all hr in
    let (b, run_b, hb) = entry_at-Holds xs ys zs tasks s all hs in
    let (c, run_c, hc) = entry_at-Holds xs ys zs tasks (bit_xor r s) all ht in
    (
      _,
      rw (run_a, run_b, run_c) refl,
      record {
        size0 = ha.size0;
        words0 = ha.words0;
        size1 = hb.size1;
        words1 = hb.words1;
        slices_size = hc.slices_size;
        slices = hc.slices;
      },
    )

-- In a grid of groups whose numbers fit 32 bits, and with a power of two of rows of tasks on a
-- core, let the tasks that are loaded hold the sections of three files, one for each row. Then
-- the descriptor of task `(r, s)` is made, and holds the section `r` of the first file, `s` of the
-- second and `r ^ s` of the third; and the numbers of the task are those of the group, times the
-- number of rows, plus `r`, `s` and `r ^ s`.
pub task_at-tg_task_idx :
    (G : ℕ) (ctx : TgContext) (k i j r s : ℕ) (xs ys zs : List (List ℕ)) (tasks : List JTask)
    → IsGrid G ctx
    → ctx.per_core_grid_size ≡ 2 ^ k
    → ctx.cpu_i < ctx.cpu_grid_size
    → ctx.cpu_j < ctx.cpu_grid_size
    → i < G
    → j < G
    → r < ctx.per_core_grid_size
    → s < ctx.per_core_grid_size
    → AllHold xs ys zs tasks
    → length tasks ≡ ctx.per_core_grid_size
    → (task : JTask) × (task_at tasks r s ≡ ok task)
      × Holds (get_or xs r []) (get_or ys s []) (get_or zs (bit_xor r s) []) task
      × (tg_task_idx ctx i j r s ≡ record {
        val0 = (tg_task_base ctx i j).val0 * ctx.per_core_grid_size + r;
        val1 = (tg_task_base ctx i j).val1 * ctx.per_core_grid_size + s;
        val2 = (tg_task_base ctx i j).val2 * ctx.per_core_grid_size + bit_xor r s;
      })
task_at-tg_task_idx G ctx k i j r s xs ys zs tasks grid power hx hy hi hj hr hs all size =
    let (inside, third) = tg_task_idx-slices G ctx grid k i j r s power hx hy hi hj hr hs in
    let (first, second) = tg_task_idx-plain G ctx grid i j r s hx hy hi hj hr hs in
    let (task, run, holds) =
      task_at-Holds xs ys zs tasks r s all (omega (arith, size, hr)) (omega (arith, size, hs))
        (omega (arith, size, inside)) in
    (task, run, holds, triple (tg_task_idx ctx i j r s) first second third)
  where
    triple :
        (t : Triple) {a b c : ℕ}
        → t.val0 ≡ a
        → t.val1 ≡ b
        → t.val2 ≡ c
        → t ≡ record { val0 = a; val1 = b; val2 = c }
    triple t e f g = rw (← e, ← f, ← g) refl
