-- ===== src/Task/Init.antt =====
-- The context that `iterated_joux_task` sets up is ready for a slice.
use native.Mathlib.Nat.{mod-eq_of_lt}
use xor_mining.Base.{ℕ, ◌*◌, ◌^◌, ◌-◌, ◌≤◌, ◌<◌, ◌≡◌, ◌∙◌, arith, List, length, map, All}
use xor_mining.Word.{u32}
use xor_mining.Join.Correct.{total}
use xor_mining.Result.Report.{result_init-IsFresh}
use xor_mining.Partition.{prepare_side, fan_out_of}
use xor_mining.Partition.Dispatch.{bucket}
use xor_mining.Partition.Pieces.{Balanced}
use xor_mining.Partition.Keeps.{prepare_side-IsPrepared}
use xor_mining.Slice.{Slice, Schedule}
use xor_mining.Slice.Input.{image}
use xor_mining.Slice.Correct.{IsReady}
use xor_mining.Task.{JTask, init_context}

-- The bucket sizes fit 32 bits, and hold the products of each thread.
pub record IsRoomy (schedule : Schedule) (chernoff_bound : ℕ → ℕ → ℕ) (n : ℕ) (L : List ℕ)
    (slice : Slice) : Type 0 where
  pub size : n ≡ length L
  pub small : n < 2 ^ 32
  pub some : 0 < chernoff_bound n 2048
  pub narrow : chernoff_bound n 2048 * 2 * 2 ^ 10 < 2 ^ 32
  pub balanced : All (Balanced 10 (u32 (chernoff_bound n 2048))) (schedule.split (image slice.M L))

-- For lists of the sizes in the task, and buckets with room, the setup is ready for a slice with
-- at least ten equations.
pub init_context-IsReady :
    (schedule : Schedule) (chernoff_bound : ℕ → ℕ → ℕ) (task : JTask) (slice : Slice)
    → IsRoomy schedule chernoff_bound task.n0 task.L0 slice
    → IsRoomy schedule chernoff_bound task.n1 task.L1 slice
    → 10 ≤ slice.l
    → ((i : ℕ)
        → i < 2 ^ 10
        → total (map (bucket (64 - 10) i) (schedule.split (image slice.M task.L0))) < 512)
    → IsReady schedule (init_context chernoff_bound task) slice
unfolding init_context prepare_side fan_out_of
init_context-IsReady schedule chernoff_bound task slice room0 room1 bits room =
    let same0 : u32 task.n0 ≡ task.n0 = mod-eq_of_lt room0.small in
    let same1 : u32 task.n1 ≡ task.n1 = mod-eq_of_lt room1.small in
    record {
      prepared0 = rw same0 (
          prepare_side-IsPrepared chernoff_bound 2 10 task.n0 (omega arith) (omega arith)
            (room0.some, room0.narrow) (omega arith));
      prepared1 = rw same1 (
          prepare_side-IsPrepared chernoff_bound 2 10 task.n1 (omega arith) (omega arith)
            (room1.some, room1.narrow) (omega arith));
      size0 = same0 ∙ room0.size;
      size1 = same1 ∙ room1.size;
      bits = bits;
      fresh = result_init-IsFresh;
      balanced0 = rw same0 room0.balanced;
      balanced1 = rw same1 room1.balanced;
      room = room;
    }
