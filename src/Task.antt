-- ===== src/Task.antt =====
-- One task of ijoux/joux_v3.c, `iterated_joux_task`: all slices of a file, one after the other, on
-- the same two lists. The slices lie packed in an array of words; a read past it has no defined
-- behaviour. Memory that is freed at the end and the output are left out.

pub mod Walk
pub mod Reports
pub mod Init
pub mod Packed
mod Tests
use xor_mining.Base.{
  ℕ, zero, suc, ◌+◌, ◌*◌, ◌%◌, ◌^◌, List, [], ◌∷◌, get_or, take, drop, length, if◌then◌else◌, ltb,
}
use xor_mining.Base.Run.{Run, ok, endless, fault, ◌>>=◌}
use xor_mining.Word.{u32}
use xor_mining.Gemv.{MatmulTable}
use xor_mining.Join.{Triple}
use xor_mining.Result.{TaskResult, result_init}
use xor_mining.Partition.{prepare_side}
use xor_mining.Slice.{Slice, Context, Schedule, process_slice}

-- `struct jtask_t`
pub record JTask : Type 0 where
  pub L0 : List ℕ
  pub L1 : List ℕ
  pub n0 : ℕ
  pub n1 : ℕ
  pub slices : List ℕ
  pub slices_size : ℕ

-- `sizeof(*slice) / sizeof(*ptr)`: two matrices of 64 words, `n` and `l`
abbrev pub header_size : ℕ
header_size = 130

-- The `struct slice_t` at an offset; `CM` is all that follows, since the struct does not bound it.
unfoldable pub slice_at : List ℕ → ℕ → Slice
slice_at words off = record {
  M = take 64 (drop off words);
  minv = take 64 (drop (off + 64) words);
  n = get_or words (off + 128) 0;
  l = get_or words (off + 129) 0;
  cm = drop (off + 130) words;
}

-- The setup of `iterated_joux_task`
unfoldable pub init_context : (ℕ → ℕ → ℕ) → JTask → Context
init_context chernoff_bound task =
    let p : ℕ = 10 in
    let T_part : ℕ = 2 in
    record {
      L0 = task.L0;
      L1 = task.L1;
      n0 = u32 task.n0;
      n1 = u32 task.n1;
      side0 = prepare_side chernoff_bound T_part p (u32 task.n0);
      side1 = prepare_side chernoff_bound T_part p (u32 task.n1);
      T_part = T_part;
      p = p;
      volume = 0;
      probes = 0;
      bad_slice = 0;
      result = result_init;
    }

-- `while (((u64 *) slice) < end) { … }` with `left` rounds to go
unfoldable pub slices_loop :
    ℕ → Schedule → MatmulTable → List ℕ → ℕ → Triple → ℕ → Context → Run Context
slices_loop zero schedule memory words end task_index off self = endless
slices_loop (suc left) schedule memory words end task_index off self =
    let slice = slice_at words off in
    let next = off + header_size + slice.n in
    let run =
      process_slice schedule memory self slice task_index
      >>= slices_loop left schedule memory words end task_index next in
    if ltb off end then (if ltb (length words) next then fault else run) else ok self

-- Each round moves on by at least the header, so one round for each word is enough.
unfoldable pub iterated_joux_task :
    Schedule → MatmulTable → (ℕ → ℕ → ℕ) → JTask → Triple → Run TaskResult
iterated_joux_task schedule memory chernoff_bound task task_index = do
  self ←
      slices_loop (suc task.slices_size) schedule memory task.slices task.slices_size task_index 0
        (init_context chernoff_bound task)
  ok self.result
