-- ===== src/Slice.antt =====
-- One slice of a task in ijoux/joux_v3.c: `process_slice` and `checkup`. The four phases are those
-- of the source. What OpenMP decides comes as a `Schedule`; threads that write to arrays of
-- their own run one after another here, and so do the threads of `checkup`, which share the
-- array of solutions. The time counters and the output are left out, and the buffers
-- `preselected` are lists, without their capacity.
pub mod Joins
pub mod Checkup
pub mod Input
pub mod Solutions
pub mod Found
pub mod Correct
pub mod Main
pub mod Keeps
mod Tests
use xor_mining.Base.{
  ℕ, zero, suc, ◌+◌, ◌*◌, ◌/◌, ◌%◌, ◌^◌, bit_and, bit_xor, Bool, true, false, List, [], ◌∷◌, ◌++◌,
  map, length, get_or, take, if◌then◌else◌, Option, none, some,
}
use xor_mining.Base.Run.{Run, ok, ◌>>=◌, looped}
use xor_mining.Word.{u32, u64}
use xor_mining.Gemv.{MatmulTable, naive_gemv, matmul_init, gemm}
use xor_mining.Table.{cuckoo_build, table_lookup}
use xor_mining.Join.{Triple, subjoin}
use xor_mining.Result.{Solution, TaskResult, result_init, report_solution, report_all}
use xor_mining.Partition.{Side, partition, fan_out_of, pieces_from}

-- `struct slice_t`
pub record Slice : Type 0 where
  pub M : List ℕ
  pub minv : List ℕ
  pub n : ℕ
  pub l : ℕ
  pub cm : List ℕ

-- `struct context_t`
pub record Context : Type 0 where
  pub L0 : List ℕ
  pub L1 : List ℕ
  pub n0 : ℕ
  pub n1 : ℕ
  pub side0 : Side
  pub side1 : Side
  pub T_part : ℕ
  pub p : ℕ
  pub volume : ℕ
  pub probes : ℕ
  pub bad_slice : ℕ
  pub result : TaskResult

-- How OpenMP shares the work: `split` deals the items of a list out to the threads of
-- `partition`, and `assign` lists the partitions that each thread of the third phase joins.
pub record Schedule : Type 0 where
  pub split : List ℕ → List (List ℕ)
  pub assign : List (List ℕ)

-- A solution as `checkup` reports it; it leaves `task_index` open, which is 0 here.
abbrev pub local : Triple → Solution
local t = record { val = t; task_index = record { val0 = 0; val1 = 0; val2 = 0 } }

-- `checkup` by one thread, and by all.
unfoldable pub checkup : Bool × List ℕ → List Triple → TaskResult → Run TaskResult
checkup H [] r = ok r
checkup H (t ∷ preselected) r = do
  found ← looped (table_lookup H t.val2)
  r' ← (if found then report_solution r (local t) else ok r)
  checkup H preselected r'

unfoldable pub checkups : Bool × List ℕ → List (List Triple) → TaskResult → Run TaskResult
checkups H [] r = ok r
checkups H (pre ∷ pres) r = checkup H pre r >>= checkups H pres

-- The third phase: the partitions of one thread, and those of all threads. Each thread has its
-- own buffer `preselected`.
unfoldable pub join_thread : ℕ → ℕ → ℕ → Side → Side → List ℕ → Run (List Triple)
join_thread l fan_out T side0 side1 [] = ok []
join_thread l fan_out T side0 side1 (i ∷ is) = do
  found ← subjoin l (pieces_from fan_out side0 i 0 T) (pieces_from fan_out side1 i 0 T)
  more ← join_thread l fan_out T side0 side1 is
  ok (found ++ more)

unfoldable pub join_threads : ℕ → ℕ → ℕ → Side → Side → List (List ℕ) → Run (List (List Triple))
join_threads l fan_out T side0 side1 [] = ok []
join_threads l fan_out T side0 side1 (is ∷ assign) = do
  found ← join_thread l fan_out T side0 side1 is
  more ← join_threads l fan_out T side0 side1 assign
  ok (found ∷ more)

-- The lift of a solution to the words before the product.
unfoldable pub lift : List ℕ → Triple → Solution → Solution
lift Minv task_index loc = record {
  val = record {
    val0 = naive_gemv loc.val.val0 Minv;
    val1 = naive_gemv loc.val.val1 Minv;
    val2 = naive_gemv loc.val.val2 Minv;
  };
  task_index = task_index;
}

-- The first phase, on one side.
abbrev pub multiplied : List ℕ → Side → MatmulTable → Side
multiplied L side M = record side { lm = gemm (take side.n L) M }

-- The fourth phase and the lift.
unfoldable pub finish_slice :
    Bool × List ℕ → Slice → Triple → List (List Triple) → TaskResult → Run TaskResult
finish_slice H slice task_index preselected result = do
  loc ← checkups H preselected result_init
  report_all (map (lift slice.minv task_index) loc.solutions) result

-- `process_slice`; `memory` is what the uninitialised tables hold.
unfoldable pub process_slice : Schedule → MatmulTable → Context → Slice → Triple → Run Context
process_slice schedule memory self slice task_index = do
  H ← looped (cuckoo_build slice.cm 0 (u32 slice.n))
  let bad_slice = if H.0 then u32 (self.bad_slice + 1) else self.bad_slice
  let fan_out = fan_out_of self.p
  let volume = u64 (self.volume + u64 (self.n0 + self.n1))
  let M = matmul_init slice.M memory
  let side0 = multiplied self.L0 self.side0 M
  let side1 = multiplied self.L1 self.side1 M
  side0' ← partition self.p (schedule.split side0.lm) side0
  side1' ← partition self.p (schedule.split side1.lm) side1
  preselected ← join_threads slice.l fan_out self.T_part side0' side1' schedule.assign
  let n0 = length (get_or preselected 0 [])
  let n1 = length (get_or preselected 1 [])
  let n2 = length (get_or preselected 2 [])
  let probes = u64 (self.probes + u32 (u32 (n0 + n1) + n2))
  result ← finish_slice H slice task_index preselected self.result
  ok (record self {
    side0 = side0';
    side1 = side1';
    volume = volume;
    bad_slice = bad_slice;
    probes = probes;
    result = result;
  })
