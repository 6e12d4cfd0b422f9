-- ===== src/Result.antt =====
-- The growing array of solutions: ijoux/common.c, `result_init` and `report_solution`. The model
-- keeps the number of bytes behind the pointer `solutions`: a store past them has no defined
-- behaviour. `malloc` and `realloc` are taken to succeed.
pub mod Report
mod Tests
use xor_mining.Base.{
  ℕ, zero, suc, ◌+◌, ◌*◌, ◌/◌, ◌%◌, ◌^◌, List, [], ◌∷◌, ◌++◌, if◌then◌else◌, ◌==◌, ltb, take,
}
use xor_mining.Base.Run.{Run, ok, fault, ◌>>=◌}
use xor_mining.Join.{Triple}
use xor_mining.Word.{u32}

-- `struct solution_t`, 48 bytes
pub record Solution : Type 0 where
  pub val : Triple
  pub task_index : Triple

abbrev pub sizeof_solution : ℕ
sizeof_solution = 48

-- `struct task_result_t`; `solutions` is the part in use.
pub record TaskResult : Type 0 where
  pub size : ℕ
  pub capacity : ℕ
  pub solutions : List Solution
  pub bytes : ℕ

unfoldable pub result_init : TaskResult
result_init = record { size = 0; capacity = 128; solutions = []; bytes = 128 * sizeof_solution }

-- `realloc(p, n)`: what is kept is what lies whole in the first `n` bytes.
unfoldable pub realloc : TaskResult → ℕ → TaskResult
realloc r n = record r { solutions = take (n / sizeof_solution) r.solutions; bytes = n }

-- The growth step, with the size in bytes that the code hands to `realloc`.
unfoldable pub grow : TaskResult → TaskResult
grow r =
    if r.size == r.capacity
    then record (realloc r (u32 (2 * r.capacity))) { capacity = u32 (r.capacity * 2) }
    else r

-- `result->solutions[result->size] = *sol; result->size++;`
unfoldable pub store : TaskResult → Solution → Run TaskResult
store r sol =
    if ltb r.bytes ((r.size + 1) * sizeof_solution)
    then fault
    else ok (record r { solutions = r.solutions ++ sol ∷ []; size = r.size + 1 })

-- The warning about a sum that is not zero is output, and left out.
unfoldable pub report_solution : TaskResult → Solution → Run TaskResult
report_solution r sol = store (grow r) sol

-- A loop that reports the solutions of a list.
unfoldable pub report_all : List Solution → TaskResult → Run TaskResult
report_all [] r = ok r
report_all (s ∷ sols) r = report_solution r s >>= report_all sols
