-- ===== src/Result/Tests.antt =====
-- Reports to a fresh array, and to a full one.
use xor_mining.Base.{◌≡◌, refl, arith, [], ◌∷◌, ◌++◌, replicate}
use xor_mining.Base.Run.{ok, fault}
use xor_mining.Result.{Solution, TaskResult, result_init, report_solution, report_all}
use xor_mining.Result.Report.{IsFresh, result_init-IsFresh, report_all-append, report_solution-full}

abbrev solution : Solution
solution = record {
  val = record { val0 = 1; val1 = 2; val2 = 3 };
  task_index = record { val0 = 0; val1 = 1; val2 = 1 };
}

report_all-append_example :
    (r' : TaskResult) × (report_all (solution ∷ solution ∷ []) result_init ≡ ok r')
    × IsFresh r'
    × (r'.solutions ≡ result_init.solutions ++ solution ∷ solution ∷ [])
unfolding result_init
report_all-append_example =
    report_all-append (solution ∷ solution ∷ []) result_init result_init-IsFresh (omega arith)

abbrev full : TaskResult
full = record { size = 128; capacity = 128; solutions = replicate 128 solution; bytes = 6144 }

report_solution-full_example : report_solution full solution ≡ fault
report_solution-full_example = report_solution-full full solution refl (omega arith)
