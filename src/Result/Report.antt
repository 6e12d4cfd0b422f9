-- ===== src/Result/Report.antt =====
-- Reports are kept while the first allocation lasts; the first growth goes wrong.
use xor_mining.Base.{
  ◌+◌, ◌*◌, ◌^◌, ◌≤◌, ◌<◌, List, [], ◌∷◌, ◌++◌, length, append_assoc, append-nil, ◌≡◌, refl, sym,
  ◌∙◌, arith, length-append, dec_lt,
}
use xor_mining.Base.Run.{ok, fault}
use xor_mining.Result.{
  Solution, TaskResult, result_init, realloc, grow, store, report_solution, report_all,
}

-- The array is as `result_init` allocated it, and not over-full.
pub record IsFresh (r : TaskResult) : Type 0 where
  pub capacity : r.capacity ≡ 128
  pub bytes : r.bytes ≡ 128 * 48
  pub count : length r.solutions ≡ r.size
  pub room : r.size ≤ 128

pub IsFresh-same : {r r' : TaskResult} → r' ≡ r → IsFresh r → IsFresh r'
IsFresh-same e fresh = rw e fresh

pub result_init-IsFresh : IsFresh result_init
unfolding result_init
result_init-IsFresh = record { capacity = refl; bytes = refl; count = refl; room = omega arith }

abbrev push : TaskResult → Solution → TaskResult
push r s = record r { solutions = r.solutions ++ s ∷ []; size = r.size + 1 }

report_solution-push :
    (r : TaskResult) (s : Solution) → IsFresh r → r.size < 128 → report_solution r s ≡ ok (push r s)
unfolding report_solution grow store
report_solution-push r s fresh lt = ground arith

push-IsFresh : (r : TaskResult) (s : Solution) → IsFresh r → r.size < 128 → IsFresh (push r s)
push-IsFresh r s fresh lt = record {
  capacity = fresh.capacity;
  bytes = fresh.bytes;
  count = omega (arith, length-append r.solutions (s ∷ []), fresh.count);
  room = omega arith;
}

-- As long as there are at most 128 solutions in all, reports are stored in order and none is lost.
pub report_all-append :
    (sols : List Solution) (r : TaskResult)
    → IsFresh r
    → r.size + length sols ≤ 128
    → (r' : TaskResult) × (report_all sols r ≡ ok r')
      × IsFresh r'
      × (r'.solutions ≡ r.solutions ++ sols)
unfolding report_all
report_all-append [] r fresh room = (r, refl, fresh, sym (append-nil r.solutions))
report_all-append (s ∷ sols) r fresh room =
    let (r', run, fresh', kept) =
      report_all-append sols (push r s) (push-IsFresh r s fresh (omega arith)) (omega arith) in
    (
      r',
      rw (report_solution-push r s fresh (omega arith)) run,
      fresh',
      kept ∙ append_assoc r.solutions (s ∷ []) sols,
    )

-- A report to a full array, of any capacity that a `u32` can double, is a store past the end of
-- the block: `realloc` is given the new capacity, and not its size in bytes.
pub report_solution-full :
    (r : TaskResult) (s : Solution)
    → r.size ≡ r.capacity
    → r.capacity < 2 ^ 31
    → report_solution r s ≡ fault
unfolding report_solution grow realloc store
report_solution-full r s full small = ground arith

-- With more than 128 solutions in all, a report faults.
pub report_all-full :
    (sols : List Solution) (r : TaskResult)
    → IsFresh r
    → 128 < r.size + length sols
    → report_all sols r ≡ fault
unfolding report_all
report_all-full [] r fresh many = absurd (omega (arith, fresh.room, many))
report_all-full (s ∷ sols) r fresh many = elim (dec_lt r.size 128) [
  | yes lt ↦
      rw (report_solution-push r s fresh lt)
        (report_all-full sols (push r s) (push-IsFresh r s fresh lt) (omega (arith, many)))
  | no ge ↦
      rw
        (report_solution-full r s (omega (arith, fresh.room, fresh.capacity, ge))
          (omega (arith, fresh.capacity)))
        refl
]
