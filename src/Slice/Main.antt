-- ===== src/Slice/Main.antt =====
-- `process_slice` as a whole.
use native.Mathlib.Nat.{mod-eq_of_lt}
use xor_mining.Base.{
  ℕ, ◌+◌, ◌-◌, ◌^◌, ◌<◌, ◌≡◌, ◌≢◌, ap, ◌∙◌, arith, Bool, List, ◌++◌, length, some, ◌⊎◌, inl, inr,
  ◌↔◌, ◌∈◌, ∈-map,
}
use xor_mining.Base.Run.{ok, fault}
use xor_mining.Word.{◌>>>◌, u32}
use xor_mining.Gemv.{MatmulTable, naive_gemv}
use xor_mining.Gemv.Naive.{naive_gemv-lt}
use xor_mining.Gemv.Correct.{IsTable}
use xor_mining.Table.{cuckoo_build}
use xor_mining.Table.Build.{cuckoo_build-table_lookup}
use xor_mining.Join.{Triple, shift_of}
use xor_mining.Join.Correct.{InPieces, Joins}
use xor_mining.Result.{Solution, TaskResult, result_init}
use xor_mining.Result.Report.{IsFresh, IsFresh-same}
use xor_mining.Partition.{Side, fan_out_of}
use xor_mining.Partition.Correct.{fan_out_lem, key-lt}
use xor_mining.Slice.{Slice, Context, Schedule, process_slice, join_threads}
use xor_mining.Slice.Joins.{Pieces, join_threads-Joins}
use xor_mining.Slice.Checkup.{Decides, kept, kept_iff, flat, ∈-flat, checkups-report_all}
use xor_mining.Slice.Found.{joined, solutions_of, join_threads-joined}
use xor_mining.Slice.Input.{IsSlice, IsInput, IsSchedule, IsSolution, image, naive_gemv-nonzero}
use xor_mining.Slice.Solutions.{lifts_iff, sum-nonzero}
use xor_mining.Slice.Correct.{
  finish_slice-Stored, process_slice-steps, process_slice-faults, IsReady, side_lem, pieces-NonZero,
}

module _ (schedule : Schedule) (memory : MatmulTable) (self : Context) (slice : Slice)
    (is : IsSlice slice) (input : IsInput self.L0 self.L1)
    (sched : IsSchedule self.p self.T_part schedule) (table : IsTable memory)
    (ready : IsReady schedule self slice) where
  abbrev chunks0 : List (List ℕ)
  chunks0 = schedule.split (image slice.M self.L0)

  abbrev chunks1 : List (List ℕ)
  chunks1 = schedule.split (image slice.M self.L1)

  product_of : (x : ℕ) → InPieces x chunks0 → (a : ℕ) × ((a ∈ self.L0) × (naive_gemv a slice.M ≡ x))
  product_of x m =
      (∈-map (λ a. naive_gemv a slice.M) x self.L0).0 ((sched.splits (image slice.M self.L0) x).0 m)

  chunk-nonzero : (x : ℕ) → InPieces x chunks0 → x ≢ 0
  chunk-nonzero x m z =
      let (a, (in0, e)) = product_of x m in
      naive_gemv-nonzero slice a is (input.words0 a in0) (input.nonzero a in0) (e ∙ z)

  chunk-key : (x : ℕ) → InPieces x chunks0 → x >>> (64 - self.p) < 2 ^ self.p
  chunk-key x m =
      let (a, (in0, e)) = product_of x m in
      key-lt self.p x (omega (arith, ready.prepared0.bits))
        (rw (← e) (naive_gemv-lt a slice.M is.matrix))

  decides :
      (H : Bool × List ℕ) × (cuckoo_build slice.cm 0 (u32 slice.n) ≡ some H)
      × Decides H slice.cm slice.n
  decides =
      let n : u32 slice.n ≡ slice.n = mod-eq_of_lt (omega (arith, is.few)) in
      let all : slice.n - 0 ≡ slice.n = omega arith in
      rw n (
        rw all at (
          cuckoo_build-table_lookup slice.cm 0 slice.n (omega (arith, is.few))
            (λ k lo hi. is.nonzero k (omega arith))))

  -- The joins of the partitions, said of the products.
  joins :
      (side0 side1 : Side)
      → Pieces self.p self.T_part side0 chunks0
      → Pieces self.p self.T_part side1 chunks1
      → (pres : List (List Triple)) × (join_threads slice.l
            (fan_out_of self.p)
            self.T_part
            side0
            side1
            schedule.assign
          ≡ ok pres)
        × (joined slice.l self.p chunks0 chunks1 (flat schedule.assign) ≡ flat pres)
        × ((t : Triple)
            → InPieces t pres
              ↔ Joins
                  (shift_of slice.l)
                  (λ x. x ∈ image slice.M self.L0)
                  (λ y. y ∈ image slice.M self.L1)
                  t)
  joins side0 side1 pieces0 pieces1 =
      let (pres, run, iff) =
        join_threads-Joins slice.l self.p self.T_part side0 side1 chunks0 chunks1 pieces0 pieces1
          (record { nonzero = pieces-NonZero chunks0 chunk-nonzero; room = ready.room }) is.some
          is.width schedule.assign ready.bits chunk-key sched.assigned sched.covers in
      (
        pres,
        ap (λ f. join_threads slice.l f self.T_part side0 side1 schedule.assign)
              (fan_out_lem self.p ready.prepared0.bits)
            ∙ run,
        join_threads-joined slice.l self.p self.T_part side0 side1 chunks0 chunks1 pieces0 pieces1
            schedule.assign sched.assigned run,
        λ t. (
          λ m.
              let (q, a, b, agree) = (iff t).0 m in
              (q, (sched.splits _ t.val0).0 a, (sched.splits _ t.val1).0 b, agree),
          λ (q, a, b, agree).
              (iff t).1 (q, (sched.splits _ t.val0).1 a, (sched.splits _ t.val1).1 b, agree),
        ),
      )

  -- The solutions of a slice that `process_slice` comes to are exactly the triples of a word of the
  -- first list, a word of the second and their sum, where the product of the sum by `M` is a word
  -- of `CM`. On a slice and two lists in order, with the room that the lists need, and with the
  -- threads of `checkup` one after another, it ends without a fault and adds them to the result in
  -- the order of the schedule, if there are at most 128 in all. If there are more, it runs into a
  -- fault.
  pub process_slice-reports :
      (task_index : Triple)
      → (let sols = solutions_of schedule self.p self.L0 self.L1 slice task_index in
          ((s : Solution) → (s ∈ sols) ↔ IsSolution self.L0 self.L1 slice task_index s)
          × (((self' : Context) × (process_slice schedule memory self slice task_index ≡ ok self')
                × IsFresh self'.result
                × (self'.result.solutions ≡ self.result.solutions ++ sols))
              ⊎ ((process_slice schedule memory self slice task_index ≡ fault)
                  × (128 < self.result.size + length sols))))
  unfolding solutions_of
  process_slice-reports task_index =
      let (H, build, looks) = decides in
      let (side0, (part0, pieces0)) =
        side_lem self.p self.T_part schedule memory slice self.L0 self.side0 is sched table
          ready.prepared0 ready.size0 ready.balanced0 in
      let (side1, (part1, pieces1)) =
        side_lem self.p self.T_part schedule memory slice self.L1 self.side1 is sched table
          ready.prepared1 ready.size1 ready.balanced1 in
      let (pres, join, same, iff) = joins side0 side1 pieces0 pieces1 in
      let hits = kept slice.cm slice.n (flat pres) in
      let check =
        checkups-report_all H slice.cm slice.n looks pres result_init
          (λ t m. sum-nonzero self.L0 self.L1 slice task_index is input t ((iff t).0 m)) in
      rw same (
        λ s. lifts_iff self.L0 self.L1 slice task_index is input hits s (λ t. (
          λ m.
              let (there, c) = (kept_iff slice.cm slice.n (flat pres) t).0 m in
              ((iff t).0 ((∈-flat t pres).0 there), c),
          λ (j, c).
              (kept_iff slice.cm slice.n (flat pres) t).1 ((∈-flat t pres).1 ((iff t).1 j), c),
        )),
        elim (finish_slice-Stored H slice task_index pres self.result hits ready.fresh check) [
          | inr (stops, many) ↦ inr (
            process_slice-faults schedule memory self slice task_index H side0 side1 pres build
                part0 part1 join stops,
            many,
          )
          | inl (r, (finish, (fresh, kept))) ↦
              let (self', (run, e)) =
                process_slice-steps schedule memory self slice task_index H side0 side1 pres r build
                  part0 part1 join finish in
              inl (self', run, IsFresh-same e fresh, ap (λ (t : TaskResult). t.solutions) e ∙ kept)
        ],
      )
