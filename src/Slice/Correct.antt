-- ===== src/Slice/Correct.antt =====
-- `process_slice` runs to its end and reports the solutions of the slice.
use xor_mining.Base.{
  ℕ, ◌+◌, ◌-◌, ◌^◌, ◌≤◌, ◌<◌, ◌≡◌, ◌≢◌, refl, ap, ◌∙◌, arith, Bool, List, [], ◌∷◌, ◌++◌, map,
  length, take, take-length, some, ◌⊎◌, inl, inr, ◌∈◌, All, dec_lt, length-map,
}
use xor_mining.Base.Run.{Run, ok, fault, ◌>>=◌, looped}
use xor_mining.Word.{u32}
use xor_mining.Gemv.{MatmulTable, matmul_init, gemm}
use xor_mining.Gemv.Correct.{IsTable}
use xor_mining.Table.{cuckoo_build}
use xor_mining.Join.{Triple}
use xor_mining.Join.Correct.{InPieces, total, NonZero}
use xor_mining.Result.{Solution, TaskResult, result_init, report_all}
use xor_mining.Result.Report.{IsFresh, result_init-IsFresh, report_all-append, report_all-full}
use xor_mining.Partition.{Side, partition, fan_out_of}
use xor_mining.Partition.Dispatch.{bucket}
use xor_mining.Partition.Pieces.{IsPrepared, Balanced, partition-pieces}
use xor_mining.Slice.{
  Slice, Context, Schedule, local, checkups, lift, finish_slice, process_slice, multiplied,
  join_threads,
}
use xor_mining.Slice.Joins.{Pieces}
use xor_mining.Slice.Input.{IsSlice, IsSchedule, image, gemm-image}

-- Either all solutions are stored after those of `result`, in the first block, or there are more
-- than 128 in all, and the run faults.
abbrev pub Stored : TaskResult → List Solution → Run TaskResult → Type 0
Stored result sols run =
    ((r : TaskResult) × ((run ≡ ok r) × (IsFresh r × (r.solutions ≡ result.solutions ++ sols))))
    ⊎ ((run ≡ fault) × (128 < result.size + length sols))

none_before : (xs : List Solution) → result_init.solutions ++ xs ≡ xs
unfolding result_init
none_before xs = refl

none_counted : result_init.size ≡ 0
unfolding result_init
none_counted = refl

finish_slice-full :
    (H : Bool × List ℕ) (slice : Slice) (task_index : Triple) (pres : List (List Triple))
    (result : TaskResult) (hits : List Triple)
    → IsFresh result
    → checkups H pres result_init ≡ report_all (map local hits) result_init
    → 128 < result.size + length (map (lift slice.minv task_index) (map local hits))
    → finish_slice H slice task_index pres result ≡ fault
unfolding finish_slice
finish_slice-full H slice task_index pres result hits fresh same many =
    let size = length-map (lift slice.minv task_index) (map local hits) in
    elim (dec_lt 128 (length (map local hits))) [
      | yes full ↦
          let stopped =
            report_all-full (map local hits) result_init result_init-IsFresh
              (omega (arith, full, none_counted)) in
          ap (λ m. m >>= λ loc. report_all (map (lift slice.minv task_index) loc.solutions) result)
            (same ∙ stopped)
      | no few ↦
          let (loc, run, fresh', kept) =
            report_all-append (map local hits) result_init result_init-IsFresh
              (omega (arith, few, none_counted)) in
          rw (same, run)
            (ap (λ xs. report_all (map (lift slice.minv task_index) xs) result)
                (kept ∙ none_before (map local hits))
              ∙ report_all-full (map (lift slice.minv task_index) (map local hits)) result fresh
                  many)
    ]

pub finish_slice-Stored :
    (H : Bool × List ℕ) (slice : Slice) (task_index : Triple) (pres : List (List Triple))
    (result : TaskResult) (hits : List Triple)
    → IsFresh result
    → checkups H pres result_init ≡ report_all (map local hits) result_init
    → Stored result
        (map (lift slice.minv task_index) (map local hits))
        (finish_slice H slice task_index pres result)
unfolding finish_slice
finish_slice-Stored H slice task_index pres result hits fresh same =
    let sols = map (lift slice.minv task_index) (map local hits) in
    let size : length sols ≡ length (map local hits) =
      length-map (lift slice.minv task_index) (map local hits) in
    elim (dec_lt 128 (result.size + length sols)) [
      | yes many ↦ inr (finish_slice-full H slice task_index pres result hits fresh same many, many)
      | no few ↦
          let (loc, run, fresh', kept) =
            report_all-append (map local hits) result_init result_init-IsFresh
              (omega (arith, size, none_counted)) in
          let (r, run', fresh'', kept') = report_all-append sols result fresh (omega arith) in
          inl (
            r,
            (
              rw (same, run)
                  (ap (λ xs. report_all (map (lift slice.minv task_index) xs) result)
                      (kept ∙ none_before (map local hits))
                    ∙ run'),
              (fresh'', kept'),
            ),
          )
    ]

step :
    {A B : Type 0} {m : Run A} {a : A} (f : A → Run B) {out : Run B}
    → m ≡ ok a
    → f a ≡ out
    → (m >>= f) ≡ out
step f e e' = ap (λ m. m >>= f) e ∙ e'

-- The steps of `process_slice`, put together.
pub process_slice-steps :
    (schedule : Schedule) (memory : MatmulTable) (self : Context) (slice : Slice)
    (task_index : Triple) (H : Bool × List ℕ) (side0 side1 : Side) (pres : List (List Triple))
    (result : TaskResult)
    → cuckoo_build slice.cm 0 (u32 slice.n) ≡ some H
    → (let v = multiplied self.L0 self.side0 (matmul_init slice.M memory) in
        partition self.p (schedule.split v.lm) v ≡ ok side0)
    → (let v = multiplied self.L1 self.side1 (matmul_init slice.M memory) in
        partition self.p (schedule.split v.lm) v ≡ ok side1)
    → join_threads slice.l (fan_out_of self.p) self.T_part side0 side1 schedule.assign ≡ ok pres
    → finish_slice H slice task_index pres self.result ≡ ok result
    → (self' : Context) × ((process_slice schedule memory self slice task_index ≡ ok self')
        × (self'.result ≡ result))
unfolding process_slice
process_slice-steps schedule memory self slice task_index H side0 side1 pres result build part0
      part1 joins finish =
    (
      _,
      (
        step _ (ap looped build) (step _ part0 (step _ part1 (step _ joins (step _ finish refl)))),
        refl,
      ),
    )

fault_step : {A B : Type 0} {m : Run A} (f : A → Run B) → m ≡ fault → (m >>= f) ≡ fault
fault_step f e = ap (λ m. m >>= f) e

-- The steps when the last one faults.
pub process_slice-faults :
    (schedule : Schedule) (memory : MatmulTable) (self : Context) (slice : Slice)
    (task_index : Triple) (H : Bool × List ℕ) (side0 side1 : Side) (pres : List (List Triple))
    → cuckoo_build slice.cm 0 (u32 slice.n) ≡ some H
    → (let v = multiplied self.L0 self.side0 (matmul_init slice.M memory) in
        partition self.p (schedule.split v.lm) v ≡ ok side0)
    → (let v = multiplied self.L1 self.side1 (matmul_init slice.M memory) in
        partition self.p (schedule.split v.lm) v ≡ ok side1)
    → join_threads slice.l (fan_out_of self.p) self.T_part side0 side1 schedule.assign ≡ ok pres
    → finish_slice H slice task_index pres self.result ≡ fault
    → process_slice schedule memory self slice task_index ≡ fault
unfolding process_slice
process_slice-faults schedule memory self slice task_index H side0 side1 pres build part0 part1
      joins finish =
    step _ (ap looped build) (step _ part0 (step _ part1 (step _ joins (fault_step _ finish))))

-- The state before a slice, and the room that its lists have: no thread has more than `tsize`
-- products of one partition, and no partition of the first list more than 511 of them.
pub record IsReady (schedule : Schedule) (self : Context) (slice : Slice) : Type 0 where
  pub prepared0 : IsPrepared self.T_part self.p self.side0
  pub prepared1 : IsPrepared self.T_part self.p self.side1
  pub size0 : self.side0.n ≡ length self.L0
  pub size1 : self.side1.n ≡ length self.L1
  pub bits : self.p ≤ slice.l
  pub fresh : IsFresh self.result
  pub balanced0 : All (Balanced self.p self.side0.tsize) (schedule.split (image slice.M self.L0))
  pub balanced1 : All (Balanced self.p self.side1.tsize) (schedule.split (image slice.M self.L1))
  pub room :
      (i : ℕ)
      → i < 2 ^ self.p
      → total (map (bucket (64 - self.p) i) (schedule.split (image slice.M self.L0))) < 512

-- The products and their dispatch, on one side.
pub side_lem :
    (p T : ℕ) (schedule : Schedule) (memory : MatmulTable) (slice : Slice) (L : List ℕ)
    (side : Side)
    → IsSlice slice
    → IsSchedule p T schedule
    → IsTable memory
    → IsPrepared T p side
    → side.n ≡ length L
    → All (Balanced p side.tsize) (schedule.split (image slice.M L))
    → (side' : Side) × ((let v = multiplied L side (matmul_init slice.M memory) in
          partition p (schedule.split v.lm) v ≡ ok side')
        × Pieces p T side' (schedule.split (image slice.M L)))
side_lem p T schedule memory slice L side is sched table prepared size balanced =
    let v : Side = multiplied L side (matmul_init slice.M memory) in
    let products : v.lm ≡ image slice.M L =
      ap (λ xs. gemm xs (matmul_init slice.M memory)) (ap (λ n. take n L) size ∙ take-length L)
      ∙ gemm-image L slice.M memory is.matrix table in
    let prepared' : IsPrepared T p v = record {
      bits = prepared.bits;
      region_size = prepared.region_size;
      partition_size = prepared.partition_size;
      space = prepared.space;
      counters = prepared.counters;
      small = prepared.small;
      narrow = prepared.narrow;
    } in
    let (side', run, reads) =
      partition-pieces T p v prepared' (schedule.split (image slice.M L))
        (sched.threads (image slice.M L)) balanced in
    (side', (ap (λ xs. partition p (schedule.split xs) v) products ∙ run, record { reads = reads }))

pub pieces-NonZero :
    (chunks : List (List ℕ)) → ((x : ℕ) → InPieces x chunks → x ≢ 0) → All (All NonZero) chunks
pieces-NonZero [] nz = tt
pieces-NonZero (L ∷ chunks) nz =
    (list L (λ x m. nz x (inl m)), pieces-NonZero chunks (λ x m. nz x (inr m)))
  where
    list : (L : List ℕ) → ((x : ℕ) → x ∈ L → x ≢ 0) → All NonZero L
    list [] nz = tt
    list (x ∷ L) nz = (nz x (inl refl), list L (λ y m. nz y (inr m)))
