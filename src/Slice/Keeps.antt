-- ===== src/Slice/Keeps.antt =====
-- What every run of `process_slice` leaves alone, so that another slice can follow.
use xor_mining.Base.{ℕ, ◌≡◌, refl, sym, ap, ◌∙◌, List, length}
use xor_mining.Base.Run.{looped, Returns, Returns-bind, Returns-all, Returns-weaken}
use xor_mining.Word.{u32}
use xor_mining.Gemv.{MatmulTable, matmul_init}
use xor_mining.Table.{cuckoo_build}
use xor_mining.Join.{Triple}
use xor_mining.Result.Report.{IsFresh}
use xor_mining.Partition.{Side, partition, fan_out_of}
use xor_mining.Partition.Pieces.{IsPrepared}
use xor_mining.Partition.Keeps.{StaysPrepared, partition-StaysPrepared}
use xor_mining.Slice.{
  Slice, Context, Schedule, multiplied, join_threads, finish_slice, process_slice,
}
use xor_mining.Slice.Correct.{IsReady}

pub record Keeps (self self' : Context) : Type 0 where
  pub L0 : self'.L0 ≡ self.L0
  pub L1 : self'.L1 ≡ self.L1
  pub T_part : self'.T_part ≡ self.T_part
  pub p : self'.p ≡ self.p
  pub side0 : StaysPrepared self.T_part self.p self.side0 self'.side0
  pub side1 : StaysPrepared self.T_part self.p self.side1 self'.side1

-- The dispatch of the products keeps a side prepared.
multiplied-StaysPrepared :
    (T p : ℕ) (L : List ℕ) (side : Side) (M : MatmulTable) (chunks : List (List ℕ))
    → IsPrepared T p side
    → Returns (partition p chunks (multiplied L side M)) (StaysPrepared T p side)
multiplied-StaysPrepared T p L side M chunks ready =
    Returns-weaken (partition p chunks (multiplied L side M)) _ (StaysPrepared T p side)
      (partition-StaysPrepared T p chunks (multiplied L side M) (record {
        bits = ready.bits;
        region_size = ready.region_size;
        partition_size = ready.partition_size;
        space = ready.space;
        counters = ready.counters;
        small = ready.small;
        narrow = ready.narrow;
      }))
      (λ side' stays. record { prepared = stays.prepared; n = stays.n; tsize = stays.tsize })

pub process_slice-Keeps :
    (schedule : Schedule) (memory : MatmulTable) (self : Context) (slice : Slice)
    (task_index : Triple)
    → IsPrepared self.T_part self.p self.side0
    → IsPrepared self.T_part self.p self.side1
    → Returns (process_slice schedule memory self slice task_index) (Keeps self)
unfolding process_slice
process_slice-Keeps schedule memory self slice task_index ready0 ready1 =
    let M = matmul_init slice.M memory in
    let v0 = multiplied self.L0 self.side0 M in
    let v1 = multiplied self.L1 self.side1 M in
    Returns-bind (looped (cuckoo_build slice.cm 0 (u32 slice.n))) _ (λ H. Unit {0}) (Keeps self)
      (Returns-all _ _ (λ H. tt))
      (λ H any.
        Returns-bind (partition self.p (schedule.split v0.lm) v0) _
          (StaysPrepared self.T_part self.p self.side0) (Keeps self)
          (multiplied-StaysPrepared self.T_part self.p self.L0 self.side0 M _ ready0)
          (λ side0 stays0.
            Returns-bind (partition self.p (schedule.split v1.lm) v1) _
              (StaysPrepared self.T_part self.p self.side1) (Keeps self)
              (multiplied-StaysPrepared self.T_part self.p self.L1 self.side1 M _ ready1)
              (λ side1 stays1.
                Returns-bind
                  (join_threads slice.l (fan_out_of self.p) self.T_part side0 side1 schedule.assign)
                  _ (λ pres. Unit {0}) (Keeps self) (Returns-all _ _ (λ pres. tt))
                  (λ pres any'.
                    Returns-bind (finish_slice H slice task_index pres self.result) _
                      (λ r. Unit {0}) (Keeps self) (Returns-all _ _ (λ r. tt))
                      (λ r any''. record {
                        L0 = refl;
                        L1 = refl;
                        T_part = refl;
                        p = refl;
                        side0 = stays0;
                        side1 = stays1;
                      })))))

-- What holds before one slice holds after it.
pub Keeps-IsReady :
    (schedule : Schedule) (self self' : Context) (slice : Slice)
    → IsReady schedule self slice
    → Keeps self self'
    → IsFresh self'.result
    → IsReady schedule self' slice
Keeps-IsReady schedule self self' slice ready keeps fresh = record {
  prepared0 = rw (keeps.T_part, keeps.p) keeps.side0.prepared;
  prepared1 = rw (keeps.T_part, keeps.p) keeps.side1.prepared;
  size0 = keeps.side0.n ∙ ready.size0 ∙ ap length (sym keeps.L0);
  size1 = keeps.side1.n ∙ ready.size1 ∙ ap length (sym keeps.L1);
  bits = rw keeps.p ready.bits;
  fresh = fresh;
  balanced0 = rw (keeps.L0, keeps.p, keeps.side0.tsize) ready.balanced0;
  balanced1 = rw (keeps.L1, keeps.p, keeps.side1.tsize) ready.balanced1;
  room = rw (keeps.L0, keeps.p) ready.room;
}
