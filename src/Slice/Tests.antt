-- ===== src/Slice/Tests.antt =====
-- A slice with the identity matrix, two lists of one word, one thread and two partitions: the
-- words sum to 6, which stands in the slice.
use xor_mining.Base.{
  ◌≤◌, Bool, some, ◌-◌, ◌+◌, map, ℕ, zero, suc, ◌^◌, ◌<◌, ◌≡◌, ◌≢◌, refl, ap, ◌∙◌, arith, List, [],
  ◌∷◌, ◌++◌, length, replicate, get_or, ◌⊎◌, inl, inr, ◌↔◌, ◌∈◌,
}
use xor_mining.Base.Run.{ok, fault}
use xor_mining.Word.{◌>>>◌}
use xor_mining.Gemv.{MatmulTable, naive_gemv}
use xor_mining.Gemv.Naive.{naive_gemv-lt}
use xor_mining.Gemv.Correct.{replicate-IsTable}
use xor_mining.Gemv.Identity.{identity, identity-IsMatrix, naive_gemv-identity}
use xor_mining.Join.{Triple, shift_of}
use xor_mining.Join.Correct.{InPieces, Joins}
use xor_mining.Result.{Solution, result_init, report_all}
use xor_mining.Result.Report.{IsFresh, result_init-IsFresh}
use xor_mining.Partition.{Side, partition, pieces_from}
use xor_mining.Table.{cuckoo_build}
use xor_mining.Table.Build.{cuckoo_build-table_lookup}
use xor_mining.Join.Scan.{triple}
use xor_mining.Partition.Dispatch.{bucket, length-bucket}
use xor_mining.Partition.Pieces.{IsPrepared, Balanced, partition-pieces}
use xor_mining.Slice.{Slice, Context, Schedule, local, checkup, join_threads, process_slice}
use xor_mining.Slice.Input.{IsSlice, IsInput, IsSchedule, IsSolution}
use xor_mining.Slice.Correct.{IsReady}
use xor_mining.Slice.Joins.{IsJoinable, join_threads-Joins}
use xor_mining.Slice.Checkup.{Decides, kept, checkup-report_all}
use xor_mining.Slice.Found.{solutions_of}
use xor_mining.Slice.Main.{process_slice-reports}

abbrev slice : Slice
slice = record { M = identity; minv = identity; n = 1; l = 19; cm = 6 ∷ [] }

slice-IsSlice : IsSlice slice
unfolding shift_of
slice-IsSlice = record {
  matrix = identity-IsMatrix;
  inverse = identity-IsMatrix;
  inverts =
      λ x h. ap (λ u. naive_gemv u identity) (naive_gemv-identity x h) ∙ naive_gemv-identity x h;
  some = omega arith;
  width = omega arith;
  few = omega arith;
  nonzero = nonzero;
  narrow = narrow;
}
  where
    nonzero : (k : ℕ) → k < 1 → get_or slice.cm k 0 ≢ 0
    nonzero zero h = λ e. absurd (omega arith)
    nonzero (suc k) h = absurd (omega arith)

    narrow : (k : ℕ) → k < 1 → get_or slice.cm k 0 >>> shift_of 19 ≡ 0
    narrow zero h = refl
    narrow (suc k) h = absurd (omega arith)

abbrev left : List ℕ
left = (2 ^ 60 + 3) ∷ []

abbrev right : List ℕ
right = (2 ^ 60 + 5) ∷ []

lists-IsInput : IsInput left right
lists-IsInput = record {
  words0 = λ x m. elim m [ inl e ↦ omega arith | inr bad ↦ absurd bad ];
  words1 = λ x m. elim m [ inl e ↦ omega arith | inr bad ↦ absurd bad ];
  nonzero = λ x m z. elim m [ inl e ↦ absurd (omega arith) | inr bad ↦ absurd bad ];
  apart = λ x y a b same. elim a [
    | inl e ↦ elim b [ inl e' ↦ absurd (omega arith) | inr bad ↦ absurd bad ]
    | inr bad ↦ absurd bad
  ];
}

abbrev schedule : Schedule
schedule = record { split = λ xs. xs ∷ []; assign = (0 ∷ 1 ∷ []) ∷ [] }

schedule-IsSchedule : IsSchedule 1 1 schedule
schedule-IsSchedule = record {
  threads = λ xs. refl;
  splits = λ xs x. (λ m. elim m [ inl there ↦ there | inr bad ↦ absurd bad ], λ m. inl m);
  assigned = ((omega arith, (omega arith, tt)), tt);
  covers = covers;
}
  where
    covers : (i : ℕ) → i < 2 ^ 1 → InPieces i ((0 ∷ 1 ∷ []) ∷ [])
    covers zero h = inl (inl refl)
    covers (suc zero) h = inl (inr (inl refl))
    covers (suc (suc i)) h = absurd (omega arith)

abbrev side : Side
side = record {
  n = 1;
  psize = 2;
  tsize = 2;
  partition_size = 2;
  lm = replicate 1 0;
  scratch = replicate 4 0;
  count = replicate 2 0;
}

side-IsPrepared : IsPrepared 1 1 side
unfolding replicate
side-IsPrepared = record {
  bits = omega arith;
  region_size = omega arith;
  partition_size = refl;
  space = refl;
  counters = omega arith;
  small = omega arith;
  narrow = omega arith;
}

abbrev self : Context
self = record {
  L0 = left;
  L1 = right;
  n0 = 1;
  n1 = 1;
  side0 = side;
  side1 = side;
  T_part = 1;
  p = 1;
  volume = 0;
  probes = 0;
  bad_slice = 0;
  result = result_init;
}

-- One product is no more than two, and a word.
one_product : (x : ℕ) → Balanced 1 2 (naive_gemv x identity ∷ [])
one_product x = record {
  words = (naive_gemv-lt x identity identity-IsMatrix, tt);
  fits = λ i hi. length-bucket 63 i _ (omega arith);
}

self-IsReady : IsReady schedule self slice
self-IsReady = record {
  prepared0 = side-IsPrepared;
  prepared1 = side-IsPrepared;
  size0 = refl;
  size1 = refl;
  bits = omega arith;
  fresh = result_init-IsFresh;
  balanced0 = (one_product (2 ^ 60 + 3), tt);
  balanced1 = (one_product (2 ^ 60 + 5), tt);
  room = λ i hi.
      let small =
        length-bucket 63 i (naive_gemv (2 ^ 60 + 3) identity ∷ []) {n = 1} (omega arith) in
      omega (arith, small);
}

abbrev memory : MatmulTable
memory = replicate 8 (replicate 256 7)

abbrev task : Triple
task = record { val0 = 1; val1 = 2; val2 = 3 }

process_slice-reports_example :
    ((s : Solution)
      → (s ∈ solutions_of schedule 1 left right slice task) ↔ IsSolution left right slice task s)
    × (((self' : Context) × (process_slice schedule memory self slice task ≡ ok self')
          × IsFresh self'.result
          × (self'.result.solutions
              ≡ self.result.solutions ++ solutions_of schedule 1 left right slice task))
        ⊎ ((process_slice schedule memory self slice task ≡ fault)
            × (128 < self.result.size + length (solutions_of schedule 1 left right slice task))))
process_slice-reports_example =
    process_slice-reports schedule memory self slice slice-IsSlice lists-IsInput schedule-IsSchedule
      (replicate-IsTable 7) self-IsReady task

-- The dispatch of one list to one thread.
abbrev left_chunks : List (List ℕ)
left_chunks = left ∷ []

abbrev right_chunks : List (List ℕ)
right_chunks = right ∷ []

one_word : (x : ℕ) → x < 2 ^ 64 → Balanced 1 2 (x ∷ [])
one_word x h = record { words = (h, tt); fits = λ i hi. length-bucket 63 i (x ∷ []) (omega arith) }

left_parts :
    (side' : Side) × (partition 1 left_chunks side ≡ ok side')
    × ((i : ℕ) → i < 2 ^ 1 → pieces_from (2 ^ 1) side' i 0 1 ≡ map (bucket (64 - 1) i) left_chunks)
left_parts =
    partition-pieces 1 1 side side-IsPrepared left_chunks refl
      (one_word (2 ^ 60 + 3) (omega arith), tt)

right_parts :
    (side' : Side) × (partition 1 right_chunks side ≡ ok side')
    × ((i : ℕ) → i < 2 ^ 1 → pieces_from (2 ^ 1) side' i 0 1 ≡ map (bucket (64 - 1) i) right_chunks)
right_parts =
    partition-pieces 1 1 side side-IsPrepared right_chunks refl
      (one_word (2 ^ 60 + 5) (omega arith), tt)

left-IsJoinable : IsJoinable 1 left_chunks
left-IsJoinable = record {
  nonzero = (((λ e. absurd (omega arith)), tt), tt);
  room = λ i hi. let small = length-bucket 63 i left {n = 1} (omega arith) in omega (arith, small);
}

left-key : (x : ℕ) → InPieces x left_chunks → x >>> (64 - 1) < 2 ^ 1
left-key x m = elim m [
  | inl there ↦ elim there [ inl e ↦ omega arith | inr bad ↦ absurd bad ]
  | inr bad ↦ absurd bad
]

join_threads-Joins_example :
    (outs : List (List Triple)) × (join_threads 19
        (2 ^ 1)
        1
        left_parts.0
        right_parts.0
        ((0 ∷ 1 ∷ []) ∷ [])
      ≡ ok outs)
    × ((t : Triple)
        → InPieces t outs
          ↔ Joins (shift_of 19) (λ x. InPieces x left_chunks) (λ y. InPieces y right_chunks) t)
join_threads-Joins_example =
    join_threads-Joins 19 1 1 left_parts.0 right_parts.0 left_chunks right_chunks
      (record { reads = left_parts.2 }) (record { reads = right_parts.2 }) left-IsJoinable
      (omega arith) (omega arith) ((0 ∷ 1 ∷ []) ∷ []) (omega arith) left-key
      schedule-IsSchedule.assigned schedule-IsSchedule.covers

-- A table with the word 6, and two triples, one of which has the sum 6.
six : (H : Bool × List ℕ) × (cuckoo_build (6 ∷ []) 0 1 ≡ some H) × Decides H (6 ∷ []) 1
six = cuckoo_build-table_lookup (6 ∷ []) 0 1 (omega arith) nonzero
  where
    nonzero : (k : ℕ) → 0 ≤ k → k < 0 + (1 - 0) → get_or {A = ℕ} (6 ∷ []) k 0 ≢ 0
    nonzero zero lo hi = λ e. absurd (omega arith)
    nonzero (suc k) lo hi = absurd (omega arith)

abbrev found : List (List Triple)
found = (triple 3 5 ∷ triple 3 4 ∷ []) ∷ []

found-nonzero : (t : Triple) → InPieces t found → t.val2 ≢ 0
found-nonzero t m z = elim m [
  | inl there ↦ elim there [
    | inl e ↦ nonzero 6 t.val2 (ap (λ (u : Triple). u.val2) e) (λ q. absurd (omega arith)) z
    | inr (inl e) ↦ nonzero 7 t.val2 (ap (λ (u : Triple). u.val2) e) (λ q. absurd (omega arith)) z
    | inr (inr bad) ↦ absurd bad
  ]
  | inr bad ↦ absurd bad
]
  where
    nonzero : (v w : ℕ) → v ≡ w → v ≢ 0 → w ≢ 0
    nonzero v w e nz z = nz (e ∙ z)

checkup-report_all_example :
    checkup six.0 (triple 3 5 ∷ triple 3 4 ∷ []) result_init
    ≡ report_all (map local (kept (6 ∷ []) 1 (triple 3 5 ∷ triple 3 4 ∷ []))) result_init
checkup-report_all_example =
    checkup-report_all six.0 (6 ∷ []) 1 six.2 (triple 3 5 ∷ triple 3 4 ∷ []) result_init
      (λ t m. found-nonzero t (inl m))
