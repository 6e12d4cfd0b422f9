-- ===== src/Task/Tests.antt =====
-- A task with one packed slice, two threads for the dispatch, and lists of one word.
use xor_mining.Base.{ℕ, zero, suc, ◌+◌, ◌^◌, ◌≡◌, refl, List, [], ◌∷◌, length, replicate, All}
use xor_mining.Gemv.Identity.{identity, length-identity}
use xor_mining.Base.Run.{Run}
use xor_mining.Join.{Triple}
use xor_mining.Result.{TaskResult}
use xor_mining.Slice.{Slice, Schedule}
use xor_mining.Task.{JTask, slices_loop, init_context, iterated_joux_task}
use xor_mining.Task.Packed.{IsSized, pack_all, followed, each_slice, slices_loop-pack_all}

abbrev slice : Slice
slice = record { M = identity; minv = identity; n = 1; l = 19; cm = 6 ∷ [] }

slice-IsSized : All IsSized (slice ∷ [])
slice-IsSized =
    (record { rows = length-identity; inverse_rows = length-identity; words = refl }, tt)

-- The numbers below a bound.
below : ℕ → List ℕ
below zero = []
below (suc n) = n ∷ below n

abbrev schedule : Schedule
schedule = record { split = λ xs. xs ∷ [] ∷ []; assign = below (2 ^ 10) ∷ [] }

abbrev task : JTask
task = record {
  L0 = (2 ^ 60 + 3) ∷ [];
  L1 = (2 ^ 60 + 5) ∷ [];
  n0 = 1;
  n1 = 1;
  slices = pack_all (slice ∷ []);
  slices_size = length (pack_all (slice ∷ []));
}

-- Room for two words in each bucket.
abbrev two : ℕ → ℕ → ℕ
two n buckets = 2

abbrev numbers : Triple
numbers = record { val0 = 1; val1 = 2; val2 = 3 }

abbrev run : Run TaskResult
run = iterated_joux_task schedule (replicate 8 (replicate 256 7)) two task numbers

slices_loop-pack_all_example :
    slices_loop
      (suc (length (pack_all (slice ∷ []))))
      schedule
      (replicate 8 (replicate 256 7))
      (pack_all (slice ∷ []))
      (length (pack_all (slice ∷ [])))
      numbers
      0
      (init_context two task)
    ≡ each_slice schedule
        (replicate 8 (replicate 256 7))
        numbers
        (followed (slice ∷ []))
        (init_context two task)
slices_loop-pack_all_example =
    slices_loop-pack_all schedule (replicate 8 (replicate 256 7)) numbers (slice ∷ [])
      (init_context two task) slice-IsSized
