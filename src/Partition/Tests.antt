-- ===== src/Partition/Tests.antt =====
-- Two threads, one bit, and two words for each thread.
use xor_mining.Base.{ℕ, ◌+◌, ◌-◌, ◌^◌, ◌<◌, ◌≡◌, refl, arith, List, [], ◌∷◌, map, replicate, All}
use xor_mining.Base.Run.{ok}
use xor_mining.Partition.{Side, prepare_side, partition, pieces_from}
use xor_mining.Partition.Dispatch.{bucket, length-bucket}
use xor_mining.Partition.Keeps.{prepare_side-IsPrepared}
use xor_mining.Partition.Pieces.{IsPrepared, Balanced, partition-pieces}

abbrev side : Side
side = record {
  n = 4;
  psize = 4;
  tsize = 2;
  partition_size = 4;
  lm = replicate 4 0;
  scratch = replicate 8 0;
  count = replicate 4 0;
}

side-IsPrepared : IsPrepared 2 1 side
unfolding replicate
side-IsPrepared = record {
  bits = omega arith;
  region_size = omega arith;
  partition_size = refl;
  space = refl;
  counters = omega arith;
  small = omega arith;
  narrow = omega arith;
}

abbrev chunks : List (List ℕ)
chunks = ((2 ^ 63 + 1) ∷ 5 ∷ []) ∷ (7 ∷ 9 ∷ []) ∷ []

chunks-Balanced : All (Balanced 1 2) chunks
chunks-Balanced = (
  record {
    words = (omega arith, (omega arith, tt));
    fits = λ i hi. length-bucket 63 i _ (omega arith);
  },
  (
    record {
      words = (omega arith, (omega arith, tt));
      fits = λ i hi. length-bucket 63 i _ (omega arith);
    },
    tt,
  ),
)

partition-pieces_example :
    (side' : Side) × (partition 1 chunks side ≡ ok side')
    × ((i : ℕ) → i < 2 ^ 1 → pieces_from (2 ^ 1) side' i 0 2 ≡ map (bucket (64 - 1) i) chunks)
partition-pieces_example = partition-pieces 2 1 side side-IsPrepared chunks refl chunks-Balanced

-- Room for two words in each bucket.
abbrev two_words : ℕ → ℕ → ℕ
two_words n buckets = 2

prepare_side-IsPrepared_example : IsPrepared 2 10 (prepare_side two_words 2 10 7)
prepare_side-IsPrepared_example =
    prepare_side-IsPrepared two_words 2 10 7 (omega arith) (omega arith) (omega arith, omega arith)
      (omega arith)
