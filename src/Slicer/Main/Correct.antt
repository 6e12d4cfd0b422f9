-- ===== src/Slicer/Main/Correct.antt =====
-- The slicer ends, and its slices share out the vectors of the input.
use xor_mining.Base.{ℕ, zero, suc, ◌+◌, ◌^◌, ◌<◌, List, [], length, replicate, map, ◌≡◌, ◌⊎◌}
use xor_mining.Base.Run.{ok}
use xor_mining.Base.Count.{count}
use xor_mining.Slice.{Slice}
use xor_mining.Slicer.Chain.{Lists}
use xor_mining.Slicer.Chain.Moves.{Holds}
use xor_mining.Slicer.Isd.{Machine, Slicing, slice_it}
use xor_mining.Slicer.Isd.Correct.{SliceStops}
use xor_mining.Slicer.Main.{one_slice}
use xor_mining.Slicer.Main.Pad.{AllSingular}
use xor_mining.Slicer.Main.Products.{IsPart, vectors_of}

-- What a round needs: all nodes active, with words of 64 bits, and the dummy nodes with word 0.
record IsOpen (word : ℕ → ℕ) (ls : Lists) (xs : List ℕ) (n : ℕ) : Type 0 where
  holds : Holds ls xs []
  size : n ≡ length xs
  words : (z : ℕ) → ls.store.word z ≡ word z
  small : (a : ℕ) → 0 < count a xs → word a < 2 ^ 64
  zeros : (word ls.active ≡ 0) × (word ls.reject ≡ 0)

-- What it leaves: a slice with some of the vectors, and the others for the next round.
record IsDone (l : ℕ) (word : ℕ → ℕ) (xs : List ℕ) (out : Slice × Slicing × ℕ) : Type 0 where
  part : IsPart l out.0
  rest : List ℕ
  open_next : IsOpen word out.1.lists rest out.2
  shared : (z : ℕ) → count z (vectors_of out.0) + count z (map word rest) ≡ count z (map word xs)
  less : length rest < length xs

-- Why a round does not get to its end: an assertion of `slice_it` fails in one of its passes, or it
-- finds equations all
-- of whose 1000 completions are singular.
pub Stuck : Machine → ℕ → ℕ → ℕ → Lists → ℕ → ℕ → Type 0
Stuck machine rounds fuel l ls calls tests =
    SliceStops machine l rounds fuel l
      (record { lists = ls; equations = replicate 64 0; k = 0; calls = calls; tests = tests })
    ⊎ ((s : Slicing) × (slice_it machine rounds fuel l (replicate 64 0) ls calls tests ≡ ok s)
        × AllSingular machine.lrand48 1000 s.k s.equations s.calls)

-- One of the rounds that the loop comes to is stuck.
pub Stops : Machine → ℕ → ℕ → ℕ → ℕ → Lists → ℕ → ℕ → ℕ → Type 0
Stops machine zero rounds fuel l ls n calls tests = ⊥
Stops machine (suc slices) rounds fuel l ls n calls tests =
    Stuck machine rounds fuel l ls calls tests
    ⊎ ((out : Slice × Slicing × ℕ) × (one_slice machine rounds fuel l ls n calls tests ≡ ok out)
        × Stops machine slices rounds fuel l out.1.lists out.2 out.1.calls out.1.tests)
