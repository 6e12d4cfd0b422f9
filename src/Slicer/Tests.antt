-- ===== src/Slicer/Tests.antt =====
-- Runs of the parts of the slicer, and its theorems at concrete inputs.
use xor_mining.Base.{
  ℕ, ◌^◌, true, false, List, [], ◌∷◌, get_or, ◌≡◌, refl, arith, replicate, length-replicate,
  if◌then◌else◌, ◌==◌,
}
use xor_mining.Base.Run.{ok}
use xor_mining.Word.{test_bit}
use xor_mining.Gemv.Identity.{identity, unit_rows, identity-IsMatrix}
use xor_mining.Slicer.Transpose.{
  transpose_64, first_loop, block_loop, row_loop, low_half, high_half,
}
use xor_mining.Slicer.Transpose.Correct.{transpose_64-bit}
use xor_mining.Slicer.Chain.{Store, Lists, filter_active, satisfy_equation, popcount}
use xor_mining.Slicer.Chain.Moves.{Holds}
use xor_mining.Slicer.Chain.Filter.{Filtered, filter_active-Filtered, kept, missed, test_of}
use xor_mining.Slicer.Invert.{
  invert, copy_loop, invert_loop, find_pivot, eliminate_loop, eliminate_row,
}
use xor_mining.Slicer.Rows.{swap}
use xor_mining.Slicer.Invert.Correct.{Inverted, invert-Inverted}
use xor_mining.Slicer.Isd.{Machine}
use xor_mining.Slice.{Slice}

-- Nodes 0 and 1 with the words 3 and 5 are active; the dummy nodes are 2 and 3.
abbrev two_active : Lists
two_active = record {
  store = record {
    word = λ z. if z == 0 then 3 else if z == 1 then 5 else 0;
    next = λ z. if z == 2 then 0 else if z == 0 then 1 else if z == 1 then 2 else 3;
    prev = λ z. if z == 0 then 2 else if z == 1 then 0 else if z == 2 then 1 else 3;
  };
  active = 2;
  reject = 3;
  m = 2;
}

two_active-Holds : Holds two_active (0 ∷ 1 ∷ []) []
two_active-Holds = record {
  active_ring = ((refl, refl), ((refl, refl), (refl, refl)));
  reject_ring = (refl, refl);
  once = λ z. ground arith;
  counted = refl;
  small = omega arith;
}

-- The word 3 has an even number of bits in common with 3, and 5 an odd one.
filter_active_run :
    (ls : Lists) × ((filter_active 3 3 two_active ≡ ok ls)
      × Filtered two_active ls
          (kept (test_of two_active.store.word 3) (0 ∷ 1 ∷ []))
          (missed (test_of two_active.store.word 3) (0 ∷ 1 ∷ []) []))
filter_active_run =
    filter_active-Filtered 3 3 two_active (0 ∷ 1 ∷ []) [] two_active-Holds (omega arith)

parities : (satisfy_equation 3 3 ≡ true) × (satisfy_equation 5 3 ≡ false)
unfolding satisfy_equation popcount
parities = (refl, refl)

-- The matrix with a single bit, at row 3 and column 60.
abbrev one_bit : List ℕ
one_bit = 0 ∷ 0 ∷ 0 ∷ (2 ^ 60) ∷ []

transpose_64_run :
    test_bit (get_or (transpose_64 one_bit (replicate 64 0)) 60 0) 3
    ≡ test_bit (get_or one_bit 3 0) 60
transpose_64_run =
    transpose_64-bit one_bit (replicate 64 0) 60 3 (length-replicate 64 0) (omega arith)
      (omega arith)

transposed_bit : get_or (transpose_64 one_bit (replicate 64 0)) 60 0 ≡ 8
unfolding transpose_64 replicate block_loop row_loop first_loop low_half high_half
transposed_bit = refl

invert_run : Inverted identity (invert (replicate 64 0) identity (replicate 64 0))
invert_run =
    invert-Inverted (replicate 64 0) identity (replicate 64 0) (length-replicate 64 0)
      (length-replicate 64 0) identity-IsMatrix

inverted_identity : (invert (replicate 64 0) identity (replicate 64 0)).0 ≡ true
unfolding invert replicate copy_loop invert_loop find_pivot eliminate_loop eliminate_row swap
    unit_rows
inverted_identity = refl

singular_zero : (invert (replicate 64 0) (replicate 64 0) (replicate 64 0)).0 ≡ false
unfolding invert replicate copy_loop invert_loop find_pivot eliminate_loop eliminate_row swap
    unit_rows
singular_zero = refl

-- A generator that counts, a clock that has run out, and no early end of a search.
abbrev counting : Machine
counting = record { lrand48 = λ n. n; in_time = λ n. false; expected_w = λ m d. 0 }

abbrev blank : Store
blank = record { word = λ z. 0; next = λ z. 0; prev = λ z. 0 }

abbrev three_words : List ℕ
three_words = 3 ∷ 5 ∷ 5 ∷ []
