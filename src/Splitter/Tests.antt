-- ===== src/Splitter/Tests.antt =====
-- A run of preprocessing/splitter.c with two mappers and two keys, on three preimages.
use xor_mining.Base.{
  ℕ, zero, suc, ◌+◌, ◌^◌, ◌<◌, ◌≤◌, ◌≡◌, refl, arith, List, [], ◌∷◌, ◌++◌, get_or, replicate,
  length,
}
use xor_mining.Base.Run.{Finishes}
use xor_mining.Base.Count.{count}
use xor_mining.Hasher.{foo}
use xor_mining.Hasher.Digest.{Preimage}
use xor_mining.Splitter.{splitter}
use xor_mining.Splitter.Correct.{Order, IsSplit, splitter-IsSplit}

-- A stand-in for `SHA256` that keeps one byte, the fourth digit of the counter
abbrev one_byte : List ℕ → List ℕ
one_byte bytes = replicate 19 0 ++ (get_or bytes 19 0 ∷ replicate 12 0)

abbrev three : List Preimage
three =
    record { counter = 0x1000; nonce = 7 }
    ∷ record { counter = 0xa000; nonce = 8 }
    ∷ record { counter = 0x2000; nonce = 9 }
    ∷ []

abbrev sources : List ℕ
sources = 1 ∷ 0 ∷ 1 ∷ 1 ∷ 0 ∷ 0 ∷ 0 ∷ 1 ∷ 1 ∷ 0 ∷ 1 ∷ 0 ∷ []

each_once_two : (p : ℕ) → p < 2 → count p (0 ∷ 1 ∷ []) ≡ 1
each_once_two zero lt = refl
each_once_two (suc zero) lt = refl
each_once_two (suc (suc p)) lt = absurd (omega arith)

six_each : (p : ℕ) → p < 2 → length three + 2 ^ 1 + 1 ≤ count p sources
six_each zero lt = omega arith
six_each (suc zero) lt = omega arith
six_each (suc (suc p)) lt = absurd (omega arith)

three-Order : Order 1 2 three (1 ∷ []) (0 ∷ 1 ∷ []) sources
three-Order = record {
  enough_requests = refl;
  from_mappers = (omega arith, tt);
  last_requests = refl;
  each_once = each_once_two;
  enough_receives = six_each;
}

splitter-IsSplit_example :
    Finishes
      (splitter one_byte foo 1 2 (1 ∷ 0 ∷ 1 ∷ []) sources three)
      (IsSplit one_byte foo 1 2 three)
splitter-IsSplit_example =
    splitter-IsSplit one_byte foo 1 2 three (1 ∷ []) (0 ∷ 1 ∷ []) sources (omega arith)
      (omega arith)
      ((omega arith, omega arith), ((omega arith, omega arith), ((omega arith, omega arith), tt)))
      three-Order
