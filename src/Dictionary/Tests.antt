-- ===== src/Dictionary/Tests.antt =====
-- A dictionary of one entry, and a list of two hashes in two blocks.
use xor_mining.Base.{ℕ, ◌≡◌, ◌↔◌, arith, true, List, [], ◌∷◌, ◌++◌, get_or, replicate}
use xor_mining.Base.Run.{Finishes, is_ok}
use xor_mining.Hasher.{foo}
use xor_mining.Splitter.{Entry}
use xor_mining.Dictionary.{all_blocks, hash_checker, dict_checker}
use xor_mining.Dictionary.Valid.{EntriesFit, IsPartition}
use xor_mining.Dictionary.Accepts.{IsVerdict, dict_checker_iff}
use xor_mining.Dictionary.Increasing.{IsIncreasing, hash_checker_iff}

-- A stand-in for `SHA256` that keeps one byte
abbrev one_byte : List ℕ → List ℕ
one_byte bytes = replicate 19 0 ++ (get_or bytes 19 0 ∷ replicate 12 0)

abbrev entries : List (List Entry)
entries = (record { hash = 0; preimage = record { counter = 0xa000; nonce = 8 } } ∷ []) ∷ []

entries-EntriesFit : EntriesFit (all_blocks entries)
unfolding all_blocks
entries-EntriesFit = ((omega arith, omega arith), tt)

dict_checker_iff_example :
    ((is_ok (dict_checker one_byte foo 1 1 entries) ≡ true)
      ↔ IsPartition one_byte foo 1 1 (all_blocks entries))
    × Finishes (dict_checker one_byte foo 1 1 entries) (IsVerdict (all_blocks entries))
dict_checker_iff_example =
    dict_checker_iff one_byte foo 1 1 entries (omega arith) entries-EntriesFit

hash_checker_iff_example :
    (is_ok (hash_checker ((3 ∷ []) ∷ (5 ∷ []) ∷ [])) ≡ true)
    ↔ IsIncreasing 0 (all_blocks ((3 ∷ []) ∷ (5 ∷ []) ∷ []))
hash_checker_iff_example = hash_checker_iff ((3 ∷ []) ∷ (5 ∷ []) ∷ [])
