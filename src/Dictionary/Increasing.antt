-- ===== src/Dictionary/Increasing.antt =====
-- preprocessing/buffers_loop.c accepts increasing lists.
use xor_mining.Base.{
  ℕ, ◌<◌, ◌≡◌, ◌↔◌, refl, arith, true, false, List, [], ◌∷◌, ◌++◌, ltb, if◌then◌else◌, Bool-cases,
  ◌⊎◌, inl, inr,
}
use xor_mining.Base.Run.{exits, ◌>>=◌, is_ok}
use xor_mining.Dictionary.{all_blocks, words_loop, buffers_loop, hash_checker}

-- Each word is above the one before it, and the first above `prev`.
abbrev pub IsIncreasing : ℕ → List ℕ → Type 0
IsIncreasing prev [] = Unit
IsIncreasing prev (x ∷ xs) = (prev < x) × IsIncreasing x xs

differ : ¬ (false ≡ true)
differ e = cc

-- The loop on a block, if the blocks behind it are dealt with
words_loop-IsIncreasing :
    (xs : List ℕ) (blocks : List (List ℕ)) (prev : ℕ)
    → ((p : ℕ) → (is_ok (buffers_loop blocks p) ≡ true) ↔ IsIncreasing p (all_blocks blocks))
    → (is_ok (words_loop xs prev >>= buffers_loop blocks) ≡ true)
      ↔ IsIncreasing prev (xs ++ all_blocks blocks)
unfolding words_loop is_ok
words_loop-IsIncreasing [] blocks prev behind = behind prev
words_loop-IsIncreasing (x ∷ xs) blocks prev behind =
    go (Bool-cases (ltb prev x)) (words_loop-IsIncreasing xs blocks x behind)
  where
    go :
        (ltb prev x ≡ true) ⊎ (ltb prev x ≡ false)
        → (is_ok (words_loop xs x >>= buffers_loop blocks) ≡ true)
          ↔ IsIncreasing x (xs ++ all_blocks blocks)
        → (is_ok ((if ltb prev x then words_loop xs x else exits) >>= buffers_loop blocks) ≡ true)
          ↔ ((prev < x) × IsIncreasing x (xs ++ all_blocks blocks))
    go (inl e) rest = rw e ((λ run. (ground (arith, e), rest.0 run)), λ (lt, inc). rest.1 inc)
    go (inr e) rest =
        rw e ((λ run. absurd (differ run)), λ (lt, inc). absurd (ground (arith, e, lt)))

buffers_loop-IsIncreasing :
    (blocks : List (List ℕ)) (prev : ℕ)
    → (is_ok (buffers_loop blocks prev) ≡ true) ↔ IsIncreasing prev (all_blocks blocks)
unfolding buffers_loop all_blocks is_ok
buffers_loop-IsIncreasing [] prev = ((λ run. tt), λ inc. refl)
buffers_loop-IsIncreasing (buffer ∷ blocks) prev =
    words_loop-IsIncreasing buffer blocks prev (buffers_loop-IsIncreasing blocks)

-- The program accepts a file exactly if its first word is above 0 and each word is above the one
-- before it, whatever the blocks in which the file is read.
pub hash_checker_iff :
    (blocks : List (List ℕ))
    → (is_ok (hash_checker blocks) ≡ true) ↔ IsIncreasing 0 (all_blocks blocks)
unfolding hash_checker
hash_checker_iff blocks = buffers_loop-IsIncreasing blocks 0
