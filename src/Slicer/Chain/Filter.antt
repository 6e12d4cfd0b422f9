-- ===== src/Slicer/Chain/Filter.antt =====
-- `filter_active` splits the active vectors by an equation.
use xor_mining.Base.{
  ℕ, zero, suc, ◌<◌, ◌≡◌, refl, ◌+◌, ◌-◌, ◌^◌, ap₂, ◌∙◌, arith, List, [], ◌∷◌, ◌++◌, length,
  if◌then◌else◌, ◌==◌, Bool, true, false, Bool-cases, inl, inr, append_assoc, ==_iff,
}
use xor_mining.Word.{u32}
use xor_mining.Base.Run.{ok}
use xor_mining.Slicer.Chain.{Lists, satisfy_equation, filter_item, filter_loop, filter_active}
use xor_mining.Slicer.Chain.Moves.{
  Holds, head_or, moved_store, moved-word, next-pending, pending-active, moved-Holds, next-active,
}

-- The nodes whose words satisfy the equation, in order, and the others, put in front of `ys` one
-- by one.
abbrev pub test_of : (ℕ → ℕ) → ℕ → ℕ → Bool
test_of word eq a = satisfy_equation (word a) eq

unfoldable pub kept : (ℕ → Bool) → List ℕ → List ℕ
kept test [] = []
kept test (a ∷ xs) = if test a then a ∷ kept test xs else kept test xs

unfoldable pub missed : (ℕ → Bool) → List ℕ → List ℕ → List ℕ
missed test [] ys = ys
missed test (a ∷ xs) ys = missed test xs (if test a then ys else a ∷ ys)

-- The lists after the loop, the words and the dummy nodes as before.
pub record Filtered (before ls : Lists) (xs ys : List ℕ) : Type 0 where
  pub holds : Holds ls xs ys
  pub active : ls.active ≡ before.active
  pub reject : ls.reject ≡ before.reject
  pub words : (z : ℕ) → ls.store.word z ≡ before.store.word z

pub not_active : (item active : ℕ) → (item ≡ active → ⊥) → (item == active) ≡ false
not_active item active ne = ground arith

filter_loop-step :
    (fuel eq item : ℕ) (ls : Lists)
    → (item == ls.active) ≡ false
    → filter_loop (suc fuel) eq item ls
      ≡ filter_loop fuel eq (ls.store.next item) (filter_item eq item ls)
unfolding filter_loop
filter_loop-step fuel eq item ls e = rw e refl

abbrev dropped : Lists → ℕ → Lists
dropped ls a = record ls { store = moved_store ls a; m = u32 (ls.m + 2 ^ 32 - 1) }

module _ (eq : ℕ) (word : ℕ → ℕ) where
  abbrev RunOf : ℕ → ℕ → Lists → List ℕ → List ℕ → Type 0
  RunOf fuel item ls xs ys =
      (ls' : Lists) × ((filter_loop fuel eq item ls ≡ ok ls') × Filtered ls ls' xs ys)

  filter_item-kept :
      (ls : Lists) (a : ℕ) → satisfy_equation (ls.store.word a) eq ≡ true → filter_item eq a ls ≡ ls
  unfolding filter_item
  filter_item-kept ls a e = rw e refl

  filter_item-dropped :
      (ls : Lists) (a : ℕ)
      → satisfy_equation (ls.store.word a) eq ≡ false
      → filter_item eq a ls ≡ dropped ls a
  unfolding filter_item
  filter_item-dropped ls a e = rw e refl

  filter_loop-Filtered :
      (fuel : ℕ) (rest zs ys : List ℕ) (ls : Lists)
      → Holds ls (zs ++ rest) ys
      → ((z : ℕ) → ls.store.word z ≡ word z)
      → length rest < fuel
      → RunOf fuel
          (head_or rest ls.active)
          ls
          (zs ++ kept (test_of word eq) rest)
          (missed (test_of word eq) rest ys)
  unfolding kept missed
  filter_loop-Filtered zero rest zs ys ls holds same h = absurd (omega arith)
  filter_loop-Filtered (suc fuel) [] zs ys ls holds same h = (
    ls,
    (
      unfold filter_loop in (rw ((==_iff ls.active ls.active).1 refl) refl),
      record { holds = holds; active = refl; reject = refl; words = λ z. refl },
    ),
  )
  filter_loop-Filtered (suc fuel) (a ∷ rest) zs ys ls holds same h =
      let go = not_active a ls.active (pending-active ls zs rest ys a holds) in
      let onward = next-pending ls zs rest ys a holds in
      elim (Bool-cases (satisfy_equation (word a) eq)) [
        | inl good ↦
            let (ls', (run, f)) =
              filter_loop-Filtered fuel rest (zs ++ a ∷ []) ys ls
                (rw (append_assoc zs (a ∷ []) rest) holds) same (omega arith) in
            (
              ls',
              (
                filter_loop-step fuel eq a ls go
                    ∙ ap₂ (filter_loop fuel eq) onward (filter_item-kept ls a (rw (same a) good))
                    ∙ run,
                rw good (rw (append_assoc zs (a ∷ []) (kept (test_of word eq) rest)) at f),
              ),
            )
        | inr bad ↦
            let (ls', (run, f)) =
              filter_loop-Filtered fuel rest zs (a ∷ ys) (dropped ls a)
                (moved-Holds ls zs rest ys a holds)
                (λ z. moved-word ls zs rest ys a holds z ∙ same z) (omega arith) in
            (
              ls',
              (
                filter_loop-step fuel eq a ls go
                    ∙ ap₂ (filter_loop fuel eq) onward (filter_item-dropped ls a (rw (same a) bad))
                    ∙ run,
                rw bad (record {
                  holds = f.holds;
                  active = f.active;
                  reject = f.reject;
                  words = λ z. f.words z ∙ moved-word ls zs rest ys a holds z;
                }),
              ),
            )
      ]

-- `filter_active` ends, given fuel for one round more than there are active vectors: `active` is
-- left with the vectors that satisfy the equation, in order, and the others stand in `reject`.
pub filter_active-Filtered :
    (fuel eq : ℕ) (ls : Lists) (xs ys : List ℕ)
    → Holds ls xs ys
    → length xs < fuel
    → (ls' : Lists) × ((filter_active fuel eq ls ≡ ok ls')
        × Filtered ls ls'
            (kept (test_of ls.store.word eq) xs)
            (missed (test_of ls.store.word eq) xs ys))
unfolding filter_active
filter_active-Filtered fuel eq ls xs ys holds h =
    rw (next-active ls xs ys holds)
      (filter_loop-Filtered eq ls.store.word fuel xs [] ys ls holds (λ z. refl) h)
