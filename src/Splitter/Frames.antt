-- ===== src/Splitter/Frames.antt =====
-- What goes over a channel from a mapper of preprocessing/splitter.c to the writer: pairs of a key
-- and a block, then the end.
use xor_mining.Base.{
  ℕ, ◌+◌, ◌<◌, ◌≡◌, refl, ap, arith, List, [], ◌∷◌, ◌++◌, append_assoc, if◌then◌else◌, ◌==◌, Bool,
}
use xor_mining.Splitter.{Entry, Message, key, hash_block}

-- A key and its block
abbrev pub Frame : Type 0
Frame = ℕ × List Entry

unfoldable pub frames : List Frame → List Message
frames [] = []
frames ((slot, block) ∷ fs) = key slot ∷ hash_block block ∷ frames fs

-- The entries sent with a key
unfoldable pub content : ℕ → List Frame → List Entry
content s [] = []
content s ((slot, block) ∷ fs) = (if slot == s then block else []) ++ content s fs

-- Every key is below `n`.
abbrev pub Keyed : ℕ → List Frame → Type 0
Keyed n [] = Unit
Keyed n ((slot, block) ∷ fs) = (slot < n) × Keyed n fs

pub frames-append : (fs gs : List Frame) → frames (fs ++ gs) ≡ frames fs ++ frames gs
unfolding frames
frames-append [] gs = refl
frames-append ((slot, block) ∷ fs) gs =
    ap (λ r. key slot ∷ hash_block block ∷ r) (frames-append fs gs)

pub content-append :
    (s : ℕ) (fs gs : List Frame) → content s (fs ++ gs) ≡ content s fs ++ content s gs
unfolding content
content-append s [] gs = refl
content-append s ((slot, block) ∷ fs) gs =
    rw
      (
        content-append s fs gs,
        append_assoc (if slot == s then block else []) (content s fs) (content s gs),
      )
      refl

pub Keyed-append : (n : ℕ) (fs gs : List Frame) → Keyed n fs → Keyed n gs → Keyed n (fs ++ gs)
Keyed-append n [] gs a b = b
Keyed-append n ((slot, block) ∷ fs) gs (h, a) b = (h, Keyed-append n fs gs a b)

-- How many of the entries pass a test
unfoldable pub tally : (Entry → Bool) → List Entry → ℕ
tally t [] = 0
tally t (e ∷ es) = (if t e then 1 else 0) + tally t es

pub tally-append :
    (t : Entry → Bool) (xs ys : List Entry) → tally t (xs ++ ys) ≡ tally t xs + tally t ys
unfolding tally
tally-append t [] ys = omega arith
tally-append t (e ∷ es) ys = omega (arith, tally-append t es ys)
