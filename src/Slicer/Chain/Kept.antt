-- ===== src/Slicer/Chain/Kept.antt =====
-- The two parts into which `filter_active` splits a list.
use xor_mining.Base.{
  ℕ, zero, suc, ◌+◌, ◌<◌, ◌≤◌, ◌≡◌, refl, ap, sym, ◌∙◌, arith, List, [], ◌∷◌, length, get_or, map,
  Bool, true, Bool-cases, inl, inr, ℕ_discrete,
}
use xor_mining.Base.Count.{count}
use xor_mining.Slicer.Chain.Filter.{kept, missed}

-- Whatever is read of the nodes, the two parts together have it as often as before.
pub count-kept-missed :
    (z : ℕ) (f : ℕ → ℕ) (test : ℕ → Bool) (xs ys : List ℕ)
    → count z (map f (kept test xs)) + count z (map f (missed test xs ys))
      ≡ count z (map f xs) + count z (map f ys)
unfolding kept missed
count-kept-missed z f test [] ys = refl
count-kept-missed z f test (x ∷ xs) ys = elim (Bool-cases (test x)) [
  | inl e ↦ rw e (omega (arith, count-kept-missed z f test xs ys))
  | inr e ↦ rw e (omega (arith, count-kept-missed z f test xs (x ∷ ys)))
]

pub length-kept-missed :
    (test : ℕ → Bool) (xs ys : List ℕ)
    → length (kept test xs) + length (missed test xs ys) ≡ length xs + length ys
unfolding kept missed
length-kept-missed test [] ys = refl
length-kept-missed test (x ∷ xs) ys = elim (Bool-cases (test x)) [
  | inl e ↦ rw e (omega (arith, length-kept-missed test xs ys))
  | inr e ↦ rw e (omega (arith, length-kept-missed test xs (x ∷ ys)))
]

pub length-kept : (test : ℕ → Bool) (xs : List ℕ) → length (kept test xs) ≤ length xs
unfolding kept
length-kept test [] = omega arith
length-kept test (x ∷ xs) = elim (Bool-cases (test x)) [
  | inl e ↦ rw e (omega (arith, length-kept test xs))
  | inr e ↦ rw e (omega (arith, length-kept test xs))
]

pub kept-passes :
    (z : ℕ) (test : ℕ → Bool) (xs : List ℕ)
    → 0 < count z (kept test xs)
    → (0 < count z xs) × (test z ≡ true)
unfolding kept
kept-passes z test [] h = absurd (omega arith)
kept-passes z test (x ∷ xs) h = elim (Bool-cases (test x)) [
  | inl e ↦
      let h' : 0 < count z (x ∷ kept test xs) = rw e at h in
      elim (ℕ_discrete x z) [
        | yes q ↦ (ground arith, ap test (sym q) ∙ e)
        | no nq ↦ let (c, p) = kept-passes z test xs (ground arith) in (omega arith, p)
      ]
  | inr e ↦ let (c, p) = kept-passes z test xs (rw e at h) in (omega arith, p)
]

-- One that passes is kept.
pub kept-holds :
    (test : ℕ → Bool) (xs : List ℕ) (v : ℕ)
    → v < length xs
    → test (get_or xs v 0) ≡ true
    → 0 < length (kept test xs)
unfolding kept
kept-holds test [] v h e = absurd (omega arith)
kept-holds test (x ∷ xs) zero h e = rw e (omega arith)
kept-holds test (x ∷ xs) (suc v) h e = elim (Bool-cases (test x)) [
  | inl q ↦ rw q (omega arith)
  | inr q ↦ rw q (kept-holds test xs v (omega arith) e)
]

-- The place of an element.
pub place_of :
    (a : ℕ) (xs : List ℕ) → 0 < count a xs → (v : ℕ) × ((v < length xs) × (get_or xs v 0 ≡ a))
place_of a [] h = absurd (omega arith)
place_of a (x ∷ xs) h = elim (ℕ_discrete x a) [
  | yes e ↦ (0, (omega arith, e))
  | no ne ↦ let (v, (lt, e)) = place_of a xs (ground arith) in (suc v, (omega arith, e))
]

pub get_or-map :
    (f : ℕ → ℕ) (xs : List ℕ) (v : ℕ) → v < length xs → get_or (map f xs) v 0 ≡ f (get_or xs v 0)
get_or-map f [] v h = absurd (omega arith)
get_or-map f (x ∷ xs) zero h = refl
get_or-map f (x ∷ xs) (suc v) h = get_or-map f xs v (omega arith)

pub get_or-counted : (xs : List ℕ) (k : ℕ) → k < length xs → 0 < count (get_or xs k 0) xs
get_or-counted [] k h = absurd (omega arith)
get_or-counted (x ∷ xs) zero h = ground arith
get_or-counted (x ∷ xs) (suc k) h = omega (arith, get_or-counted xs k (omega arith))
