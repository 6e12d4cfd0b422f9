-- ===== src/Base/Count.antt =====
-- How often a number stands in a list: lists seen without their order.
use Prim.Native.Nat.{ℕ, ◌+◌, ◌<◌}
use mathlib.Core.Path.{◌≡◌}
use mathlib.Core.Logic.{inl, inr}
use mathlib.Core.List.{List, [], ◌∷◌, ◌++◌}
use native.Mathlib.Omega.{arith}
use xor_mining.Base.Tests.{if◌then◌else◌, ◌==◌}
use xor_mining.Base.Lists.{◌∈◌}

abbrev pub count : ℕ → List ℕ → ℕ
count z [] = 0
count z (x ∷ xs) = (if x == z then 1 else 0) + count z xs

pub count-append : (z : ℕ) (xs ys : List ℕ) → count z (xs ++ ys) ≡ count z xs + count z ys
count-append z [] ys = omega arith
count-append z (x ∷ xs) ys = omega (arith, count-append z xs ys)

pub count_pos : (z : ℕ) (xs : List ℕ) → z ∈ xs → 0 < count z xs
count_pos z [] h = absurd h
count_pos z (x ∷ xs) (inl e) = ground arith
count_pos z (x ∷ xs) (inr h) = omega (arith, count_pos z xs h)

pub ∈_of_count : (z : ℕ) (xs : List ℕ) → 0 < count z xs → z ∈ xs
∈_of_count z [] h = absurd (omega arith)
∈_of_count z (x ∷ xs) h = ground (arith, ∈_of_count z xs)
