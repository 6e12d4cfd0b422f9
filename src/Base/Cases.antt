-- ===== src/Base/Cases.antt =====
-- A test of all numbers below a bound.
use Prim.Native.Nat.{ℕ, zero, suc, ◌+◌, ◌<◌}
use mathlib.Core.Path.{◌≡◌}
use mathlib.Core.Bool.{Bool, true, ◌&&◌}
use native.Mathlib.Omega.{arith}

-- The test holds at the `count` indices from `first` on: a table of cases.
unfoldable pub passes : (ℕ → Bool) → ℕ → ℕ → Bool
passes test first zero = true
passes test first (suc count) = test first && passes test (first + 1) count

passes-at :
    (test : ℕ → Bool) (count first k : ℕ)
    → passes test first count ≡ true
    → k < count
    → test (first + k) ≡ true
unfolding passes
passes-at test zero first k run inside = absurd (omega arith)
passes-at test (suc count) first zero run inside =
    let e : first + 0 ≡ first = omega arith in rw e (ground arith)
passes-at test (suc count) first (suc k) run inside =
    let e : first + suc k ≡ first + 1 + k = omega arith in
    rw e (passes-at test count (first + 1) k (ground arith) (omega arith))

pub passes-below :
    (test : ℕ → Bool) (count x : ℕ) → passes test 0 count ≡ true → x < count → test x ≡ true
passes-below test count x run inside =
    let e : 0 + x ≡ x = omega arith in rw e at (passes-at test count 0 x run inside)
