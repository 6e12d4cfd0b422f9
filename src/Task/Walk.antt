-- ===== src/Task/Walk.antt =====
-- The slices that the loop of `iterated_joux_task` comes to, and one round of the loop.
use xor_mining.Base.{
  ℕ, suc, ◌+◌, ◌≤◌, ◌<◌, ◌≡◌, refl, arith, List, [], ◌∷◌, length, ltb, lt→ltb, false,
}
use xor_mining.Base.Run.{ok, fault}
use xor_mining.Gemv.{MatmulTable}
use xor_mining.Join.{Triple}
use xor_mining.Slice.{Slice, Context, Schedule, process_slice}
use xor_mining.Task.{slice_at, slices_loop}

-- From `off` on, the words up to `end` hold these slices, whole.
abbrev pub Walk : List ℕ → ℕ → ℕ → List Slice → Type 0
Walk words end off [] = end ≤ off
Walk words end off (slice ∷ slices) =
    (off < end)
    × (off + 130 + slice.n ≤ length words)
    × (slice_at words off ≡ slice)
    × Walk words end (off + 130 + slice.n) slices

pub ltb-false : (a b : ℕ) → b ≤ a → ltb a b ≡ false
ltb-false a b le = ground arith

pub slices_loop-end :
    (left : ℕ) (schedule : Schedule) (memory : MatmulTable) (words : List ℕ) (end : ℕ)
    (task_index : Triple) (off : ℕ) (self : Context)
    → end ≤ off
    → slices_loop (suc left) schedule memory words end task_index off self ≡ ok self
unfolding slices_loop
slices_loop-end left schedule memory words end task_index off self le =
    rw (ltb-false off end le) refl

pub slices_loop-round :
    (left : ℕ) (schedule : Schedule) (memory : MatmulTable) (words : List ℕ) (end : ℕ)
    (task_index : Triple) (off : ℕ) (self : Context) (slice : Slice) (self' : Context)
    → off < end
    → off + 130 + slice.n ≤ length words
    → slice_at words off ≡ slice
    → process_slice schedule memory self slice task_index ≡ ok self'
    → slices_loop (suc left) schedule memory words end task_index off self
      ≡ slices_loop left schedule memory words end task_index (off + 130 + slice.n) self'
unfolding slices_loop
slices_loop-round left schedule memory words end task_index off self slice self' more whole e run =
    rw (e, lt→ltb off end more, ltb-false (length words) (off + 130 + slice.n) whole, run) refl

pub slices_loop-fault :
    (left : ℕ) (schedule : Schedule) (memory : MatmulTable) (words : List ℕ) (end : ℕ)
    (task_index : Triple) (off : ℕ) (self : Context) (slice : Slice)
    → off < end
    → off + 130 + slice.n ≤ length words
    → slice_at words off ≡ slice
    → process_slice schedule memory self slice task_index ≡ fault
    → slices_loop (suc left) schedule memory words end task_index off self ≡ fault
unfolding slices_loop
slices_loop-fault left schedule memory words end task_index off self slice more whole e stops =
    rw (e, lt→ltb off end more, ltb-false (length words) (off + 130 + slice.n) whole, stops) refl
