-- ===== src/Table/Walk.antt =====
-- The slots seen from a start, in the order of the probes, and words that are found that way.
use xor_mining.Base.{
  ℕ, zero, suc, ◌+◌, ◌-◌, ◌%◌, ◌≤◌, ◌<◌, List, get_or, length, some, ◌≡◌, ◌≢◌, arith, ℕ_discrete,
}
use xor_mining.Word.Mask.{bit_and_mask}
use xor_mining.Table.{next, find_free, H0, H1}

-- The slot after `d` steps from `h`.
abbrev pub slot : ℕ → ℕ → ℕ
slot h d = (h + d) % 512

pub H0-lt : (x : ℕ) → H0 x < 512
unfolding H0
H0-lt x = rw (bit_and_mask 9 x) (omega arith)

pub H1-lt : (x : ℕ) → H1 x < 512
unfolding H1
H1-lt x = rw (bit_and_mask 9 _) (omega arith)

pub next-slot : (h d : ℕ) → next (slot h d) ≡ slot h (suc d)
unfolding next
next-slot h d = rw (bit_and_mask 9 (slot h d + 1)) (omega arith)

pub slot-zero : (h : ℕ) → h < 512 → slot h 0 ≡ h
slot-zero h p = omega arith

pub slot-onto : (h i : ℕ) → h < 512 → i < 512 → slot h ((i + 512 - h) % 512) ≡ i
slot-onto h i p q = omega arith

-- Slot `p` holds `x`.
abbrev pub HoldsAt : List ℕ → ℕ → ℕ → Type 0
HoldsAt H x p = (p < 512) × (get_or H p 0 ≡ x)

abbrev pub Holds : List ℕ → ℕ → Type 0
Holds H x = (p : ℕ) × HoldsAt H x p

-- The first `d` slots from `h` are taken.
abbrev pub Taken : List ℕ → ℕ → ℕ → Type 0
Taken H h d = (e : ℕ) → e < d → get_or H (slot h e) 0 ≢ 0

-- A table under the hash function `home`: each word is found by probing from its home slot.
pub record IsProbed (home : ℕ → ℕ) (H : List ℕ) : Type 0 where
  pub size : length H ≡ 512
  pub found :
      (p : ℕ)
      → p < 512
      → get_or H p 0 ≢ 0
      → (d : ℕ) × (d < 512) × (slot (home (get_or H p 0)) d ≡ p) × Taken H (home (get_or H p 0)) d

pub Taken-suc : (H : List ℕ) (h d : ℕ) → Taken H h d → get_or H (slot h d) 0 ≢ 0 → Taken H h (suc d)
Taken-suc H h d t nz e p = elim (ℕ_discrete e d) [ yes q ↦ rw q nz | no q ↦ t e (omega arith) ]

-- What `find_free` returns: the first free slot.
pub find_free-some :
    (left d h : ℕ) (H : List ℕ) {p : ℕ}
    → Taken H h d
    → find_free left H (slot h d) ≡ some p
    → (e : ℕ) × (e < d + left) × (slot h e ≡ p) × Taken H h e × (get_or H p 0 ≡ 0)
unfolding find_free
find_free-some zero d h H t e = absurd (ground arith)
find_free-some (suc left) d h H {p} t e = elim (ℕ_discrete (get_or H (slot h d) 0) 0) [
  | yes z ↦ (d, omega arith, ground arith, t, ground arith)
  | no nz ↦
      let rest : find_free left H (next (slot h d)) ≡ some p = ground arith in
      let (n, small, place, before, free) =
        find_free-some left (suc d) h H (Taken-suc H h d t nz) (rw next-slot at rest) in
      (n, omega arith, place, before, free)
]

-- A free slot ahead is reached.
pub find_free_total :
    (left d h : ℕ) (H : List ℕ) (e : ℕ)
    → d ≤ e
    → e < d + left
    → get_or H (slot h e) 0 ≡ 0
    → (p : ℕ) × (find_free left H (slot h d) ≡ some p)
unfolding find_free
find_free_total zero d h H e lo hi z = absurd (omega arith)
find_free_total (suc left) d h H e lo hi z = elim (ℕ_discrete (get_or H (slot h d) 0) 0) [
  | yes here ↦ (slot h d, ground arith)
  | no nz ↦
      let later : d ≢ e = λ q. nz (rw q z) in
      let (p, rest) = find_free_total left (suc d) h H e (omega arith) (omega arith) z in
      (p, rw next-slot (ground arith))
]
