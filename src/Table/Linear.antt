-- ===== src/Table/Linear.antt =====
-- Linear probing: what an insertion and a build from an array leave in the table. The hash
-- function is a parameter, since `subjoin` probes by another than `linear_insert`.
use xor_mining.Base.{
  ℕ, zero, suc, ◌+◌, ◌-◌, ◌%◌, ◌<◌, List, [], ◌∷◌, get_or, set, replicate, length, if◌then◌else◌,
  ◌==◌, some, ◌≡◌, ◌≢◌, refl, ◌∙◌, arith, get_or-set, length-set, ◌⊎◌, inl, inr, ℕ_discrete,
  get_or-replicate, length-replicate, ◌↔◌,
}
use xor_mining.Table.{find_free, probe_insert, empty_table}
use xor_mining.Table.Walk.{
  slot, slot-zero, slot-onto, Holds, Taken, IsProbed, find_free-some, find_free_total,
}

-- The number of slots in use.
pub load : List ℕ → ℕ
load [] = 0
load (x ∷ xs) = (if x == 0 then 0 else 1) + load xs

load-set :
    (H : List ℕ) (h x : ℕ) → h < length H → get_or H h 0 ≡ 0 → x ≢ 0 → load (set H h x) ≡ load H + 1
unfolding load
load-set [] h x p e nz = absurd (omega arith)
load-set (y ∷ ys) zero x p e nz = ground arith
load-set (y ∷ ys) (suc h) x p e nz = omega (arith, load-set ys h x (omega arith) e nz)

free_exists : (H : List ℕ) → load H < length H → (i : ℕ) × (i < length H) × (get_or H i 0 ≡ 0)
unfolding load
free_exists [] p = absurd (omega arith)
free_exists (y ∷ ys) p = elim (ℕ_discrete y 0) [
  | yes z ↦ (0, omega arith, z)
  | no nz ↦ let (i, inside, free) = free_exists ys (ground arith) in (suc i, omega arith, free)
]

load-replicate : (n : ℕ) → load (replicate n 0) ≡ 0
unfolding load replicate
load-replicate zero = refl
load-replicate (suc n) = omega (arith, load-replicate n)

pub load-empty_table : load empty_table ≡ 0
unfolding empty_table
load-empty_table = load-replicate 512

pub length-empty_table : length empty_table ≡ 512
unfolding empty_table
length-empty_table = length-replicate {A = ℕ} 512 0

pub get_or-empty_table : (p : ℕ) → get_or empty_table p 0 ≡ 0
unfolding empty_table
get_or-empty_table p = get_or-replicate 512 p 0

pub empty_table-IsProbed : (home : ℕ → ℕ) → IsProbed home empty_table
empty_table-IsProbed home = record {
  size = length-empty_table;
  found = λ p h nz. absurd (nz (get_or-empty_table p));
}

module _ (home : ℕ → ℕ) (home-lt : (x : ℕ) → home x < 512) (H : List ℕ) (x : ℕ)
    (probed : IsProbed home H) (nonzero : x ≢ 0) where
  -- The table after `x` went to the first free slot.
  module _ (d : ℕ) (d-lt : d < 512) (before : Taken H (home x) d)
      (free : get_or H (slot (home x) d) 0 ≡ 0) where
    abbrev p : ℕ
    p = slot (home x) d

    abbrev H' : List ℕ
    H' = set H p x

    read : (q : ℕ) → get_or H' q 0 ≡ (if p == q then x else get_or H q 0)
    read q = get_or-set H p q x 0 (rw probed.size (omega arith))

    Taken-set : (h n : ℕ) → Taken H h n → Taken H' h n
    Taken-set h n t e q z = ground (arith, read (slot h e), t e q)

    set-IsProbed : IsProbed home H'
    set-IsProbed = record {
      size = length-set H p x ∙ probed.size;
      found = λ q small nz. elim (ℕ_discrete p q) [
        | yes same ↦
            let value : get_or H' q 0 ≡ x = ground (arith, read q) in
            rw value (d, d-lt, same, Taken-set (home x) d before)
        | no other ↦
            let value : get_or H' q 0 ≡ get_or H q 0 = ground (arith, read q) in
            let (n, n-lt, place, taken) = probed.found q small (λ z. nz (value ∙ z)) in
            rw value (n, n-lt, place, Taken-set _ n taken)
      ];
    }

    set-Holds : (y : ℕ) → y ≢ 0 → Holds H' y ↔ ((x ≡ y) ⊎ Holds H y)
    set-Holds y nz = (
      λ (q, (small, e)). elim (ℕ_discrete p q) [
        | yes same ↦ inl (ground (arith, read q))
        | no other ↦ inr (q, (small, ground (arith, read q)))
      ],
      λ hyp. elim hyp [
        | inl e ↦ (p, (omega arith, ground (arith, read p)))
        | inr (q, (small, e)) ↦ (q, (small, ground (arith, read q, free)))
      ],
    )

-- What an insertion does to the table.
pub record Inserts (home : ℕ → ℕ) (H : List ℕ) (x : ℕ) (H' : List ℕ) : Type 0 where
  pub probed : IsProbed home H'
  pub loaded : load H' ≡ load H + 1
  pub holds : (y : ℕ) → y ≢ 0 → Holds H' y ↔ ((x ≡ y) ⊎ Holds H y)

-- The first free slot, seen from `h`.
pub record FirstFree (H : List ℕ) (h : ℕ) : Type 0 where
  pub steps : ℕ
  pub small : steps < 512
  pub run : find_free 512 H h ≡ some (slot h steps)
  pub before : Taken H h steps
  pub free : get_or H (slot h steps) 0 ≡ 0

FirstFree-run :
    (H : List ℕ) (h p : ℕ) → h < 512 → find_free 512 H (slot h 0) ≡ some p → FirstFree H h
FirstFree-run H h p lt run = pack (find_free-some 512 0 h H (λ q bad. elim bad [ ]) run)
  where
    pack :
        (e : ℕ) × (e < 0 + 512) × (slot h e ≡ p) × Taken H h e × (get_or H p 0 ≡ 0) → FirstFree H h
    pack (e, small, place, before, free) = record {
      steps = e;
      small = omega arith;
      run = rw place (rw (slot-zero h lt) at run);
      before = before;
      free = rw place free;
    }

pub first_free : (H : List ℕ) (h : ℕ) → length H ≡ 512 → load H < 512 → h < 512 → FirstFree H h
first_free H h size room lt = go (free_exists H (rw size room))
  where
    go : (i : ℕ) × (i < length H) × (get_or H i 0 ≡ 0) → FirstFree H h
    go (i, inside, free) =
        let (p, run) =
          find_free_total 512 0 h H ((i + 512 - h) % 512) (omega arith) (omega arith)
            (rw (slot-onto h i lt (rw size at inside)) free) in
        FirstFree-run H h p lt run

-- With a free slot left the insertion ends, and adds the word to the contents.
pub probe_insert-Inserts :
    (home : ℕ → ℕ) (home-lt : (x : ℕ) → home x < 512) (H : List ℕ) (x : ℕ)
    → IsProbed home H
    → x ≢ 0
    → load H < 512
    → (H' : List ℕ) × (probe_insert H (home x) x ≡ some H') × Inserts home H x H'
unfolding probe_insert
probe_insert-Inserts home home-lt H x probed nz room =
    go (first_free H (home x) probed.size room (home-lt x))
  where
    go :
        FirstFree H (home x)
        → (H' : List ℕ) × (probe_insert H (home x) x ≡ some H') × Inserts home H x H'
    go f = (
      set H (slot (home x) f.steps) x,
      rw (f.run, probe_insert) refl,
      record {
        probed = set-IsProbed home home-lt H x probed nz f.steps f.small f.before f.free;
        loaded = load-set H (slot (home x) f.steps) x (rw (probed.size) (omega arith)) f.free nz;
        holds = set-Holds home home-lt H x probed nz f.steps f.small f.before f.free;
      },
    )
