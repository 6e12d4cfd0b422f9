-- ===== src/Partition/Keeps.antt =====
-- What `prepare_side` sets up, and what every run of `partition` leaves alone: the sizes.
use native.Mathlib.Nat.{mod-eq_of_lt, one-le-pow}
use xor_mining.Base.{
  ℕ, zero, suc, ◌+◌, ◌*◌, ◌^◌, ◌/◌, ◌<◌, ◌≤◌, ◌≡◌, refl, ◌∙◌, arith, List, [], ◌∷◌, get_or, length,
  length-set, length-replicate, ltb, Bool-cases, inl, inr,
}
use xor_mining.Base.Run.{Returns, Returns-bind, Returns-weaken}
use xor_mining.Word.{◌>>>◌, u32, u64}
use xor_mining.Partition.{
  Side, Buckets, round, prepare_side, init_counts, dispatch, partition_thread, partition_from,
  partition,
}
use xor_mining.Partition.Correct.{fan_out_lem}
use xor_mining.Partition.Pieces.{IsPrepared}

-- The arrays have the sizes of other arrays.
record SameSizes (s s' : Buckets) : Type 0 where
  scratch : length s'.scratch ≡ length s.scratch
  count : length s'.count ≡ length s.count

length-init_counts :
    (psize tsize off tid left i : ℕ) (count : List ℕ)
    → length (init_counts psize tsize off tid left i count) ≡ length count
unfolding init_counts
length-init_counts psize tsize off tid zero i count = refl
length-init_counts psize tsize off tid (suc left) i count =
    length-init_counts psize tsize off tid left (i + 1) _ ∙ length-set count _ _

dispatch-SameSizes :
    (shift off : ℕ) (L : List ℕ) (s : Buckets) → Returns (dispatch shift off L s) (SameSizes s)
unfolding dispatch
dispatch-SameSizes shift off [] s = record { scratch = refl; count = refl }
dispatch-SameSizes shift off (x ∷ L) s =
    let idx = get_or s.count (off + (x >>> shift)) 0 in
    elim (Bool-cases (ltb idx (length s.scratch))) [
      | inl e ↦ rw e (
          Returns-weaken (dispatch shift off L _) _ (SameSizes s) (dispatch-SameSizes shift off L _)
            (λ s' same. record {
              scratch = same.scratch ∙ length-set s.scratch idx x;
              count = same.count ∙ length-set s.count _ _;
            }))
      | inr e ↦ rw e tt
    ]

partition_thread-SameSizes :
    (p psize tsize tid : ℕ) (chunk : List ℕ) (s : Buckets)
    → Returns (partition_thread p psize tsize tid chunk s) (SameSizes s)
unfolding partition_thread
partition_thread-SameSizes p psize tsize tid chunk s =
    Returns-weaken (dispatch _ _ chunk _) _ (SameSizes s) (dispatch-SameSizes _ _ chunk _)
      (λ s' same. record {
        scratch = same.scratch;
        count = same.count ∙ length-init_counts psize tsize _ tid _ 0 s.count;
      })

partition_from-SameSizes :
    (p psize tsize tid : ℕ) (chunks : List (List ℕ)) (s : Buckets)
    → Returns (partition_from p psize tsize tid chunks s) (SameSizes s)
unfolding partition_from
partition_from-SameSizes p psize tsize tid [] s = record { scratch = refl; count = refl }
partition_from-SameSizes p psize tsize tid (chunk ∷ chunks) s =
    Returns-bind (partition_thread p psize tsize tid chunk s) _ (SameSizes s) (SameSizes s)
      (partition_thread-SameSizes p psize tsize tid chunk s)
      (λ s₁ first.
        Returns-weaken (partition_from p psize tsize (tid + 1) chunks s₁) _ (SameSizes s)
          (partition_from-SameSizes p psize tsize (tid + 1) chunks s₁)
          (λ s' later. record {
            scratch = later.scratch ∙ first.scratch;
            count = later.count ∙ first.count;
          }))

-- A side that stands ready for another slice.
pub record StaysPrepared (T p : ℕ) (side side' : Side) : Type 0 where
  pub prepared : IsPrepared T p side'
  pub n : side'.n ≡ side.n
  pub tsize : side'.tsize ≡ side.tsize

pub partition-StaysPrepared :
    (T p : ℕ) (chunks : List (List ℕ)) (side : Side)
    → IsPrepared T p side
    → Returns (partition p chunks side) (StaysPrepared T p side)
unfolding partition
partition-StaysPrepared T p chunks side ready =
    Returns-bind (partition_from p side.psize side.tsize 0 chunks _) _ _ _
      (partition_from-SameSizes p side.psize side.tsize 0 chunks _)
      (λ s same. record {
        prepared = record {
          bits = ready.bits;
          region_size = ready.region_size;
          partition_size = ready.partition_size;
          space = same.scratch ∙ ready.space;
          counters = rw (same.count) ready.counters;
          small = ready.small;
          narrow = ready.narrow;
        };
        n = refl;
        tsize = refl;
      })

factor-lt : (a b : ℕ) → 0 < b → a * b < 2 ^ 32 → a < 2 ^ 32
factor-lt a b pos lt = grind arith

round-lt : (s : ℕ) → s + 63 < 2 ^ 32 → round s < 2 ^ 32
unfolding round
round-lt s lt = omega (arith, lt)

round-enough : (n : ℕ) → n ≤ round (4 * n) / 4
unfolding round
round-enough n = omega arith

-- `prepare_side` sets up a side with regions that are not empty, and with as many places as the
-- regions of all threads need and at least as many counters, as long as no 32-bit product wraps,
-- nor the number of bytes of the counters, rounded to cache lines.
pub prepare_side-IsPrepared :
    (chernoff_bound : ℕ → ℕ → ℕ) (T p n : ℕ)
    → p < 32
    → 0 < T
    → (let tsize = chernoff_bound n (T * 2 ^ p) in (0 < tsize) × (tsize * T * 2 ^ p < 2 ^ 32))
    → 4 * (T * 2 ^ p) + 63 < 2 ^ 32
    → IsPrepared T p (prepare_side chernoff_bound T p n)
unfolding prepare_side
prepare_side-IsPrepared chernoff_bound T p n bits pos (some, small) narrow =
    let c = chernoff_bound n (T * 2 ^ p) in
    let pow : 0 < 2 ^ p = one-le-pow p 2 (omega arith) in
    let below : c * T < 2 ^ 32 = factor-lt (c * T) (2 ^ p) pow small in
    let fan = fan_out_lem p bits in
    let number = T * 2 ^ p in
    let counts : u32 number ≡ number = mod-eq_of_lt (omega (arith, narrow)) in
    let bytes : u64 (4 * number) ≡ 4 * number = mod-eq_of_lt (omega (arith, narrow)) in
    let rounded : u32 (round (4 * number)) ≡ round (4 * number) =
      mod-eq_of_lt (round-lt (4 * number) narrow) in
    let tsize : u32 c ≡ c = mod-eq_of_lt (factor-lt c T pos below) in
    let psize : u32 (c * T) ≡ c * T = mod-eq_of_lt below in
    let space : u32 (c * T * 2 ^ p) ≡ c * T * 2 ^ p = mod-eq_of_lt small in
    rw (fan, counts, bytes, rounded, tsize, psize, space)
      (record {
        bits = bits;
        region_size = some;
        partition_size = refl;
        space = length-replicate {A = ℕ} (c * T * 2 ^ p) 0;
        counters = rw (length-replicate {A = ℕ} (round (4 * number) / 4) 0) (round-enough number);
        small = small;
        narrow = omega (arith, narrow);
      })
