-- ===== src/Partition/Pieces.antt =====
-- What `process_slice` reads from the scratch space after `partition`: for each partition, the
-- buckets of the threads.
use native.Mathlib.Nat.{mod-eq_of_lt}
use xor_mining.Base.{
  ℕ, suc, ◌+◌, ◌-◌, ◌*◌, ◌^◌, ◌≤◌, ◌<◌, ◌≡◌, refl, sym, ap, ap₂, ◌∙◌, arith, List, [], ◌∷◌, get_or,
  length, All, map,
}
use xor_mining.Base.Run.{ok}
use xor_mining.Word.{◌>>>◌, u32}
use xor_mining.Join.{shift_of}
use xor_mining.Partition.{
  Side, Buckets, partition, partition_from, read_from, piece, pieces_from, fan_out_of, region,
}
use xor_mining.Partition.Address.{place, region-place, place-from}
use xor_mining.Partition.Dispatch.{bucket}
use xor_mining.Partition.Correct.{
  Region, Fits, Regions, partition_from-Regions, fan_out_lem, shift_lem, key-lt, offset-lt,
}

-- Reading back a stored list.
read_from_lem :
    (M : List ℕ) (lo : ℕ) (xs : List ℕ)
    → ((k : ℕ) → k < length xs → get_or M (lo + k) 0 ≡ get_or xs k 0)
    → read_from M lo (length xs) ≡ xs
unfolding read_from
read_from_lem M lo [] h = refl
read_from_lem M lo (x ∷ xs) h =
    let e : lo + 0 ≡ lo = omega arith in
    ap₂ ◌∷◌ (ap (λ j. get_or M j 0) (sym e) ∙ h 0 (omega arith)) (
      read_from_lem M (lo + 1) xs (λ k p.
        let e' : lo + 1 + k ≡ lo + suc k = omega arith in
        ap (λ j. get_or M j 0) e' ∙ h (suc k) (omega arith)))

-- The sizes that `prepare_side` gives a side for `T` threads, where no 32-bit product wraps.
pub record IsPrepared (T p : ℕ) (side : Side) : Type 0 where
  pub bits : p < 32
  pub region_size : 0 < side.tsize
  pub partition_size : side.psize ≡ side.tsize * T
  pub space : length side.scratch ≡ side.tsize * T * 2 ^ p
  pub counters : T * 2 ^ p ≤ length side.count
  pub small : side.tsize * T * 2 ^ p < 2 ^ 32
  pub narrow : T * 2 ^ p < 2 ^ 32

-- The words are below 2^64, and no thread has more than `tsize` items of one partition: the
-- overflow that `chernoff_bound` makes improbable does not happen.
pub record Balanced (p tsize : ℕ) (chunk : List ℕ) : Type 0 where
  pub words : All (λ x. x < 2 ^ 64) chunk
  pub fits : (i : ℕ) → i < 2 ^ p → length (bucket (64 - p) i chunk) ≤ tsize

module _ (T p : ℕ) (side : Side) (ready : IsPrepared T p side) where
  keys : (chunk : List ℕ) → All (λ x. x < 2 ^ 64) chunk → All (λ x. x >>> (64 - p) < 2 ^ p) chunk
  keys [] words = tt
  keys (x ∷ chunk) words = (key-lt p x (omega (arith, ready.bits)) words.0, keys chunk words.1)

  all_fit :
      (chunks : List (List ℕ))
      → All (Balanced p side.tsize) chunks
      → All (Fits T side.tsize (2 ^ p) (64 - p) ready.region_size ready.small ready.narrow) chunks
  all_fit [] b = tt
  all_fit (chunk ∷ chunks) b = ((keys chunk b.0.words, b.0.fits), all_fit chunks b.1)

  Region-read :
      (t i : ℕ) (chunk : List ℕ) (side' : Side)
      → side'.psize ≡ side.psize
      → side'.tsize ≡ side.tsize
      → t < T
      → i < 2 ^ p
      → Region T side.tsize
          (2 ^ p)
          (64 - p)
          ready.region_size
          ready.small
          ready.narrow
          t
          i
          chunk
          (record { scratch = side'.scratch; count = side'.count })
      → piece (2 ^ p) side' i t ≡ bucket (64 - p) i chunk
  unfolding piece
  Region-read t i chunk side' same_p same_t ht hi r =
      let at = place T side.tsize i t in
      let n = length (bucket (64 - p) i chunk) in
      let lo : region side'.psize side'.tsize i t ≡ at 0 =
        ap₂ (λ a b. region a b i t) (same_p ∙ ready.partition_size) same_t
        ∙ region-place T side.tsize (2 ^ p) i t hi ht ready.region_size ready.small in
      let off : u32 (t * 2 ^ p) ≡ t * 2 ^ p =
        mod-eq_of_lt (
          offset-lt T side.tsize (2 ^ p) (64 - p) ready.region_size ready.small ready.narrow t
            ht) in
      let end : get_or side'.count (u32 (t * 2 ^ p) + i) 0 ≡ at n =
        ap (λ o. get_or side'.count (o + i) 0) off ∙ r.end in
      let items : (k : ℕ)
          → k < n
          → get_or side'.scratch (at 0 + k) 0 ≡ get_or (bucket (64 - p) i chunk) k 0 =
        λ k hk. ap (λ j. get_or side'.scratch j 0) (place-from T side.tsize i t k) ∙ r.items k hk in
      ap₂ (read_from side'.scratch) lo (omega (arith, end, lo, place-from T side.tsize i t n))
      ∙ read_from_lem side'.scratch (at 0) (bucket (64 - p) i chunk) items

  pieces_read :
      (i t : ℕ) (chunks : List (List ℕ)) (side' : Side)
      → side'.psize ≡ side.psize
      → side'.tsize ≡ side.tsize
      → t + length chunks ≤ T
      → i < 2 ^ p
      → (fan : fan_out_of p ≡ 2 ^ p) (shf : shift_of p ≡ 64 - p)
      → Regions T side.tsize
          (2 ^ p)
          (64 - p)
          ready.region_size
          ready.small
          ready.narrow
          p
          fan
          shf
          t
          chunks
          (record { scratch = side'.scratch; count = side'.count })
      → pieces_from (2 ^ p) side' i t (length chunks) ≡ map (bucket (64 - p) i) chunks
  unfolding pieces_from
  pieces_read i t [] side' same_p same_t room hi fan shf r = refl
  pieces_read i t (chunk ∷ chunks) side' same_p same_t room hi fan shf r =
      ap₂ ◌∷◌ (Region-read t i chunk side' same_p same_t (omega arith) hi (r.0 i hi))
        (pieces_read i (t + 1) chunks side' same_p same_t (omega arith) hi fan shf r.1)

  partition-runs :
      (chunks : List (List ℕ)) (s' : Buckets)
      → partition_from p
          (side.tsize * T)
          side.tsize
          0
          chunks
          (record { scratch = side.scratch; count = side.count })
        ≡ ok s'
      → partition p chunks side ≡ ok (record side { scratch = s'.scratch; count = s'.count })
  unfolding partition
  partition-runs chunks s' run = rw ready.partition_size (rw run refl)

  pieces_all :
      (chunks : List (List ℕ)) (s' : Buckets) (i : ℕ)
      → length chunks ≡ T
      → i < 2 ^ p
      → (fan : fan_out_of p ≡ 2 ^ p) (shf : shift_of p ≡ 64 - p)
      → Regions T side.tsize
          (2 ^ p)
          (64 - p)
          ready.region_size
          ready.small
          ready.narrow
          p
          fan
          shf
          0
          chunks
          s'
      → pieces_from (2 ^ p) (record side { scratch = s'.scratch; count = s'.count }) i 0 T
        ≡ map (bucket (64 - p) i) chunks
  pieces_all chunks s' i threads hi fan shf regions =
      let side' : Side = record side { scratch = s'.scratch; count = s'.count } in
      ap (pieces_from (2 ^ p) side' i 0) (sym threads)
      ∙ pieces_read i 0 chunks side' refl refl (omega arith) hi fan shf regions

  -- On a prepared side, and with no bucket of a thread larger than `tsize`, `partition` runs
  -- without a fault. The pieces that are then read for a partition `i` are, thread by thread,
  -- the items with the value `i` in the top `p` bits, in their order.
  pub partition-pieces :
      (chunks : List (List ℕ))
      → length chunks ≡ T
      → All (Balanced p side.tsize) chunks
      → (side' : Side) × (partition p chunks side ≡ ok side')
        × ((i : ℕ) → i < 2 ^ p → pieces_from (2 ^ p) side' i 0 T ≡ map (bucket (64 - p) i) chunks)
  partition-pieces chunks threads balanced =
      let fan = fan_out_lem p ready.bits in
      let shf = shift_lem p (omega (arith, ready.bits)) in
      let (s', run, sized, regions, keeps) =
        partition_from-Regions T side.tsize (2 ^ p) (64 - p) ready.region_size ready.small
          ready.narrow p fan shf chunks 0 (record { scratch = side.scratch; count = side.count })
          (omega arith) (record { space = ready.space; counters = ready.counters })
          (all_fit chunks balanced) in
      (
        record side { scratch = s'.scratch; count = s'.count },
        partition-runs chunks s' run,
        λ i hi. pieces_all chunks s' i threads hi fan shf regions,
      )
