-- ===== src/Partition.antt =====
-- The multi-threaded dispatch of ijoux/joux_v3.c: `prepare_side` and `partition`. Each thread
-- writes to regions of the scratch space of its own, so the threads run one after another here.
-- `schedule(static)` hands each thread one run of consecutive indices: the argument `chunks` holds
-- the items of each. `chernoff_bound` computes in floating point, and is a parameter.
pub mod Address
pub mod Dispatch
pub mod Correct
pub mod Pieces
pub mod Keeps
mod Tests
use xor_mining.Base.{
  ℕ, zero, suc, ◌+◌, ◌-◌, ◌*◌, ◌/◌, ◌%◌, ◌^◌, List, [], ◌∷◌, get_or, set, length, replicate,
  if◌then◌else◌, ltb,
}
use xor_mining.Base.Run.{Run, ok, fault, ◌>>=◌}
use xor_mining.Join.{shift_of}
use xor_mining.Word.{◌>>>◌, ◌<<<◌, u32, u64}

-- `struct side_t`, with `LM` after the matrix product
pub record Side : Type 0 where
  pub n : ℕ
  pub psize : ℕ
  pub tsize : ℕ
  pub partition_size : ℕ
  pub lm : List ℕ
  pub scratch : List ℕ
  pub count : List ℕ

-- `1 << p` in 32 bits
unfoldable pub fan_out_of : ℕ → ℕ
fan_out_of p = u32 (1 <<< p)

-- `ROUND` for `CACHE_LINE_SIZE` 64, whose floating-point numbers are exact below 2^53
unfoldable pub round : ℕ → ℕ
round s = 64 * ((s + 63) / 64)

-- `prepare_side`; the fresh memory holds zeros here, where C leaves it open.
unfoldable pub prepare_side : (ℕ → ℕ → ℕ) → ℕ → ℕ → ℕ → Side
prepare_side chernoff_bound T p n =
    let fan_out = fan_out_of p in
    let tsize = u32 (chernoff_bound n (u32 (T * fan_out))) in
    let psize = u32 (tsize * T) in
    let scratch_size = u32 (psize * fan_out) in
    let partition_size = u32 (chernoff_bound n fan_out) in
    let count_size = u32 (round (u64 (4 * (T * fan_out)))) in
    record {
      n = n;
      psize = psize;
      tsize = tsize;
      partition_size = partition_size;
      lm = replicate n 0;
      scratch = replicate scratch_size 0;
      count = replicate (count_size / 4) 0;
    }

-- The arrays that `partition` writes.
pub record Buckets : Type 0 where
  pub scratch : List ℕ
  pub count : List ℕ

-- The region of thread `tid` in partition `i` begins here.
unfoldable pub region : ℕ → ℕ → ℕ → ℕ → ℕ
region psize tsize i tid = u32 (psize * i + tsize * tid)

-- `for (i = 0; i < fan_out; i++) count[i] = psize * i + tsize * tid;`
unfoldable pub init_counts : ℕ → ℕ → ℕ → ℕ → ℕ → ℕ → List ℕ → List ℕ
init_counts psize tsize off tid zero i count = count
init_counts psize tsize off tid (suc left) i count =
    init_counts psize tsize off tid left (i + 1) (set count (off + i) (region psize tsize i tid))

-- The loop of one thread over its items; a store past the scratch space has no defined behaviour.
unfoldable pub dispatch : ℕ → ℕ → List ℕ → Buckets → Run Buckets
dispatch shift off [] s = ok s
dispatch shift off (x ∷ L) s =
    let h = x >>> shift in
    let idx = get_or s.count (off + h) 0 in
    let s' : Buckets = record {
      scratch = set s.scratch idx x;
      count = set s.count (off + h) (u32 (idx + 1));
    } in
    let rest = dispatch shift off L s' in if ltb idx (length s.scratch) then rest else fault

-- One thread of `partition`.
unfoldable pub partition_thread : ℕ → ℕ → ℕ → ℕ → List ℕ → Buckets → Run Buckets
partition_thread p psize tsize tid chunk s =
    let fan_out = fan_out_of p in
    let off = u32 (tid * fan_out) in
    let count = init_counts psize tsize off tid fan_out 0 s.count in
    let shift = shift_of p in
    dispatch shift off chunk (record { scratch = s.scratch; count = count })

unfoldable pub partition_from : ℕ → ℕ → ℕ → ℕ → List (List ℕ) → Buckets → Run Buckets
partition_from p psize tsize tid [] s = ok s
partition_from p psize tsize tid (chunk ∷ chunks) s =
    partition_thread p psize tsize tid chunk s >>= partition_from p psize tsize (tid + 1) chunks

-- `partition` by all threads.
unfoldable pub partition : ℕ → List (List ℕ) → Side → Run Side
partition p chunks side = do
  s ←
      partition_from p side.psize side.tsize 0 chunks
        (record { scratch = side.scratch; count = side.count })
  ok (record side { scratch = s.scratch; count = s.count })

-- The piece of thread `t` in partition `i`, as `process_slice` reads it from the scratch space.
unfoldable pub read_from : List ℕ → ℕ → ℕ → List ℕ
read_from M lo zero = []
read_from M lo (suc n) = get_or M lo 0 ∷ read_from M (lo + 1) n

-- `scratch + lo` with `hi - lo` items
unfoldable pub piece : ℕ → Side → ℕ → ℕ → List ℕ
piece fan_out side i t =
    let lo = region side.psize side.tsize i t in
    let hi = get_or side.count (u32 (t * fan_out) + i) 0 in read_from side.scratch lo (hi - lo)

-- The pieces that one call of `subjoin` gets, one from each thread.
unfoldable pub pieces_from : ℕ → Side → ℕ → ℕ → ℕ → List (List ℕ)
pieces_from fan_out side i t zero = []
pieces_from fan_out side i t (suc left) =
    piece fan_out side i t ∷ pieces_from fan_out side i (t + 1) left
