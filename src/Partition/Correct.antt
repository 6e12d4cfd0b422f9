-- ===== src/Partition/Correct.antt =====
-- `partition` by all threads: each region holds the items of its thread that belong to its
-- partition, in order, and the counters say how many.
use native.Mathlib.Nat.{
  mod-eq_of_lt, pow-le-pow_right, pow-succ', one-le-pow, div-lt_iff_lt-mul, mul_assoc,
}
use xor_mining.Base.{
  ℕ, zero, suc, ◌+◌, ◌-◌, ◌*◌, ◌^◌, ◌≤◌, ◌<◌, ◌≡◌, ◌≢◌, refl, sym, ap, ◌∙◌, arith, ◌⊎◌, inl, inr,
  List, [], ◌∷◌, get_or, set, length, length-set, get_or-set_self, get_or-set_ne, All, ℕ_discrete,
}
use xor_mining.Base.Run.{ok}
use xor_mining.Word.{◌>>>◌, u32}
use xor_mining.Join.{shift_of}
use xor_mining.Partition.{
  Buckets, fan_out_of, region, init_counts, dispatch, partition_thread, partition_from,
}
use xor_mining.Partition.Address.{place, region-place, below, unique_digits}
use xor_mining.Partition.Dispatch.{bucket, dispatch-Dispatches}

zero_add : (n : ℕ) → 0 + n ≡ n
zero_add n = omega arith

pub two_pow_add : (a b : ℕ) → 2 ^ (a + b) ≡ 2 ^ a * 2 ^ b
two_pow_add zero b = let e : 0 + b ≡ b = omega arith in rw e (omega arith)
two_pow_add (suc a) b =
    let e : suc a + b ≡ suc (a + b) = omega arith in
    ap (λ t. 2 ^ t) e
    ∙ pow-succ' 2 (a + b)
    ∙ ap (λ t. 2 * t) (two_pow_add a b)
    ∙ sym (mul_assoc 2 (2 ^ a) (2 ^ b))
    ∙ ap (λ t. t * 2 ^ b) (sym (pow-succ' 2 a))

pub fan_out_lem : (p : ℕ) → p < 32 → fan_out_of p ≡ 2 ^ p
unfolding fan_out_of
fan_out_lem p h =
    let le : 2 ^ p ≤ 2 ^ 31 = pow-le-pow_right (omega arith) {j = 31} (omega arith) in
    mod-eq_of_lt (omega arith) ∙ omega arith

pub shift_lem : (p : ℕ) → p ≤ 64 → shift_of p ≡ 64 - p
unfolding shift_of
shift_lem p h = omega arith

pub key-lt : (p x : ℕ) → p ≤ 64 → x < 2 ^ 64 → x >>> (64 - p) < 2 ^ p
key-lt p x h lt =
    let e : p + (64 - p) ≡ 64 = omega arith in
    (div-lt_iff_lt-mul (one-le-pow (64 - p) 2 (omega arith))).1
      (rw (← two_pow_add p (64 - p), e) lt)

module _ (T tsize fan_out shift : ℕ) (pos : 0 < tsize) (small : tsize * T * fan_out < 2 ^ 32)
    (narrow : T * fan_out < 2 ^ 32) where
  pub record Sized (s : Buckets) : Type 0 where
    pub space : length s.scratch ≡ tsize * T * fan_out
    pub counters : T * fan_out ≤ length s.count

  -- The region of thread `t` in partition `i` holds the bucket of its items.
  pub record Region (t i : ℕ) (chunk : List ℕ) (s : Buckets) : Type 0 where
    pub end : get_or s.count (t * fan_out + i) 0 ≡ place T tsize i t (length (bucket shift i chunk))
    pub items :
        (k : ℕ)
        → k < length (bucket shift i chunk)
        → get_or s.scratch (place T tsize i t k) 0 ≡ get_or (bucket shift i chunk) k 0

  -- The threads before `t` see no change.
  pub record Keeps (t : ℕ) (s s' : Buckets) : Type 0 where
    pub scratch :
        (i t' k : ℕ)
        → i < fan_out
        → t' < t
        → t' < T
        → k < tsize
        → get_or s'.scratch (place T tsize i t' k) 0 ≡ get_or s.scratch (place T tsize i t' k) 0
    pub count :
        (i t' : ℕ)
        → i < fan_out
        → t' < t
        → t' < T
        → get_or s'.count (t' * fan_out + i) 0 ≡ get_or s.count (t' * fan_out + i) 0

  -- The counters of thread `t` from `i` on are set, and no others.
  record Starts (t i : ℕ) (count count' : List ℕ) : Type 0 where
    same_length : length count' ≡ length count
    set_to : (j : ℕ) → i ≤ j → j < fan_out → get_or count' (t * fan_out + j) 0 ≡ place T tsize j t 0
    others :
        (j t' : ℕ)
        → j < fan_out
        → (t' ≢ t) ⊎ (j < i)
        → get_or count' (t' * fan_out + j) 0 ≡ get_or count (t' * fan_out + j) 0

  init_counts-Starts :
      (left i t : ℕ) (count : List ℕ)
      → i + left ≡ fan_out
      → t < T
      → T * fan_out ≤ length count
      → Starts t i count (init_counts (tsize * T) tsize (t * fan_out) t left i count)
  unfolding init_counts
  init_counts-Starts zero i t count e ht size = record {
    same_length = refl;
    set_to = λ j lo hi. absurd (omega arith);
    others = λ j t' hj why. refl;
  }
  init_counts-Starts (suc left) i t count e ht size =
      let v = region (tsize * T) tsize i t in
      let value : v ≡ place T tsize i t 0 =
        region-place T tsize fan_out i t (omega arith) ht pos small in
      let next = set count (t * fan_out + i) v in
      let r =
        init_counts-Starts left (i + 1) t next (omega arith) ht
          (rw (length-set count (t * fan_out + i) v) size) in
      let inside : t * fan_out + i < length count =
        omega (arith, size, below t T i fan_out ht (omega arith)) in
      record {
        same_length = r.same_length ∙ length-set count _ v;
        set_to = λ j lo hi. elim (ℕ_discrete i j) [
          | yes same ↦
              r.others j t hi (inr (omega arith))
              ∙ rw (← same) (get_or-set_self count (t * fan_out + i) v 0 inside ∙ value)
          | no other ↦ r.set_to j (omega arith) hi
        ];
        others = λ j t' hj why.
            r.others j t' hj (elim why [ inl a ↦ inl a | inr b ↦ inr (omega arith) ])
            ∙ get_or-set_ne count (t * fan_out + i) (t' * fan_out + j) v 0 (λ q.
              let (e-t, e-j) = unique_digits fan_out t t' i j (omega arith) hj q in
              elim why [ inl a ↦ a (sym e-t) | inr b ↦ absurd (omega arith) ]);
      }

  -- The regions of thread `t` and the places of the threads before it, after its run.
  record Thread (t : ℕ) (chunk : List ℕ) (s s' : Buckets) : Type 0 where
    sized : Sized s'
    regions : (i : ℕ) → i < fan_out → Region t i chunk s'
    keeps : Keeps t s s'

  -- Every item of the chunks has a key, and no bucket of a thread outgrows its region.
  abbrev pub Fits : List ℕ → Type 0
  Fits chunk =
      All (λ x. x >>> shift < fan_out) chunk
      × ((i : ℕ) → i < fan_out → length (bucket shift i chunk) ≤ tsize)

  pub offset-lt : (t : ℕ) → t < T → t * fan_out < 2 ^ 32
  offset-lt t ht = grind arith

  Region-kept :
      (t i : ℕ) (chunk : List ℕ) (s s' : Buckets)
      → t < T
      → i < fan_out
      → Fits chunk
      → Region t i chunk s
      → Keeps (t + 1) s s'
      → Region t i chunk s'
  Region-kept t i chunk s s' ht hi fits r keeps = record {
    end = keeps.count i t hi (omega arith) ht ∙ r.end;
    items =
        λ k hk. keeps.scratch i t k hi (omega arith) ht (omega (arith, fits.1 i hi)) ∙ r.items k hk;
  }

  module _ (p : ℕ) (fan : fan_out_of p ≡ fan_out) (shf : shift_of p ≡ shift) where
    enters :
        (t : ℕ) (chunk : List ℕ) (s : Buckets)
        → t < T
        → partition_thread p (tsize * T) tsize t chunk s
          ≡ dispatch shift (t * fan_out) chunk (record {
            scratch = s.scratch;
            count = init_counts (tsize * T) tsize (t * fan_out) t fan_out 0 s.count;
          })
    unfolding partition_thread
    enters t chunk s ht =
        let off : u32 (t * fan_out) ≡ t * fan_out = mod-eq_of_lt (offset-lt t ht) in
        rw (fan, shf, off)

    partition_thread-Thread :
        (t : ℕ) (chunk : List ℕ) (s : Buckets)
        → t < T
        → Sized s
        → Fits chunk
        → (s' : Buckets) × (partition_thread p (tsize * T) tsize t chunk s ≡ ok s')
          × Thread t chunk s s'
    partition_thread-Thread t chunk s ht sized fits =
        let count = init_counts (tsize * T) tsize (t * fan_out) t fan_out 0 s.count in
        let starts = init_counts-Starts fan_out 0 t s.count (omega arith) ht sized.counters in
        let start : Buckets = record { scratch = s.scratch; count = count } in
        let (s', run, d) =
          dispatch-Dispatches T tsize fan_out shift t ht small chunk (λ i. 0) start
            (record {
              space = sized.space;
              counters = rw (starts.same_length) sized.counters;
              counts = λ i hi. starts.set_to i (omega arith) hi;
            })
            fits.0 (λ i hi. omega (arith, fits.1 i hi)) in
        (
          s',
          enters t chunk s ht ∙ run,
          record {
            sized = record { space = d.after.space; counters = d.after.counters };
            regions = λ i hi. record {
              end = d.after.counts i hi ∙ ap (place T tsize i t) (zero_add _);
              items = λ k hk.
                  ap (λ j. get_or s'.scratch (place T tsize i t j) 0) (sym (zero_add k))
                  ∙ d.items i k hi hk;
            };
            keeps = record {
              scratch = λ i t' k hi before ht' hk. d.kept i t' k hi ht' hk (inl (omega arith));
              count = λ i t' hi before ht'.
                  d.counts_kept i t' hi (omega arith) ∙ starts.others i t' hi (inl (omega arith));
            };
          },
        )

    -- The regions of the threads from `t` on.
    abbrev pub Regions : ℕ → List (List ℕ) → Buckets → Type 0
    Regions t [] s = Unit
    Regions t (chunk ∷ chunks) s =
        ((i : ℕ) → i < fan_out → Region t i chunk s) × Regions (t + 1) chunks s

    pub partition_from-Regions :
        (chunks : List (List ℕ)) (t : ℕ) (s : Buckets)
        → t + length chunks ≤ T
        → Sized s
        → All Fits chunks
        → (s' : Buckets) × (partition_from p (tsize * T) tsize t chunks s ≡ ok s')
          × Sized s'
          × Regions t chunks s'
          × Keeps t s s'
    unfolding partition_from
    partition_from-Regions [] t s room sized fits = (
      s,
      refl,
      sized,
      tt,
      record { scratch = λ i t' k a b c d. refl; count = λ i t' a b c. refl },
    )
    partition_from-Regions (chunk ∷ chunks) t s room sized fits =
        let (s₁, run, th) = partition_thread-Thread t chunk s (omega arith) sized fits.0 in
        let (s', run', sized', regions, keeps) =
          partition_from-Regions chunks (t + 1) s₁ (omega arith) th.sized fits.1 in
        (
          s',
          rw run run',
          sized',
          (
            λ i hi. Region-kept t i chunk s₁ s' (omega arith) hi fits.0 (th.regions i hi) keeps,
            regions,
          ),
          record {
            scratch = λ i t' k hi before ht' hk.
                keeps.scratch i t' k hi (omega arith) ht' hk
                ∙ th.keeps.scratch i t' k hi before ht' hk;
            count = λ i t' hi before ht'.
                keeps.count i t' hi (omega arith) ht' ∙ th.keeps.count i t' hi before ht';
          },
        )
