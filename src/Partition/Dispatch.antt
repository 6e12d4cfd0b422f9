-- ===== src/Partition/Dispatch.antt =====
-- The loop of one thread: each item goes to the next free place of its bucket, in order, and all
-- other places keep what they hold.
use mathlib.Core.Path.{subst}
use native.Mathlib.Nat.{mod-eq_of_lt}
use xor_mining.Base.{
  ℕ, zero, suc, ◌+◌, ◌-◌, ◌*◌, ◌^◌, ◌≤◌, ◌<◌, ◌≡◌, ◌≢◌, refl, sym, ap, ◌∙◌, arith, ◌⊎◌, inl, inr,
  List, [], ◌∷◌, get_or, set, length, length-set, get_or-set_self, get_or-set_ne, if◌then◌else◌,
  ◌==◌, ==_iff, Bool-cases, All, ℕ_discrete, lt→ltb, true, false,
}
use xor_mining.Base.Run.{ok}
use xor_mining.Word.{◌>>>◌, u32}
use xor_mining.Partition.{Buckets, dispatch}
use xor_mining.Partition.Address.{place, place_unique, place-lt, place-suc, below, unique_digits}

-- The items of bucket `i`, in order.
unfoldable pub bucket : ℕ → ℕ → List ℕ → List ℕ
bucket shift i [] = []
bucket shift i (x ∷ L) = if x >>> shift == i then x ∷ bucket shift i L else bucket shift i L

-- A bucket is no longer than the list.
pub length-bucket :
    (shift i : ℕ) (xs : List ℕ) {n : ℕ} → length xs ≤ n → length (bucket shift i xs) ≤ n
unfolding bucket
length-bucket shift i [] h = h
length-bucket shift i (x ∷ xs) {n} h = elim (Bool-cases (x >>> shift == i)) [
  | inl e ↦ let ih = length-bucket shift i xs {n = n - 1} (omega arith) in rw e (omega (arith, ih))
  | inr e ↦ rw e (length-bucket shift i xs (omega arith))
]

-- One place of bucket `h` more.
abbrev bump : (ℕ → ℕ) → ℕ → ℕ → ℕ
bump used h i = if h == i then used i + 1 else used i

bump_count :
    (used : ℕ → ℕ) (shift x i : ℕ) (L : List ℕ)
    → bump used (x >>> shift) i + length (bucket shift i L)
      ≡ used i + length (bucket shift i (x ∷ L))
unfolding bucket
bump_count used shift x i L = elim (Bool-cases (x >>> shift == i)) [
  | inl e ↦ rw e (omega arith)
  | inr e ↦ rw e
]

bump_self : (used : ℕ → ℕ) (h : ℕ) → bump used h h ≡ used h + 1
bump_self used h = rw ((==_iff h h).1 refl)

add_nothing : (n : ℕ) → n ≡ n + 0
add_nothing n = omega arith

le_irrefl : (n : ℕ) → ¬ (n < n)
le_irrefl n h = omega arith

module _ (T tsize fan_out shift t : ℕ) (t-lt : t < T) (small : tsize * T * fan_out < 2 ^ 32) where
  abbrev at : ℕ → ℕ → ℕ → ℕ
  at i t' k = place T tsize i t' k

  abbrev counter : ℕ → ℕ → ℕ
  counter i t' = t' * fan_out + i

  -- Thread `t` has filled the first `used i` places of its region in each partition `i`.
  pub record Used (used : ℕ → ℕ) (s : Buckets) : Type 0 where
    pub space : length s.scratch ≡ tsize * T * fan_out
    pub counters : T * fan_out ≤ length s.count
    pub counts : (i : ℕ) → i < fan_out → get_or s.count (counter i t) 0 ≡ at i t (used i)

  -- What the thread does with the items `L`, from a state with `used` places filled.
  pub record Dispatches (used : ℕ → ℕ) (L : List ℕ) (s s' : Buckets) : Type 0 where
    pub after : Used (λ i. used i + length (bucket shift i L)) s'
    pub items :
        (i k : ℕ)
        → i < fan_out
        → k < length (bucket shift i L)
        → get_or s'.scratch (at i t (used i + k)) 0 ≡ get_or (bucket shift i L) k 0
    pub kept :
        (i t' k : ℕ)
        → i < fan_out
        → t' < T
        → k < tsize
        → (t' ≢ t) ⊎ (k < used i)
        → get_or s'.scratch (at i t' k) 0 ≡ get_or s.scratch (at i t' k) 0
    pub counts_kept :
        (i t' : ℕ)
        → i < fan_out
        → t' ≢ t
        → get_or s'.count (counter i t') 0 ≡ get_or s.count (counter i t') 0

  module _ (used : ℕ → ℕ) (x : ℕ) (s : Buckets) (is : Used used s) (key : x >>> shift < fan_out)
      (room : used (x >>> shift) < tsize) where
    abbrev h : ℕ
    h = x >>> shift

    abbrev idx : ℕ
    idx = at h t (used h)

    abbrev stored : Buckets
    stored = record {
      scratch = set s.scratch idx x;
      count = set s.count (counter h t) (u32 (idx + 1));
    }

    idx-lt : idx < length s.scratch
    idx-lt = rw is.space (place-lt T tsize fan_out h t (used h) key t-lt room)

    counter-lt : (i t' : ℕ) → i < fan_out → t' < T → counter i t' < length s.count
    counter-lt i t' hi ht = omega (arith, is.counters, below t' T i fan_out ht hi)

    next : u32 (idx + 1) ≡ at h t (used h + 1)
    next = mod-eq_of_lt (omega (arith, idx-lt, is.space)) ∙ place-suc T tsize h t (used h)

    stored-Used : Used (bump used h) stored
    stored-Used = record {
      space = length-set s.scratch idx x ∙ is.space;
      counters = rw (length-set s.count (counter h t) (u32 (idx + 1))) is.counters;
      counts = λ i hi. elim (ℕ_discrete h i) [
        | yes same ↦ rw (← same) (
            get_or-set_self s.count (counter h t) _ 0 (counter-lt h t key t-lt)
            ∙ next
            ∙ ap (at h t) (sym (bump_self used h)))
        | no other ↦
            let apart : counter h t ≢ counter i t =
              λ e. other ((unique_digits fan_out t t h i key hi e).1) in
            let still : bump used h i ≡ used i = ground (arith, other) in
            get_or-set_ne s.count (counter h t) (counter i t) _ 0 apart
            ∙ is.counts i hi
            ∙ ap (at i t) (sym still)
      ];
    }

    -- The item is where it was put, and nothing else moved.
    put : get_or stored.scratch idx 0 ≡ x
    put = get_or-set_self s.scratch idx x 0 idx-lt

    spared :
        (i t' k : ℕ)
        → t' < T
        → k < tsize
        → (t' ≢ t) ⊎ ((h ≢ i) ⊎ (k ≢ used h))
        → get_or stored.scratch (at i t' k) 0 ≡ get_or s.scratch (at i t' k) 0
    spared i t' k ht hk differ = get_or-set_ne s.scratch idx (at i t' k) x 0 (λ e.
        let (e-i, e-t, e-k) = place_unique T tsize h t (used h) i t' k t-lt ht room hk e in
        elim differ [ inl d ↦ d (sym e-t) | inr (inl d) ↦ d e-i | inr (inr d) ↦ d (sym e-k) ])

    counter_spared :
        (i t' : ℕ)
        → i < fan_out
        → t' ≢ t
        → get_or stored.count (counter i t') 0 ≡ get_or s.count (counter i t') 0
    counter_spared i t' hi d =
        get_or-set_ne s.count (counter h t) (counter i t') _ 0
          (λ e. d (sym (unique_digits fan_out t t' h i key hi e).0))

    module _ (L : List ℕ) (s' : Buckets) (d : Dispatches (bump used h) L stored s') where
      hit_item :
          (k : ℕ)
          → k < suc (length (bucket shift h L))
          → get_or s'.scratch (at h t (used h + k)) 0 ≡ get_or (x ∷ bucket shift h L) k 0
      hit_item zero hk =
          let e : used h + 0 ≡ used h = omega arith in
          let lt : used h < bump used h h = omega (arith, bump_self used h) in
          ap (λ j. get_or s'.scratch (at h t j) 0) e
          ∙ d.kept h t (used h) key t-lt room (inr lt)
          ∙ put
      hit_item (suc k) hk =
          let e : used h + suc k ≡ bump used h h + k = omega (arith, bump_self used h) in
          ap (λ j. get_or s'.scratch (at h t j) 0) e ∙ d.items h k key (omega arith)

      item :
          (i k : ℕ)
          → i < fan_out
          → k < length (bucket shift i (x ∷ L))
          → get_or s'.scratch (at i t (used i + k)) 0 ≡ get_or (bucket shift i (x ∷ L)) k 0
      unfolding bucket
      item i k hi hk = elim (ℕ_discrete h i) [
        | yes same ↦
            let hit : (h == h) ≡ true = (==_iff h h).1 refl in
            subst
              (λ j.
                k < length (bucket shift j (x ∷ L))
                → get_or s'.scratch (at j t (used j + k)) 0 ≡ get_or (bucket shift j (x ∷ L)) k 0)
              same (rw hit (hit_item k)) hk
        | no other ↦
            let miss : (h == i) ≡ false = ground (arith, other) in
            let still : bump used h i ≡ used i = rw miss in
            rw miss (
              ap (λ j. get_or s'.scratch (at i t (j + k)) 0) (sym still)
              ∙ d.items i k hi (rw miss at hk))
      ]

      kept_place :
          (i t' k : ℕ)
          → i < fan_out
          → t' < T
          → k < tsize
          → (t' ≢ t) ⊎ (k < used i)
          → get_or s'.scratch (at i t' k) 0 ≡ get_or s.scratch (at i t' k) 0
      kept_place i t' k hi ht hk (inl apart) =
          d.kept i t' k hi ht hk (inl apart) ∙ spared i t' k ht hk (inl apart)
      kept_place i t' k hi ht hk (inr lt) =
          let lt' : k < bump used h i = ground arith in
          d.kept i t' k hi ht hk (inr lt')
          ∙ spared i t' k ht hk (
              inr (elim (ℕ_discrete h i) [
                | yes same ↦ inr (λ q. le_irrefl (used i) (rw (q ∙ ap used same) at lt))
                | no other ↦ inl other
              ]))

      step : Dispatches used (x ∷ L) s s'
      step = record {
        after = record {
          space = d.after.space;
          counters = d.after.counters;
          counts = λ i hi. d.after.counts i hi ∙ ap (at i t) (bump_count used shift x i L);
        };
        items = item;
        kept = kept_place;
        counts_kept = λ i t' hi d'. d.counts_kept i t' hi d' ∙ counter_spared i t' hi d';
      }

  -- A thread whose buckets fit its regions runs without a fault.
  pub dispatch-Dispatches :
      (L : List ℕ) (used : ℕ → ℕ) (s : Buckets)
      → Used used s
      → All (λ x. x >>> shift < fan_out) L
      → ((i : ℕ) → i < fan_out → used i + length (bucket shift i L) ≤ tsize)
      → (s' : Buckets) × (dispatch shift (t * fan_out) L s ≡ ok s') × Dispatches used L s s'
  unfolding dispatch bucket
  dispatch-Dispatches [] used s is keys fits = (
    s,
    refl,
    record {
      after = record {
        space = is.space;
        counters = is.counters;
        counts = λ i hi. is.counts i hi ∙ ap (at i t) (add_nothing (used i));
      };
      items = λ i k hi hk. absurd (omega arith);
      kept = λ i t' k hi ht hk why. refl;
      counts_kept = λ i t' hi d. refl;
    },
  )
  dispatch-Dispatches (x ∷ L) used s is keys fits =
      let room : used (x >>> shift) < tsize = omega (
        arith,
        fits (x >>> shift) keys.0,
        bump_count used shift x (x >>> shift) L,
        bump_self used (x >>> shift),
      ) in
      let next-state = stored used x s is keys.0 room in
      let (s', run, d) =
        dispatch-Dispatches L (bump used (x >>> shift)) next-state
          (stored-Used used x s is keys.0 room) keys.1
          (λ i hi. rw (bump_count used shift x i L) (fits i hi)) in
      (
        s',
        rw (is.counts (x >>> shift) keys.0, lt→ltb _ _ (idx-lt used x s is keys.0 room)) run,
        step used x s is keys.0 room L s' d,
      )
