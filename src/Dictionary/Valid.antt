-- ===== src/Dictionary/Valid.antt =====
-- What preprocessing/dict_checker.c accepts.
use xor_mining.Base.{
  ℕ, ◌≤◌, ◌≡◌, ◌↔◌, refl, sym, ap, ◌∙◌, arith, Bool, true, false, List, [], ◌∷◌, Option, none, some,
  if◌then◌else◌, ◌==◌, ==_iff, ltb, ◌&&◌, Bool-cases, ◌⊎◌, inl, inr,
}
use xor_mining.Base.Run.{exits, Finishes, Finishes-weaken}
use xor_mining.Hasher.{Kind}
use xor_mining.Hasher.Digest.{compute_full_hash, extract_partial_hash, extract_partitioning_key}
use xor_mining.Splitter.{Entry}
use xor_mining.Splitter.Entries.{entry_of}
use xor_mining.Splitter.Mapping.{Fits, hash-Fits}
use xor_mining.Dictionary.{Counters, count_entry, check_hash, undefined_key, entries_loop}

abbrev pub EntriesFit : List Entry → Type 0
EntriesFit [] = Unit
EntriesFit (e ∷ es) = Fits e.preimage × EntriesFit es

-- Each entry is that of its preimage, with the key of the partition.
abbrev pub IsPartition : (List ℕ → List ℕ) → Kind → ℕ → ℕ → List Entry → Type 0
IsPartition sha kind bits partition [] = Unit
IsPartition sha kind bits partition (e ∷ es) =
    (entry_of sha kind bits e.preimage ≡ some (partition, e))
    × IsPartition sha kind bits partition es

-- The hashes, from `prev` on, do not decrease.
abbrev pub IsOrdered : ℕ → List Entry → Type 0
IsOrdered prev [] = Unit
IsOrdered prev (e ∷ es) = (prev ≤ e.hash) × IsOrdered e.hash es

abbrev pub last_of : Entry → List Entry → Entry
last_of prev [] = prev
last_of prev (e ∷ es) = last_of e es

none_some : {x : ℕ × Entry} → ¬ (none ≡ some x)
none_some e = cc

pub differ : ¬ (false ≡ true)
differ e = cc

some_tuple :
    {p q : ℕ} {a b : Entry}
    → ◌≡◌ {A = Option (ℕ × Entry)} (some (p, a)) (some (q, b))
    → (p ≡ q) × (a ≡ b)
some_tuple {p} {a} e = (ap (λ o. first o) e, ap (λ o. second o) e)
  where
    first : Option (ℕ × Entry) → ℕ
    first none = p
    first (some x) = x.0

    second : Option (ℕ × Entry) → Entry
    second none = a
    second (some x) = x.1

check_hash-entry :
    (sha : List ℕ → List ℕ) (kind : Kind) (bits partition : ℕ) (e : Entry) (valid : Bool)
    (full_hash : List ℕ)
    → compute_full_hash sha kind e.preimage ≡ some (valid, full_hash)
    → check_hash bits partition e valid full_hash ≡ true
    → entry_of sha kind bits e.preimage ≡ some (partition, e)
unfolding check_hash entry_of
check_hash-entry sha kind bits partition e true full_hash run passed =
    go (Bool-cases (e.hash == extract_partial_hash full_hash))
      (Bool-cases (partition == extract_partitioning_key bits full_hash))
  where
    go :
        ((e.hash == extract_partial_hash full_hash) ≡ true)
          ⊎ ((e.hash == extract_partial_hash full_hash) ≡ false)
        → ((partition == extract_partitioning_key bits full_hash) ≡ true)
          ⊎ ((partition == extract_partitioning_key bits full_hash) ≡ false)
        → entry_of sha kind bits e.preimage ≡ some (partition, e)
    go (inl h) (inl k) =
        let hash-is : e.hash ≡ extract_partial_hash full_hash = (==_iff _ _).0 h in
        let key-is : partition ≡ extract_partitioning_key bits full_hash = (==_iff _ _).0 k in
        rw (entry_of, run, ← hash-is, ← key-is) refl
    go (inl h) (inr k) = absurd (differ (rw (h, k) at passed))
    go (inr h) k = absurd (differ (rw h at passed))
check_hash-entry sha kind bits partition e false full_hash run passed = absurd (differ passed)

pub entry-check_hash :
    (sha : List ℕ → List ℕ) (kind : Kind) (bits partition : ℕ) (e : Entry) (valid : Bool)
    (full_hash : List ℕ)
    → compute_full_hash sha kind e.preimage ≡ some (valid, full_hash)
    → entry_of sha kind bits e.preimage ≡ some (partition, e)
    → check_hash bits partition e valid full_hash ≡ true
unfolding check_hash entry_of
entry-check_hash sha kind bits partition e true full_hash run is =
    let key = extract_partitioning_key bits full_hash in
    let entry : Entry = record { hash = extract_partial_hash full_hash; preimage = e.preimage } in
    let opened : entry_of sha kind bits e.preimage ≡ some (key, entry) = rw (entry_of, run) refl in
    let (key-is, entry-is) = some_tuple (sym opened ∙ is) in
    let hash-is : extract_partial_hash full_hash ≡ e.hash = ap (λ x. x.hash) entry-is in
    rw
      (
        (==_iff e.hash (extract_partial_hash full_hash)).1 (sym hash-is),
        (==_iff partition key).1 (sym key-is),
      )
      refl
entry-check_hash sha kind bits partition e false full_hash run is =
    let opened : entry_of sha kind bits e.preimage ≡ none = rw (entry_of, run) refl in
    absurd (none_some (sym opened ∙ is))

-- What the counters say after the entries `es`
pub record Counts (s : Counters) (es : List Entry) (s' : Counters) : Type 0 where
  pub last : s'.prev ≡ last_of s.prev es
  pub order : (s'.in_order ≡ true) ↔ ((s.in_order ≡ true) × IsOrdered s.prev.hash es)

Counts-entry :
    (s : Counters) (e : Entry) (es : List Entry) (s' : Counters)
    → Counts (count_entry e s) es s'
    → Counts s (e ∷ es) s'
unfolding count_entry
Counts-entry s e es s' c = record {
  last = c.last;
  order = go (Bool-cases (ltb e.hash s.prev.hash)) c.order;
}
  where
    go :
        (ltb e.hash s.prev.hash ≡ true) ⊎ (ltb e.hash s.prev.hash ≡ false)
        → (s'.in_order ≡ true)
          ↔ (((if ltb e.hash s.prev.hash then false else s.in_order) ≡ true) × IsOrdered e.hash es)
        → (s'.in_order ≡ true)
          ↔ ((s.in_order ≡ true) × ((s.prev.hash ≤ e.hash) × IsOrdered e.hash es))
    go (inl q) old = (
      (λ h. absurd (differ (rw q at ((old.0 h).0)))),
      λ (o, (le, r)). absurd (ground (arith, q, le)),
    )
    go (inr q) old = (
      (λ h. let (o, r) = old.0 h in (rw q at o, (ground (arith, q), r))),
      λ (o, (le, r)). old.1 (rw q o, r),
    )

pub undefined_key-false :
    (bits : ℕ) (e : Entry) (valid : Bool) (full_hash : List ℕ)
    → bits ≤ 31
    → undefined_key bits e valid full_hash ≡ false
unfolding undefined_key
undefined_key-false bits e valid full_hash le =
    let defined : ltb 31 bits ≡ false = ground (arith, le) in
    rw defined (all_false valid (e.hash == extract_partial_hash full_hash))
  where
    all_false : (a b : Bool) → (a && (b && false)) ≡ false
    all_false true true = refl
    all_false true false = refl
    all_false false b = refl

pub entries_loop-Counts :
    (sha : List ℕ → List ℕ) (kind : Kind) (bits partition : ℕ) (es : List Entry) (s : Counters)
    → bits ≤ 31
    → EntriesFit es
    → Finishes
        (entries_loop sha kind bits partition es s)
        (λ s'. IsPartition sha kind bits partition es × Counts s es s')
unfolding entries_loop
entries_loop-Counts sha kind bits partition [] s le fit =
    (tt, record { last = refl; order = ((λ h. (h, tt)), λ (h, u). h) })
entries_loop-Counts sha kind bits partition (e ∷ es) s le (fits, fit) =
    go (hash-Fits sha kind e.preimage fits)
      (entries_loop-Counts sha kind bits partition es (count_entry e s) le fit)
  where
    go :
        (valid : Bool) × ((full : List ℕ) × (compute_full_hash sha kind e.preimage
              ≡ some (valid, full)))
        → Finishes
            (entries_loop sha kind bits partition es (count_entry e s))
            (λ s'. IsPartition sha kind bits partition es × Counts (count_entry e s) es s')
        → Finishes
            (entries_loop sha kind bits partition (e ∷ es) s)
            (λ s'. IsPartition sha kind bits partition (e ∷ es) × Counts s (e ∷ es) s')
    go (valid, (full, run)) rest =
        rw (entries_loop, Finishes, run, undefined_key-false bits e valid full le)
          (passed valid full run rest (Bool-cases (check_hash bits partition e valid full)))
      where
        passed :
            (valid : Bool) (full : List ℕ)
            → compute_full_hash sha kind e.preimage ≡ some (valid, full)
            → Finishes
                (entries_loop sha kind bits partition es (count_entry e s))
                (λ s'. IsPartition sha kind bits partition es × Counts (count_entry e s) es s')
            → (check_hash bits partition e valid full ≡ true)
              ⊎ (check_hash bits partition e valid full ≡ false)
            → Finishes
                (if check_hash bits partition e valid full
                  then entries_loop sha kind bits partition es (count_entry e s)
                  else exits)
                (λ s'. IsPartition sha kind bits partition (e ∷ es) × Counts s (e ∷ es) s')
        passed valid full run rest (inl c) =
            rw (Finishes, c)
              (Finishes-weaken (entries_loop sha kind bits partition es (count_entry e s)) _ _ rest
                (λ s' (part, counts). (
                  (check_hash-entry sha kind bits partition e valid full run c, part),
                  Counts-entry s e es s' counts,
                )))
        passed valid full run rest (inr c) = rw (Finishes, c) tt
