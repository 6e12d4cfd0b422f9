-- ===== src/Splitter/Mapping.antt =====
-- A mapper of preprocessing/splitter.c sends, with each key, the entries of the preimages whose
-- partitioning key it is.
use xor_mining.Base.{
  ℕ, ◌+◌, ◌^◌, ◌<◌, ◌≤◌, ◌≡◌, refl, sym, ◌∙◌, arith, bit_and, Bool, true, false, ◌&&◌, List, [],
  ◌∷◌, ◌++◌, append_assoc, append-nil, length, get_or, some, ◌==◌, ltb,
}
use xor_mining.Base.Run.{Finishes, Finishes-bind, Finishes-weaken}
use xor_mining.Hasher.{Kind}
use xor_mining.Hasher.Digest.{
  Preimage, words, compute_full_hash, extract_partial_hash, extract_partitioning_key,
}
use xor_mining.Hasher.Plaintext.{build_plaintext_block-Block}
use xor_mining.Splitter.{Entry, Mapper, store_entry, map_preimage, map_block}
use xor_mining.Splitter.Entries.{entry_of, chosen, entries_of, extract_partitioning_key_bound}
use xor_mining.Splitter.Buffers.{After, Holds-ext, adds, store_entry-After}

-- The counter and the nonce fit in their fields.
abbrev pub Fits : Preimage → Type 0
Fits p = (p.counter < 2 ^ 64) × (p.nonce < 2 ^ 32)

abbrev pub AllFit : List Preimage → Type 0
AllFit [] = Unit
AllFit (p ∷ ps) = Fits p × AllFit ps

pub hash-Fits :
    (sha : List ℕ → List ℕ) (kind : Kind) (p : Preimage)
    → Fits p
    → (valid : Bool) × ((hash : List ℕ) × (compute_full_hash sha kind p ≡ some (valid, hash)))
unfolding compute_full_hash
hash-Fits sha kind p (small, narrow) =
    let (block, built, _) = build_plaintext_block-Block kind p.counter p.nonce small narrow in
    let hash = words 8 0 (sha (sha block)) in
    (
      (get_or hash 7 0 == 0) && (bit_and (get_or hash 6 0) 0x80000000 == 0),
      (hash, rw (compute_full_hash, built) refl),
    )

-- The entries of each key, after the preimage `p`
abbrev pub gains : (List ℕ → List ℕ) → Kind → ℕ → Preimage → (ℕ → List Entry) → ℕ → List Entry
gains sha kind bits p es s = es s ++ chosen s (entry_of sha kind bits p)

map_preimage-After :
    (sha : List ℕ → List ℕ) (kind : Kind) (bits : ℕ) (p : Preimage) (n : ℕ) (es : ℕ → List Entry)
    (m : Mapper)
    → bits ≤ 31
    → Fits p
    → After (2 ^ bits) n es m
    → Finishes
        (map_preimage sha kind bits p m)
        (After (2 ^ bits) (n + 1) (gains sha kind bits p es))
unfolding map_preimage entry_of
map_preimage-After sha kind bits p n es m le fits (room, h) = go (hash-Fits sha kind p fits)
  where
    go :
        (valid : Bool) × ((hash : List ℕ) × (compute_full_hash sha kind p ≡ some (valid, hash)))
        → Finishes
            (map_preimage sha kind bits p m)
            (After (2 ^ bits) (n + 1) (gains sha kind bits p es))
    go (true, (hash, e)) =
        let slot = extract_partitioning_key bits hash in
        let entry : Entry = record { hash = extract_partial_hash hash; preimage = p } in
        let defined : ltb 31 bits ≡ false = ground (arith, le) in
        rw (Finishes, e, defined)
          (Finishes-weaken (store_entry (2 ^ bits) slot entry m) _ _
            (store_entry-After (2 ^ bits) n slot es entry m
              (extract_partitioning_key_bound bits hash le) (room, h))
            (λ m' a. (
              a.0,
              Holds-ext (2 ^ bits) (n + 1) (adds slot entry es) (gains sha kind bits p es) m'
                  (λ s. rw (entry_of, e) refl) a.1,
            )))
    go (false, (hash, e)) =
        rw (Finishes, e)
          (
            room,
            record {
              sends = h.sends;
              sent_frames = h.sent_frames;
              keyed = h.keyed;
              few = omega (arith, h.few);
              held = λ s. h.held s ∙ rw (entry_of, e) (sym (append-nil (es s)));
            },
          )

-- The entries of each key, after the preimages `ps`
abbrev pub collects :
    (List ℕ → List ℕ) → Kind → ℕ → List Preimage → (ℕ → List Entry) → ℕ → List Entry
collects sha kind bits ps es s = es s ++ entries_of sha kind bits s ps

pub map_block-After :
    (sha : List ℕ → List ℕ) (kind : Kind) (bits : ℕ) (ps : List Preimage) (n : ℕ)
    (es : ℕ → List Entry) (m : Mapper)
    → bits ≤ 31
    → AllFit ps
    → After (2 ^ bits) n es m
    → Finishes
        (map_block sha kind bits ps m)
        (After (2 ^ bits) (n + length ps) (collects sha kind bits ps es))
unfolding map_block entries_of
map_block-After sha kind bits [] n es m le fit (room, h) =
    let same : n + 0 ≡ n = omega arith in
    (room, rw same (Holds-ext (2 ^ bits) n es _ m (λ s. sym (append-nil (es s))) h))
map_block-After sha kind bits (p ∷ ps) n es m le (fits, fit) a =
    Finishes-bind (map_preimage sha kind bits p m) (map_block sha kind bits ps) _ _
      (map_preimage-After sha kind bits p n es m le fits a)
      (λ m' a'.
        Finishes-weaken (map_block sha kind bits ps m') _ _
          (map_block-After sha kind bits ps (n + 1) (gains sha kind bits p es) m' le fit a')
          (λ m'' (room, h).
            let size : n + 1 + length ps ≡ n + length (p ∷ ps) = omega arith in
            (
              room,
              rw size at (
                  Holds-ext (2 ^ bits) (n + 1 + length ps) _ (collects sha kind bits (p ∷ ps) es)
                    m''
                    (λ s.
                      append_assoc (es s) (chosen s (entry_of sha kind bits p))
                        (entries_of sha kind bits s ps))
                    h),
            )))
