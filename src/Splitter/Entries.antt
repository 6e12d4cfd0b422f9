-- ===== src/Splitter/Entries.antt =====
-- The entries of the dictionary that preprocessing/splitter.c makes of preimages, by their keys.
use native.Mathlib.Nat.{div-lt_iff_lt-mul, one-le-pow}
use xor_mining.Base.{
  ℕ, ◌+◌, ◌-◌, ◌*◌, ◌^◌, ◌<◌, ◌≤◌, ◌≡◌, refl, sym, ap, ◌∙◌, arith, bit_and, true, false, List, [],
  ◌∷◌, ◌++◌, append_assoc, get_or, Option, none, some, if◌then◌else◌, ◌==◌,
}
use xor_mining.Word.Mask.{bit_and_mask}
use xor_mining.Partition.Correct.{two_pow_add}
use xor_mining.Hasher.{Kind}
use xor_mining.Hasher.Digest.{
  Preimage, compute_full_hash, extract_partial_hash, extract_partitioning_key,
}
use xor_mining.Splitter.{Entry}

-- The entry of a preimage and its key, if its hash is valid
unfoldable pub entry_of : (List ℕ → List ℕ) → Kind → ℕ → Preimage → Option (ℕ × Entry)
entry_of sha kind bits p = elim (compute_full_hash sha kind p) [
  | none ↦ none
  | some (false, hash) ↦ none
  | some (true, hash) ↦ some (
    extract_partitioning_key bits hash,
    record { hash = extract_partial_hash hash; preimage = p },
  )
]

-- The entry, if its key is `s`
abbrev pub chosen : ℕ → Option (ℕ × Entry) → List Entry
chosen s none = []
chosen s (some (slot, e)) = if slot == s then e ∷ [] else []

-- The entries of the preimages with key `s`, in order
unfoldable pub entries_of : (List ℕ → List ℕ) → Kind → ℕ → ℕ → List Preimage → List Entry
entries_of sha kind bits s [] = []
entries_of sha kind bits s (p ∷ ps) =
    chosen s (entry_of sha kind bits p) ++ entries_of sha kind bits s ps

pub entries_of-append :
    (sha : List ℕ → List ℕ) (kind : Kind) (bits s : ℕ) (ps qs : List Preimage)
    → entries_of sha kind bits s (ps ++ qs)
      ≡ entries_of sha kind bits s ps ++ entries_of sha kind bits s qs
unfolding entries_of
entries_of-append sha kind bits s [] qs = refl
entries_of-append sha kind bits s (p ∷ ps) qs = rw (entries_of-append sha kind bits s ps qs) (
    sym (
      append_assoc (chosen s (entry_of sha kind bits p)) (entries_of sha kind bits s ps)
        (entries_of sha kind bits s qs)))

pub extract_partitioning_key_bound :
    (k : ℕ) (hash : List ℕ) → k ≤ 31 → extract_partitioning_key k hash < 2 ^ k
unfolding extract_partitioning_key
extract_partitioning_key_bound k hash h =
    let split : 2 ^ 31 ≡ 2 ^ k * 2 ^ (31 - k) =
      let whole : 31 ≡ k + (31 - k) = omega (arith, h) in
      ap (λ j. 2 ^ j) whole ∙ two_pow_add k (31 - k) in
    let low : bit_and (get_or hash 4 0) (2 ^ 31 - 1) < 2 ^ 31 =
      rw (bit_and_mask 31 (get_or hash 4 0)) (omega arith) in
    (div-lt_iff_lt-mul (one-le-pow (31 - k) 2 (omega arith))).1 (omega (arith, low, split))
