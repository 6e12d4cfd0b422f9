-- ===== src/Hasher/Digest.antt =====
-- The digest of a preimage, and the partial hash and the partitioning key taken from it:
-- preprocessing/hasher.c, and the extraction functions of preprocessing/hasher.h. `sha` is `SHA256`,
-- from bytes to bytes; a digest is read as eight little-endian words.
use xor_mining.Base.{
  ℕ, zero, suc, ◌+◌, ◌-◌, ◌*◌, ◌^◌, bit_and, bit_xor, Bool, ◌&&◌, ◌==◌, List, [], ◌∷◌, get_or,
  Option, none, some,
}
use xor_mining.Word.{◌>>>◌, ◌<<<◌, u64}
use xor_mining.Hasher.{Kind, build_plaintext_block}

-- `struct preimage_t`
pub record Preimage : Type 0 where
  pub counter : ℕ
  pub nonce : ℕ

-- `n` words of four bytes, from byte `at`
unfoldable pub words : ℕ → ℕ → List ℕ → List ℕ
words zero at bytes = []
words (suc n) at bytes =
    (get_or bytes at 0
      + 2 ^ 8 * get_or bytes (at + 1) 0
      + 2 ^ 16 * get_or bytes (at + 2) 0
      + 2 ^ 24 * get_or bytes (at + 3) 0)
    ∷ words n (at + 4) bytes

-- Whether the hash is valid, and the hash
unfoldable pub compute_full_hash : (List ℕ → List ℕ) → Kind → Preimage → Option (Bool × List ℕ)
compute_full_hash sha kind preimage =
    elim (build_plaintext_block kind preimage.counter preimage.nonce) [
      | none ↦ none
      | some block ↦
          let hash = words 8 0 (sha (sha block)) in
          some ((get_or hash 7 0 == 0) && (bit_and (get_or hash 6 0) 0x80000000 == 0), hash)
    ]

unfoldable pub compute_middle_hash : (List ℕ → List ℕ) → Kind → Preimage → Option (List ℕ)
compute_middle_hash sha kind preimage =
    elim (build_plaintext_block kind preimage.counter preimage.nonce) [
      | none ↦ none
      | some block ↦ some (words 8 0 (sha block))
    ]

unfoldable pub extract_partial_hash : List ℕ → ℕ
extract_partial_hash hash =
    bit_xor (bit_xor (u64 (get_or hash 5 0 <<< 32)) (get_or hash 6 0))
      (bit_and (get_or hash 4 0) 0x80000000)

-- The key for `k` from 0 to 31; other shifts have no defined result.
unfoldable pub extract_partitioning_key : ℕ → List ℕ → ℕ
extract_partitioning_key k hash = bit_and (get_or hash 4 0) 0x7fffffff >>> (31 - k)
