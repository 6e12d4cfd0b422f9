-- ===== src/Dictionary.antt =====
-- The checkers of dictionaries and of lists of hashes: preprocessing/dict_checker.c and
-- preprocessing/hash_checker.c. A file is the list of the blocks that `fread` returns, one after
-- the other. The options and the messages are left out.
pub mod Valid
pub mod Accepts
pub mod Increasing
mod Tests
use xor_mining.Base.{
  ℕ, zero, suc, ◌+◌, Bool, true, false, not, ◌&&◌, List, [], ◌∷◌, ◌++◌, length, Option, none, some,
  if◌then◌else◌, ◌==◌, ltb,
}
use xor_mining.Base.Run.{Run, ok, exits, fault, ◌>>=◌, ◌>>◌, require}
use xor_mining.Word.{u32}
use xor_mining.Hasher.{Kind}
use xor_mining.Hasher.Digest.{
  Preimage, compute_full_hash, extract_partial_hash, extract_partitioning_key,
}
use xor_mining.Splitter.{Entry}

-- All items of a file
unfoldable pub all_blocks : {A : Type 0} → List (List A) → List A
all_blocks [] = []
all_blocks (block ∷ blocks) = block ++ all_blocks blocks

-- The variables of the loop of dict_checker.c
pub record Counters : Type 0 where
  pub prev : Entry
  pub in_order : Bool
  pub duplicates : ℕ
  pub collisions : ℕ

unfoldable pub same_preimage : Preimage → Preimage → Bool
same_preimage p q = (p.counter == q.counter) && (p.nonce == q.nonce)

-- The counters after an entry that passed
unfoldable pub count_entry : Entry → Counters → Counters
count_entry e s = record {
  prev = e;
  in_order = if ltb e.hash s.prev.hash then false else s.in_order;
  duplicates =
      if same_preimage s.prev.preimage e.preimage then u32 (s.duplicates + 1) else s.duplicates;
  collisions = if s.prev.hash == e.hash then u32 (s.collisions + 1) else s.collisions;
}

-- The checks of an entry against its hash
unfoldable pub check_hash : ℕ → ℕ → Entry → Bool → List ℕ → Bool
check_hash bits partition e valid full_hash =
    valid
    && ((e.hash == extract_partial_hash full_hash)
        && (partition == extract_partitioning_key bits full_hash))

-- The key of the entry is computed from a shift by a negative count, which has no defined value.
unfoldable pub undefined_key : ℕ → Entry → Bool → List ℕ → Bool
undefined_key bits e valid full_hash =
    valid && ((e.hash == extract_partial_hash full_hash) && ltb 31 bits)

unfoldable pub entries_loop :
    (List ℕ → List ℕ) → Kind → ℕ → ℕ → List Entry → Counters → Run Counters
entries_loop sha kind bits partition [] s = ok s
entries_loop sha kind bits partition (e ∷ es) s =
    let rest = entries_loop sha kind bits partition es (count_entry e s) in
    elim (compute_full_hash sha kind e.preimage) [
      | none ↦ fault
      | some (valid, full_hash) ↦
          let checked = if check_hash bits partition e valid full_hash then rest else exits in
          if undefined_key bits e valid full_hash then fault else checked
    ]

-- `while (!feof(f))`, with `processed` and `size`; the items processed and the counters
unfoldable pub blocks_loop :
    (List ℕ → List ℕ) → Kind → ℕ → ℕ → List (List Entry) → ℕ → ℕ → Counters → Run (ℕ × Counters)
blocks_loop sha kind bits partition [] processed size s = ok (u32 (processed + size), s)
blocks_loop sha kind bits partition (block ∷ blocks) processed size s = do
  s' ← entries_loop sha kind bits partition block s
  blocks_loop sha kind bits partition blocks (u32 (processed + size)) (length block) s'

abbrev pub no_entry : Entry
no_entry = record { hash = 0; preimage = record { counter = 0; nonce = 0 } }

unfoldable pub dict_checker :
    (List ℕ → List ℕ) → Kind → ℕ → ℕ → List (List Entry) → Run (ℕ × Counters)
dict_checker sha kind bits partition blocks =
    blocks_loop sha kind bits partition blocks 0 0
      (record { prev = no_entry; in_order = true; duplicates = 0; collisions = 0 })

-- The loop of hash_checker.c over a block: the last word
unfoldable pub words_loop : List ℕ → ℕ → Run ℕ
words_loop [] prev = ok prev
words_loop (x ∷ buffer) prev = let rest = words_loop buffer x in if ltb prev x then rest else exits

-- `while (!feof(f))`, on the blocks that are read
unfoldable pub buffers_loop : List (List ℕ) → ℕ → Run ℕ
buffers_loop [] prev = ok prev
buffers_loop (buffer ∷ blocks) prev = words_loop buffer prev >>= buffers_loop blocks

unfoldable pub hash_checker : List (List ℕ) → Run ℕ
hash_checker blocks = buffers_loop blocks 0
