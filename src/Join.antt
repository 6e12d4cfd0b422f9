-- ===== src/Join.antt =====
-- The join of two partitions in ijoux/joux_v3.c, `subjoin`: the pairs that agree on the `l` bits
-- at the top, found through a hash table of 512 words. A partition comes in `T` pieces, one from
-- each thread, which are lists here; the output buffer is a list, without its capacity.
pub mod Scan
pub mod Correct
mod Tests
use xor_mining.Base.{
  ℕ, zero, suc, ◌+◌, ◌-◌, ◌*◌, ◌/◌, ◌%◌, ◌^◌, bit_and, bit_xor, List, [], ◌∷◌, ◌++◌, get_or,
  if◌then◌else◌, ◌==◌, ltb, Bool, true, false, ◌&&◌, ◌||◌, Option, none, some,
}
use xor_mining.Base.Run.{Run, fault, looped}
use xor_mining.Word.{◌>>>◌}
use xor_mining.Table.{next, probe_insert, empty_table, cm_hash_size}

-- `u64 (*preselected)[3]`
pub record Triple : Type 0 where
  pub val0 : ℕ
  pub val1 : ℕ
  pub val2 : ℕ

infixl 5 ◌>>=◌
abbrev pub ◌>>=◌ : {A B : Type 0} → Option A → (A → Option B) → Option B
none >>= f = none
some a >>= f = f a

-- `u8 shift = 64 - l`
unfoldable pub shift_of : ℕ → ℕ
shift_of l = (64 + 256 - l % 256) % 256

-- `(x >> shift) & HASH_MASK`
unfoldable pub part_hash : ℕ → ℕ → ℕ
part_hash shift x = bit_and (x >>> shift) 511

-- The build phase over one piece, and over all.
unfoldable pub build_piece : ℕ → List ℕ → List ℕ → Option (List ℕ)
build_piece shift [] H = some H
build_piece shift (a ∷ A) H = elim (probe_insert H (part_hash shift a) a) [
  | none ↦ none
  | some H' ↦ build_piece shift A H'
]

unfoldable pub build : ℕ → List (List ℕ) → List ℕ → Option (List ℕ)
build shift [] H = some H
build shift (A ∷ As) H = elim (build_piece shift A H) [ none ↦ none | some H' ↦ build shift As H' ]

-- `while (x != 0) { … }` for one `y`, at slot `h` with `left` rounds to go; `none` is a loop that
-- finds no free slot and runs for ever.
unfoldable pub scan : ℕ → ℕ → List ℕ → ℕ → ℕ → Option (List Triple)
scan zero shift H h y = none
scan (suc left) shift H h y =
    let x = get_or H h 0 in
    let z = bit_xor x y in
    let rest = scan left shift H (next h) y in
    let out =
      if (z >>> shift) == 0
      then rest >>= (λ r. some (record { val0 = x; val1 = y; val2 = z } ∷ r))
      else rest in
    if x == 0 then some [] else out

unfoldable pub probe_piece : ℕ → List ℕ → List ℕ → Option (List Triple)
probe_piece shift H [] = some []
probe_piece shift H (y ∷ B) = do
  found ← scan cm_hash_size shift H (part_hash shift y) y
  more ← probe_piece shift H B
  some (found ++ more)

unfoldable pub probe : ℕ → List ℕ → List (List ℕ) → Option (List Triple)
probe shift H [] = some []
probe shift H (B ∷ Bs) = do
  found ← probe_piece shift H B
  more ← probe shift H Bs
  some (found ++ more)

-- Whether the pieces hold no item
unfoldable pub untouched : List (List ℕ) → Bool
untouched [] = true
untouched ([] ∷ As) = untouched As
untouched ((a ∷ A) ∷ As) = false

abbrev joined : ℕ → List (List ℕ) → List (List ℕ) → Option (List Triple)
joined shift As Bs = build shift As empty_table >>= λ H. probe shift H Bs

-- `subjoin` for a slice with `l` equations, on the pieces of the two partitions. A shift of a word
-- by 64 bits or more has no defined result.
unfoldable pub subjoin : ℕ → List (List ℕ) → List (List ℕ) → Run (List Triple)
subjoin l As Bs =
    let shift = shift_of l in
    if ltb shift 64 || (untouched As && untouched Bs) then looped (joined shift As Bs) else fault
