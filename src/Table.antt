-- ===== src/Table.antt =====
-- The hash tables of ijoux/datastructures.h: 512 words, where 0 marks a free slot. A `while` loop
-- over the slots is given 512 rounds: after that many it has seen every slot and goes round for
-- ever, which the model shows as `none`.
pub mod Walk
pub mod Linear
pub mod Cuckoo
pub mod Build
mod Tests
use xor_mining.Base.{
  ℕ, zero, suc, ◌+◌, ◌-◌, ◌*◌, ◌/◌, ◌^◌, bit_and, Bool, true, false, ◌||◌, List, get_or, set,
  replicate, if◌then◌else◌, ◌==◌, Option, none, some,
}
use xor_mining.Word.{◌>>>◌}

abbrev pub cm_hash_size : ℕ
cm_hash_size = 512

abbrev pub cm_hash_mask : ℕ
cm_hash_mask = 511

unfoldable pub H0 : ℕ → ℕ
H0 x = bit_and x cm_hash_mask

unfoldable pub H1 : ℕ → ℕ
H1 x = bit_and (x >>> 16) cm_hash_mask

-- `(h + 1) & CM_HASH_MASK`
unfoldable pub next : ℕ → ℕ
next h = bit_and (h + 1) cm_hash_mask

-- `while (H[h]) h = (h + 1) & CM_HASH_MASK;`
unfoldable pub find_free : ℕ → List ℕ → ℕ → Option ℕ
find_free zero H h = none
find_free (suc left) H h =
    let rest = find_free left H (next h) in if get_or H h 0 == 0 then some h else rest

-- The insertion that `linear_insert` and the build phase of `subjoin` share, from slot `h` on.
unfoldable pub probe_insert : List ℕ → ℕ → ℕ → Option (List ℕ)
probe_insert H h x = elim (find_free cm_hash_size H h) [
  | none ↦ none
  | some free ↦ some (set H free x)
]

unfoldable pub linear_insert : List ℕ → ℕ → Option (List ℕ)
linear_insert H x = probe_insert H (H0 x) x

unfoldable pub lookup_loop : ℕ → List ℕ → ℕ → ℕ → Option Bool
lookup_loop zero H h x = none
lookup_loop (suc left) H h x =
    let probe = get_or H h 0 in
    let rest = lookup_loop left H (next h) x in
    if probe == x then some true else if probe == 0 then some false else rest

unfoldable pub linear_lookup : List ℕ → ℕ → Option Bool
linear_lookup H x = lookup_loop cm_hash_size H (H0 x) x

unfoldable pub cuckoo_lookup : List ℕ → ℕ → Bool
cuckoo_lookup H x =
    let probe1 = get_or H (H0 x) 0 in
    let probe2 = get_or H (H1 x) 0 in (probe1 == x) || (probe2 == x)

-- The loop of `cuckoo_insert`, with `left` rounds to go. On failure the last word that was moved
-- out is in no slot.
unfoldable pub cuckoo_loop : ℕ → List ℕ → ℕ → ℕ → Bool × List ℕ
cuckoo_loop zero H h x = (false, H)
cuckoo_loop (suc left) H h x =
    let out = get_or H h 0 in
    let H' = set H h x in
    let h' = if H0 out == h then H1 out else H0 out in
    let rest = cuckoo_loop left H' h' out in if out == 0 then (true, H') else rest

unfoldable pub cuckoo_insert : List ℕ → ℕ → Bool × List ℕ
cuckoo_insert H x = cuckoo_loop (2 * cm_hash_size) H (H0 x) x

-- `for (i = lo; i < hi; i++) if (!cuckoo_insert(H, L[i])) { fail = true; break; }`, with
-- `left = hi - lo`; the result is `fail` and the table.
unfoldable pub cuckoo_fill : ℕ → ℕ → List ℕ → List ℕ → Bool × List ℕ
cuckoo_fill zero i L H = (false, H)
cuckoo_fill (suc left) i L H =
    let (done, H') = cuckoo_insert H (get_or L i 0) in
    let rest = cuckoo_fill left (i + 1) L H' in if done then rest else (true, H')

unfoldable pub linear_fill : ℕ → ℕ → List ℕ → List ℕ → Option (List ℕ)
linear_fill zero i L H = some H
linear_fill (suc left) i L H = elim (linear_insert H (get_or L i 0)) [
  | none ↦ none
  | some H' ↦ linear_fill left (i + 1) L H'
]

-- `for (i = 0; i < CM_HASH_SIZE; i++) H[i] = 0;`
unfoldable pub empty_table : List ℕ
unfolding replicate
empty_table = replicate cm_hash_size 0

-- The result and the table; the second component is what the caller's array `H` holds.
unfoldable pub cuckoo_build : List ℕ → ℕ → ℕ → Option (Bool × List ℕ)
cuckoo_build L lo hi =
    let (fail, H) = cuckoo_fill (hi - lo) lo L empty_table in
    if fail
    then (elim (linear_fill (hi - lo) lo L empty_table) [ none ↦ none | some H' ↦ some (true, H') ])
    else some (false, H)

-- The look-up that `checkup` makes in the table of `cuckoo_build`, by its result `bad_H`.
abbrev pub table_lookup : Bool × List ℕ → ℕ → Option Bool
table_lookup (bad, H) x = if bad then linear_lookup H x else some (cuckoo_lookup H x)
