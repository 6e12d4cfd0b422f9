-- ===== src/Table/Tests.antt =====
-- The tables at small inputs. 512 more than a word has the same first slot.
use xor_mining.Base.{
  ℕ, zero, suc, ◌+◌, ◌-◌, ◌≤◌, ◌<◌, ◌≡◌, ◌≢◌, arith, List, [], ◌∷◌, get_or, Bool, true, ◌↔◌, some,
}
use xor_mining.Table.{
  H0, probe_insert, linear_lookup, cuckoo_lookup, cuckoo_insert, cuckoo_build, table_lookup,
  empty_table,
}
use xor_mining.Table.Walk.{Holds, H0-lt}
use xor_mining.Table.Linear.{load-empty_table, empty_table-IsProbed, probe_insert-Inserts, Inserts}
use xor_mining.Table.Cuckoo.{
  InRange, Stores, empty_table-IsCuckoo, cuckoo_insert-Stores, cuckoo_lookup_iff,
}
use xor_mining.Table.Build.{cuckoo_build-table_lookup, linear_lookup_iff}

abbrev words : List ℕ
words = 3 ∷ 515 ∷ 1027 ∷ []

words-nonzero : (k : ℕ) → 0 ≤ k → k < 0 + (3 - 0) → get_or words k 0 ≢ 0
words-nonzero zero lo hi = λ e. absurd (omega arith)
words-nonzero (suc zero) lo hi = λ e. absurd (omega arith)
words-nonzero (suc (suc zero)) lo hi = λ e. absurd (omega arith)
words-nonzero (suc (suc (suc k))) lo hi = absurd (omega arith)

cuckoo_build-table_lookup_example :
    (t : Bool × List ℕ) × (cuckoo_build words 0 3 ≡ some t)
    × ((x : ℕ)
        → x ≢ 0
        → (b : Bool) × (table_lookup t x ≡ some b) × ((b ≡ true) ↔ InRange words 0 (3 - 0) x))
cuckoo_build-table_lookup_example = cuckoo_build-table_lookup words 0 3 (omega arith) words-nonzero

cuckoo_insert-Stores_example :
    Stores (cuckoo_insert empty_table 3).1 515 (cuckoo_insert (cuckoo_insert empty_table 3).1 515)
cuckoo_insert-Stores_example =
    cuckoo_insert-Stores (cuckoo_insert empty_table 3).1 515
      (cuckoo_insert-Stores empty_table 3 empty_table-IsCuckoo).0

cuckoo_lookup_iff_example :
    (cuckoo_lookup (cuckoo_insert empty_table 3).1 3 ≡ true)
    ↔ Holds (cuckoo_insert empty_table 3).1 3
cuckoo_lookup_iff_example =
    cuckoo_lookup_iff (cuckoo_insert empty_table 3).1 3
      (cuckoo_insert-Stores empty_table 3 empty_table-IsCuckoo).0 (λ e. absurd (omega arith))

probe_insert-Inserts_example :
    (H' : List ℕ) × (probe_insert empty_table (H0 515) 515 ≡ some H')
    × Inserts H0 empty_table 515 H'
probe_insert-Inserts_example =
    probe_insert-Inserts H0 H0-lt empty_table 515 (empty_table-IsProbed H0)
      (λ e. absurd (omega arith)) (omega (arith, load-empty_table))

-- A table with one word.
one_word :
    (H : List ℕ) × (probe_insert empty_table (H0 515) 515 ≡ some H) × Inserts H0 empty_table 515 H
one_word =
    probe_insert-Inserts H0 H0-lt empty_table 515 (empty_table-IsProbed H0)
      (λ e. absurd (omega arith)) (omega (arith, load-empty_table))

linear_lookup_iff_example :
    (b : Bool) × (linear_lookup one_word.0 3 ≡ some b) × ((b ≡ true) ↔ Holds one_word.0 3)
linear_lookup_iff_example =
    linear_lookup_iff one_word.0 3 one_word.2.probed
      (omega (arith, one_word.2.loaded, load-empty_table)) (λ e. absurd (omega arith))
