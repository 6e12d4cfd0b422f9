-- ===== src/Slicer/Chain.antt =====
-- The doubly-linked lists of preprocessing/slicer.c, with a dummy node each, and `filter_active`,
-- which moves the vectors that miss an equation from the list `active` to the list `reject`.
pub mod Links
pub mod Moves
pub mod Filter
pub mod Kept
use xor_mining.Base.{
  ℕ, zero, suc, ◌+◌, ◌-◌, ◌/◌, ◌%◌, ◌^◌, bit_and, Bool, true, false, not, if◌then◌else◌, ◌==◌,
}
use xor_mining.Base.Run.{Run, ok, endless, ◌>>=◌, ◌>>◌, require}
use xor_mining.Word.{u32}

-- `struct list_t`: its fields, at each address.
pub record Store : Type 0 where
  pub word : ℕ → ℕ
  pub next : ℕ → ℕ
  pub prev : ℕ → ℕ

abbrev pub update : (ℕ → ℕ) → ℕ → ℕ → ℕ → ℕ
update f a v z = if z == a then v else f z

-- The store, and the variables `active`, `reject` and `m`.
pub record Lists : Type 0 where
  pub store : Store
  pub active : ℕ
  pub reject : ℕ
  pub m : ℕ

unfoldable pub list_insert : ℕ → ℕ → Store → Store
list_insert list item s =
    let s = record s { next = update s.next item (s.next list) } in
    let s = record s { prev = update s.prev item list } in
    let s = record s { prev = update s.prev (s.next item) item } in
    record s { next = update s.next (s.prev item) item }

unfoldable pub list_remove : ℕ → Store → Store
list_remove item s =
    let s = record s { prev = update s.prev (s.next item) (s.prev item) } in
    record s { next = update s.next (s.prev item) (s.next item) }

unfoldable pub list_clear : ℕ → Store → Run Store
list_clear item s = do
  require (s.word item == 0)
  let s = record s { next = update s.next item item }
  ok (record s { prev = update s.prev item item })

-- `__builtin_popcountll`: the bits set among the low `n`
unfoldable pub popcount : ℕ → ℕ → ℕ
popcount zero x = 0
popcount (suc n) x = x % 2 + popcount n (x / 2)

unfoldable pub satisfy_equation : ℕ → ℕ → Bool
satisfy_equation x eq = bit_and (popcount 64 (bit_and x eq)) 1 == 0

-- The body of the loop of `filter_active`, after `next` was saved.
unfoldable pub filter_item : ℕ → ℕ → Lists → Lists
filter_item eq item ls =
    if not (satisfy_equation (ls.store.word item) eq)
    then record ls {
      store = list_insert ls.reject item (list_remove item ls.store);
      m = u32 (ls.m + 2 ^ 32 - 1);
    }
    else ls

-- The loop of `filter_active`, on fuel.
unfoldable pub filter_loop : ℕ → ℕ → ℕ → Lists → Run Lists
filter_loop zero eq item ls = endless
filter_loop (suc fuel) eq item ls =
    let rest = filter_loop fuel eq (ls.store.next item) (filter_item eq item ls) in
    if item == ls.active then ok ls else rest

unfoldable pub filter_active : ℕ → ℕ → Lists → Run Lists
filter_active fuel eq ls = filter_loop fuel eq (ls.store.next ls.active) ls
