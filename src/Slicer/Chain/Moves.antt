-- ===== src/Slicer/Chain/Moves.antt =====
-- The two lists of the slicer as lists of addresses: a node moves from one to the other.
use xor_mining.Base.{
  ℕ, ◌+◌, ◌-◌, ◌^◌, ◌<◌, ◌≤◌, ◌≡◌, ◌≢◌, ◌∙◌, arith, List, [], ◌∷◌, ◌++◌, length, length-append,
  if◌then◌else◌, ◌==◌,
}
use xor_mining.Base.Count.{count, count-append}
use xor_mining.Word.{u32}
use xor_mining.Slicer.Chain.{Store, Lists, list_insert, list_remove}
use xor_mining.Slicer.Chain.Links.{
  Chain, Chain-split, Chain-frame, Chain-remove, Chain-insert, list_remove-Bridged,
  list_insert-Joined, prev-inside, next-inside, Bridged, Joined,
}

-- `active` holds the nodes `xs` and `reject` the nodes `ys`, both as rings through their dummy
-- nodes, without a node twice, and `m` counts the first.
pub record Holds (ls : Lists) (xs ys : List ℕ) : Type 0 where
  pub active_ring : Chain ls.store ls.active xs ls.active
  pub reject_ring : Chain ls.store ls.reject ys ls.reject
  pub once : (z : ℕ) → count z (ls.active ∷ ls.reject ∷ (xs ++ ys)) ≤ 1
  pub counted : ls.m ≡ length xs
  pub small : length xs < 2 ^ 32

-- The first node of a list, or its dummy node.
abbrev pub head_or : List ℕ → ℕ → ℕ
head_or [] d = d
head_or (x ∷ xs) d = x

pub head_lem : (s : Store) (p q : ℕ) (xs : List ℕ) → Chain s p xs q → s.next p ≡ head_or xs q
head_lem s p q [] h = h.0
head_lem s p q (x ∷ xs) h = h.0.0

pub next-active :
    (ls : Lists) (xs ys : List ℕ) → Holds ls xs ys → ls.store.next ls.active ≡ head_or xs ls.active
next-active ls xs ys holds = head_lem ls.store ls.active ls.active xs holds.active_ring

-- The store after node `a` has moved from `active` to `reject`.
abbrev pub moved_store : Lists → ℕ → Store
moved_store ls a = list_insert ls.reject a (list_remove a ls.store)

module _ (ls : Lists) (zs rest ys : List ℕ) (a : ℕ) (holds : Holds ls (zs ++ a ∷ rest) ys) where
  s : Store
  s = ls.store

  removed : Store
  removed = list_remove a s

  parts : Chain s ls.active zs a × Chain s a rest ls.active
  unfolding s
  parts = Chain-split s ls.active zs a rest ls.active holds.active_ring

  -- How often an address stands in each part.
  shares :
      (z : ℕ)
      → (if ls.active == z then 1 else 0)
          + (if ls.reject == z then 1 else 0)
          + (count z zs + (if a == z then 1 else 0) + count z rest)
          + count z ys
        ≤ 1
  shares z =
      omega (arith, holds.once z, count-append z (zs ++ a ∷ rest) ys, count-append z zs (a ∷ rest))

  bridged : Bridged s removed (s.prev a) (s.next a)
  unfolding removed
  bridged = list_remove-Bridged s a (
      ground (
        arith,
        next-inside s a rest ls.active parts.1,
        shares a,
        count-append a rest (ls.active ∷ []),
      ))

  active_after : Chain removed ls.active (zs ++ rest) ls.active
  active_after =
      Chain-remove s removed a rest ls.active bridged parts.1 ls.active zs
        (λ z. omega (arith, shares z, count-append z zs (a ∷ rest)))
        (ground (arith, shares ls.active, count-append ls.active zs (a ∷ rest))) parts.0

  u-inside : 0 < count (s.prev a) (ls.active ∷ zs)
  u-inside = prev-inside s ls.active zs a parts.0

  v-inside : 0 < count (s.next a) (rest ++ ls.active ∷ [])
  v-inside = next-inside s a rest ls.active parts.1

  reject_after : Chain removed ls.reject ys ls.reject
  unfolding s
  reject_after =
      Chain-frame s removed ls.reject ys ls.reject
        (λ z i. ground (arith, bridged.next z, u-inside, shares z))
        (λ z i. ground (
          arith,
          bridged.prev z,
          v-inside,
          shares z,
          count-append z rest (ls.active ∷ []),
          count-append z ys (ls.reject ∷ []),
        ))
        holds.reject_ring

  w-inside : 0 < count (removed.next ls.reject) (ys ++ ls.reject ∷ [])
  w-inside = next-inside removed ls.reject ys ls.reject reject_after

  joined : Joined removed (moved_store ls a) ls.reject a
  unfolding removed s
  joined =
      list_insert-Joined removed ls.reject a (ground (arith, shares a))
        (ground (arith, w-inside, shares a, count-append a ys (ls.reject ∷ [])))

  moved-reject : Chain (moved_store ls a) ls.reject (a ∷ ys) ls.reject
  moved-reject =
      Chain-insert removed (moved_store ls a) ls.reject a ys ls.reject joined
        (ground (arith, shares a)) (ground (arith, shares a)) (ground (arith, shares a))
        (λ z. omega (arith, shares z)) (ground (arith, shares ls.reject)) reject_after

  moved-active : Chain (moved_store ls a) ls.active (zs ++ rest) ls.active
  moved-active =
      Chain-frame removed (moved_store ls a) ls.active (zs ++ rest) ls.active
        (λ z i. ground (arith, joined.next z, shares z, count-append z zs rest))
        (λ z i. ground (
          arith,
          joined.prev z,
          w-inside,
          shares z,
          count-append z (zs ++ rest) (ls.active ∷ []),
          count-append z zs rest,
          count-append z ys (ls.reject ∷ []),
        ))
        active_after

  pub moved-word : (z : ℕ) → (moved_store ls a).word z ≡ ls.store.word z
  unfolding removed s
  moved-word z = joined.word z ∙ bridged.word z

  pub next-pending : ls.store.next a ≡ head_or rest ls.active
  unfolding s
  next-pending = head_lem ls.store a ls.active rest parts.1

  pub pending-active : a ≢ ls.active
  pending-active e = ground (arith, shares a)

  -- All of it, as the body of the loop leaves it.
  pub moved-Holds :
      Holds
        (record ls { store = moved_store ls a; m = u32 (ls.m + 2 ^ 32 - 1) })
        (zs ++ rest)
        (a ∷ ys)
  moved-Holds = record {
    active_ring = moved-active;
    reject_ring = moved-reject;
    once =
        λ z. omega (arith, shares z, count-append z (zs ++ rest) (a ∷ ys), count-append z zs rest);
    counted =
        omega
          (arith, holds.counted, holds.small, length-append zs rest, length-append zs (a ∷ rest));
    small = omega (arith, holds.small, length-append zs rest, length-append zs (a ∷ rest));
  }
