-- ===== src/Slicer/Main/Products.antt =====
-- The steps of a round of the slicer: the products of the active vectors, and the next lists.
use xor_mining.Base.{
  ℕ, zero, suc, ◌-◌, ◌^◌, ◌<◌, ◌≤◌, List, [], ◌∷◌, ◌++◌, get_or, length, map, ◌≡◌, refl, ap, ap₂,
  ◌∙◌, arith, ==_iff,
}
use xor_mining.Base.Run.{ok}
use xor_mining.Base.Count.{count, count-append}
use xor_mining.Word.{◌>>>◌}
use xor_mining.Gemv.{naive_gemv}
use xor_mining.Gemv.Naive.{IsMatrix}
use xor_mining.Slice.{Slice}
use xor_mining.Slicer.Chain.{Lists, Store, list_clear, update}
use xor_mining.Slicer.Chain.Links.{Chain, Chain-frame}
use xor_mining.Slicer.Chain.Moves.{Holds, head_or, head_lem, next-active}
use xor_mining.Slicer.Chain.Filter.{not_active}
use xor_mining.Slicer.Chain.Kept.{get_or-map}
use xor_mining.Slicer.Main.{multiply_active, next_lists}

multiply_loop-products :
    (fuel : ℕ) (ls : Lists) (M : List ℕ) (p : ℕ) (xs : List ℕ)
    → Chain ls.store p xs ls.active
    → count ls.active xs ≡ 0
    → length xs < fuel
    → multiply_active fuel (head_or xs ls.active) M ls
      ≡ ok (map (λ a. naive_gemv (ls.store.word a) M) xs)
unfolding multiply_active
multiply_loop-products zero ls M p xs c out h = absurd (omega arith)
multiply_loop-products (suc fuel) ls M p [] c out h = rw ((==_iff ls.active ls.active).1 refl) refl
multiply_loop-products (suc fuel) ls M p (x ∷ xs) c out h =
    rw
      (
        not_active x ls.active (λ q. ground arith),
        head_lem ls.store x ls.active xs c.1,
        multiply_loop-products fuel ls M x xs c.1 (omega arith) (omega arith),
      )
      refl

pub multiply_active-products :
    (fuel : ℕ) (ls : Lists) (M xs ys : List ℕ)
    → Holds ls xs ys
    → length xs < fuel
    → multiply_active fuel (ls.store.next ls.active) M ls
      ≡ ok (map (λ a. naive_gemv (ls.store.word a) M) xs)
multiply_active-products fuel ls M xs ys holds h =
    ap (λ a. multiply_active fuel a M ls) (next-active ls xs ys holds)
    ∙ multiply_loop-products fuel ls M ls.active xs holds.active_ring
        (ground (arith, holds.once ls.active, count-append ls.active xs ys)) h

-- The lists for the next round: the rejected nodes are active, and none is rejected.
pub next_lists-Holds :
    (n : ℕ) (ls : Lists) (xs ys : List ℕ)
    → Holds ls xs ys
    → ls.store.word ls.active ≡ 0
    → n ≡ length ys
    → n < 2 ^ 32
    → (ls' : Lists) × ((next_lists n ls ≡ ok ls')
        × Holds ls' ys []
        × (ls'.active ≡ ls.reject)
        × (ls'.reject ≡ ls.active)
        × ((z : ℕ) → ls'.store.word z ≡ ls.store.word z))
unfolding next_lists list_clear
next_lists-Holds n ls xs ys holds zero_word e small =
    let a = ls.active in
    let s' : Store = record ls.store {
      next = update ls.store.next a a;
      prev = update ls.store.prev a a;
    } in
    (
      record { store = s'; active = ls.reject; reject = a; m = n },
      (
        rw zero_word refl,
        record {
          active_ring =
              Chain-frame ls.store s' ls.reject ys ls.reject
                (λ z i. ground (arith, holds.once a, count-append a xs ys))
                (λ z i.
                  ground
                    (arith, holds.once a, count-append a xs ys, count-append z ys (ls.reject ∷ [])))
                holds.reject_ring;
          reject_ring = (ground arith, ground arith);
          once = λ z. omega (arith, holds.once z, count-append z xs ys, count-append z ys []);
          counted = e;
          small = omega arith;
        },
        refl,
        refl,
        λ z. refl,
      ),
    )

-- A slice of the output: it has at least `l` equations, and its words, of which there is at least
-- one, are zero on the bits of the equations.
pub record IsPart (l : ℕ) (slice : Slice) : Type 0 where
  pub matrix : IsMatrix slice.M
  pub inverse : IsMatrix slice.minv
  pub inverts : (x : ℕ) → x < 2 ^ 64 → naive_gemv (naive_gemv x slice.M) slice.minv ≡ x
  pub enough : l ≤ slice.l
  pub width : slice.l ≤ 64
  pub size : slice.n ≡ length slice.cm
  pub holds : 0 < slice.n
  pub words : (k : ℕ) → k < slice.n → get_or slice.cm k 0 < 2 ^ 64
  pub narrow : (k : ℕ) → k < slice.n → get_or slice.cm k 0 >>> (64 - slice.l) ≡ 0

-- The vectors of a slice, and of several.
abbrev pub vectors_of : Slice → List ℕ
vectors_of slice = map (λ y. naive_gemv y slice.minv) slice.cm

unfoldable pub all_vectors : List Slice → List ℕ
all_vectors [] = []
all_vectors (slice ∷ slices) = vectors_of slice ++ all_vectors slices

pub undone :
    (word : ℕ → ℕ) (M N xs : List ℕ)
    → ((x : ℕ) → x < 2 ^ 64 → naive_gemv (naive_gemv x M) N ≡ x)
    → ((a : ℕ) → 0 < count a xs → word a < 2 ^ 64)
    → map (λ y. naive_gemv y N) (map (λ a. naive_gemv (word a) M) xs) ≡ map word xs
undone word M N [] inverts small = refl
undone word M N (x ∷ xs) inverts small =
    ap₂ ◌∷◌ (inverts (word x) (small x (ground arith)))
      (undone word M N xs inverts (λ a h. small a (omega arith)))

-- The product of an active vector.
pub product_at :
    (word : ℕ → ℕ) (M xs : List ℕ) (k : ℕ)
    → k < length xs
    → get_or (map (λ a. naive_gemv (word a) M) xs) k 0 ≡ naive_gemv (word (get_or xs k 0)) M
product_at word M xs k h = get_or-map (λ a. naive_gemv (word a) M) xs k h
