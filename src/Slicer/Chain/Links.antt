-- ===== src/Slicer/Chain/Links.antt =====
-- Chains of nodes that are linked both ways, and what one change of the links does to them.
use xor_mining.Base.{
  ℕ, ◌<◌, ◌≤◌, ◌≡◌, ◌≢◌, refl, ◌∙◌, arith, List, [], ◌∷◌, ◌++◌, if◌then◌else◌, ◌==◌,
}
use xor_mining.Base.Count.{count, count-append}
use xor_mining.Slicer.Chain.{Store, list_insert, list_remove}

abbrev pub Link : Store → ℕ → ℕ → Type 0
Link s p q = (s.next p ≡ q) × (s.prev q ≡ p)

-- From `p` through the nodes `xs` to `q`.
abbrev pub Chain : Store → ℕ → List ℕ → ℕ → Type 0
Chain s p [] q = Link s p q
Chain s p (x ∷ xs) q = Link s p x × Chain s x xs q

pub Chain-append :
    (s : Store) (p : ℕ) (xs : List ℕ) (a : ℕ) (ys : List ℕ) (q : ℕ)
    → Chain s p xs a
    → Chain s a ys q
    → Chain s p (xs ++ a ∷ ys) q
Chain-append s p [] a ys q h k = (h, k)
Chain-append s p (x ∷ xs) a ys q h k = (h.0, Chain-append s x xs a ys q h.1 k)

pub Chain-split :
    (s : Store) (p : ℕ) (xs : List ℕ) (a : ℕ) (ys : List ℕ) (q : ℕ)
    → Chain s p (xs ++ a ∷ ys) q
    → Chain s p xs a × Chain s a ys q
Chain-split s p [] a ys q h = (h.0, h.1)
Chain-split s p (x ∷ xs) a ys q h = let (l, r) = Chain-split s x xs a ys q h.1 in ((h.0, l), r)

-- The node before the end, and the one behind the start.
pub prev-inside :
    (s : Store) (p : ℕ) (xs : List ℕ) (q : ℕ) → Chain s p xs q → 0 < count (s.prev q) (p ∷ xs)
prev-inside s p [] q h = ground arith
prev-inside s p (x ∷ xs) q h = omega (arith, prev-inside s x xs q h.1)

pub next-inside :
    (s : Store) (p : ℕ) (xs : List ℕ) (q : ℕ) → Chain s p xs q → 0 < count (s.next p) (xs ++ q ∷ [])
next-inside s p [] q h = ground arith
next-inside s p (x ∷ xs) q h = ground arith

-- A chain reads the `next` fields of all nodes but the last, and the `prev` fields of all but the
-- first.
pub Chain-frame :
    (s t : Store) (p : ℕ) (xs : List ℕ) (q : ℕ)
    → ((z : ℕ) → 0 < count z (p ∷ xs) → t.next z ≡ s.next z)
    → ((z : ℕ) → 0 < count z (xs ++ q ∷ []) → t.prev z ≡ s.prev z)
    → Chain s p xs q
    → Chain t p xs q
Chain-frame s t p [] q n v h = (n p (ground arith) ∙ h.0, v q (ground arith) ∙ h.1)
Chain-frame s t p (x ∷ xs) q n v h = (
  (n p (ground arith) ∙ h.0.0, v x (ground arith) ∙ h.0.1),
  Chain-frame s t x xs q (λ z i. n z (omega arith)) (λ z i. v z (omega arith)) h.1,
)

-- A store in which the node `a` is bridged: what `list_remove` makes.
pub record Bridged (s t : Store) (u v : ℕ) : Type 0 where
  pub word : (z : ℕ) → t.word z ≡ s.word z
  pub next : (z : ℕ) → t.next z ≡ (if z == u then v else s.next z)
  pub prev : (z : ℕ) → t.prev z ≡ (if z == v then u else s.prev z)

pub list_remove-Bridged :
    (s : Store) (a : ℕ) → s.next a ≢ a → Bridged s (list_remove a s) (s.prev a) (s.next a)
unfolding list_remove
list_remove-Bridged s a ne = record {
  word = λ z. refl;
  next = λ z. ground arith;
  prev = λ z. ground arith;
}

skipped :
    (s t : Store) (u v : ℕ)
    → Bridged s t u v
    → (p : ℕ) (xs : List ℕ) (q : ℕ) → count u (p ∷ xs) ≡ 0
    → count v (xs ++ q ∷ []) ≡ 0
    → Chain s p xs q
    → Chain t p xs q
skipped s t u v b p xs q hu hv =
    Chain-frame s t p xs q (λ z i. ground (arith, b.next z)) (λ z i. ground (arith, b.prev z))

pub Chain-remove :
    (s t : Store) (a : ℕ) (ys : List ℕ) (q : ℕ)
    → Bridged s t (s.prev a) (s.next a)
    → Chain s a ys q
    → (p : ℕ) (xs : List ℕ) → ((z : ℕ) → count z (p ∷ (xs ++ a ∷ ys)) ≤ 1)
    → count q (xs ++ a ∷ ys) ≡ 0
    → Chain s p xs a
    → Chain t p (xs ++ ys) q
Chain-remove s t a [] q b k p [] one out h = (ground (arith, b.next p), ground (arith, b.prev q))
Chain-remove s t a (y ∷ ys) q b k p [] one out h = (
  (ground (arith, b.next p), ground (arith, b.prev y)),
  skipped s t (s.prev a) (s.next a) b y ys q (ground (arith, one p))
      (ground (arith, one y, count-append y ys (q ∷ []))) k.1,
)
Chain-remove s t a ys q b k p (x ∷ xs) one out h =
    let before = prev-inside s x xs a h.1 in
    let after = next-inside s a ys q k in
    let u = s.prev a in
    let v = s.next a in
    (
      (
        ground (arith, b.next p, before, one u, count-append u xs (a ∷ ys)),
        ground
            (arith, b.prev x, after, one v, count-append v xs (a ∷ ys), count-append v ys (q ∷ [])),
      ),
      Chain-remove s t a ys q b k x xs (λ z. omega (arith, one z)) (omega (arith, out)) h.1,
    )

-- A store in which the node `a` stands behind `p`: what `list_insert` makes.
pub record Joined (s t : Store) (p a : ℕ) : Type 0 where
  pub word : (z : ℕ) → t.word z ≡ s.word z
  pub next : (z : ℕ) → t.next z ≡ (if z == p then a else if z == a then s.next p else s.next z)
  pub prev : (z : ℕ) → t.prev z ≡ (if z == s.next p then a else if z == a then p else s.prev z)

pub list_insert-Joined :
    (s : Store) (p a : ℕ) → p ≢ a → s.next p ≢ a → Joined s (list_insert p a s) p a
unfolding list_insert
list_insert-Joined s p a ne ne' = record {
  word = λ z. refl;
  next = λ z. ground arith;
  prev = λ z. ground arith;
}

pub Chain-insert :
    (s t : Store) (p a : ℕ) (ys : List ℕ) (q : ℕ)
    → Joined s t p a
    → p ≢ a
    → q ≢ a
    → count a ys ≡ 0
    → ((z : ℕ) → count z (p ∷ ys) ≤ 1)
    → count q ys ≡ 0
    → Chain s p ys q
    → Chain t p (a ∷ ys) q
Chain-insert s t p a [] q j ne ne' out one oq h = (
  (ground (arith, j.next p), ground (arith, j.prev a)),
  (ground (arith, j.next a), ground (arith, j.prev q)),
)
Chain-insert s t p a (y ∷ ys) q j ne ne' out one oq h = (
  (ground (arith, j.next p), ground (arith, j.prev a)),
  (
    (ground (arith, j.next a), ground (arith, j.prev y)),
    Chain-frame s t y ys q (λ z i. ground (arith, j.next z, one p))
        (λ z i. ground (arith, j.prev z, one y, count-append z ys (q ∷ []))) h.1,
  ),
)
