-- ===== src/Base/Lists.antt =====
-- C arrays as lists, measured and indexed by native numbers, under the library's names.
use Prim.Native.Nat.{ℕ, zero, suc, ◌+◌, ◌<◌, ◌≤◌}
use mathlib.Core.Path.{◌∙◌, ◌≡◌, refl, ap, ap₂}
use mathlib.Core.Logic.{◌↔◌, ◌≢◌, ◌⊎◌, inl, inr}
use mathlib.Core.List.{List, [], ◌∷◌, ◌++◌, map}
use native.Mathlib.Omega.{arith}
use xor_mining.Base.Tests.{if◌then◌else◌, ◌==◌}

module _ {ℓ} {A : Type ℓ} where
  abbrev pub length : List A → ℕ
  length [] = 0
  length (x ∷ xs) = suc (length xs)

  abbrev pub get_or : List A → ℕ → A → A
  get_or [] i d = d
  get_or (x ∷ xs) zero d = x
  get_or (x ∷ xs) (suc i) d = get_or xs i d

  -- A write out of bounds changes nothing.
  abbrev pub set : List A → ℕ → A → List A
  set [] i v = []
  set (x ∷ xs) zero v = v ∷ xs
  set (x ∷ xs) (suc i) v = x ∷ set xs i v

  unfoldable pub replicate : ℕ → A → List A
  replicate zero a = []
  replicate (suc n) a = a ∷ replicate n a

  abbrev pub take : ℕ → List A → List A
  take zero xs = []
  take (suc n) [] = []
  take (suc n) (x ∷ xs) = x ∷ take n xs

  abbrev pub drop : ℕ → List A → List A
  drop zero xs = xs
  drop (suc n) [] = []
  drop (suc n) (x ∷ xs) = drop n xs

  pub length-append : (xs ys : List A) → length (xs ++ ys) ≡ length xs + length ys
  length-append [] ys = omega arith
  length-append (x ∷ xs) ys = omega (arith, length-append xs ys)

  pub length-set : (xs : List A) (i : ℕ) (v : A) → length (set xs i v) ≡ length xs
  length-set [] i v = refl
  length-set (x ∷ xs) zero v = refl
  length-set (x ∷ xs) (suc i) v = ap suc (length-set xs i v)

  pub take-length : (xs : List A) → take (length xs) xs ≡ xs
  take-length [] = refl
  take-length (x ∷ xs) = ap (λ ys. x ∷ ys) (take-length xs)

  pub length-replicate : (n : ℕ) (a : A) → length (replicate n a) ≡ n
  unfolding replicate
  length-replicate zero a = refl
  length-replicate (suc n) a = ap suc (length-replicate n a)

  pub get_or-replicate_inside : (n i : ℕ) (a d : A) → i < n → get_or (replicate n a) i d ≡ a
  unfolding replicate
  get_or-replicate_inside zero i a d h = absurd (omega arith)
  get_or-replicate_inside (suc n) zero a d h = refl
  get_or-replicate_inside (suc n) (suc i) a d h = get_or-replicate_inside n i a d (omega arith)

  pub get_or-replicate : (n i : ℕ) (a : A) → get_or (replicate n a) i a ≡ a
  unfolding replicate
  get_or-replicate (suc n) (suc i) a = get_or-replicate n i a
  get_or-replicate _ _ a = refl

  -- A read behind a write, at the same index or at another.
  pub get_or-set :
      (xs : List A) (i j : ℕ) (v d : A)
      → i < length xs
      → get_or (set xs i v) j d ≡ (if i == j then v else get_or xs j d)
  get_or-set [] i j v d h = absurd (omega arith)
  get_or-set (x ∷ xs) (suc i) (suc j) v d h = ground (arith, get_or-set xs i j v d)
  get_or-set (x ∷ xs) zero zero v d h = ground arith
  get_or-set (x ∷ xs) i j v d h = ground arith

  pub get_or-set_self :
      (xs : List A) (i : ℕ) (v d : A) → i < length xs → get_or (set xs i v) i d ≡ v
  get_or-set_self xs i v d h = ground (arith, get_or-set xs i i v d)

  pub get_or-set_ne :
      (xs : List A) (i j : ℕ) (v d : A) → i ≢ j → get_or (set xs i v) j d ≡ get_or xs j d
  get_or-set_ne [] i j v d ne = refl
  get_or-set_ne (x ∷ xs) zero zero v d ne = absurd (ne refl)
  get_or-set_ne (x ∷ xs) zero (suc j) v d ne = refl
  get_or-set_ne (x ∷ xs) (suc i) zero v d ne = refl
  get_or-set_ne (x ∷ xs) (suc i) (suc j) v d ne = get_or-set_ne xs i j v d (λ e. ne (ap suc e))

  pub get_or_outside : (xs : List A) (i : ℕ) (d : A) → length xs ≤ i → get_or xs i d ≡ d
  get_or_outside [] i d h = refl
  get_or_outside (x ∷ xs) zero d h = absurd (omega arith)
  get_or_outside (x ∷ xs) (suc i) d h = get_or_outside xs i d (omega arith)

  pub get_or_ext :
      (d : A) (xs ys : List A)
      → length xs ≡ length ys
      → ((i : ℕ) → i < length xs → get_or xs i d ≡ get_or ys i d)
      → xs ≡ ys
  get_or_ext d [] [] e h = refl
  get_or_ext d [] (y ∷ ys) e h = absurd (omega arith)
  get_or_ext d (x ∷ xs) [] e h = absurd (omega arith)
  get_or_ext d (x ∷ xs) (y ∷ ys) e h =
      ap₂ ◌∷◌ (h 0 (omega arith))
        (get_or_ext d xs ys (omega arith) (λ i p. h (suc i) (omega arith)))

module _ {A : Type 0} where
  -- Membership by recursion, which the tactics read.
  infix 40 ◌∈◌
  abbrev pub ◌∈◌ : A → List A → Type 0
  a ∈ [] = ⊥
  a ∈ (x ∷ xs) = (x ≡ a) ⊎ (a ∈ xs)

  pub ∈-append_left : (a : A) (xs ys : List A) → a ∈ xs → a ∈ (xs ++ ys)
  ∈-append_left a [] ys h = absurd h
  ∈-append_left a (x ∷ xs) ys (inl e) = inl e
  ∈-append_left a (x ∷ xs) ys (inr h) = inr (∈-append_left a xs ys h)

  pub ∈-append_right : (a : A) (xs ys : List A) → a ∈ ys → a ∈ (xs ++ ys)
  ∈-append_right a [] ys h = h
  ∈-append_right a (x ∷ xs) ys h = inr (∈-append_right a xs ys h)

  pub ∈-append : (a : A) (xs ys : List A) → a ∈ (xs ++ ys) → (a ∈ xs) ⊎ (a ∈ ys)
  ∈-append a [] ys h = inr h
  ∈-append a (x ∷ xs) ys (inl e) = inl (inl e)
  ∈-append a (x ∷ xs) ys (inr h) = elim (∈-append a xs ys h) [ inl l ↦ inl (inr l) | inr r ↦ inr r ]

pub ∈-map :
    {A B : Type 0} (f : A → B) (y : B) (xs : List A)
    → (y ∈ map f xs) ↔ ((x : A) × ((x ∈ xs) × (f x ≡ y)))
∈-map f y [] = (λ bad. absurd bad, λ (x, (bad, e)). absurd bad)
∈-map f y (x ∷ xs) = (
  λ m. elim m [
    | inl e ↦ (x, (inl refl, e))
    | inr m' ↦ let (x', (there, e)) = (∈-map f y xs).0 m' in (x', (inr there, e))
  ],
  λ (x', (m, e)). elim m [
    | inl q ↦ inl (ap f q ∙ e)
    | inr m' ↦ inr ((∈-map f y xs).1 (x', (m', e)))
  ],
)

pub length-map {ℓ κ} :
    {A : Type ℓ} {B : Type κ} (f : A → B) (xs : List A) → length (map f xs) ≡ length xs
length-map f [] = refl
length-map f (x ∷ xs) = ap suc (length-map f xs)

-- Every element of the list has the property.
abbrev pub All {ℓ κ} : {A : Type ℓ} → (A → Type κ) → List A → Type κ
All P [] = Unit
All P (x ∷ xs) = P x × All P xs
