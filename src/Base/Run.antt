-- ===== src/Base/Run.antt =====
-- The outcome of a run of C code: a value, a loop that never ends, a call of `err`, `errx` or a
-- failed `assert`, or a step whose behaviour C leaves undefined.
use mathlib.Core.Option.{Option, none, some}
use mathlib.Core.Path.{◌≡◌, refl, sym, ap, ◌∙◌}
use mathlib.Core.Bool.{Bool, true, false}

pub data Run (A : Type 0) : Type 0 where
  ok : A → Run A
  endless : Run A
  exits : Run A
  fault : Run A

infixl 5 ◌>>=◌ ◌>>◌
abbrev pub ◌>>=◌ : {A B : Type 0} → Run A → (A → Run B) → Run B
ok a >>= f = f a
endless >>= f = endless
exits >>= f = exits
fault >>= f = fault

abbrev pub ◌>>◌ : {B : Type 0} → Run (Unit {0}) → Run B → Run B
m >> k = m >>= λ _. k

-- A loop on fuel that ran out of it is endless.
abbrev pub looped : {A : Type 0} → Option A → Run A
looped none = endless
looped (some a) = ok a

-- `assert(b)`, or `if (!b) errx(…)`
abbrev pub require : Bool → Run (Unit {0})
require true = ok tt
require false = exits

-- If the run returns a value, then the value has the property.
abbrev pub Returns : {A : Type 0} → Run A → (A → Type 0) → Type 0
Returns (ok a) P = P a
Returns endless P = Unit
Returns exits P = Unit
Returns fault P = Unit

pub Returns-bind :
    {A B : Type 0} (m : Run A) (f : A → Run B) (P : A → Type 0) (Q : B → Type 0)
    → Returns m P
    → ((a : A) → P a → Returns (f a) Q)
    → Returns (m >>= f) Q
Returns-bind (ok a) f P Q p h = h a p
Returns-bind endless f P Q p h = tt
Returns-bind exits f P Q p h = tt
Returns-bind fault f P Q p h = tt

pub Returns-weaken :
    {A : Type 0} (m : Run A) (P Q : A → Type 0) → Returns m P → ((a : A) → P a → Q a) → Returns m Q
Returns-weaken (ok a) P Q p h = h a p
Returns-weaken endless P Q p h = tt
Returns-weaken exits P Q p h = tt
Returns-weaken fault P Q p h = tt

pub Returns-all : {A : Type 0} (m : Run A) (P : A → Type 0) → ((a : A) → P a) → Returns m P
Returns-all (ok a) P h = h a
Returns-all endless P h = tt
Returns-all exits P h = tt
Returns-all fault P h = tt

-- What is known of every value holds of the value of a run that ended.
pub Returns-ok : {A : Type 0} (m : Run A) (P : A → Type 0) {a : A} → m ≡ ok a → Returns m P → P a
Returns-ok m P e r = rw e at r

-- What a run that ended went through.
unfoldable pub is_ok : {A : Type 0} → Run A → Bool
is_ok (ok a) = true
is_ok endless = false
is_ok exits = false
is_ok fault = false

pub stopped : {A : Type 0} {m : Run A} {a : A} → is_ok m ≡ false → m ≡ ok a → ⊥
unfolding is_ok
stopped e e' = let t : false ≡ true = sym e ∙ ap is_ok e' in cc

pub bind_inverse :
    {A B : Type 0} (m : Run A) (f : A → Run B) {b : B}
    → (m >>= f) ≡ ok b
    → (a : A) × ((m ≡ ok a) × (f a ≡ ok b))
unfolding is_ok
bind_inverse (ok a) f e = (a, (refl, e))
bind_inverse endless f e = absurd (stopped refl e)
bind_inverse exits f e = absurd (stopped refl e)
bind_inverse fault f e = absurd (stopped refl e)

pub require_inverse :
    {B : Type 0} (test : Bool) (f : Unit {0} → Run B) {b : B}
    → (require test >>= f) ≡ ok b
    → (test ≡ true) × (f tt ≡ ok b)
unfolding is_ok
require_inverse true f e = (refl, e)
require_inverse false f e = absurd (stopped refl e)

pub looped_inverse : {A : Type 0} (o : Option A) {a : A} → looped o ≡ ok a → o ≡ some a
unfolding is_ok
looped_inverse none e = absurd (stopped refl e)
looped_inverse (some a) e = ap to_option e
  where
    to_option : {A : Type 0} → Run A → Option A
    to_option (ok a) = some a
    to_option endless = none
    to_option exits = none
    to_option fault = none

-- The run ends: with a value that has the property, or by `err`, `errx` or a failed `assert`.
abbrev pub Finishes : {A : Type 0} → Run A → (A → Type 0) → Type 0
Finishes (ok a) P = P a
Finishes endless P = ⊥
Finishes exits P = Unit
Finishes fault P = ⊥

pub Finishes-bind :
    {A B : Type 0} (m : Run A) (f : A → Run B) (P : A → Type 0) (Q : B → Type 0)
    → Finishes m P
    → ((a : A) → P a → Finishes (f a) Q)
    → Finishes (m >>= f) Q
Finishes-bind (ok a) f P Q p h = h a p
Finishes-bind endless f P Q p h = absurd p
Finishes-bind exits f P Q p h = tt
Finishes-bind fault f P Q p h = absurd p

pub Finishes-require :
    {B : Type 0} (test : Bool) (f : Unit {0} → Run B) (Q : B → Type 0)
    → (test ≡ true → Finishes (f tt) Q)
    → Finishes (require test >>= f) Q
Finishes-require true f Q h = h refl
Finishes-require false f Q h = tt

pub Finishes-weaken :
    {A : Type 0} (m : Run A) (P Q : A → Type 0)
    → Finishes m P
    → ((a : A) → P a → Q a)
    → Finishes m Q
Finishes-weaken (ok a) P Q p h = h a p
Finishes-weaken endless P Q p h = absurd p
Finishes-weaken exits P Q p h = tt
Finishes-weaken fault P Q p h = absurd p

-- The run ends: with a value that has the property, or by `err`, `errx` or a failed `assert` for
-- the reason `E`.
abbrev pub Ends : {A : Type 0} → Run A → (A → Type 0) → Type 0 → Type 0
Ends (ok a) P E = P a
Ends endless P E = ⊥
Ends exits P E = E
Ends fault P E = ⊥

pub explained : {A : Type 0} (m : Run A) (P : A → Type 0) → Finishes m P → Ends m P (m ≡ exits)
explained (ok a) P h = h
explained endless P h = absurd h
explained exits P h = refl
explained fault P h = absurd h

pub Ends-bind :
    {A B : Type 0} (m : Run A) (f : A → Run B) (P : A → Type 0) (Q : B → Type 0) (E F : Type 0)
    → Ends m P E
    → (E → F)
    → ((a : A) → m ≡ ok a → P a → Ends (f a) Q F)
    → Ends (m >>= f) Q F
Ends-bind (ok a) f P Q E F p up h = h a refl p
Ends-bind endless f P Q E F p up h = absurd p
Ends-bind exits f P Q E F p up h = up p
Ends-bind fault f P Q E F p up h = absurd p

pub Ends-require :
    {B : Type 0} (test : Bool) (f : Unit {0} → Run B) (Q : B → Type 0) (F : Type 0)
    → (test ≡ false → F)
    → (test ≡ true → Ends (f tt) Q F)
    → Ends (require test >>= f) Q F
Ends-require true f Q F up h = h refl
Ends-require false f Q F up h = up refl

pub Ends-weaken :
    {A : Type 0} (m : Run A) (P Q : A → Type 0) (E F : Type 0)
    → Ends m P E
    → (E → F)
    → ((a : A) → P a → Q a)
    → Ends m Q F
Ends-weaken (ok a) P Q E F p up h = h a p
Ends-weaken endless P Q E F p up h = absurd p
Ends-weaken exits P Q E F p up h = up p
Ends-weaken fault P Q E F p up h = absurd p

pub Ends-cases :
    {A : Type 0} (b : Bool) (m n : Run A) (P : A → Type 0) (E : Type 0)
    → (b ≡ true → Ends m P E)
    → (b ≡ false → Ends n P E)
    → Ends (elim b [ true ↦ m | false ↦ n ]) P E
Ends-cases true m n P E f g = f refl
Ends-cases false m n P E f g = g refl
