-- ===== src/Slice/Checkup.antt =====
-- The fourth phase of `process_slice`: `checkup` reports the triples whose last word stands in
-- the array `CM`, thread by thread.
use xor_mining.Base.{
  ℕ, zero, suc, ◌+◌, ◌≤◌, ◌<◌, ◌≡◌, ◌≢◌, refl, sym, ap, ◌∙◌, arith, Bool, true, false, ◌||◌, List,
  [], ◌∷◌, ◌++◌, map, map-append, get_or, some, if◌then◌else◌, ◌==◌, ==_iff, Bool-cases, ◌⊎◌, inl,
  inr, ◌↔◌, ◌∈◌, ∈-append, ∈-append_left, ∈-append_right,
}
use xor_mining.Base.Run.{Run, ok, endless, exits, fault, ◌>>=◌}
use xor_mining.Table.{table_lookup}
use xor_mining.Table.Cuckoo.{InRange}
use xor_mining.Join.{Triple}
use xor_mining.Join.Correct.{InPieces}
use xor_mining.Result.{Solution, TaskResult, report_solution, report_all}
use xor_mining.Slice.{local, checkup, checkups}

-- Steps with equal continuations.
pub bind_same :
    {A B : Type 0} (m : Run A) {f g : A → Run B} → ((a : A) → f a ≡ g a) → (m >>= f) ≡ (m >>= g)
bind_same (ok a) h = h a
bind_same endless h = refl
bind_same exits h = refl
bind_same fault h = refl

bind_assoc :
    {A B C : Type 0} (m : Run A) (f : A → Run B) (g : B → Run C)
    → ((m >>= f) >>= g) ≡ (m >>= (λ a. f a >>= g))
bind_assoc (ok a) f g = refl
bind_assoc endless f g = refl
bind_assoc exits f g = refl
bind_assoc fault f g = refl

-- Reports one after the other.
report_all-two :
    (xs ys : List Solution) (r : TaskResult)
    → report_all (xs ++ ys) r ≡ (report_all xs r >>= report_all ys)
unfolding report_all
report_all-two [] ys r = refl
report_all-two (x ∷ xs) ys r =
    bind_same (report_solution r x) (report_all-two xs ys)
    ∙ sym (bind_assoc (report_solution r x) (report_all xs) (report_all ys))

-- Whether a word is one of `CM[k]` to `CM[k + left - 1]`
unfoldable pub occurs : List ℕ → ℕ → ℕ → ℕ → Bool
occurs CM x k zero = false
occurs CM x k (suc left) = (get_or CM k 0 == x) || occurs CM x (k + 1) left

-- The triples with the last word among the first `n` of `CM`, in order
unfoldable pub kept : List ℕ → ℕ → List Triple → List Triple
kept CM n [] = []
kept CM n (t ∷ ts) = if occurs CM t.val2 0 n then t ∷ kept CM n ts else kept CM n ts

unfoldable pub flat : {A : Type 0} → List (List A) → List A
flat [] = []
flat (xs ∷ xss) = xs ++ flat xss

pub ∈-flat : {A : Type 0} (x : A) (xss : List (List A)) → (x ∈ flat xss) ↔ InPieces x xss
unfolding flat
∈-flat x [] = (λ bad. absurd bad, λ bad. absurd bad)
∈-flat x (xs ∷ xss) = (
  λ m. elim (∈-append x xs (flat xss) m) [
    | inl now ↦ inl now
    | inr later ↦ inr ((∈-flat x xss).0 later)
  ],
  λ m. elim m [
    | inl now ↦ ∈-append_left x xs (flat xss) now
    | inr later ↦ ∈-append_right x xs (flat xss) ((∈-flat x xss).1 later)
  ],
)

occurs_iff :
    (CM : List ℕ) (x k left : ℕ)
    → (occurs CM x k left ≡ true) ↔ ((i : ℕ) × ((k ≤ i) × (i < k + left) × (get_or CM i 0 ≡ x)))
unfolding occurs
occurs_iff CM x k zero = (λ e. absurd (no e), λ (i, (lo, hi, e)). absurd (omega (arith, lo, hi)))
  where
    no : false ≡ true → ⊥
    no e = cc
occurs_iff CM x k (suc left) = step (Bool-cases (get_or CM k 0 == x)) (occurs_iff CM x (k + 1) left)
  where
    step :
        ((get_or CM k 0 == x) ≡ true) ⊎ ((get_or CM k 0 == x) ≡ false)
        → (occurs CM x (k + 1) left ≡ true)
          ↔ ((i : ℕ) × ((k + 1 ≤ i) × (i < k + 1 + left) × (get_or CM i 0 ≡ x)))
        → (((get_or CM k 0 == x) || occurs CM x (k + 1) left) ≡ true)
          ↔ ((i : ℕ) × ((k ≤ i) × (i < k + suc left) × (get_or CM i 0 ≡ x)))
    step (inl e) rest =
        rw e ((λ yes. (k, (omega arith, omega arith, (==_iff _ _).0 e))), λ found. refl)
    step (inr e) rest = rw e (
      λ yes. let (i, (lo, hi, q)) = rest.0 yes in (i, (omega (arith, lo), omega (arith, hi), q)),
      λ (i, (lo, hi, q)). rest.1 (i, (later i lo q, omega (arith, hi), q)),
    )
      where
        later : (i : ℕ) → k ≤ i → get_or CM i 0 ≡ x → k + 1 ≤ i
        later i lo q = elim (Bool-cases (i == k)) [
          | inl s ↦
              let same : i ≡ k = (==_iff _ _).0 s in
              let hit : (get_or CM k 0 == x) ≡ true = (==_iff _ _).1 (rw same at q) in
              absurd (ground (arith, hit, e))
          | inr s ↦ ground (arith, s, lo)
        ]

-- What is kept are the triples with the last word in the range.
pub kept_iff :
    (CM : List ℕ) (n : ℕ) (ts : List Triple) (t : Triple)
    → (t ∈ kept CM n ts) ↔ ((t ∈ ts) × InRange CM 0 n t.val2)
unfolding kept
kept_iff CM n [] t = (λ bad. absurd bad, λ (bad, c). absurd bad)
kept_iff CM n (u ∷ ts) t =
    step (Bool-cases (occurs CM u.val2 0 n)) (occurs_iff CM u.val2 0 n) (kept_iff CM n ts t)
  where
    no : false ≡ true → ⊥
    no e = cc

    step :
        (occurs CM u.val2 0 n ≡ true) ⊎ (occurs CM u.val2 0 n ≡ false)
        → (occurs CM u.val2 0 n ≡ true) ↔ InRange CM 0 n u.val2
        → (t ∈ kept CM n ts) ↔ ((t ∈ ts) × InRange CM 0 n t.val2)
        → (t ∈ (if occurs CM u.val2 0 n then u ∷ kept CM n ts else kept CM n ts))
          ↔ (((u ≡ t) ⊎ (t ∈ ts)) × InRange CM 0 n t.val2)
    step (inl e) iff rest = rw e (
      λ m. elim m [
        | inl q ↦ (inl q, rw (← q) (iff.0 e))
        | inr m' ↦ let (there, c) = rest.0 m' in (inr there, c)
      ],
      λ (m, c). elim m [ inl q ↦ inl q | inr m' ↦ inr (rest.1 (m', c)) ],
    )
    step (inr e) iff rest = rw e (
      λ m. let (there, c) = rest.0 m in (inr there, c),
      λ (m, c). elim m [
        | inl q ↦ absurd (no (sym e ∙ iff.1 (rw (sym q) at c)))
        | inr m' ↦ rest.1 (m', c)
      ],
    )

-- The look-ups in `H` end, and decide whether a word is one of `CM[0]` to `CM[n - 1]`.
abbrev pub Decides : Bool × List ℕ → List ℕ → ℕ → Type 0
Decides H CM n =
    (x : ℕ) → x ≢ 0 → (b : Bool) × (table_lookup H x ≡ some b) × ((b ≡ true) ↔ InRange CM 0 n x)

same_answer : {P : Type 0} (a b : Bool) → (a ≡ true) ↔ P → (b ≡ true) ↔ P → a ≡ b
same_answer true true f g = refl
same_answer true false f g = sym (g.1 (f.0 refl))
same_answer false true f g = f.1 (g.0 refl)
same_answer false false f g = refl

module _ (H : Bool × List ℕ) (CM : List ℕ) (n : ℕ) (decides : Decides H CM n) where
  looks : (x : ℕ) → x ≢ 0 → table_lookup H x ≡ some (occurs CM x 0 n)
  looks x nz =
      let (b, look, iff) = decides x nz in
      look ∙ ap (λ a. some a) (same_answer b (occurs CM x 0 n) iff (occurs_iff CM x 0 n))

  -- The reports of one thread are those of the triples with the last word in `CM`, in their order,
  -- if no last word is 0 and the look-ups in the table decide what stands in `CM`.
  pub checkup-report_all :
      (pre : List Triple) (r : TaskResult)
      → ((t : Triple) → t ∈ pre → t.val2 ≢ 0)
      → checkup H pre r ≡ report_all (map local (kept CM n pre)) r
  unfolding checkup report_all kept
  checkup-report_all [] r nz = refl
  checkup-report_all (t ∷ pre) r nz =
      go (Bool-cases (occurs CM t.val2 0 n)) (looks t.val2 (nz t (inl refl)))
        (λ r'. checkup-report_all pre r' (λ u m. nz u (inr m)))
    where
      go :
          (occurs CM t.val2 0 n ≡ true) ⊎ (occurs CM t.val2 0 n ≡ false)
          → table_lookup H t.val2 ≡ some (occurs CM t.val2 0 n)
          → ((r' : TaskResult) → checkup H pre r' ≡ report_all (map local (kept CM n pre)) r')
          → checkup H (t ∷ pre) r
            ≡ report_all
                (map local (if occurs CM t.val2 0 n then t ∷ kept CM n pre else kept CM n pre))
                r
      go (inl e) look rest = rw (checkup, look, e) (bind_same (report_solution r (local t)) rest)
      go (inr e) look rest = rw (checkup, look, e) (rest r)

  kept-append : (xs ys : List Triple) → kept CM n (xs ++ ys) ≡ kept CM n xs ++ kept CM n ys
  unfolding kept
  kept-append [] ys = refl
  kept-append (x ∷ xs) ys = elim (Bool-cases (occurs CM x.val2 0 n)) [
    | inl e ↦ rw e (ap (λ r. x ∷ r) (kept-append xs ys))
    | inr e ↦ rw e (kept-append xs ys)
  ]

  -- The threads one after another
  pub checkups-report_all :
      (pres : List (List Triple)) (r : TaskResult)
      → ((t : Triple) → InPieces t pres → t.val2 ≢ 0)
      → checkups H pres r ≡ report_all (map local (kept CM n (flat pres))) r
  unfolding checkups report_all kept flat
  checkups-report_all [] r nz = refl
  checkups-report_all (pre ∷ pres) r nz =
      ap (λ m. m >>= checkups H pres) (checkup-report_all pre r (λ t m. nz t (inl m)))
      ∙ bind_same (report_all (map local (kept CM n pre)) r)
          (λ r'. checkups-report_all pres r' (λ t m. nz t (inr m)))
      ∙ sym (report_all-two (map local (kept CM n pre)) (map local (kept CM n (flat pres))) r)
      ∙ ap (λ xs. report_all xs r) (sym (map-append local (kept CM n pre) (kept CM n (flat pres))))
      ∙ ap (λ xs. report_all (map local xs) r) (sym (kept-append pre (flat pres)))
