-- ===== src/Slicer/Isd/Rounds.antt =====
-- The iterations of a search end: either at an assertion, or with an equation.
use native.Mathlib.Nat.{mod-lt}
use xor_mining.Base.{
  ℕ, zero, suc, ◌+◌, ◌-◌, ◌*◌, ◌/◌, ◌%◌, ◌<◌, ◌≤◌, Bool, true, false, List, [], ◌∷◌, get_or, length,
  ◌≡◌, refl, ap, sym, ◌∙◌, arith, if◌then◌else◌, ◌==◌, ltb, Bool-cases, inl, inr, ◌⊎◌, replicate,
  length-replicate, map, ==_iff, ℕ_discrete, ltb→lt,
}
use xor_mining.Base.Run.{Run, ok, Ends, Ends-bind, Ends-require, Ends-weaken}
use xor_mining.Base.Count.{count, count-append}
use xor_mining.Slicer.Chain.{Lists}
use xor_mining.Slicer.Chain.Links.{Chain}
use xor_mining.Slicer.Chain.Moves.{Holds, head_or, head_lem, next-active}
use xor_mining.Slicer.Chain.Filter.{not_active}
use xor_mining.Slicer.Echelon.{Grid, echelonize}
use xor_mining.Slicer.Transpose.{transpose}
use xor_mining.Slicer.Rows.{swap, eq_true, eq_false}
use xor_mining.Slicer.Parity.{dot}
use xor_mining.Slicer.Invert.Vectors.{length-swap}
use xor_mining.Slicer.Invert.Columns.{get_or-swap}
use xor_mining.Slicer.Echelon.Sound.{IsSound}
use xor_mining.Slicer.Echelon.Free.{echelonize-Columns}
use xor_mining.Slicer.Isd.Weight.{weight-lt}
use xor_mining.Slicer.Isd.{
  weight_loop, Machine, Search, copy_active, permute_loop, iterate, best_loop, search_loop,
}

-- The words of the active vectors, in order.
copy_loop-words :
    (fuel : ℕ) (ls : Lists) (p : ℕ) (xs : List ℕ)
    → Chain ls.store p xs ls.active
    → count ls.active xs ≡ 0
    → length xs < fuel
    → copy_active fuel (head_or xs ls.active) ls ≡ ok (map ls.store.word xs)
unfolding copy_active
copy_loop-words zero ls p xs c out h = absurd (omega arith)
copy_loop-words (suc fuel) ls p [] c out h = rw ((==_iff ls.active ls.active).1 refl) refl
copy_loop-words (suc fuel) ls p (x ∷ xs) c out h =
    rw
      (
        not_active x ls.active (λ q. ground arith),
        head_lem ls.store x ls.active xs c.1,
        copy_loop-words fuel ls x xs c.1 (omega arith) (omega arith),
      )
      refl

pub copy_active-words :
    (fuel : ℕ) (ls : Lists) (xs ys : List ℕ)
    → Holds ls xs ys
    → length xs < fuel
    → copy_active fuel (ls.store.next ls.active) ls ≡ ok (map ls.store.word xs)
copy_active-words fuel ls xs ys holds h =
    ap (λ a. copy_active fuel a ls) (next-active ls xs ys holds)
    ∙ copy_loop-words fuel ls ls.active xs holds.active_ring
        (ground (arith, holds.once ls.active, count-append ls.active xs ys)) h

-- The rows of a matrix that stand among the first `m` of another.
abbrev pub Among : ℕ → List ℕ → List ℕ → Type 0
Among m old M = (v : ℕ) → v < m → (u : ℕ) × ((u < m) × (get_or M v 0 ≡ get_or old u 0))

swap-Among : (m i o : ℕ) (M : List ℕ) → i < m → o < m → m ≤ length M → Among m M (swap M i o)
swap-Among m i o M hi ho long v hv =
    let read = get_or-swap M i o v (omega arith) (omega arith) in
    elim (ℕ_discrete o v) [
      | yes e ↦ (i, (hi, read ∙ rw (e, eq_true v) refl))
      | no no_v ↦ elim (ℕ_discrete i v) [
        | yes e ↦ (o, (ho, read ∙ rw (eq_false o v no_v, e, eq_true v) refl))
        | no ni ↦ (v, (hv, read ∙ rw (eq_false o v no_v, eq_false i v ni) refl))
      ]
    ]

Among-trans : (m : ℕ) (A B C : List ℕ) → Among m A B → Among m B C → Among m A C
Among-trans m A B C f g v hv =
    let (u, (hu, e)) = g v hv in let (t, (ht, e')) = f u hu in (t, (ht, e ∙ e'))

permute_loop-Among :
    (lrand48 : ℕ → ℕ) (left i m : ℕ) (M : List ℕ) (calls : ℕ)
    → i + left ≤ m
    → m ≤ length M
    → Among m M (permute_loop lrand48 left i m M calls).0
      × (length (permute_loop lrand48 left i m M calls).0 ≡ length M)
unfolding permute_loop
permute_loop-Among lrand48 zero i m M calls le long = (λ v hv. (v, (hv, refl)), refl)
permute_loop-Among lrand48 (suc left) i m M calls le long =
    let gap : 0 < m - i = omega arith in
    let o = i + lrand48 calls % (m - i) in
    let small : o < m = omega (arith, mod-lt (lrand48 calls) gap) in
    let same = length-swap M i o in
    let (rest, long') =
      permute_loop-Among lrand48 left (i + 1) m (swap M i o) (calls + 1) (omega arith)
        (omega arith) in
    (
      Among-trans m M (swap M i o) _ (swap-Among m i o M (omega arith) small long) rest,
      long' ∙ same,
    )

-- An equation that one of the first `m` rows satisfies.
abbrev pub Hit : ℕ → List ℕ → ℕ → Type 0
Hit m M eq = (v : ℕ) × ((v < m) × (dot (get_or M v 0) eq ≡ false))

Hit-Among : (m : ℕ) (M0 M : List ℕ) (eq : ℕ) → Among m M0 M → Hit m M eq → Hit m M0 eq
Hit-Among m M0 M eq among (v, (hv, e)) =
    let (u, (hu, e')) = among v hv in (u, (hu, ap (λ x. dot x eq) (sym e') ∙ e))

better :
    (i w m : ℕ) (M0 M : List ℕ) (g : Grid) (best : ℕ × ℕ)
    → i < 64
    → m ≤ 64 * w
    → IsSound w (λ v. get_or M v 0) g
    → best.0 ≤ m
    → Among m M0 M
    → Hit m M0 best.1
    → let next =
        if ltb (weight_loop w 0 i w g.T) best.0
        then (weight_loop w 0 i w g.T, get_or g.E i 0)
        else best in
      (next.0 ≤ m) × Hit m M0 next.1
better i w m M0 M g best hi hm is light among hit =
    elim (Bool-cases (ltb (weight_loop w 0 i w g.T) best.0)) [
      | inl less ↦
          let lt = ltb→lt (weight_loop w 0 i w g.T) best.0 less in
          rw less (
            omega arith,
            Hit-Among m M0 M _ among (weight-lt w m i (λ v. get_or M v 0) g hm hi is (omega arith)),
          )
      | inr more ↦ rw more (light, hit)
    ]

best_loop-Hit :
    (left i w m : ℕ) (M0 M : List ℕ) (g : Grid) (best : ℕ × ℕ)
    → i + left ≤ 64
    → m ≤ 64 * w
    → IsSound w (λ v. get_or M v 0) g
    → best.0 ≤ m
    → Among m M0 M
    → Hit m M0 best.1
    → ((best_loop left i w g best).0 ≤ m) × Hit m M0 (best_loop left i w g best).1
unfolding best_loop
best_loop-Hit zero i w m M0 M g best le hm is light among hit = (light, hit)
best_loop-Hit (suc left) i w m M0 M g best le hm is light among hit =
    let (light', hit') = better i w m M0 M g best (omega arith) hm is light among hit in
    best_loop-Hit left (i + 1) w m M0 M g _ (omega arith) hm is light' among hit'

-- What an iteration keeps: the rows are those of `M0`, and one of them satisfies the equation.
pub record Going (m : ℕ) (M0 : List ℕ) (tests : ℕ) (s : Search) : Type 0 where
  pub long : length s.M ≡ 64 * ((m + 63) / 64)
  pub room : length s.T ≡ 64 * ((m + 63) / 64)
  pub among : Among m M0 s.M
  pub light : s.best_weight ≤ m
  pub hit : Hit m M0 s.best_equation
  pub clock : s.tests ≡ tests

next_round :
    (low late : Bool) (s s' : Search) (rest : Run Search) (P : Search → Type 0) (E F : Type 0)
    → P s
    → P s'
    → (E → F)
    → (late ≡ true → Ends rest P E)
    → Ends (elim low [ true ↦ ok s | false ↦ elim late [ true ↦ rest | false ↦ ok s' ] ]) P F
next_round true late s s' rest P E F p p' up h = p
next_round false true s s' rest P E F p p' up h = Ends-weaken rest P P E F (h refl) up (λ a q. q)
next_round false false s s' rest P E F p p' up h = p'

-- Why an iteration fails: `assert(j == d)`, on the vectors as they were permuted
pub Deficient : Machine → ℕ → ℕ → ℕ → Search → Type 0
Deficient machine fuel m k s =
    let d = 64 - k in
    let p = permute_loop machine.lrand48 d 0 m s.M s.calls in
    let w = (m + 63) / 64 in
    (r : ℕ × Grid) × (echelonize machine.lrand48 fuel (transpose p.0 w s.T) m w d (replicate 64 0)
        p.1
      ≡ ok r)
    × ((r.0 == d) ≡ false)

-- One of the iterations that the search comes to fails.
pub SearchStops : Machine → ℕ → ℕ → ℕ → ℕ → Search → Type 0
SearchStops machine zero fuel m k s = ⊥
SearchStops machine (suc rounds) fuel m k s =
    Deficient machine fuel m k s
    ⊎ ((s' : Search) × (iterate machine fuel m k s ≡ ok s')
        × SearchStops machine rounds fuel m k (record s' { tests = s'.tests + 1 }))

module _ (machine : Machine) (fuel m k : ℕ) (M0 : List ℕ) (pos : 0 < m) (hk : k ≤ 64)
    (enough : 64 - k ≤ m) (h : 6 + m < fuel) where
  iterate-Going :
      (tests : ℕ) (s : Search)
      → Going m M0 tests s
      → Ends (iterate machine fuel m k s) (Going m M0 tests) (Deficient machine fuel m k s)
  unfolding iterate Deficient
  iterate-Going tests s going =
      let w = (m + 63) / 64 in
      let d = 64 - k in
      let p = permute_loop machine.lrand48 d 0 m s.M s.calls in
      let (mixed, long) =
        permute_loop-Among machine.lrand48 d 0 m s.M s.calls (omega arith)
          (omega (arith, going.long)) in
      let some_word : 0 < w = omega arith in
      let (r, (run, c)) =
        echelonize-Columns machine.lrand48 fuel m d p.1 p.0 s.T (replicate 64 0) some_word
          (omega arith) h going.room (length-replicate {A = ℕ} 64 0) in
      rw run (
        Ends-require (r.0 == d) _ _ _ (λ missing. (r, refl, missing))
          (λ full.
            let b =
              best_loop-Hit d 0 w m M0 p.0 r.1 (s.best_weight, s.best_equation) (omega arith)
                (omega arith) c.sound going.light (Among-trans m M0 s.M p.0 going.among mixed)
                going.hit in
            record {
              long = long ∙ going.long;
              room = c.sound.long;
              among = Among-trans m M0 s.M p.0 going.among mixed;
              light = b.0;
              hit = b.1;
              clock = going.clock;
            }))

  later :
      (rounds tests : ℕ) (s' : Search) (i : ℕ)
      → i < suc rounds
      → machine.in_time (tests + i) ≡ false
      → Going m M0 tests s'
      → machine.in_time s'.tests ≡ true
      → ((j : ℕ)
          → j < rounds
          → machine.in_time (tests + 1 + j) ≡ false
          → Going m M0 (tests + 1) (record s' { tests = s'.tests + 1 })
          → Ends
              (search_loop machine rounds fuel m k (record s' { tests = s'.tests + 1 }))
              (λ r. Hit m M0 r.best_equation)
              (SearchStops machine rounds fuel m k (record s' { tests = s'.tests + 1 })))
      → Ends
          (search_loop machine rounds fuel m k (record s' { tests = s'.tests + 1 }))
          (λ r. Hit m M0 r.best_equation)
          (SearchStops machine rounds fuel m k (record s' { tests = s'.tests + 1 }))
  later rounds tests s' zero lt late g again rec =
      let z : tests + 0 ≡ s'.tests = omega (arith, g.clock) in
      let bad : true ≡ false = sym again ∙ ap machine.in_time (sym z) ∙ late in absurd (cc)
  later rounds tests s' (suc i) lt late g again rec =
      let e : tests + suc i ≡ tests + 1 + i = omega arith in
      rec i (omega arith) (rw e at late) (record {
        long = g.long;
        room = g.room;
        among = g.among;
        light = g.light;
        hit = g.hit;
        clock = omega (arith, g.clock);
      })

  -- The search ends within `rounds` iterations, if one of so many tests of the clock fails.
  pub search_loop-Going :
      (rounds tests : ℕ) (s : Search)
      → (i : ℕ) → i < rounds
      → machine.in_time (tests + i) ≡ false
      → Going m M0 tests s
      → Ends
          (search_loop machine rounds fuel m k s)
          (λ s'. Hit m M0 s'.best_equation)
          (SearchStops machine rounds fuel m k s)
  unfolding search_loop SearchStops
  search_loop-Going zero tests s i lt late going = absurd (omega arith)
  search_loop-Going (suc rounds) tests s i lt late going =
      Ends-bind (iterate machine fuel m k s) _ _ _ _ _ (iterate-Going tests s going) (λ e. inl e)
        (λ s' ran g.
          next_round (ltb s'.best_weight (machine.expected_w m (64 - k))) (machine.in_time s'.tests)
            s' _ _ _ _ _ g.hit g.hit (λ e. inr (s', ran, e))
            (λ again.
              later rounds tests s' i lt late g again
                (λ j hj late' g'. search_loop-Going rounds (tests + 1) _ j hj late' g')))
