-- ===== src/Slicer/Isd/Correct.antt =====
-- `slice_it` ends with at least `l` equations, which all active vectors satisfy.
use xor_mining.Base.{
  ℕ, zero, suc, ◌+◌, ◌-◌, ◌*◌, ◌/◌, ◌<◌, ◌≤◌, Bool, true, false, not, List, [], ◌∷◌, get_or, set,
  length, ◌≡◌, refl, ap, sym, ◌∙◌, arith, ltb, leb, ltb→lt, Bool-cases, inl, inr, ◌⊎◌, replicate,
  length-replicate, map, length-map, ℕ_discrete, get_or-set_self, get_or-set_ne, length-set, dec_lt,
}
use xor_mining.Base.Run.{
  ok, exits, explained, Ends, Ends-bind, Ends-require, Ends-cases, Ends-weaken,
}
use xor_mining.Base.Count.{count}
use xor_mining.Slicer.Parity.{dot, dot_comm, zero-dot, satisfy_equation-dot}
use xor_mining.Slicer.Chain.{Lists, satisfy_equation}
use xor_mining.Slicer.Chain.Moves.{Holds}
use xor_mining.Slicer.Chain.Filter.{Filtered, filter_active-Filtered, kept, missed, test_of}
use xor_mining.Slicer.Chain.Kept.{
  count-kept-missed, length-kept-missed, length-kept, kept-passes, kept-holds, place_of, get_or-map,
}
use xor_mining.Slicer.Echelon.{check_rank_defect}
use xor_mining.Slicer.Echelon.Free.{Extended, check_rank_defect-Extended}
use xor_mining.Slicer.Isd.{
  Machine, Slicing, Search, copy_active, padded, search_loop, isd_pass, slice_loop, slice_it,
}
use xor_mining.Slicer.Isd.Rounds.{Hit, Going, SearchStops, search_loop-Going, copy_active-words}

get_or-padded :
    (n v : ℕ) (words : List ℕ)
    → length words ≤ n
    → v < length words
    → get_or (padded n words) v 0 ≡ get_or words v 0
unfolding padded
get_or-padded zero v words le h = absurd (omega arith)
get_or-padded (suc n) v [] le h = absurd (omega arith)
get_or-padded (suc n) zero (x ∷ words) le h = refl
get_or-padded (suc n) (suc v) (x ∷ words) le h = get_or-padded n v words (omega arith) (omega arith)

length-padded : (n : ℕ) (words : List ℕ) → length words ≤ n → length (padded n words) ≡ n
unfolding padded
length-padded zero [] le = refl
length-padded zero (x ∷ words) le = absurd (omega arith)
length-padded (suc n) [] le = ap suc (length-padded n [] (omega arith))
length-padded (suc n) (x ∷ words) le = ap suc (length-padded n words (omega arith))

-- From the lists `ls0`, with the nodes `xs0` and `ys0`, and words `word`.
pub record IsSlicing (ls0 : Lists) (xs0 ys0 : List ℕ) (s : Slicing) : Type 0 where
  pub xs : List ℕ
  pub ys : List ℕ
  pub holds : Holds s.lists xs ys
  pub active : s.lists.active ≡ ls0.active
  pub reject : s.lists.reject ≡ ls0.reject
  pub words : (z : ℕ) → s.lists.store.word z ≡ ls0.store.word z
  pub size : length s.equations ≡ 64
  pub few : s.k ≤ 64
  pub satisfied :
      (i a : ℕ) → i < s.k → 0 < count a xs → dot (ls0.store.word a) (get_or s.equations i 0) ≡ false
  pub conserved :
      (z : ℕ) (f : ℕ → ℕ)
      → count z (map f xs) + count z (map f ys) ≡ count z (map f xs0) + count z (map f ys0)
  pub total : length xs + length ys ≡ length xs0 + length ys0
  pub some_active : 0 < length xs
  pub short : length xs ≤ length xs0

-- A search from the vectors `M`
abbrev pub search_start : List ℕ → Slicing → Search
search_start M s = record {
  M = M;
  T = replicate (64 * ((s.lists.m + 63) / 64)) 0;
  best_weight = s.lists.m;
  best_equation = 0;
  calls = s.calls;
  tests = s.tests;
}

-- Why a pass on the vectors `M` fails: `assert(m >= d)`, or an iteration of the search
pub PassFails : Machine → ℕ → ℕ → List ℕ → Slicing → Type 0
PassFails machine rounds fuel M s =
    (leb (64 - s.k) s.lists.m ≡ false)
    ⊎ SearchStops machine rounds fuel s.lists.m s.k (search_start M s)

-- One of the passes that the loop comes to fails, or the check before it at its assertion.
pub SliceStops : Machine → ℕ → ℕ → ℕ → ℕ → Slicing → Type 0
SliceStops machine zero rounds fuel l s = ⊥
SliceStops machine (suc passes) rounds fuel l s =
    (words : List ℕ) × (copy_active fuel (s.lists.store.next s.lists.active) s.lists ≡ ok words)
    × (let M = padded (64 * ((s.lists.m + 63) / 64)) words in
        let check = check_rank_defect machine.lrand48 fuel M s.lists.m s.equations s.k s.calls in
        (check ≡ exits)
        ⊎ ((out : List ℕ × ℕ × ℕ) × (check ≡ ok out)
            × (let s' = record s { equations = out.0; k = out.1; calls = out.2 } in
                PassFails machine rounds fuel M s'
                ⊎ ((s'' : Slicing) × (isd_pass machine rounds fuel M s' ≡ ok s'')
                    × SliceStops machine passes rounds fuel l s''))))

-- The matrix of the active vectors.
abbrev vectors : Lists → List ℕ → List ℕ
vectors ls xs = padded (64 * ((ls.m + 63) / 64)) (map ls.store.word xs)

module _ (ls : Lists) (xs ys : List ℕ) (holds : Holds ls xs ys) where
  length-vectors : length (vectors ls xs) ≡ 64 * ((ls.m + 63) / 64)
  length-vectors =
      length-padded _ (map ls.store.word xs)
        (omega (arith, length-map ls.store.word xs, holds.counted))

  get_or-vectors :
      (v : ℕ) → v < length xs → get_or (vectors ls xs) v 0 ≡ ls.store.word (get_or xs v 0)
  get_or-vectors v h =
      get_or-padded _ v (map ls.store.word xs)
        (omega (arith, length-map ls.store.word xs, holds.counted))
        (omega (arith, length-map ls.store.word xs))
      ∙ get_or-map ls.store.word xs v h

passes-dot : (x eq : ℕ) → satisfy_equation x eq ≡ true → dot x eq ≡ false
passes-dot x eq e = not_true (dot x eq) (sym (satisfy_equation-dot x eq) ∙ e)
  where
    not_true : (b : Bool) → not b ≡ true → b ≡ false
    not_true b e = ground arith

dot-passes : (x eq : ℕ) → dot x eq ≡ false → satisfy_equation x eq ≡ true
dot-passes x eq e = rw (satisfy_equation-dot x eq, e) refl

module _ (machine : Machine) (rounds fuel : ℕ)
    (expires : (n : ℕ) → (i : ℕ) × ((i < rounds) × (machine.in_time (n + i) ≡ false))) (ls0 : Lists)
    (xs0 ys0 : List ℕ) (h : 6 + length xs0 < fuel) where
  -- The check keeps all this: its equations hold of all active vectors.
  checked-IsSlicing :
      (s : Slicing) (is : IsSlicing ls0 xs0 ys0 s) (out : List ℕ × ℕ × ℕ)
      → Extended ((s.lists.m + 63) / 64) (vectors s.lists is.xs) s.equations s.k out
      → IsSlicing ls0 xs0 ys0 (record s { equations = out.0; k = out.1; calls = out.2 })
  checked-IsSlicing s is out ext = record {
    xs = is.xs;
    ys = is.ys;
    holds = is.holds;
    active = is.active;
    reject = is.reject;
    words = is.words;
    size = ext.size;
    few = ext.to;
    satisfied = λ i a hi ha. elim (dec_lt i s.k) [
      | yes old ↦ ap (dot (ls0.store.word a)) (ext.before i old) ∙ is.satisfied i a old ha
      | no new ↦
          let (v, (hv, e)) = place_of a is.xs ha in
          ap (λ x. dot x (get_or out.0 i 0))
            (sym (is.words a)
              ∙ ap s.lists.store.word (sym e)
              ∙ sym (get_or-vectors s.lists is.xs is.ys is.holds v hv))
          ∙ ext.free i v (omega arith) hi (omega (arith, is.holds.counted))
    ];
    conserved = is.conserved;
    total = is.total;
    some_active = is.some_active;
    short = is.short;
  }

  -- What a pass adds: an equation that one active vector satisfies, at least.
  filtered-IsSlicing :
      (s : Slicing) (is : IsSlicing ls0 xs0 ys0 s) (found : Search) (lists : Lists)
      → s.k < 64
      → Hit s.lists.m (vectors s.lists is.xs) found.best_equation
      → Filtered s.lists lists
          (kept (test_of s.lists.store.word found.best_equation) is.xs)
          (missed (test_of s.lists.store.word found.best_equation) is.xs is.ys)
      → IsSlicing ls0 xs0 ys0 (record {
        lists = lists;
        equations = set s.equations s.k found.best_equation;
        k = s.k + 1;
        calls = found.calls;
        tests = found.tests;
      })
  filtered-IsSlicing s is found lists hk (v, (hv, hit)) f =
      let test = test_of s.lists.store.word found.best_equation in
      record {
        xs = kept test is.xs;
        ys = missed test is.xs is.ys;
        holds = f.holds;
        active = f.active ∙ is.active;
        reject = f.reject ∙ is.reject;
        words = λ z. f.words z ∙ is.words z;
        size = length-set s.equations s.k _ ∙ is.size;
        few = omega arith;
        satisfied = λ i a hi ha.
            let (old, pass) = kept-passes a test is.xs ha in
            elim (ℕ_discrete s.k i) [
              | yes e ↦
                  rw
                    (
                      ← e,
                      get_or-set_self s.equations s.k found.best_equation 0
                          (omega (arith, is.size)),
                    )
                    (passes-dot (ls0.store.word a) found.best_equation (rw (is.words a) at pass))
              | no ne ↦
                  ap (dot (ls0.store.word a)) (get_or-set_ne s.equations s.k i _ 0 ne)
                  ∙ is.satisfied i a (omega arith) old
            ];
        conserved = λ z f. count-kept-missed z f test is.xs is.ys ∙ is.conserved z f;
        total = length-kept-missed test is.xs is.ys ∙ is.total;
        some_active = kept-holds test is.xs v (omega (arith, is.holds.counted)) (
            dot-passes _ _ (
              ap (λ x. dot x found.best_equation)
                (sym
                  (get_or-vectors s.lists is.xs is.ys is.holds v (omega (arith, is.holds.counted))))
              ∙ hit));
        short = omega (arith, length-kept test is.xs, is.short);
      }

  isd_pass-IsSlicing :
      (s : Slicing) (is : IsSlicing ls0 xs0 ys0 s)
      → s.k < 64
      → Ends
          (isd_pass machine rounds fuel (vectors s.lists is.xs) s)
          (λ s'. IsSlicing ls0 xs0 ys0 s' × (s'.k ≡ s.k + 1))
          (PassFails machine rounds fuel (vectors s.lists is.xs) s)
  unfolding isd_pass PassFails
  isd_pass-IsSlicing s is hk =
      Ends-require (leb (64 - s.k) s.lists.m) _ _ _ (λ e. inl e)
        (λ enough.
          let m = s.lists.m in
          let (i, (lt, late)) = expires s.tests in
          let start = search_start (vectors s.lists is.xs) s in
          let some_active : 0 < m = omega (arith, is.holds.counted, is.some_active) in
          let going : Going m (vectors s.lists is.xs) s.tests start = record {
            long = length-vectors s.lists is.xs is.ys is.holds;
            room = length-replicate {A = ℕ} (64 * ((m + 63) / 64)) 0;
            among = λ v hv. (v, (hv, refl));
            light = omega arith;
            hit = (
              0,
              (
                some_active,
                dot_comm (get_or (vectors s.lists is.xs) 0 0) 0
                    ∙ zero-dot (get_or (vectors s.lists is.xs) 0 0),
              ),
            );
            clock = refl;
          } in
          Ends-bind (search_loop machine rounds fuel m s.k start) _
            (λ found. Hit m (vectors s.lists is.xs) found.best_equation) _ _ _
            (search_loop-Going machine fuel m s.k (vectors s.lists is.xs) some_active (omega arith)
              (ground arith) (omega (arith, is.holds.counted, is.short)) rounds s.tests start i lt
              late going)
            (λ e. inr e)
            (λ found ran hit.
              let (lists, (run, f)) =
                filter_active-Filtered fuel found.best_equation s.lists is.xs is.ys is.holds
                  (omega (arith, is.short)) in
              rw run (filtered-IsSlicing s is found lists hk hit f, refl)))

  -- The loop, given a pass for each equation that is missing.
  slice_loop-IsSlicing :
      (passes l : ℕ) (s : Slicing)
      → IsSlicing ls0 xs0 ys0 s
      → l ≤ 64
      → l ≤ s.k + passes
      → Ends
          (slice_loop machine passes rounds fuel l s)
          (λ s'. IsSlicing ls0 xs0 ys0 s' × (l ≤ s'.k))
          (SliceStops machine passes rounds fuel l s)
  unfolding slice_loop checked-IsSlicing SliceStops
  slice_loop-IsSlicing zero l s is hl enough = elim (Bool-cases (ltb s.k l)) [
    | inl e ↦ absurd (omega (arith, ltb→lt s.k l e))
    | inr e ↦ rw e (is, omega arith)
  ]
  slice_loop-IsSlicing (suc passes) l s is hl enough =
      Ends-cases (ltb s.k l) _ _ _ _
        (λ more.
          let M = vectors s.lists is.xs in
          let check = check_rank_defect machine.lrand48 fuel M s.lists.m s.equations s.k s.calls in
          rw (copy_active-words fuel s.lists is.xs is.ys is.holds (omega (arith, is.short))) (
            Ends-bind check _ _ _ _ _
              (explained check _ (
                check_rank_defect-Extended machine.lrand48 fuel s.lists.m s.k s.calls M s.equations
                  is.size is.few (omega (arith, is.holds.counted, is.short))))
              (λ e. (_, refl, inl e))
              (λ out checked ext.
                let s' : Slicing = record s { equations = out.0; k = out.1; calls = out.2 } in
                let is' : IsSlicing ls0 xs0 ys0 s' = checked-IsSlicing s is out ext in
                Ends-cases (leb l out.1) _ _ _ _ (λ done. (is', ground arith))
                  (λ missing.
                    Ends-bind (isd_pass machine rounds fuel M s') _ _ _ _ _
                      (isd_pass-IsSlicing s' is' (ground arith))
                      (λ e. (_, refl, inr (out, checked, inl e)))
                      (λ s'' passed (is'', count).
                        Ends-weaken (slice_loop machine passes rounds fuel l s'') _ _ _ _
                          (slice_loop-IsSlicing passes l s'' is'' hl (omega (arith, ext.from)))
                          (λ e. (_, refl, inr (out, checked, inr (s'', passed, e)))) (λ a p. p))))))
        (λ done. (is, ground arith))

-- `slice_it` for `l` equations ends: at an assertion of one of its passes, or with at least `l` equations that all
-- active vectors satisfy, of which there is at least one, the vectors shared out between the two
-- lists, given that each `rounds` tests of the clock have one that fails.
pub slice_it-IsSlicing :
    (machine : Machine) (rounds fuel l : ℕ)
    → ((n : ℕ) → (i : ℕ) × ((i < rounds) × (machine.in_time (n + i) ≡ false)))
    → (equations : List ℕ) (ls : Lists) (xs ys : List ℕ) (calls tests : ℕ) → 6 + length xs < fuel
    → l ≤ 64
    → length equations ≡ 64
    → Holds ls xs ys
    → 0 < length xs
    → Ends
        (slice_it machine rounds fuel l equations ls calls tests)
        (λ s. IsSlicing ls xs ys s × (l ≤ s.k))
        (SliceStops machine l rounds fuel l
          (record { lists = ls; equations = equations; k = 0; calls = calls; tests = tests }))
unfolding slice_it
slice_it-IsSlicing machine rounds fuel l expires equations ls xs ys calls tests h hl size holds
      some_active =
    Ends-bind (slice_loop machine l rounds fuel l _) _ _ _ _ _
      (slice_loop-IsSlicing machine rounds fuel expires ls xs ys h l l
        (record { lists = ls; equations = equations; k = 0; calls = calls; tests = tests })
        (record {
          xs = xs;
          ys = ys;
          holds = holds;
          active = refl;
          reject = refl;
          words = λ z. refl;
          size = size;
          few = omega arith;
          satisfied = λ i a hi ha. absurd (omega arith);
          conserved = λ z f. refl;
          total = refl;
          some_active = some_active;
          short = omega arith;
        })
        hl (omega arith))
      (λ e. e)
      (λ s ran (is, enough).
        Ends-require (leb l s.k) _ _ _ (λ e. absurd (ground (arith, e, enough)))
          (λ e. (is, enough)))
