-- ===== src/Slicer/Main/Setup.antt =====
-- The lists before the first slice: all vectors are active.
use xor_mining.Base.{
  ℕ, zero, suc, ◌+◌, ◌^◌, ◌<◌, List, [], ◌∷◌, ◌++◌, get_or, length, take, take-length, map, ◌≡◌,
  refl, ap, ap₂, sym, ◌∙◌, arith, if◌then◌else◌, ◌==◌, ltb, ◌≢◌,
}
use xor_mining.Base.Run.{ok}
use xor_mining.Base.Count.{count, count-append}
use xor_mining.Slicer.Rows.{eq_true, eq_false}
use xor_mining.Slicer.Chain.{Store, Lists, update, list_insert, list_clear}
use xor_mining.Slicer.Chain.Links.{Chain, Chain-insert, list_insert-Joined, Joined, next-inside}
use xor_mining.Slicer.Chain.Moves.{Holds}
use xor_mining.Slicer.Main.{setup_loop, setup}

-- The items below `i` stand in the list of dummy node `n`, and that of `n + 1` is empty.
record IsFilled (n i : ℕ) (L : List ℕ) (s : Store) (xs : List ℕ) : Type 0 where
  ring : Chain s n xs n
  empty : Chain s (n + 1) [] (n + 1)
  counts : (z : ℕ) → count z xs ≡ (if ltb z i then 1 else 0)
  size : length xs ≡ i
  words : (z : ℕ) → z < i → s.word z ≡ get_or L z 0
  values : (x : ℕ) → count x (map s.word xs) ≡ count x (take i L)
  zeros : (s.word n ≡ 0) × (s.word (n + 1) ≡ 0)

pub map_congr :
    (f g : ℕ → ℕ) (xs : List ℕ) → ((z : ℕ) → 0 < count z xs → f z ≡ g z) → map f xs ≡ map g xs
map_congr f g [] h = refl
map_congr f g (x ∷ xs) h =
    ap₂ ◌∷◌ (h x (ground arith)) (map_congr f g xs (λ z p. h z (omega arith)))

count-take :
    (x : ℕ) (L : List ℕ) (i : ℕ)
    → i < length L
    → count x (take (i + 1) L) ≡ (if get_or L i 0 == x then 1 else 0) + count x (take i L)
count-take x [] i h = absurd (omega arith)
count-take x (y ∷ L) zero h = omega arith
count-take x (y ∷ L) (suc i) h =
    let e : suc i + 1 ≡ suc (i + 1) = omega arith in
    rw e (omega (arith, count-take x L i (omega arith)))

setup_step :
    (n i : ℕ) (L : List ℕ) (s : Store) (xs : List ℕ)
    → i < n
    → n ≡ length L
    → IsFilled n i L s xs
    → IsFilled n
        (i + 1)
        L
        (list_insert n i (record s { word = update s.word i (get_or L i 0) }))
        (i ∷ xs)
setup_step n i L s xs hi all is =
    let s1 : Store = record s { word = update s.word i (get_or L i 0) } in
    let t = list_insert n i s1 in
    let head = next-inside s n xs n is.ring in
    let fresh : s.next n ≢ i = λ q.
      ground (
        arith,
        head,
        is.counts i,
        count-append i xs (n ∷ []),
        ap (λ u. count u (xs ++ n ∷ [])) q,
      ) in
    let j : Joined s1 t n i = list_insert-Joined s1 n i (omega arith) fresh in
    record {
      ring =
          Chain-insert s1 t n i xs n j (omega arith) (omega arith) (ground (arith, is.counts i))
            (λ z. ground (arith, is.counts z)) (ground (arith, is.counts n)) is.ring;
      empty = (
        ground (arith, j.next (n + 1), is.empty),
        ground (
          arith,
          j.prev (n + 1),
          is.empty,
          head,
          is.counts (n + 1),
          count-append (n + 1) xs (n ∷ []),
        ),
      );
      counts = λ z. ground (arith, is.counts z);
      size = omega (arith, is.size);
      words = λ z hz. j.word z ∙ ground (arith, is.words z);
      values = λ x.
          let old =
            ap (count x)
              (map_congr t.word s.word xs (λ z hz. j.word z ∙ ground (arith, is.counts z))) in
          let new = j.word i ∙ rw (eq_true i) refl in
          ap₂ (λ a b. (if a == x then 1 else 0) + b) new (old ∙ is.values x)
          ∙ sym (count-take x L i (omega arith));
      zeros = (j.word n ∙ ground (arith, is.zeros), j.word (n + 1) ∙ ground (arith, is.zeros));
    }

setup_loop-IsFilled :
    (left n i : ℕ) (L : List ℕ) (s : Store) (xs : List ℕ)
    → i + left ≡ n
    → n ≡ length L
    → IsFilled n i L s xs
    → (ys : List ℕ) × IsFilled n n L (setup_loop left i n L s) ys
unfolding setup_loop
setup_loop-IsFilled zero n i L s xs e all is = let q : i ≡ n = omega arith in (xs, rw q at is)
setup_loop-IsFilled (suc left) n i L s xs e all is =
    setup_loop-IsFilled left n (i + 1) L _ (i ∷ xs) (omega arith) all
      (setup_step n i L s xs (omega arith) all is)

-- All vectors are active.
pub record IsReady (L : List ℕ) (ls : Lists) : Type 0 where
  pub xs : List ℕ
  pub holds : Holds ls xs []
  pub size : length xs ≡ length L
  pub values : (x : ℕ) → count x (map ls.store.word xs) ≡ count x L
  pub words : (a : ℕ) → 0 < count a xs → (a < length L) × (ls.store.word a ≡ get_or L a 0)
  pub zeros : (ls.store.word ls.active ≡ 0) × (ls.store.word ls.reject ≡ 0)

-- The two empty rings.
cleared : ℕ → Store → Store
cleared n memory = record {
  word = update (update memory.word n 0) (n + 1) 0;
  next = update (update memory.next n n) (n + 1) (n + 1);
  prev = update (update memory.prev n n) (n + 1) (n + 1);
}

-- The set-up ends, with all vectors active.
pub setup-IsReady :
    (L : List ℕ) (memory : Store)
    → length L < 2 ^ 32
    → (ls : Lists) × ((setup L memory ≡ ok ls) × IsReady L ls)
unfolding setup list_clear cleared
setup-IsReady L memory small =
    let n = length L in
    let (xs, f) = setup_loop-IsFilled n n 0 L (cleared n memory) [] (omega arith) refl (record {
      ring = (ground arith, ground arith);
      empty = (ground arith, ground arith);
      counts = λ z. ground arith;
      size = refl;
      words = λ z h. absurd (omega arith);
      values = λ x. refl;
      zeros = (ground arith, ground arith);
    }) in
    (
      (record { store = setup_loop n 0 n L (cleared n memory); active = n; reject = n + 1; m = n }),
      (
        rw (eq_false n (n + 1) (λ q. omega arith), eq_true n, eq_true (n + 1)) refl,
        record {
          xs = xs;
          holds = record {
            active_ring = f.ring;
            reject_ring = f.empty;
            once = λ z. ground (arith, f.counts z, count-append z xs []);
            counted = sym f.size;
            small = omega (arith, f.size);
          };
          size = f.size;
          values = λ x. f.values x ∙ ap (count x) (take-length L);
          words = λ a h. let lt : a < n = ground (arith, f.counts a) in (lt, f.words a lt);
          zeros = f.zeros;
        },
      ),
    )
