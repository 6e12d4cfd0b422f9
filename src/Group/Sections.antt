-- ===== src/Group/Sections.antt =====
-- `load_tg_data` of ijoux/do_task_group.c finds the sections that were put into its files.
use xor_mining.Base.{
  ℕ, suc, ◌+◌, ◌-◌, ◌^◌, ◌<◌, ◌≡◌, refl, sym, ap, ◌∙◌, arith, true, List, [], ◌∷◌, ◌++◌,
  append_assoc, length, length-append, take, drop, ◌==◌, ==_iff,
}
use xor_mining.Base.Run.{ok}
use xor_mining.Word.{u64}
use xor_mining.Task.{JTask}
use xor_mining.Task.Packed.{drop-append, take-append}
use xor_mining.Group.{entry_at}
use xor_mining.Group.Load.{section_at, sections_loop, load_sections, fill_tasks, load_tg_data}

-- The ends of sections, from the place `a` on
unfoldable pub ends : ℕ → List (List ℕ) → List ℕ
ends a [] = []
ends a (s ∷ ss) = (a + length s) ∷ ends (a + length s) ss

unfoldable pub joined : List (List ℕ) → List ℕ
joined [] = []
joined (s ∷ ss) = s ++ joined ss

-- A file: the number of its sections, their offsets and the end, and the sections
abbrev pub grouped : List (List ℕ) → List ℕ
grouped ss = length ss ∷ (length ss + 2) ∷ (ends (length ss + 2) ss ++ joined ss)

-- The sections as they are loaded: their words are the first of those at the pointer.
abbrev pub Loaded : List (List ℕ) → List (List ℕ × ℕ) → Type 0
Loaded [] [] = Unit
Loaded [] (r ∷ rs) = ⊥
Loaded (s ∷ ss) [] = ⊥
Loaded (s ∷ ss) (r ∷ rs) = ((r.1 ≡ length s) × (take r.1 r.0 ≡ s)) × Loaded ss rs

entry_at-append : (xs ys : List ℕ) (y i : ℕ) → i ≡ length xs → entry_at (xs ++ (y ∷ ys)) i ≡ ok y
unfolding entry_at
entry_at-append [] ys y i e = rw e refl
entry_at-append (x ∷ xs) ys y i e = rw e (entry_at-append xs ys y (length xs) refl)

module _ (A : List ℕ) (small : length A < 2 ^ 64) where
  section_at-finds :
      (r a : ℕ) (front rest before s after : List ℕ)
      → A ≡ front ++ (a ∷ (a + length s) ∷ rest)
      → length front ≡ r + 1
      → A ≡ before ++ (s ++ after)
      → length before ≡ a
      → section_at r A ≡ ok (s ++ after, length s)
  unfolding section_at
  section_at-finds r a front rest before s after heads at holds there =
      let first : entry_at A (r + 1) ≡ ok a =
        ap (λ w. entry_at w (r + 1)) heads
        ∙ entry_at-append front ((a + length s) ∷ rest) a (r + 1) (sym at) in
      let shifted : front ++ (a ∷ (a + length s) ∷ rest)
          ≡ (front ++ (a ∷ [])) ++ ((a + length s) ∷ rest) =
        sym (append_assoc front (a ∷ []) ((a + length s) ∷ rest)) in
      let size = length-append front (a ∷ []) in
      let second : entry_at A (r + 2) ≡ ok (a + length s) =
        ap (λ w. entry_at w (r + 2)) (heads ∙ shifted)
        ∙ entry_at-append (front ++ (a ∷ [])) rest (a + length s) (r + 2)
            (omega (arith, size, at)) in
      let whole : length A ≡ length before + (length s + length after) =
        ap (λ w. length w) holds
        ∙ length-append before (s ++ after)
        ∙ ap (λ n. length before + n) (length-append s after) in
      let number : u64 (a + length s + (2 ^ 64 - a)) ≡ length s =
        omega (arith, whole, small, there) in
      let zero_more : length before ≡ length before + 0 = omega arith in
      let place : drop a A ≡ s ++ after =
        ap (λ n. drop n A) (sym there ∙ zero_more)
        ∙ ap (λ w. drop (length before + 0) w) holds
        ∙ drop-append before (s ++ after) 0 in
      rw (first, second, number, place) refl

  sections_loop-Loaded :
      (ss : List (List ℕ)) (r a : ℕ) (front rest before : List ℕ)
      → A ≡ front ++ (a ∷ (ends a ss ++ rest))
      → length front ≡ r + 1
      → A ≡ before ++ joined ss
      → length before ≡ a
      → (rs : List (List ℕ × ℕ)) × (sections_loop (length ss) r A ≡ ok rs) × Loaded ss rs
  unfolding sections_loop ends joined
  sections_loop-Loaded [] r a front rest before heads at holds there = ([], refl, tt)
  sections_loop-Loaded (s ∷ ss) r a front rest before heads at holds there =
      let found =
        section_at-finds r a front (ends (a + length s) ss ++ rest) before s (joined ss) heads at
          holds there in
      let (rs, run, loaded) =
        sections_loop-Loaded ss (r + 1) (a + length s) (front ++ (a ∷ [])) rest (before ++ s)
          (heads
            ∙ sym (append_assoc front (a ∷ []) ((a + length s) ∷ (ends (a + length s) ss ++ rest))))
          (omega (arith, at, length-append front (a ∷ [])))
          (holds ∙ sym (append_assoc before s (joined ss)))
          (omega (arith, there, length-append before s)) in
      (
        (s ++ joined ss, length s) ∷ rs,
        rw (found, run) refl,
        ((refl, take-append s (joined ss)), loaded),
      )

length-ends : (a : ℕ) (ss : List (List ℕ)) → length (ends a ss) ≡ length ss
unfolding ends
length-ends a [] = refl
length-ends a (s ∷ ss) = ap suc (length-ends (a + length s) ss)

load_sections-Loaded :
    (per_core : ℕ) (ss : List (List ℕ))
    → length ss ≡ per_core
    → length (grouped ss) < 2 ^ 64
    → (rs : List (List ℕ × ℕ)) × (load_sections per_core (grouped ss) ≡ ok rs) × Loaded ss rs
unfolding load_sections entry_at
load_sections-Loaded per_core ss size small =
    let start = length ss + 2 in
    let before = length ss ∷ start ∷ ends start ss in
    let there : length before ≡ start = omega (arith, length-ends start ss) in
    let (rs, run, loaded) =
      sections_loop-Loaded (grouped ss) small ss 0 start (length ss ∷ []) (joined ss) before refl
        refl refl there in
    let passed : (length ss == per_core) ≡ true = (==_iff _ _).1 size in
    (rs, rw (passed, run) refl, loaded)

-- A task holds the section `a` of the first list, `b` of the second, and the slices `c`.
pub record Holds (a b c : List ℕ) (task : JTask) : Type 0 where
  pub size0 : task.n0 ≡ length a
  pub words0 : take task.n0 task.L0 ≡ a
  pub size1 : task.n1 ≡ length b
  pub words1 : take task.n1 task.L1 ≡ b
  pub slices_size : task.slices_size ≡ length c
  pub slices : take task.slices_size task.slices ≡ c

abbrev pub AllHold : List (List ℕ) → List (List ℕ) → List (List ℕ) → List JTask → Type 0
AllHold [] ys zs [] = Unit
AllHold (x ∷ xs) (y ∷ ys) (z ∷ zs) (task ∷ tasks) = Holds x y z task × AllHold xs ys zs tasks
AllHold _ _ _ _ = ⊥

fill_tasks-AllHold :
    (xs ys zs : List (List ℕ)) (fs gs hs : List (List ℕ × ℕ))
    → length xs ≡ length ys
    → length xs ≡ length zs
    → Loaded xs fs
    → Loaded ys gs
    → Loaded zs hs
    → AllHold xs ys zs (fill_tasks fs gs hs)
unfolding fill_tasks
fill_tasks-AllHold [] ys zs [] gs hs m n f g h = tt
fill_tasks-AllHold [] ys zs (a ∷ fs) gs hs m n f g h = absurd f
fill_tasks-AllHold (x ∷ xs) ys zs [] gs hs m n f g h = absurd f
fill_tasks-AllHold (x ∷ xs) [] zs (a ∷ fs) gs hs m n f g h = absurd (omega (arith, m))
fill_tasks-AllHold (x ∷ xs) (y ∷ ys) [] (a ∷ fs) gs hs m n f g h = absurd (omega (arith, n))
fill_tasks-AllHold (x ∷ xs) (y ∷ ys) (z ∷ zs) (a ∷ fs) [] hs m n f g h = absurd g
fill_tasks-AllHold (x ∷ xs) (y ∷ ys) (z ∷ zs) (a ∷ fs) (b ∷ gs) [] m n f g h = absurd h
fill_tasks-AllHold (x ∷ xs) (y ∷ ys) (z ∷ zs) (a ∷ fs) (b ∷ gs) (c ∷ hs) m n (f, f') (g, g')
      (h, h') =
    (
      record {
        size0 = f.0;
        words0 = f.1;
        size1 = g.0;
        words1 = g.1;
        slices_size = h.0;
        slices = h.1;
      },
      fill_tasks-AllHold xs ys zs fs gs hs (omega (arith, m)) (omega (arith, n)) f' g' h',
    )

-- From three files that each hold as many sections as a core has rows of tasks, fewer than 2^64
-- words in all, `load_tg_data` gets a task for each row: its lists and its slices have the sizes of
-- the sections with its number, and start with their words.
pub load_tg_data-AllHold :
    (per_core : ℕ) (xs ys zs : List (List ℕ))
    → length xs ≡ per_core
    → length ys ≡ per_core
    → length zs ≡ per_core
    → length (grouped xs) < 2 ^ 64
    → length (grouped ys) < 2 ^ 64
    → length (grouped zs) < 2 ^ 64
    → (tasks : List JTask) × (load_tg_data per_core (grouped xs) (grouped ys) (grouped zs)
        ≡ ok tasks)
      × AllHold xs ys zs tasks
unfolding load_tg_data
load_tg_data-AllHold per_core xs ys zs k m n small small' small'' =
    let (rs, run, loaded) = load_sections-Loaded per_core xs k small in
    let (rs', run', loaded') = load_sections-Loaded per_core ys m small' in
    let (rs'', run'', loaded'') = load_sections-Loaded per_core zs n small'' in
    (
      fill_tasks rs rs' rs'',
      rw (run, run', run'') refl,
      fill_tasks-AllHold xs ys zs rs rs' rs'' (omega (arith, k, m)) (omega (arith, k, n)) loaded
          loaded' loaded'',
    )
