-- ===== src/Group/Setup.antt =====
-- `setup` of ijoux/do_task_group.c after its options are read. An option that is missing or
-- negative is `none`.
use native.Mathlib.Nat.{div-lt_iff_lt-mul, mod-lt, div-add-mod'}
use xor_mining.Base.{
  ℕ, zero, suc, ◌+◌, ◌*◌, ◌<◌, ◌≤◌, ◌≡◌, refl, arith, Bool, true, false, not, xor, ◌||◌, ◌⊎◌, inl,
  inr, Option, none, some, ◌==◌, ==_iff, ltb, lt→ltb, if◌then◌else◌, ◌^◌, ap,
}
use xor_mining.Base.Run.{
  Run, ok, exits, fault, ◌>>=◌, require, Finishes, Finishes-bind, Finishes-require, Finishes-weaken,
}
use xor_mining.Group.{TgContext, own_coordinates}

pub record Options : Type 0 where
  pub tg_per_job : Option ℕ
  pub cpu_grid_size : Option ℕ
  pub per_core_grid_size : Option ℕ
  pub task_grid_size : Option ℕ
  pub has_input_dir : Bool
  pub i : Option ℕ
  pub j : Option ℕ
  pub job : Option ℕ

abbrev pub given : Option ℕ → Bool
given none = false
given (some n) = true

-- An option that must be there
unfoldable pub needed : Option ℕ → Run ℕ
needed none = exits
needed (some n) = ok n

-- A field that is not read is 0 here.
abbrev pub or_zero : Option ℕ → ℕ
or_zero none = 0
or_zero (some n) = n

-- A product of two `int`; one that does not fit has no defined value.
unfoldable pub product : ℕ → ℕ → Run ℕ
product a b = if ltb (a * b) (2 ^ 31) then ok (a * b) else fault

-- The checks of `if (*job >= 0)`
unfoldable pub check_job : Option ℕ → Option ℕ → Option ℕ → ℕ → ℕ → Run (Unit {0})
check_job none tg_per_job task_grid_size cpu core = ok tt
check_job (some job) tg_per_job task_grid_size cpu core = do
  _ ← needed tg_per_job
  grid ← needed task_grid_size
  cores ← product cpu core
  require (not (ltb grid cores))

-- `setup` from the check of the input directory on
unfoldable pub setup_checks : Options → ℕ → ℕ → ℕ → ℕ → Run TgContext
setup_checks o rank world_size cpu core = do
  _ ← require o.has_input_dir
  cores ← product cpu cpu
  _ ← require (world_size == cores)
  _ ← require (given o.i || given o.job)
  _ ← require (xor (given o.i) (given o.job))
  _ ← require (not (xor (given o.i) (given o.j)))
  _ ← check_job o.job o.tg_per_job o.task_grid_size cpu core
  ok (
      own_coordinates
        (record {
          task_grid_size = or_zero o.task_grid_size;
          cpu_grid_size = cpu;
          per_core_grid_size = core;
          tg_per_job = or_zero o.tg_per_job;
          cpu_i = 0;
          cpu_j = 0;
        })
        rank)

unfoldable pub setup : Options → ℕ → ℕ → Run TgContext
setup o rank world_size = do
  cpu ← needed o.cpu_grid_size
  core ← needed o.per_core_grid_size
  setup_checks o rank world_size cpu core

needed-Finishes : (o : Option ℕ) → Finishes (needed o) (λ n. o ≡ some n)
unfolding needed
needed-Finishes none = tt
needed-Finishes (some n) = refl

-- A core has a place in the grid, from which its rank can be read; and a job comes with a grid of
-- tasks that is no smaller than what the cores do in one group.
pub record IsPlaced (o : Options) (rank : ℕ) (ctx : TgContext) : Type 0 where
  pub row : ctx.cpu_i < ctx.cpu_grid_size
  pub column : ctx.cpu_j < ctx.cpu_grid_size
  pub rank_is : ctx.cpu_i * ctx.cpu_grid_size + ctx.cpu_j ≡ rank
  pub grid : o.job ≡ none ⊎ (ctx.cpu_grid_size * ctx.per_core_grid_size ≤ ctx.task_grid_size)

require-Finishes : (b : Bool) → Finishes (require b) (λ u. b ≡ true)
require-Finishes true = refl
require-Finishes false = tt

product-Finishes : (a b : ℕ) → a * b < 2 ^ 31 → Finishes (product a b) (λ n. n ≡ a * b)
unfolding product
product-Finishes a b lt = rw (lt→ltb (a * b) (2 ^ 31) lt) refl

check_job-Finishes :
    (job tg_per_job grid : Option ℕ) (cpu core : ℕ)
    → cpu * core < 2 ^ 31
    → Finishes
        (check_job job tg_per_job grid cpu core)
        (λ u. (job ≡ none) ⊎ (cpu * core ≤ or_zero grid))
unfolding check_job needed
check_job-Finishes none tg_per_job grid cpu core fits = inl refl
check_job-Finishes (some job) none grid cpu core fits = tt
check_job-Finishes (some job) (some t) none cpu core fits = tt
check_job-Finishes (some job) (some t) (some grid) cpu core fits =
    Finishes-bind (product cpu core) _ _ _ (product-Finishes cpu core fits) (λ cores is.
      Finishes-weaken (require (not (ltb grid cores))) _ _ (require-Finishes (not (ltb grid cores)))
        (λ u e. inr (omega (arith, is, enough grid cores e))))
  where
    enough : (a b : ℕ) → not (ltb a b) ≡ true → b ≤ a
    enough a b e = ground (arith, e)

square_pos : (rank cpu : ℕ) → rank < cpu * cpu → 0 < cpu
square_pos rank zero lt = absurd (omega (arith, lt))
square_pos rank (suc c) lt = omega arith

-- What the checks behind the sizes of the grid leave, for sizes whose products fit an `int`.
checks-IsPlaced :
    (o : Options) (rank world_size cpu core : ℕ)
    → rank < world_size
    → cpu * cpu < 2 ^ 31
    → cpu * core < 2 ^ 31
    → Finishes (setup_checks o rank world_size cpu core) (IsPlaced o rank)
unfolding setup_checks own_coordinates
checks-IsPlaced o rank world_size cpu core lt square_fits fits =
    Finishes-require o.has_input_dir _ _ (λ _.
      Finishes-bind (product cpu cpu) _ _ _ (product-Finishes cpu cpu square_fits) (λ cores is.
        Finishes-require (world_size == cores) _ _ (λ square.
          Finishes-require (given o.i || given o.job) _ _ (λ _.
            Finishes-require (xor (given o.i) (given o.job)) _ _ (λ _.
              Finishes-require (not (xor (given o.i) (given o.j))) _ _ (λ _.
                Finishes-bind (check_job o.job o.tg_per_job o.task_grid_size cpu core) _ _ _
                  (check_job-Finishes o.job o.tg_per_job o.task_grid_size cpu core fits)
                  (λ _ grid.
                    let whole : world_size ≡ cores = (==_iff _ _).0 square in
                    let inside : rank < cpu * cpu = omega (arith, whole, is, lt) in
                    let pos = square_pos rank cpu inside in
                    record {
                      row = (div-lt_iff_lt-mul pos).1 inside;
                      column = mod-lt rank pos;
                      rank_is = div-add-mod' rank cpu;
                      grid = grid;
                    })))))))

-- With a rank below the number of processes, and sizes of the grid of cores and of the tasks of a
-- core whose products fit an `int`, `setup` ends: with an error, or with a place in the grid of
-- cores from which the rank can be read; and with a job, the cores of a group have no more rows of
-- tasks than the grid of tasks.
pub setup-IsPlaced :
    (o : Options) (rank world_size : ℕ)
    → rank < world_size
    → or_zero o.cpu_grid_size * or_zero o.cpu_grid_size < 2 ^ 31
    → or_zero o.cpu_grid_size * or_zero o.per_core_grid_size < 2 ^ 31
    → Finishes (setup o rank world_size) (IsPlaced o rank)
unfolding setup
setup-IsPlaced o rank world_size lt square_fits fits =
    Finishes-bind (needed o.cpu_grid_size) _ _ _ (needed-Finishes o.cpu_grid_size) (λ cpu is.
      Finishes-bind (needed o.per_core_grid_size) _ _ _ (needed-Finishes o.per_core_grid_size)
        (λ core is'.
          checks-IsPlaced o rank world_size cpu core lt (rw (ap or_zero is) at square_fits)
            (rw (ap or_zero is, ap or_zero is') at fits)))
