-- ===== src/Group/Index.antt =====
-- The numbers of the tasks: the groups, cores and loops together meet every pair of the grid once,
-- and the slices of a task are those of its third number.
use native.Mathlib.Nat.{mod-eq_of_lt, div-add-mod', div-lt_iff_lt-mul, mod-lt}
use xor_mining.Base.{ℕ, ◌+◌, ◌*◌, ◌/◌, ◌%◌, ◌^◌, ◌≤◌, ◌<◌, ◌≡◌, sym, ap, ap₂, ◌∙◌, arith, bit_xor}
use xor_mining.Word.{u32}
use xor_mining.Word.Xor.{bit_xor-base, bit_xor-lt}
use xor_mining.Join.{Triple}
use xor_mining.Partition.Address.{below, unique_digits, quotient_of, remainder_of}
use xor_mining.Group.{TgContext, own_coordinates, tg_task_base, tg_task_idx}

-- A triple of two numbers and their sum.
abbrev pub numbers : ℕ → ℕ → Triple
numbers a b = record { val0 = a; val1 = b; val2 = bit_xor a b }

smaller : (a b : ℕ) → 0 < b → a * b ≤ 2 ^ 32 → a ≤ 2 ^ 32
smaller a b pos le = grind arith

-- A grid of `G * G` groups, with numbers that fit 32 bits.
pub record IsGrid (G : ℕ) (ctx : TgContext) : Type 0 where
  pub cores : 0 < ctx.cpu_grid_size
  pub tasks : 0 < ctx.per_core_grid_size
  pub fits : G * ctx.cpu_grid_size * ctx.per_core_grid_size ≤ 2 ^ 32

module _ (G : ℕ) (ctx : TgContext) (grid : IsGrid G ctx) where
  abbrev c : ℕ
  c = ctx.cpu_grid_size

  abbrev P : ℕ
  P = ctx.per_core_grid_size

  base-plain : (i x : ℕ) → i < G → x < c → u32 (i * c + x) ≡ i * c + x
  base-plain i x hi hx =
      let room : G * c ≤ 2 ^ 32 = smaller (G * c) P grid.tasks grid.fits in
      mod-eq_of_lt (omega (arith, below i G x c hi hx, room))

  idx-plain :
      (i x r : ℕ) → i < G → x < c → r < P → u32 (u32 (i * c + x) * P + r) ≡ (i * c + x) * P + r
  idx-plain i x r hi hx hr =
      ap (λ u. u32 (u * P + r)) (base-plain i x hi hx)
      ∙ mod-eq_of_lt
          (omega (arith, below (i * c + x) (G * c) r P (below i G x c hi hx) hr, grid.fits))

  -- The numbers of a task, for a core with coordinates `x` and `y`.
  tg_task_idx-numbers :
      (x y i j r s : ℕ)
      → x < c
      → y < c
      → i < G
      → j < G
      → r < P
      → s < P
      → tg_task_idx (record ctx { cpu_i = x; cpu_j = y }) i j r s
        ≡ numbers ((i * c + x) * P + r) ((j * c + y) * P + s)
  unfolding tg_task_idx tg_task_base
  tg_task_idx-numbers x y i j r s hx hy hi hj hr hs =
      ap₂ numbers (idx-plain i x r hi hx hr) (idx-plain j y s hj hy hs)

  -- Every pair of the task grid is the number of a task of some core in some group.
  pub tg_task_idx-covers :
      (a b : ℕ)
      → a < G * ctx.cpu_grid_size * ctx.per_core_grid_size
      → b < G * ctx.cpu_grid_size * ctx.per_core_grid_size
      → (rank : ℕ) × (i : ℕ) × (j : ℕ) × (r : ℕ) × (s : ℕ) × (rank
          < ctx.cpu_grid_size * ctx.cpu_grid_size)
        × (i < G)
        × (j < G)
        × (r < ctx.per_core_grid_size)
        × (s < ctx.per_core_grid_size)
        × (tg_task_idx (own_coordinates ctx rank) i j r s ≡ numbers a b)
  unfolding own_coordinates
  tg_task_idx-covers a b ha hb =
      let x = a / P % c in
      let y = b / P % c in
      let hx : x < c = mod-lt (a / P) grid.cores in
      let hy : y < c = mod-lt (b / P) grid.cores in
      let hi = high a ha in
      let hj = high b hb in
      let hr : a % P < P = mod-lt a grid.tasks in
      let hs : b % P < P = mod-lt b grid.tasks in
      (
        x * c + y,
        a / P / c,
        b / P / c,
        a % P,
        b % P,
        below x c y c hx hy,
        hi,
        hj,
        hr,
        hs,
        ap₂
              (λ u v.
                tg_task_idx (record ctx { cpu_i = u; cpu_j = v }) (a / P / c) (b / P / c) (a % P)
                  (b % P))
              (quotient_of c x y hy) (remainder_of c x y hy)
            ∙ tg_task_idx-numbers x y (a / P / c) (b / P / c) (a % P) (b % P) hx hy hi hj hr hs
            ∙ ap₂ numbers (digits a) (digits b),
      )
    where
      high : (a : ℕ) → a < G * c * P → a / P / c < G
      high a h = (div-lt_iff_lt-mul grid.cores).1 ((div-lt_iff_lt-mul grid.tasks).1 h)

      digits : (a : ℕ) → (a / P / c * c + a / P % c) * P + a % P ≡ a
      digits a = ap (λ u. u * P + a % P) (div-add-mod' (a / P) c) ∙ div-add-mod' a P

  -- No task has the numbers of another task, of the same core or of another, in the same group or
  -- in another.
  pub tg_task_idx_unique :
      (rank rank' i i' j j' r r' s s' : ℕ)
      → rank < ctx.cpu_grid_size * ctx.cpu_grid_size
      → rank' < ctx.cpu_grid_size * ctx.cpu_grid_size
      → i < G
      → i' < G
      → j < G
      → j' < G
      → r < ctx.per_core_grid_size
      → r' < ctx.per_core_grid_size
      → s < ctx.per_core_grid_size
      → s' < ctx.per_core_grid_size
      → tg_task_idx (own_coordinates ctx rank) i j r s
        ≡ tg_task_idx (own_coordinates ctx rank') i' j' r' s'
      → (rank ≡ rank') × (i ≡ i') × (j ≡ j') × (r ≡ r') × (s ≡ s')
  unfolding own_coordinates
  tg_task_idx_unique rank rank' i i' j j' r r' s s' hk hk' hi hi' hj hj' hr hr' hs hs' e =
      let x-lt : rank / c < c = (div-lt_iff_lt-mul grid.cores).1 hk in
      let x'-lt : rank' / c < c = (div-lt_iff_lt-mul grid.cores).1 hk' in
      let y-lt : rank % c < c = mod-lt rank grid.cores in
      let y'-lt : rank' % c < c = mod-lt rank' grid.cores in
      let same =
        sym (tg_task_idx-numbers (rank / c) (rank % c) i j r s x-lt y-lt hi hj hr hs)
        ∙ e
        ∙ tg_task_idx-numbers (rank' / c) (rank' % c) i' j' r' s' x'-lt y'-lt hi' hj' hr' hs' in
      let (outer0, e-r) =
        unique_digits P (i * c + rank / c) (i' * c + rank' / c) r r' hr hr'
          (ap (λ (t : Triple). t.val0) same) in
      let (outer1, e-s) =
        unique_digits P (j * c + rank % c) (j' * c + rank' % c) s s' hs hs'
          (ap (λ (t : Triple). t.val1) same) in
      let (e-i, e-x) = unique_digits c i i' (rank / c) (rank' / c) x-lt x'-lt outer0 in
      let (e-j, e-y) = unique_digits c j j' (rank % c) (rank' % c) y-lt y'-lt outer1 in
      (
        sym (div-add-mod' rank c) ∙ ap₂ (λ u v. u * c + v) e-x e-y ∙ div-add-mod' rank' c,
        e-i,
        e-j,
        e-r,
        e-s,
      )

  pub tg_task_idx-plain :
      (i j r s : ℕ)
      → ctx.cpu_i < ctx.cpu_grid_size
      → ctx.cpu_j < ctx.cpu_grid_size
      → i < G
      → j < G
      → r < ctx.per_core_grid_size
      → s < ctx.per_core_grid_size
      → ((tg_task_idx ctx i j r s).val0 ≡ (tg_task_base ctx i j).val0 * ctx.per_core_grid_size + r)
        × ((tg_task_idx ctx i j r s).val1
            ≡ (tg_task_base ctx i j).val1 * ctx.per_core_grid_size + s)
  unfolding tg_task_idx tg_task_base
  tg_task_idx-plain i j r s hx hy hi hj hr hs = (
    idx-plain i ctx.cpu_i r hi hx hr ∙ ap (λ n. n * P + r) (sym (base-plain i ctx.cpu_i hi hx)),
    idx-plain j ctx.cpu_j s hj hy hs ∙ ap (λ n. n * P + s) (sym (base-plain j ctx.cpu_j hj hy)),
  )

  -- The slices that `tg_task_work` hands to task `(r, s)`, entry `r ^ s` of the file of the group
  -- with the third base, are those of the third number of the task, as long as a core has a grid
  -- of `2 ^ k * 2 ^ k` tasks.
  pub tg_task_idx-slices :
      (k i j r s : ℕ)
      → ctx.per_core_grid_size ≡ 2 ^ k
      → ctx.cpu_i < ctx.cpu_grid_size
      → ctx.cpu_j < ctx.cpu_grid_size
      → i < G
      → j < G
      → r < ctx.per_core_grid_size
      → s < ctx.per_core_grid_size
      → (bit_xor r s < ctx.per_core_grid_size)
        × ((tg_task_idx ctx i j r s).val2
            ≡ (tg_task_base ctx i j).val2 * ctx.per_core_grid_size + bit_xor r s)
  unfolding tg_task_base
  tg_task_idx-slices k i j r s power hx hy hi hj hr hs =
      let hr' : r < 2 ^ k = rw (← power) hr in
      let hs' : s < 2 ^ k = rw (← power) hs in
      let x = ctx.cpu_i in
      let y = ctx.cpu_j in
      (
        rw power (bit_xor-lt k r s hr' hs'),
        ap (λ (t : Triple). t.val2) (tg_task_idx-numbers x y i j r s hx hy hi hj hr hs)
            ∙ ap (λ n. bit_xor ((i * c + x) * n + r) ((j * c + y) * n + s)) power
            ∙ bit_xor-base k (i * c + x) (j * c + y) r s hr' hs'
            ∙ ap₂ (λ u v. bit_xor u v * 2 ^ k + bit_xor r s) (sym (base-plain i x hi hx))
                (sym (base-plain j y hj hy))
            ∙ ap (λ n. bit_xor (u32 (i * c + x)) (u32 (j * c + y)) * n + bit_xor r s) (sym power),
      )
