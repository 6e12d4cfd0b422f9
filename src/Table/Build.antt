-- ===== src/Table/Build.antt =====
-- `cuckoo_build` and the two look-ups: whichever table was built, a look-up decides membership in
-- the array.
use xor_mining.Base.{
  ℕ, zero, suc, ◌+◌, ◌-◌, ◌≤◌, ◌<◌, Bool, true, false, List, get_or, ◌≡◌, ◌≢◌, refl, sym, ap, ◌∙◌,
  arith, ◌⊎◌, inl, inr, ℕ_discrete, ◌↔◌, Bool-cases, some, eq_of_some,
}
use xor_mining.Table.{
  H0, empty_table, linear_insert, linear_fill, lookup_loop, linear_lookup, cuckoo_lookup,
  cuckoo_fill, cuckoo_build, table_lookup,
}
use xor_mining.Table.Walk.{slot, slot-zero, next-slot, Holds, Taken, IsProbed, H0-lt}
use xor_mining.Table.Linear.{
  load, load-empty_table, empty_table-IsProbed, Inserts, probe_insert-Inserts, first_free,
  get_or-empty_table,
}
use xor_mining.Table.Cuckoo.{
  empty_table-IsCuckoo, InRange, add_to_range, cuckoo_fill-Fills, cuckoo_lookup_iff,
}

-- A table that linear probing filled from part of an array.
pub record IsFilled (L : List ℕ) (i left : ℕ) (H H' : List ℕ) : Type 0 where
  pub probed : IsProbed H0 H'
  pub loaded : load H' ≡ load H + left
  pub holds : (y : ℕ) → y ≢ 0 → Holds H' y ↔ (InRange L i left y ⊎ Holds H y)

extend :
    (left i : ℕ) (L : List ℕ) {H H₁ H' : List ℕ}
    → Inserts H0 H (get_or L i 0) H₁
    → IsFilled L (i + 1) left H₁ H'
    → IsFilled L i (suc left) H H'
extend left i L ins f = record {
  probed = f.probed;
  loaded = omega (arith, f.loaded, ins.loaded);
  holds = λ y nz. (
    λ hyp.
        (add_to_range L i left y).0
          (elim ((f.holds y nz).0 hyp) [ inl r ↦ inl r | inr h ↦ inr ((ins.holds y nz).0 h) ]),
    λ hyp. (f.holds y nz).1 (elim ((add_to_range L i left y).1 hyp) [
      | inl r ↦ inl r
      | inr h ↦ inr ((ins.holds y nz).1 h)
    ]),
  );
}

pub linear_fill-IsFilled :
    (left i : ℕ) (L H : List ℕ)
    → IsProbed H0 H
    → load H + left < 513
    → ((k : ℕ) → i ≤ k → k < i + left → get_or L k 0 ≢ 0)
    → (H' : List ℕ) × (linear_fill left i L H ≡ some H') × IsFilled L i left H H'
unfolding linear_fill linear_insert
linear_fill-IsFilled zero i L H probed room nonzero = (
  H,
  refl,
  record {
    probed = probed;
    loaded = omega arith;
    holds = λ y nz. (
      λ hyp. inr hyp,
      λ hyp. elim hyp [ inl (k, (lo, hi, e)) ↦ absurd (omega arith) | inr holds ↦ holds ],
    );
  },
)
linear_fill-IsFilled (suc left) i L H probed room nonzero =
    let (H₁, run, ins) =
      probe_insert-Inserts H0 H0-lt H (get_or L i 0) probed (nonzero i (omega arith) (omega arith))
        (omega arith) in
    let (H', run', f) =
      linear_fill-IsFilled left (i + 1) L H₁ ins.probed (omega (arith, ins.loaded))
        (λ k lo hi. nonzero k (omega arith) (omega arith)) in
    (H', rw (run, linear_fill) run', extend left i L ins f)

-- From a slot before a match, with no free slot in between, the look-up answers true.
lookup_loop-true :
    (left d h : ℕ) (H : List ℕ) (x e : ℕ)
    → d ≤ e
    → e < d + left
    → Taken H h e
    → get_or H (slot h e) 0 ≡ x
    → lookup_loop left H (slot h d) x ≡ some true
unfolding lookup_loop
lookup_loop-true zero d h H x e lo hi t hit = absurd (omega arith)
lookup_loop-true (suc left) d h H x e lo hi t hit = elim (ℕ_discrete d e) [
  | yes same ↦ let here : get_or H (slot h d) 0 ≡ x = rw same hit in ground arith
  | no other ↦
      let nz = t d (omega arith) in
      let ih = lookup_loop-true left (suc d) h H x e (omega arith) (omega arith) t hit in
      ground (arith, next-slot h d, ih)
]

-- With a free slot ahead the look-up ends, and answers true only on a match.
lookup_loop_total :
    (left d h : ℕ) (H : List ℕ) (x e : ℕ)
    → d ≤ e
    → e < d + left
    → get_or H (slot h e) 0 ≡ 0
    → (b : Bool) × (lookup_loop left H (slot h d) x ≡ some b) × (b ≡ true → Holds H x)
unfolding lookup_loop
lookup_loop_total zero d h H x e lo hi free = absurd (omega arith)
lookup_loop_total (suc left) d h H x e lo hi free = elim (ℕ_discrete (get_or H (slot h d) 0) x) [
  | yes hit ↦ (true, ground arith, λ q. (slot h d, (omega arith, hit)))
  | no miss ↦ elim (ℕ_discrete (get_or H (slot h d) 0) 0) [
    | yes z ↦ (false, ground arith, λ q. cc)
    | no nz ↦
        let later : d ≢ e = λ q. nz (rw q free) in
        let (b, run, sound) =
          lookup_loop_total left (suc d) h H x e (omega arith) (omega arith) free in
        (b, ground (arith, next-slot h d, run), sound)
  ]
]

lookup_held :
    (H : List ℕ) (x : ℕ) → IsProbed H0 H → x ≢ 0 → Holds H x → linear_lookup H x ≡ some true
unfolding linear_lookup
lookup_held H x probed nz (p, (small, e)) =
    go (rw e at (probed.found p small (λ z. nz (sym e ∙ z))))
  where
    go :
        (d : ℕ) × (d < 512) × (slot (H0 x) d ≡ p) × Taken H (H0 x) d → linear_lookup H x ≡ some true
    go (d, d-lt, place, taken) = rw (slot-zero (H0 x) (H0-lt x)) at (
        lookup_loop-true 512 0 (H0 x) H x d (omega arith) (omega arith) taken
          (ap (λ q. get_or H q 0) place ∙ e))

-- In a table filled by linear probing, with a free slot, the look-up decides membership.
pub linear_lookup_iff :
    (H : List ℕ) (x : ℕ)
    → IsProbed H0 H
    → load H < 512
    → x ≢ 0
    → (b : Bool) × (linear_lookup H x ≡ some b) × ((b ≡ true) ↔ Holds H x)
unfolding linear_lookup
linear_lookup_iff H x probed room nz =
    let start = slot-zero (H0 x) (H0-lt x) in
    let f = first_free H (H0 x) probed.size room (H0-lt x) in
    let (b, run, sound) =
      lookup_loop_total 512 0 (H0 x) H x f.steps (omega arith) (omega (arith, f.small)) f.free in
    (
      b,
      rw start at run,
      (sound, λ holds. eq_of_some (sym (rw start at run) ∙ lookup_held H x probed nz holds)),
    )

-- Nothing is held by the empty table, so all that is held comes from the array.
only_range :
    (L : List ℕ) (lo n x : ℕ) (H : List ℕ) {b : Bool}
    → x ≢ 0
    → (b ≡ true) ↔ Holds H x
    → Holds H x ↔ (InRange L lo n x ⊎ Holds empty_table x)
    → (b ≡ true) ↔ InRange L lo n x
only_range L lo n x H nz iff holds = (
  λ e. elim (holds.0 (iff.0 e)) [
    | inl r ↦ r
    | inr (p, (small, z)) ↦ absurd (nz (sym z ∙ get_or-empty_table p))
  ],
  λ r. iff.1 (holds.1 (inl r)),
)

-- The build of a table for fewer than 512 words, none of them 0, ends. A look-up of a word
-- other than 0 in the table ends, and answers true exactly for the words of the array.
pub cuckoo_build-table_lookup :
    (L : List ℕ) (lo hi : ℕ)
    → hi - lo < 512
    → ((k : ℕ) → lo ≤ k → k < lo + (hi - lo) → get_or L k 0 ≢ 0)
    → (t : Bool × List ℕ) × (cuckoo_build L lo hi ≡ some t)
      × ((x : ℕ)
          → x ≢ 0
          → (b : Bool) × (table_lookup t x ≡ some b) × ((b ≡ true) ↔ InRange L lo (hi - lo) x))
unfolding cuckoo_build
cuckoo_build-table_lookup L lo hi room nonzero =
    let n = hi - lo in
    let fills = cuckoo_fill-Fills n lo L empty_table empty_table-IsCuckoo in
    elim (Bool-cases (cuckoo_fill n lo L empty_table).0) [
      | inl bad ↦
          let (H', run, f) =
            linear_fill-IsFilled n lo L empty_table (empty_table-IsProbed H0)
              (omega (arith, load-empty_table)) nonzero in
          (
            (true, H'),
            rw (bad, run) refl,
            λ x nz.
                let (b, look, iff) =
                  linear_lookup_iff H' x f.probed (omega (arith, f.loaded, load-empty_table)) nz in
                (b, look, only_range L lo n x H' nz iff (f.holds x nz)),
          )
      | inr good ↦ (
        (false, (cuckoo_fill n lo L empty_table).1),
        rw good refl,
        λ x nz. (
          cuckoo_lookup (cuckoo_fill n lo L empty_table).1 x,
          refl,
          only_range L lo n x _ nz (cuckoo_lookup_iff _ x fills.0 nz) (fills.1 good x nz),
        ),
      )
    ]
