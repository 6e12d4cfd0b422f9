-- ===== src/Table/Cuckoo.antt =====
-- Cuckoo insertion: the words in the table and the word in hand stay the same together, and each
-- word stands in one of its two slots.
use xor_mining.Base.{
  ℕ, zero, suc, ◌+◌, ◌≤◌, ◌<◌, Bool, true, false, List, get_or, set, length, if◌then◌else◌, ◌==◌,
  ==_iff, ◌≡◌, ◌≢◌, refl, sym, ap, ◌∙◌, arith, get_or-set, length-set, ◌⊎◌, inl, inr, ℕ_discrete,
  ◌↔◌, Bool-cases,
}
use xor_mining.Table.{H0, H1, empty_table, cuckoo_lookup, cuckoo_loop, cuckoo_insert, cuckoo_fill}
use xor_mining.Table.Walk.{Holds, H0-lt, H1-lt}
use xor_mining.Table.Linear.{length-empty_table, get_or-empty_table}

pub record IsCuckoo (H : List ℕ) : Type 0 where
  pub size : length H ≡ 512
  pub placed :
      (p : ℕ) → p < 512 → get_or H p 0 ≢ 0 → (H0 (get_or H p 0) ≡ p) ⊎ (H1 (get_or H p 0) ≡ p)

pub empty_table-IsCuckoo : IsCuckoo empty_table
empty_table-IsCuckoo = record {
  size = length-empty_table;
  placed = λ p h nz. absurd (nz (get_or-empty_table p));
}

-- `y` is one of `L[i]` to `L[i + left - 1]`.
abbrev pub InRange : List ℕ → ℕ → ℕ → ℕ → Type 0
InRange L i left y = (k : ℕ) × ((i ≤ k) × (k < i + left) × (get_or L k 0 ≡ y))

-- An insertion of `x` that succeeded added `x` to the contents.
abbrev pub Stores : List ℕ → ℕ → Bool × List ℕ → Type 0
Stores H x (done, H') =
    IsCuckoo H' × (done ≡ true → (y : ℕ) → y ≢ 0 → Holds H' y ↔ ((x ≡ y) ⊎ Holds H y))

module _ (H : List ℕ) (h x : ℕ) (cuckoo : IsCuckoo H) (h-lt : h < 512) where
  read : (q : ℕ) → get_or (set H h x) q 0 ≡ (if h == q then x else get_or H q 0)
  read q = get_or-set H h q x 0 (rw (cuckoo.size) h-lt)

  exchange : (y : ℕ) → ((get_or H h 0 ≡ y) ⊎ Holds (set H h x) y) ↔ ((x ≡ y) ⊎ Holds H y)
  exchange y = (
    λ hyp. elim hyp [
      | inl e ↦ inr (h, (h-lt, e))
      | inr (q, (small, e)) ↦ elim (ℕ_discrete h q) [
        | yes same ↦ inl (ground (arith, read q))
        | no other ↦ inr (q, (small, ground (arith, read q)))
      ]
    ],
    λ hyp. elim hyp [
      | inl e ↦ inr (h, (h-lt, ground (arith, read h)))
      | inr (q, (small, e)) ↦ elim (ℕ_discrete h q) [
        | yes same ↦ inl (rw same e)
        | no other ↦ inr (q, (small, ground (arith, read q)))
      ]
    ],
  )

  set-IsCuckoo : (H0 x ≡ h) ⊎ (H1 x ≡ h) → IsCuckoo (set H h x)
  set-IsCuckoo at_h = record {
    size = length-set H h x ∙ cuckoo.size;
    placed = λ q small nz. elim (ℕ_discrete h q) [
      | yes same ↦
          let value : get_or (set H h x) q 0 ≡ x = ground (arith, read q) in rw (value, ← same) at_h
      | no other ↦
          let value : get_or (set H h x) q 0 ≡ get_or H q 0 = ground (arith, read q) in
          rw value (cuckoo.placed q small (λ z. nz (value ∙ z)))
    ];
  }

-- The word that comes out of slot `h` goes to its other slot.
other_slot :
    (out h : ℕ)
    → (H0 out ≡ h) ⊎ (H1 out ≡ h)
    → let h' = if H0 out == h then H1 out else H0 out in
      (h' < 512) × ((H0 out ≡ h') ⊎ (H1 out ≡ h'))
other_slot out h at_h = elim (Bool-cases (H0 out == h)) [
  | inl e ↦ rw e (H1-lt out, inr refl)
  | inr e ↦ rw e (H0-lt out, inl refl)
]

cuckoo_loop-Stores :
    (left : ℕ) (H : List ℕ) (h x : ℕ)
    → IsCuckoo H
    → h < 512
    → (H0 x ≡ h) ⊎ (H1 x ≡ h)
    → Stores H x (cuckoo_loop left H h x)
unfolding cuckoo_loop
cuckoo_loop-Stores zero H h x cuckoo lt at_h = (cuckoo, λ bad. cc)
cuckoo_loop-Stores (suc left) H h x cuckoo lt at_h = elim (Bool-cases (get_or H h 0 == 0)) [
  | inl e ↦ rw e (
    set-IsCuckoo H h x cuckoo lt at_h,
    λ done y nz. (
      λ hyp. (exchange H h x cuckoo lt y).0 (inr hyp),
      λ hyp. elim ((exchange H h x cuckoo lt y).1 hyp) [
        | inl out ↦ absurd (nz (sym out ∙ (==_iff _ _).0 e))
        | inr holds ↦ holds
      ],
    ),
  )
  | inr e ↦
      let nz : get_or H h 0 ≢ 0 = ground arith in
      let (lt', at_h') = other_slot (get_or H h 0) h (cuckoo.placed h lt nz) in
      let ih =
        cuckoo_loop-Stores left (set H h x) _ (get_or H h 0) (set-IsCuckoo H h x cuckoo lt at_h) lt'
          at_h' in
      rw e (
        ih.0,
        λ done y nz. (
          λ hyp. (exchange H h x cuckoo lt y).0 ((ih.1 done y nz).0 hyp),
          λ hyp. (ih.1 done y nz).1 ((exchange H h x cuckoo lt y).1 hyp),
        ),
      )
]

-- An insertion leaves each word in one of its two slots, also when it fails. When it answers
-- true, the table holds the new word and the words it held before, and, 0 aside, no others.
pub cuckoo_insert-Stores : (H : List ℕ) (x : ℕ) → IsCuckoo H → Stores H x (cuckoo_insert H x)
unfolding cuckoo_insert
cuckoo_insert-Stores H x cuckoo = cuckoo_loop-Stores 1024 H (H0 x) x cuckoo (H0-lt x) (inl refl)

InRange-step :
    (L : List ℕ) (i left y : ℕ)
    → InRange L i (suc left) y ↔ ((get_or L i 0 ≡ y) ⊎ InRange L (i + 1) left y)
InRange-step L i left y = (
  λ (k, (lo, hi, e)). elim (ℕ_discrete i k) [
    | yes same ↦ inl (rw same e)
    | no other ↦ inr (k, (omega arith, omega arith, e))
  ],
  λ hyp. elim hyp [
    | inl e ↦ (i, (omega arith, omega arith, e))
    | inr (k, (lo, hi, e)) ↦ (k, (omega arith, omega arith, e))
  ],
)

-- What a filling of the table from an array adds, one word at a time.
pub add_to_range :
    (L : List ℕ) (i left y : ℕ) {B : Type 0}
    → (InRange L (i + 1) left y ⊎ ((get_or L i 0 ≡ y) ⊎ B)) ↔ (InRange L i (suc left) y ⊎ B)
add_to_range L i left y = (
  λ hyp. elim hyp [
    | inl r ↦ inl ((InRange-step L i left y).1 (inr r))
    | inr (inl e) ↦ inl ((InRange-step L i left y).1 (inl e))
    | inr (inr b) ↦ inr b
  ],
  λ hyp. elim hyp [
    | inl r ↦ elim ((InRange-step L i left y).0 r) [ inl e ↦ inr (inl e) | inr r' ↦ inl r' ]
    | inr b ↦ inr (inr b)
  ],
)

-- The contents of a table that was filled without a failure.
abbrev pub Fills : List ℕ → ℕ → ℕ → List ℕ → Bool × List ℕ → Type 0
Fills L i left H (fail, H') =
    IsCuckoo H' × (fail ≡ false → (y : ℕ) → y ≢ 0 → Holds H' y ↔ (InRange L i left y ⊎ Holds H y))

pub cuckoo_fill-Fills :
    (left i : ℕ) (L H : List ℕ) → IsCuckoo H → Fills L i left H (cuckoo_fill left i L H)
unfolding cuckoo_fill
cuckoo_fill-Fills zero i L H cuckoo = (
  cuckoo,
  λ ok y nz. (
    λ hyp. inr hyp,
    λ hyp. elim hyp [ inl (k, (lo, hi, e)) ↦ absurd (omega arith) | inr holds ↦ holds ],
  ),
)
cuckoo_fill-Fills (suc left) i L H cuckoo =
    let (cuckoo', stores) = cuckoo_insert-Stores H (get_or L i 0) cuckoo in
    let H' = (cuckoo_insert H (get_or L i 0)).1 in
    let ih = cuckoo_fill-Fills left (i + 1) L H' cuckoo' in
    elim (Bool-cases (cuckoo_insert H (get_or L i 0)).0) [
      | inr e ↦ rw e (cuckoo', λ bad. cc)
      | inl e ↦ rw e (
        ih.0,
        λ ok y nz. (
          λ hyp. (add_to_range L i left y).0 (elim ((ih.1 ok y nz).0 hyp) [
            | inl r ↦ inl r
            | inr holds ↦ inr ((stores e y nz).0 holds)
          ]),
          λ hyp. (ih.1 ok y nz).1 (elim ((add_to_range L i left y).1 hyp) [
            | inl r ↦ inl r
            | inr h ↦ inr ((stores e y nz).1 h)
          ]),
        ),
      )
    ]

-- In a cuckoo table the two probes decide membership.
pub cuckoo_lookup_iff :
    (H : List ℕ) (x : ℕ) → IsCuckoo H → x ≢ 0 → (cuckoo_lookup H x ≡ true) ↔ Holds H x
unfolding cuckoo_lookup
cuckoo_lookup_iff H x cuckoo nz = (
  λ hit. elim (Bool-cases (get_or H (H0 x) 0 == x)) [
    | inl e ↦ (H0 x, (H0-lt x, (==_iff _ _).0 e))
    | inr e ↦ (H1 x, (H1-lt x, ground arith))
  ],
  λ (p, (small, e)). elim (cuckoo.placed p small (λ z. nz (sym e ∙ z))) [
    | inl at_0 ↦
        let here : get_or H (H0 x) 0 ≡ x = ap (λ q. get_or H q 0) (ap H0 (sym e) ∙ at_0) ∙ e in
        ground arith
    | inr at_1 ↦
        let here : get_or H (H1 x) 0 ≡ x = ap (λ q. get_or H q 0) (ap H1 (sym e) ∙ at_1) ∙ e in
        ground arith
  ],
)
