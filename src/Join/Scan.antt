-- ===== src/Join/Scan.antt =====
-- The probe of one word `y`: exactly the words of its hash chain that agree with it at the top.
use xor_mining.Base.{
  ℕ, zero, suc, ◌+◌, ◌≤◌, ◌<◌, bit_and, bit_xor, List, [], ◌∷◌, get_or, ◌==◌, some, false, ◌≡◌, ◌≢◌,
  refl, sym, ap, ◌∙◌, arith, inl, inr, ℕ_discrete, ◌↔◌, Bool-cases, ◌∈◌, ==_iff,
}
use xor_mining.Word.{◌>>>◌}
use xor_mining.Word.Mask.{bit_and_mask}
use xor_mining.Word.Xor.{bit_xor-shr, bit_xor_eq_zero_iff}
use xor_mining.Table.Walk.{slot, slot-zero, next-slot, Holds, Taken, IsProbed}
use xor_mining.Table.Linear.{load, FirstFree, first_free}
use xor_mining.Join.{Triple, scan, part_hash}

-- `x` and `y` agree above the low `shift` bits.
abbrev pub Agree : ℕ → ℕ → ℕ → Type 0
Agree shift x y = bit_xor x y >>> shift ≡ 0

abbrev pub triple : ℕ → ℕ → Triple
triple x y = record { val0 = x; val1 = y; val2 = bit_xor x y }

pub part_hash-lt : (shift x : ℕ) → part_hash shift x < 512
unfolding part_hash
part_hash-lt shift x = rw (bit_and_mask 9 (x >>> shift)) (omega arith)

pub Agree-part_hash : (shift x y : ℕ) → Agree shift x y → part_hash shift x ≡ part_hash shift y
unfolding part_hash
Agree-part_hash shift x y e =
    ap (λ t. bit_and t 511)
      ((bit_xor_eq_zero_iff (x >>> shift) (y >>> shift)).0 (sym (bit_xor-shr x y shift) ∙ e))

-- `x` stands in the chain between `d` and `e` steps from `h`, and agrees with `y`.
abbrev InChain : ℕ → List ℕ → ℕ → ℕ → ℕ → ℕ → ℕ → Type 0
InChain shift H h d e y x =
    (k : ℕ) × ((d ≤ k) × (k < e) × (get_or H (slot h k) 0 ≡ x) × Agree shift x y)

-- `out` lists the matches of `y` between `d` and `e`.
abbrev Lists : ℕ → List ℕ → ℕ → ℕ → ℕ → ℕ → List Triple → Type 0
Lists shift H h d e y out =
    (t : Triple) → (t ∈ out) ↔ ((t ≡ triple t.val0 y) × InChain shift H h d e y t.val0)

module _ (shift : ℕ) (H : List ℕ) (h d e y : ℕ) (d-lt : d < e) (out : List Triple)
    (lists : Lists shift H h (suc d) e y out) where
  abbrev here : ℕ
  here = get_or H (slot h d) 0

  earlier : (t : Triple) → InChain shift H h (suc d) e y t.val0 → InChain shift H h d e y t.val0
  earlier t (k, (lo, hi, hit, agree)) = (k, (omega arith, hi, hit, agree))

  Lists-hit : Agree shift here y → Lists shift H h d e y (triple here y ∷ out)
  Lists-hit agree t = (
    λ m. elim m [
      | inl q ↦ rw (← q) (refl, (d, (omega arith, d-lt, refl, agree)))
      | inr later ↦ let (q, chain) = (lists t).0 later in (q, earlier t chain)
    ],
    λ (q, (k, (lo, hi, hit, agree'))). elim (ℕ_discrete d k) [
      | yes same ↦ inl (ap (λ v. triple v y) (ap (λ j. get_or H (slot h j) 0) same ∙ hit) ∙ sym q)
      | no other ↦ inr ((lists t).1 (q, (k, (omega arith, hi, hit, agree'))))
    ],
  )

  Lists-miss : ¬ (Agree shift here y) → Lists shift H h d e y out
  Lists-miss differ t = (
    λ later. let (q, chain) = (lists t).0 later in (q, earlier t chain),
    λ (q, (k, (lo, hi, hit, agree'))). elim (ℕ_discrete d k) [
      | yes same ↦
          let value : here ≡ t.val0 = ap (λ j. get_or H (slot h j) 0) same ∙ hit in
          absurd (differ (ap (λ v. bit_xor v y >>> shift) value ∙ agree'))
      | no other ↦ (lists t).1 (q, (k, (omega arith, hi, hit, agree')))
    ],
  )

scan-Lists :
    (left d h e : ℕ) (shift y : ℕ) (H : List ℕ)
    → d ≤ e
    → e < d + left
    → Taken H h e
    → get_or H (slot h e) 0 ≡ 0
    → (out : List Triple) × (scan left shift H (slot h d) y ≡ some out) × Lists shift H h d e y out
unfolding scan
scan-Lists zero d h e shift y H lo hi taken free = absurd (omega arith)
scan-Lists (suc left) d h e shift y H lo hi taken free = elim (ℕ_discrete d e) [
  | yes same ↦
      let empty : get_or H (slot h d) 0 ≡ 0 = rw same free in
      (
        [],
        ground arith,
        λ t. (λ bad. absurd bad, λ (q, (k, (p, r, hit, agree))). absurd (omega arith)),
      )
  | no other ↦
      let (out, run, lists) =
        scan-Lists left (suc d) h e shift y H (omega arith) (omega arith) taken free in
      let full : (get_or H (slot h d) 0 == 0) ≡ false = ground (arith, taken d) in
      let d-lt : d < e = omega arith in
      elim (Bool-cases ((bit_xor (get_or H (slot h d) 0) y >>> shift) == 0)) [
        | inl hit ↦ (
          triple (get_or H (slot h d) 0) y ∷ out,
          rw (full, hit, next-slot h d, run) refl,
          Lists-hit shift H h d e y d-lt out lists ((==_iff _ _).0 hit),
        )
        | inr miss ↦ (
          out,
          rw (full, miss, next-slot h d, run) refl,
          Lists-miss shift H h d e y d-lt out lists (λ a. ground (arith, a, miss)),
        )
      ]
]

module _ (shift y : ℕ) (H : List ℕ) where
  chain_held :
      (f : FirstFree H (part_hash shift y)) (x : ℕ)
      → InChain shift H (part_hash shift y) 0 f.steps y x
      → (x ≢ 0) × Holds H x × Agree shift x y
  chain_held f x (k, (lo, hi, hit, agree)) =
      (λ z. f.before k hi (hit ∙ z), (slot (part_hash shift y) k, (omega arith, hit)), agree)

  held_chain :
      IsProbed (part_hash shift) H
      → (f : FirstFree H (part_hash shift y)) (x : ℕ) → x ≢ 0
      → Holds H x
      → Agree shift x y
      → InChain shift H (part_hash shift y) 0 f.steps y x
  held_chain probed f x nz (p, (small, e)) agree =
      go (rw e at (probed.found p small (λ z. nz (sym e ∙ z))))
    where
      go :
          (d : ℕ) × (d < 512) × (slot (part_hash shift x) d ≡ p) × Taken H (part_hash shift x) d
          → InChain shift H (part_hash shift y) 0 f.steps y x
      go (d, d-lt, place, taken) =
          let same = Agree-part_hash shift x y agree in
          let hit : get_or H (slot (part_hash shift y) d) 0 ≡ x =
            rw (← same) (ap (λ q. get_or H q 0) place ∙ e) in
          let later : ¬ (f.steps < d) = λ lt. taken f.steps lt (rw same f.free) in
          let apart : d ≢ f.steps = λ q. nz (sym hit ∙ rw q f.free) in
          (d, (omega arith, omega arith, hit, agree))

-- The scan from the home slot of `y` ends, and finds the words of the table that agree with `y`.
pub scan_lem :
    (shift y : ℕ) (H : List ℕ)
    → IsProbed (part_hash shift) H
    → load H < 512
    → (out : List Triple) × (scan 512 shift H (part_hash shift y) y ≡ some out)
      × ((t : Triple)
          → (t ∈ out)
            ↔ ((t ≡ triple t.val0 y) × (t.val0 ≢ 0) × Holds H t.val0 × Agree shift t.val0 y))
scan_lem shift y H probed room =
    let home = part_hash shift y in go (first_free H home probed.size room (part_hash-lt shift y))
  where
    go :
        FirstFree H (part_hash shift y)
        → (out : List Triple) × (scan 512 shift H (part_hash shift y) y ≡ some out)
          × ((t : Triple)
              → (t ∈ out)
                ↔ ((t ≡ triple t.val0 y) × (t.val0 ≢ 0) × Holds H t.val0 × Agree shift t.val0 y))
    go f =
        let (out, run, lists) =
          scan-Lists 512 0 (part_hash shift y) f.steps shift y H (omega arith)
            (omega (arith, f.small)) f.before f.free in
        (
          out,
          rw (slot-zero (part_hash shift y) (part_hash-lt shift y)) at run,
          λ t. (
            λ m.
                let (q, chain) = (lists t).0 m in
                let (nz, holds, agree) = chain_held shift y H f t.val0 chain in
                (q, nz, holds, agree),
            λ (q, nz, holds, agree).
                (lists t).1 (q, held_chain shift y H probed f t.val0 nz holds agree),
          ),
        )
