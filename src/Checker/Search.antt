-- ===== src/Checker/Search.antt =====
-- `binary_search` on a sorted list.
use xor_mining.Base.{
  ℕ, zero, suc, ◌+◌, ◌-◌, ◌/◌, ◌≤◌, ◌<◌, ◌≡◌, ◌≢◌, refl, sym, ap, ◌∙◌, arith, Bool, true, false,
  List, get_or, ◌==◌, ltb, ltb→lt, ==_iff, Bool-cases, some, ◌↔◌, inl, inr, dec_lt,
}
use xor_mining.Table.Cuckoo.{InRange}
use xor_mining.Checker.{binary_search}

-- `L[lo]` to `L[lo + size - 1]` ascend.
abbrev pub SortedRange : List ℕ → ℕ → ℕ → Type 0
SortedRange L lo size = (i j : ℕ) → lo ≤ i → i ≤ j → j < lo + size → get_or L i 0 ≤ get_or L j 0

left_half :
    (x : ℕ) (L : List ℕ) (lo size mid k : ℕ)
    → SortedRange L lo size
    → x < get_or L (lo + mid) 0
    → lo ≤ k
    → k < lo + size
    → get_or L k 0 ≡ x
    → k < lo + mid
left_half x L lo size mid k sorted lt from to at = elim (dec_lt k (lo + mid)) [
  | yes before ↦ before
  | no past ↦
      let le = sorted (lo + mid) k (omega arith) (omega arith) to in absurd (omega (arith, le))
]

right_half :
    (x : ℕ) (L : List ℕ) (lo size mid k : ℕ)
    → SortedRange L lo size
    → mid < size
    → get_or L (lo + mid) 0 < x
    → lo ≤ k
    → get_or L k 0 ≡ x
    → lo + mid ≤ k
right_half x L lo size mid k sorted inside lt from at = elim (dec_lt k (lo + mid)) [
  | yes before ↦
      let le = sorted k (lo + mid) from (omega arith) (omega arith) in absurd (omega (arith, le))
  | no past ↦ omega arith
]

-- On a range that is not empty and ascends, the search ends after at most `size` calls, and
-- decides whether the word stands in the range.
pub binary_search_iff :
    (left x : ℕ) (L : List ℕ) (lo size : ℕ)
    → 0 < size
    → size ≤ left
    → SortedRange L lo size
    → (b : Bool) × (binary_search left x L lo size ≡ some b) × ((b ≡ true) ↔ InRange L lo size x)
unfolding binary_search
binary_search_iff zero x L lo size pos fuel sorted = absurd (omega arith)
binary_search_iff (suc left) x L lo size pos fuel sorted =
    let mid = size / 2 in
    let probe = get_or L (lo + mid) 0 in
    elim (Bool-cases (x == probe)) [
      | inl hit ↦ (
        true,
        rw hit refl,
        (λ e. (lo + mid, (omega arith, omega arith, sym ((==_iff _ _).0 hit))), λ r. refl),
      )
      | inr miss ↦
          let other : probe ≢ x = λ e. ground (arith, miss, sym e) in
          elim (Bool-cases (size == 1)) [
            | inl one ↦ (
              false,
              rw (miss, one) refl,
              (
                λ bad. cc,
                λ (k, (from, to, e)).
                    let single : size ≡ 1 = (==_iff _ _).0 one in
                    let at : lo + mid ≡ k = omega (arith, single) in
                    absurd (other (ap (λ i. get_or L i 0) at ∙ e)),
              ),
            )
            | inr many ↦
                let two : 1 < size = ground (arith, many, pos) in
                let before : ltb x probe ≡ true
                    → (k : ℕ) → lo ≤ k
                    → k < lo + size
                    → get_or L k 0 ≡ x
                    → k < lo + mid =
                  λ low k from to at.
                    left_half x L lo size mid k sorted (ltb→lt x probe low) from to at in
                let after : ltb x probe ≡ false
                    → (k : ℕ) → lo ≤ k
                    → k < lo + size
                    → get_or L k 0 ≡ x
                    → lo + mid ≤ k =
                  λ high k from to at.
                    right_half x L lo size mid k sorted (omega (arith, two))
                      (ground (arith, high, other)) from at in
                elim (Bool-cases (ltb x probe)) [
                  | inl low ↦
                      let (b, run, iff) =
                        binary_search_iff left x L lo mid (omega (arith, two)) (omega (arith, two))
                          (λ i j from le to. sorted i j from le (omega arith)) in
                      (
                        b,
                        rw (miss, many, low) run,
                        (
                          λ e. let (k, (from, to, at)) = iff.0 e in (k, (from, omega arith, at)),
                          λ (k, (from, to, at)). iff.1 (k, (from, before low k from to at, at)),
                        ),
                      )
                  | inr high ↦
                      let (b, run, iff) =
                        binary_search_iff left x L (lo + mid) (size - mid) (omega (arith, two))
                          (omega (arith, two))
                          (λ i j from le to. sorted i j (omega arith) le (omega arith)) in
                      (
                        b,
                        rw (miss, many, high) run,
                        (
                          λ e.
                              let (k, (from, to, at)) = iff.0 e in
                              (k, (omega arith, omega arith, at)),
                          λ (k, (from, to, at)).
                              iff.1 (k, (after high k from to at, omega arith, at)),
                        ),
                      )
                ]
          ]
    ]
