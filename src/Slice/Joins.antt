-- ===== src/Slice/Joins.antt =====
-- The third phase of `process_slice`: the joins of the partitions find what a join of the whole
-- lists would.
use native.Mathlib.Nat.{div-div-eq-div-mul}
use xor_mining.Base.{
  ℕ, ◌+◌, ◌-◌, ◌/◌, ◌^◌, ◌≤◌, ◌<◌, ◌≡◌, refl, sym, ap, ◌∙◌, arith, List, [], ◌∷◌, ◌++◌, map, inl,
  inr, ◌↔◌, ◌∈◌, All, ∈-append, ∈-append_left, ∈-append_right, Bool-cases, ◌==◌, ==_iff, true,
  false,
}
use xor_mining.Base.Run.{ok}
use xor_mining.Word.{◌>>>◌}
use xor_mining.Word.Xor.{bit_xor-shr, bit_xor_eq_zero_iff}
use xor_mining.Join.{Triple, shift_of, subjoin}
use xor_mining.Join.Scan.{Agree}
use xor_mining.Join.Correct.{InPieces, NonZero, Joins, total, subjoin_iff}
use xor_mining.Partition.{Side, pieces_from}
use xor_mining.Partition.Dispatch.{bucket}
use xor_mining.Partition.Correct.{shift_lem, two_pow_add}
use xor_mining.Slice.{join_thread, join_threads}

other_bucket : (shift i x y : ℕ) → (y >>> shift == i) ≡ false → y ≡ x → x >>> shift ≡ i → ⊥
other_bucket shift i x y e q key =
    let hit : (y >>> shift == i) ≡ true = (==_iff _ _).1 (ap (λ u. u >>> shift) q ∙ key) in
    absurd (ground (arith, hit, e))

-- A bucket holds the items with its number at the top.
∈-bucket : (shift i x : ℕ) (L : List ℕ) → (x ∈ bucket shift i L) ↔ ((x ∈ L) × (x >>> shift ≡ i))
unfolding bucket
∈-bucket shift i x [] = (λ bad. absurd bad, λ (bad, e). absurd bad)
∈-bucket shift i x (y ∷ L) = elim (Bool-cases (y >>> shift == i)) [
  | inl e ↦ rw e (
    λ m. elim m [
      | inl q ↦ (inl q, rw (← q) ((==_iff _ _).0 e))
      | inr m' ↦ let (there, key) = (∈-bucket shift i x L).0 m' in (inr there, key)
    ],
    λ (m, key). elim m [ inl q ↦ inl q | inr m' ↦ inr ((∈-bucket shift i x L).1 (m', key)) ],
  )
  | inr e ↦ rw e (
    λ m. let (there, key) = (∈-bucket shift i x L).0 m in (inr there, key),
    λ (m, key). elim m [
      | inl q ↦ absurd (other_bucket shift i x y e q key)
      | inr m' ↦ (∈-bucket shift i x L).1 (m', key)
    ],
  )
]

InPieces-bucket :
    (shift i x : ℕ) (chunks : List (List ℕ))
    → InPieces x (map (bucket shift i) chunks) ↔ (InPieces x chunks × (x >>> shift ≡ i))
InPieces-bucket shift i x [] = (λ bad. absurd bad, λ (bad, e). absurd bad)
InPieces-bucket shift i x (L ∷ chunks) = (
  λ m. elim m [
    | inl m' ↦ let (there, key) = (∈-bucket shift i x L).0 m' in (inl there, key)
    | inr m' ↦ let (there, key) = (InPieces-bucket shift i x chunks).0 m' in (inr there, key)
  ],
  λ (m, key). elim m [
    | inl m' ↦ inl ((∈-bucket shift i x L).1 (m', key))
    | inr m' ↦ inr ((InPieces-bucket shift i x chunks).1 (m', key))
  ],
)

bucket-NonZero : (shift i : ℕ) (L : List ℕ) → All NonZero L → All NonZero (bucket shift i L)
unfolding bucket
bucket-NonZero shift i [] nz = tt
bucket-NonZero shift i (x ∷ L) nz = elim (Bool-cases (x >>> shift == i)) [
  | inl e ↦ rw e (nz.0, bucket-NonZero shift i L nz.1)
  | inr e ↦ rw e (bucket-NonZero shift i L nz.1)
]

buckets-NonZero :
    (shift i : ℕ) (chunks : List (List ℕ))
    → All (All NonZero) chunks
    → All (All NonZero) (map (bucket shift i) chunks)
buckets-NonZero shift i [] nz = tt
buckets-NonZero shift i (L ∷ chunks) nz =
    (bucket-NonZero shift i L nz.0, buckets-NonZero shift i chunks nz.1)

-- Words that agree on the top `l` bits agree on fewer.
Agree-key :
    (l p x y : ℕ) → p ≤ l → l ≤ 64 → Agree (shift_of l) x y → x >>> (64 - p) ≡ y >>> (64 - p)
Agree-key l p x y le small agree =
    let same : x >>> shift_of l ≡ y >>> shift_of l =
      (bit_xor_eq_zero_iff (x >>> shift_of l) (y >>> shift_of l)).0
        (sym (bit_xor-shr x y (shift_of l)) ∙ agree) in
    step x ∙ ap (λ u. u >>> (l - p)) (rw (shift_lem l small) at same) ∙ sym (step y)
  where
    step : (u : ℕ) → u >>> (64 - p) ≡ u >>> (64 - l) >>> (l - p)
    step u =
        let e : 64 - p ≡ (64 - l) + (l - p) = omega arith in
        ap (λ k. u / 2 ^ k) e
        ∙ ap (λ k. u / k) (two_pow_add (64 - l) (l - p))
        ∙ sym (div-div-eq-div-mul u (2 ^ (64 - l)) (2 ^ (l - p)))

-- What the reads of the pieces give for the two sides, and the room in the table of `subjoin`.
pub record Pieces (p T : ℕ) (side : Side) (chunks : List (List ℕ)) : Type 0 where
  pub reads : (i : ℕ) → i < 2 ^ p → pieces_from (2 ^ p) side i 0 T ≡ map (bucket (64 - p) i) chunks

pub record IsJoinable (p : ℕ) (chunks : List (List ℕ)) : Type 0 where
  pub nonzero : All (All NonZero) chunks
  pub room : (i : ℕ) → i < 2 ^ p → total (map (bucket (64 - p) i) chunks) < 512

module _ (l p T : ℕ) (side0 side1 : Side) (chunks0 chunks1 : List (List ℕ))
    (pieces0 : Pieces p T side0 chunks0) (pieces1 : Pieces p T side1 chunks1)
    (joinable : IsJoinable p chunks0) (pos : 0 < l) (width : l ≤ 64) where
  abbrev Joined : ℕ → Triple → Type 0
  Joined i t =
      Joins (shift_of l) (λ x. InPieces x (map (bucket (64 - p) i) chunks0))
        (λ y. InPieces y (map (bucket (64 - p) i) chunks1)) t

  join_one :
      (i : ℕ)
      → i < 2 ^ p
      → (out : List Triple) × (subjoin l
            (pieces_from (2 ^ p) side0 i 0 T)
            (pieces_from (2 ^ p) side1 i 0 T)
          ≡ ok out)
        × ((t : Triple) → (t ∈ out) ↔ Joined i t)
  join_one i hi =
      rw (pieces0.reads i hi, pieces1.reads i hi)
        (subjoin_iff l (map (bucket (64 - p) i) chunks0) (map (bucket (64 - p) i) chunks1) pos width
          (buckets-NonZero (64 - p) i chunks0 joinable.nonzero) (joinable.room i hi))

  join_thread-Joined :
      (is : List ℕ)
      → All (λ i. i < 2 ^ p) is
      → (out : List Triple) × (join_thread l (2 ^ p) T side0 side1 is ≡ ok out)
        × ((t : Triple) → (t ∈ out) ↔ ((i : ℕ) × ((i ∈ is) × Joined i t)))
  unfolding join_thread
  join_thread-Joined [] below = ([], refl, λ t. (λ bad. absurd bad, λ (i, (bad, j)). absurd bad))
  join_thread-Joined (i ∷ is) below =
      let (found, run, one) = join_one i below.0 in
      let (more, run', rest) = join_thread-Joined is below.1 in
      (
        found ++ more,
        rw (run, run') refl,
        λ t. (
          λ m. elim (∈-append t found more m) [
            | inl now ↦ (i, (inl refl, (one t).0 now))
            | inr later ↦ let (k, (at_k, j)) = (rest t).0 later in (k, (inr at_k, j))
          ],
          λ (k, (at_k, j)). elim at_k [
            | inl same ↦ ∈-append_left t found more ((one t).1 (rw same j))
            | inr later ↦ ∈-append_right t found more ((rest t).1 (k, (later, j)))
          ],
        ),
      )

  join_threads-Joined :
      (assign : List (List ℕ))
      → All (All (λ i. i < 2 ^ p)) assign
      → (outs : List (List Triple)) × (join_threads l (2 ^ p) T side0 side1 assign ≡ ok outs)
        × ((t : Triple) → InPieces t outs ↔ ((i : ℕ) × (InPieces i assign × Joined i t)))
  unfolding join_threads
  join_threads-Joined [] below = ([], refl, λ t. (λ bad. absurd bad, λ (i, (bad, j)). absurd bad))
  join_threads-Joined (is ∷ assign) below =
      let (found, run, one) = join_thread-Joined is below.0 in
      let (more, run', rest) = join_threads-Joined assign below.1 in
      (
        found ∷ more,
        rw (run, run') refl,
        λ t. (
          λ m. elim m [
            | inl now ↦ let (k, (at_k, j)) = (one t).0 now in (k, (inl at_k, j))
            | inr later ↦ let (k, (at_k, j)) = (rest t).0 later in (k, (inr at_k, j))
          ],
          λ (k, (at_k, j)). elim at_k [
            | inl now ↦ inl ((one t).1 (k, (now, j)))
            | inr later ↦ inr ((rest t).1 (k, (later, j)))
          ],
        ),
      )

  -- For 1 to 64 equations, the joins of all partitions, by whichever threads, find the
  -- pairs of the whole lists that agree on the top `l` bits.
  pub join_threads-Joins :
      (assign : List (List ℕ))
      → p ≤ l
      → ((x : ℕ) → InPieces x chunks0 → x >>> (64 - p) < 2 ^ p)
      → All (All (λ i. i < 2 ^ p)) assign
      → ((i : ℕ) → i < 2 ^ p → InPieces i assign)
      → (outs : List (List Triple)) × (join_threads l (2 ^ p) T side0 side1 assign ≡ ok outs)
        × ((t : Triple)
            → InPieces t outs
              ↔ Joins (shift_of l) (λ x. InPieces x chunks0) (λ y. InPieces y chunks1) t)
  join_threads-Joins assign le keys below covers =
      let (outs, run, joined) = join_threads-Joined assign below in
      (
        outs,
        run,
        λ t. (
          λ m.
              let (i, (at_i, (q, a, b, agree))) = (joined t).0 m in
              (
                q,
                ((InPieces-bucket (64 - p) i t.val0 chunks0).0 a).0,
                ((InPieces-bucket (64 - p) i t.val1 chunks1).0 b).0,
                agree,
              ),
          λ (q, a, b, agree).
              let i = t.val0 >>> (64 - p) in
              let same : t.val1 >>> (64 - p) ≡ i =
                sym (Agree-key l p t.val0 t.val1 le width agree) in
              (joined t).1 (
                i,
                (
                  covers i (keys t.val0 a),
                  (
                    q,
                    (InPieces-bucket (64 - p) i t.val0 chunks0).1 (a, refl),
                    (InPieces-bucket (64 - p) i t.val1 chunks1).1 (b, same),
                    agree,
                  ),
                ),
              ),
        ),
      )
