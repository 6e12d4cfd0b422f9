-- ===== src/Join/Correct.antt =====
-- `subjoin` finds exactly the pairs that agree on the top bits.
use xor_mining.Base.{
  ℕ, ◌+◌, ◌<◌, bit_xor, List, [], ◌∷◌, ◌++◌, length, some, ◌≡◌, ◌≢◌, refl, sym, ap, ◌∙◌, arith, ◌⊎◌,
  inl, inr, ◌≤◌, ltb, true, ◌↔◌, ◌∈◌, All, ∈-append, ∈-append_left, ∈-append_right,
}
use xor_mining.Base.Run.{ok}
use xor_mining.Word.{◌>>>◌}
use xor_mining.Table.{empty_table}
use xor_mining.Table.Walk.{Holds, IsProbed}
use xor_mining.Table.Linear.{
  load, load-empty_table, get_or-empty_table, empty_table-IsProbed, probe_insert-Inserts,
}
use xor_mining.Join.{Triple, shift_of, part_hash, build_piece, build, probe_piece, probe, subjoin}
use xor_mining.Join.Scan.{Agree, triple, part_hash-lt, scan_lem}

-- The words of all pieces, and their number.
abbrev pub InPieces : {A : Type 0} → A → List (List A) → Type 0
InPieces x [] = ⊥
InPieces x (A ∷ As) = (x ∈ A) ⊎ InPieces x As

abbrev pub total : List (List ℕ) → ℕ
total [] = 0
total (A ∷ As) = length A + total As

abbrev pub NonZero : ℕ → Type 0
NonZero x = x ≢ 0

-- A table that holds what `H` held and some words more.
record Adds (shift : ℕ) (More : ℕ → Type 0) (count : ℕ) (H H' : List ℕ) : Type 0 where
  probed : IsProbed (part_hash shift) H'
  loaded : load H' ≡ load H + count
  holds : (y : ℕ) → y ≢ 0 → Holds H' y ↔ (More y ⊎ Holds H y)

module _ (shift : ℕ) where
  Adds-nothing : (H : List ℕ) → IsProbed (part_hash shift) H → Adds shift (λ y. ⊥) 0 H H
  Adds-nothing H probed = record {
    probed = probed;
    loaded = omega arith;
    holds = λ y nz. (λ h. inr h, λ hyp. elim hyp [ inl bad ↦ absurd bad | inr h ↦ h ]);
  }

  Adds-trans :
      {M N : ℕ → Type 0} {m n : ℕ} {H H₁ H' : List ℕ}
      → Adds shift M m H H₁
      → Adds shift N n H₁ H'
      → Adds shift (λ y. M y ⊎ N y) (m + n) H H'
  Adds-trans a b = record {
    probed = b.probed;
    loaded = omega (arith, a.loaded, b.loaded);
    holds = λ y nz. (
      λ h. elim ((b.holds y nz).0 h) [
        | inl later ↦ inl (inr later)
        | inr h₁ ↦ elim ((a.holds y nz).0 h₁) [ inl first ↦ inl (inl first) | inr old ↦ inr old ]
      ],
      λ hyp. (b.holds y nz).1 (elim hyp [
        | inl (inl first) ↦ inr ((a.holds y nz).1 (inl first))
        | inl (inr later) ↦ inl later
        | inr old ↦ inr ((a.holds y nz).1 (inr old))
      ]),
    );
  }

  build_piece-Adds :
      (A H : List ℕ)
      → IsProbed (part_hash shift) H
      → All NonZero A
      → load H + length A < 512
      → (H' : List ℕ) × (build_piece shift A H ≡ some H') × Adds shift (λ y. y ∈ A) (length A) H H'
  unfolding build_piece
  build_piece-Adds [] H probed nz room = (H, refl, Adds-nothing H probed)
  build_piece-Adds (a ∷ A) H probed nz room =
      let (H₁, run, ins) =
        probe_insert-Inserts (part_hash shift) (part_hash-lt shift) H a probed nz.0 (omega arith) in
      let (H', run', more) = build_piece-Adds A H₁ ins.probed nz.1 (omega (arith, ins.loaded)) in
      let first : Adds shift (λ y. a ≡ y) 1 H H₁ = record {
        probed = ins.probed;
        loaded = ins.loaded;
        holds = ins.holds;
      } in
      let both = Adds-trans first more in
      (
        H',
        rw (run, build_piece) run',
        record { probed = both.probed; loaded = omega (arith, both.loaded); holds = both.holds },
      )

  build-Adds :
      (As : List (List ℕ)) (H : List ℕ)
      → IsProbed (part_hash shift) H
      → All (All NonZero) As
      → load H + total As < 512
      → (H' : List ℕ) × (build shift As H ≡ some H')
        × Adds shift (λ y. InPieces y As) (total As) H H'
  unfolding build
  build-Adds [] H probed nz room = (H, refl, Adds-nothing H probed)
  build-Adds (A ∷ As) H probed nz room =
      let (H₁, run, first) = build_piece-Adds A H probed nz.0 (omega arith) in
      let (H', run', more) = build-Adds As H₁ first.probed nz.1 (omega (arith, first.loaded)) in
      (H', rw (run, build) run', Adds-trans first more)

nonzero_of_piece : (A : List ℕ) → All NonZero A → (x : ℕ) → x ∈ A → x ≢ 0
nonzero_of_piece [] nz x m = absurd m
nonzero_of_piece (a ∷ A) nz x (inl e) = rw (← e) nz.0
nonzero_of_piece (a ∷ A) nz x (inr m) = nonzero_of_piece A nz.1 x m

nonzero_of : (As : List (List ℕ)) → All (All NonZero) As → (x : ℕ) → InPieces x As → x ≢ 0
nonzero_of [] nz x m = absurd m
nonzero_of (A ∷ As) nz x (inl m) = nonzero_of_piece A nz.0 x m
nonzero_of (A ∷ As) nz x (inr m) = nonzero_of As nz.1 x m

shift-ltb : (l : ℕ) → 0 < l → l ≤ 64 → ltb (shift_of l) 64 ≡ true
unfolding shift_of
shift-ltb l pos le = ground arith

-- `t` joins a word of the table with a word of the second side.
abbrev pub Joins : ℕ → (ℕ → Type 0) → (ℕ → Type 0) → Triple → Type 0
Joins shift A B t = (t ≡ triple t.val0 t.val1) × A t.val0 × B t.val1 × Agree shift t.val0 t.val1

module _ (shift : ℕ) (H : List ℕ) (probed : IsProbed (part_hash shift) H)
    (room : load H < 512) where
  abbrev Stored : ℕ → Type 0
  Stored x = (x ≢ 0) × Holds H x

  probe_piece-Joins :
      (B : List ℕ)
      → (out : List Triple) × (probe_piece shift H B ≡ some out)
        × ((t : Triple) → (t ∈ out) ↔ Joins shift Stored (λ y. y ∈ B) t)
  unfolding probe_piece
  probe_piece-Joins [] = ([], refl, λ t. (λ bad. absurd bad, λ (q, a, b, agree). absurd b))
  probe_piece-Joins (y ∷ B) =
      let (found, run, one) = scan_lem shift y H probed room in
      let (more, run', rest) = probe_piece-Joins B in
      (
        found ++ more,
        rw (run, run') refl,
        λ t. (
          λ m. elim (∈-append t found more m) [
            | inl now ↦
                let (q, nz, holds, agree) = (one t).0 now in
                let y-eq : y ≡ t.val1 = sym (ap (λ (u : Triple). u.val1) q) in
                (
                  q ∙ ap (triple t.val0) y-eq,
                  (nz, holds),
                  inl y-eq,
                  ap (λ u. bit_xor t.val0 u >>> shift) (sym y-eq) ∙ agree,
                )
            | inr later ↦ let (q, a, b, agree) = (rest t).0 later in (q, a, inr b, agree)
          ],
          λ (q, (nz, holds), b, agree). elim b [
            | inl y-eq ↦ ∈-append_left t found more (
                (one t).1 (
                  q ∙ ap (triple t.val0) (sym y-eq),
                  nz,
                  holds,
                  ap (λ u. bit_xor t.val0 u >>> shift) y-eq ∙ agree,
                ))
            | inr b' ↦ ∈-append_right t found more ((rest t).1 (q, (nz, holds), b', agree))
          ],
        ),
      )

  probe-Joins :
      (Bs : List (List ℕ))
      → (out : List Triple) × (probe shift H Bs ≡ some out)
        × ((t : Triple) → (t ∈ out) ↔ Joins shift Stored (λ y. InPieces y Bs) t)
  unfolding probe
  probe-Joins [] = ([], refl, λ t. (λ bad. absurd bad, λ (q, a, b, agree). absurd b))
  probe-Joins (B ∷ Bs) =
      let (found, run, one) = probe_piece-Joins B in
      let (more, run', rest) = probe-Joins Bs in
      (
        found ++ more,
        rw (run, run') refl,
        λ t. (
          λ m. elim (∈-append t found more m) [
            | inl now ↦ let (q, a, b, agree) = (one t).0 now in (q, a, inl b, agree)
            | inr later ↦ let (q, a, b, agree) = (rest t).0 later in (q, a, inr b, agree)
          ],
          λ (q, a, b, agree). elim b [
            | inl b' ↦ ∈-append_left t found more ((one t).1 (q, a, b', agree))
            | inr b' ↦ ∈-append_right t found more ((rest t).1 (q, a, b', agree))
          ],
        ),
      )

-- For 1 to 64 equations, and pieces of the first side that hold fewer than 512 words, none of them
-- 0, `subjoin` ends without a fault, and its output holds exactly the triples of a word of the
-- first side, a word of the second and their sum, where the sum is zero above the low `64 - l` bits.
pub subjoin_iff :
    (l : ℕ) (As Bs : List (List ℕ))
    → 0 < l
    → l ≤ 64
    → All (All NonZero) As
    → total As < 512
    → (out : List Triple) × (subjoin l As Bs ≡ ok out)
      × ((t : Triple) → (t ∈ out) ↔ Joins (shift_of l) (λ x. InPieces x As) (λ y. InPieces y Bs) t)
unfolding subjoin
subjoin_iff l As Bs pos le nz room =
    let shift = shift_of l in
    let defined : ltb (shift_of l) 64 ≡ true = shift-ltb l pos le in
    let (H, run, adds) =
      build-Adds shift As empty_table (empty_table-IsProbed (part_hash shift)) nz
        (omega (arith, load-empty_table)) in
    let (out, run', joins) =
      probe-Joins shift H adds.probed (omega (arith, adds.loaded, load-empty_table)) Bs in
    (
      out,
      rw (defined, run, run') refl,
      λ t. (
        λ m.
            let (q, (nz', holds), b, agree) = (joins t).0 m in
            (q, from_pieces t.val0 H nz' ((adds.holds t.val0 nz').0 holds), b, agree),
        λ (q, a, b, agree).
            let nz' = nonzero_of As nz t.val0 a in
            (joins t).1 (q, (nz', (adds.holds t.val0 nz').1 (inl a)), b, agree),
      ),
    )
  where
    from_pieces : (x : ℕ) (H : List ℕ) → x ≢ 0 → InPieces x As ⊎ Holds empty_table x → InPieces x As
    from_pieces x H nz (inl a) = a
    from_pieces x H nz (inr (p, (small, e))) = absurd (nz (sym e ∙ get_or-empty_table p))
