-- ===== src/Splitter/Reading.antt =====
-- The reader of preprocessing/splitter.c deals the whole file out, in blocks, to those that ask.
use xor_mining.Base.{
  ℕ, zero, suc, ◌+◌, ◌-◌, ◌/◌, ◌<◌, ◌≡◌, refl, sym, ap, ◌∙◌, arith, List, [], ◌∷◌, ◌++◌,
  append_assoc, append-nil, map, map-append, length, ◌==◌, Bool-cases, inl, inr,
}
use xor_mining.Base.Run.{Finishes, Finishes-weaken}
use xor_mining.Hasher.Digest.{Preimage}
use xor_mining.Splitter.{Reply, nonce_block, put, fread, read_loop}
use xor_mining.Splitter.Mapping.{AllFit}
use xor_mining.Splitter.Flushing.{dealt, AllDealtFit}
use xor_mining.Splitter.Sums.{total, total-put}

fread-parts : (n : ℕ) (file : List Preimage) → (fread n file).0 ++ (fread n file).1 ≡ file
unfolding fread
fread-parts zero file = refl
fread-parts (suc n) [] = refl
fread-parts (suc n) (x ∷ file) = ap (λ r. x ∷ r) (fread-parts n file)

fread-rest : (n : ℕ) (file : List Preimage) → length (fread n file).1 ≡ length file - n
unfolding fread
fread-rest zero file = omega arith
fread-rest (suc n) [] = omega arith
fread-rest (suc n) (x ∷ file) = omega (arith, fread-rest n file)

fread-AllFit :
    (n : ℕ) (file : List Preimage) → AllFit file → AllFit (fread n file).0 × AllFit (fread n file).1
unfolding fread
fread-AllFit zero file fit = (tt, fit)
fread-AllFit (suc n) [] fit = (tt, tt)
fread-AllFit (suc n) (x ∷ file) (here, fit) = let (a, b) = fread-AllFit n file fit in ((here, a), b)

-- A size of lists of preimages
pub record Additive (μ : List Preimage → ℕ) : Type 0 where
  pub of_none : μ [] ≡ 0
  pub of_append : (xs ys : List Preimage) → μ (xs ++ ys) ≡ μ xs + μ ys

dealt-more :
    (blocks : List (List Preimage)) (block : List Preimage)
    → dealt (blocks ++ (block ∷ [])) ≡ dealt blocks ++ block
unfolding dealt
dealt-more [] block = append-nil block
dealt-more (b ∷ blocks) block =
    ap (λ r. b ++ r) (dealt-more blocks block) ∙ sym (append_assoc b (dealt blocks) block)

fit-more :
    (blocks : List (List Preimage)) (block : List Preimage)
    → AllDealtFit blocks
    → AllFit block
    → AllDealtFit (blocks ++ (block ∷ []))
fit-more [] block old new = (new, tt)
fit-more (b ∷ blocks) block (here, old) new = (here, fit-more blocks block old new)

-- The blocks that stand in the inboxes; by any size, those of `n` mappers are `S`.
pub record Deals (n : ℕ) (S : (List Preimage → ℕ) → ℕ) (inbox : ℕ → List Reply) : Type 0 where
  pub blocks : ℕ → List (List Preimage)
  pub holds : (p : ℕ) → inbox p ≡ map nonce_block (blocks p)
  pub fit : (p : ℕ) → AllDealtFit (blocks p)
  pub sums : (μ : List Preimage → ℕ) → Additive μ → total (λ p. μ (dealt (blocks p))) n ≡ S μ

put-Deals :
    (n q : ℕ) (S : (List Preimage → ℕ) → ℕ) (inbox : ℕ → List Reply) (block : List Preimage)
    → q < n
    → AllFit block
    → Deals n S inbox
    → Deals n (λ μ. S μ + μ block) (put inbox q (inbox q ++ (nonce_block block ∷ [])))
put-Deals n q S inbox block lt fit d = record {
  blocks = put d.blocks q (d.blocks q ++ (block ∷ []));
  holds = λ p. elim (Bool-cases (p == q)) [
    | inl e ↦ rw (e, d.holds q, map-append nonce_block (d.blocks q) (block ∷ [])) refl
    | inr e ↦ rw e (d.holds p)
  ];
  fit = λ p. elim (Bool-cases (p == q)) [
    | inl e ↦ rw e (fit-more (d.blocks q) block (d.fit q) fit)
    | inr e ↦ rw e (d.fit p)
  ];
  sums = λ μ a.
      let shift = total-put (λ b. μ (dealt b)) d.blocks q (d.blocks q ++ (block ∷ [])) n lt in
      let more : μ (dealt (d.blocks q ++ (block ∷ []))) ≡ μ (dealt (d.blocks q)) + μ block =
        ap μ (dealt-more (d.blocks q) block) ∙ a.of_append (dealt (d.blocks q)) block in
      omega (arith, shift, more, d.sums μ a);
}

-- The numbers of a list are below `n`.
abbrev pub AllBelow : ℕ → List ℕ → Type 0
AllBelow n [] = Unit
AllBelow n (q ∷ qs) = (q < n) × AllBelow n qs

-- As many requests as the file has blocks
abbrev pub blocks_of : List Preimage → ℕ
blocks_of file = (length file + 65535) / 65536

-- The blocks of `file` have come to those that were in the inboxes.
pub record DealsAll (n : ℕ) (S : (List Preimage → ℕ) → ℕ) (file : List Preimage)
    (inbox : ℕ → List Reply) : Type 0 where
  pub S' : (List Preimage → ℕ) → ℕ
  pub gains : (μ : List Preimage → ℕ) → Additive μ → S' μ ≡ S μ + μ file
  pub deals : Deals n S' inbox

pub read_loop-Deals :
    (n : ℕ) (S : (List Preimage → ℕ) → ℕ) (requests finals : List ℕ) (file : List Preimage)
    (inbox : ℕ → List Reply)
    → length requests ≡ blocks_of file
    → AllBelow n requests
    → AllFit file
    → Deals n S inbox
    → Finishes
        (read_loop (requests ++ finals) file inbox)
        (λ r. (r.0 ≡ finals) × DealsAll n S file r.1)
unfolding read_loop
read_loop-Deals n S [] finals [] inbox size below fit d =
    (refl, record { S' = S; gains = λ μ a. omega (arith, a.of_none); deals = d })
read_loop-Deals n S [] finals (x ∷ file) inbox size below fit d = absurd (omega (arith, size))
read_loop-Deals n S (q ∷ requests) finals [] inbox size below fit d = absurd (omega (arith, size))
read_loop-Deals n S (q ∷ requests) finals (x ∷ file) inbox size (lt, below) fit d =
    let block = (fread 65536 (x ∷ file)).0 in
    let rest = (fread 65536 (x ∷ file)).1 in
    let (fit', fit'') = fread-AllFit 65536 (x ∷ file) fit in
    let size' : length requests ≡ blocks_of rest =
      omega (arith, size, fread-rest 65536 (x ∷ file)) in
    Finishes-weaken
      (read_loop (requests ++ finals) rest (put inbox q (inbox q ++ (nonce_block block ∷ [])))) _ _
      (read_loop-Deals n (λ μ. S μ + μ block) requests finals rest _ size' below fit''
        (put-Deals n q S inbox block lt fit' d))
      (λ r (left, all). (
        left,
        record {
          S' = all.S';
          gains = λ μ a.
              let parts : μ (x ∷ file) ≡ μ block + μ rest =
                ap μ (sym (fread-parts 65536 (x ∷ file))) ∙ a.of_append block rest in
              omega (arith, all.gains μ a, parts);
          deals = all.deals;
        },
      ))
