-- ===== src/Dictionary/Accepts.antt =====
-- preprocessing/dict_checker.c on a whole file.
use xor_mining.Base.{
  ℕ, ◌+◌, ◌≤◌, ◌≡◌, ◌↔◌, refl, sym, ap, ◌∙◌, arith, true, List, [], ◌∷◌, ◌++◌, length,
  length-append,
}
use xor_mining.Base.Run.{
  Run, ok, endless, exits, fault, is_ok, Finishes, Finishes-bind, Finishes-weaken,
}
use xor_mining.Word.{u32}
use xor_mining.Hasher.{Kind}
use xor_mining.Splitter.{Entry}
use xor_mining.Splitter.Mapping.{hash-Fits}
use xor_mining.Dictionary.{
  all_blocks, Counters, count_entry, entries_loop, blocks_loop, no_entry, dict_checker,
}
use xor_mining.Dictionary.Valid.{
  EntriesFit, IsPartition, IsOrdered, last_of, Counts, entries_loop-Counts, differ,
  entry-check_hash, undefined_key-false,
}

entries_loop-accepts :
    (sha : List ℕ → List ℕ) (kind : Kind) (bits partition : ℕ) (es : List Entry) (s : Counters)
    → bits ≤ 31
    → EntriesFit es
    → IsPartition sha kind bits partition es
    → (s' : Counters) × (entries_loop sha kind bits partition es s ≡ ok s')
unfolding entries_loop
entries_loop-accepts sha kind bits partition [] s le fit part = (s, refl)
entries_loop-accepts sha kind bits partition (e ∷ es) s le (fits, fit) (is, part) =
    let (s', rest) =
      entries_loop-accepts sha kind bits partition es (count_entry e s) le fit part in
    let (valid, (full, run)) = hash-Fits sha kind e.preimage fits in
    let passed = entry-check_hash sha kind bits partition e valid full run is in
    (s', rw (entries_loop, run, undefined_key-false bits e valid full le, passed, rest) refl)

Fit-parts : (xs ys : List Entry) → EntriesFit (xs ++ ys) → EntriesFit xs × EntriesFit ys
Fit-parts [] ys fit = (tt, fit)
Fit-parts (x ∷ xs) ys (here, fit) = let (a, b) = Fit-parts xs ys fit in ((here, a), b)

module _ (sha : List ℕ → List ℕ) (kind : Kind) (bits partition : ℕ) where
  IsPartition-append :
      (xs ys : List Entry)
      → IsPartition sha kind bits partition xs
      → IsPartition sha kind bits partition ys
      → IsPartition sha kind bits partition (xs ++ ys)
  IsPartition-append [] ys a b = b
  IsPartition-append (x ∷ xs) ys (here, a) b = (here, IsPartition-append xs ys a b)

  IsPartition-parts :
      (xs ys : List Entry)
      → IsPartition sha kind bits partition (xs ++ ys)
      → IsPartition sha kind bits partition xs × IsPartition sha kind bits partition ys
  IsPartition-parts [] ys part = (tt, part)
  IsPartition-parts (x ∷ xs) ys (here, part) =
      let (a, b) = IsPartition-parts xs ys part in ((here, a), b)

last-append :
    (prev : Entry) (xs ys : List Entry) → last_of prev (xs ++ ys) ≡ last_of (last_of prev xs) ys
last-append prev [] ys = refl
last-append prev (x ∷ xs) ys = last-append x xs ys

IsOrdered-append :
    (prev : Entry) (xs ys : List Entry)
    → IsOrdered prev.hash (xs ++ ys)
      ↔ (IsOrdered prev.hash xs × IsOrdered (last_of prev xs).hash ys)
IsOrdered-append prev [] ys = ((λ h. (tt, h)), λ (u, h). h)
IsOrdered-append prev (x ∷ xs) ys =
    let (to, from) = IsOrdered-append x xs ys in
    ((λ (le, h). let (a, b) = to h in ((le, a), b)), λ ((le, a), b). (le, from (a, b)))

Counts-append :
    (s : Counters) (xs ys : List Entry) (s₁ s₂ : Counters)
    → Counts s xs s₁
    → Counts s₁ ys s₂
    → Counts s (xs ++ ys) s₂
Counts-append s xs ys s₁ s₂ a b = record {
  last = b.last ∙ ap (λ p. last_of p ys) a.last ∙ sym (last-append s.prev xs ys);
  order =
      let (to, from) = IsOrdered-append s.prev xs ys in
      (
        (λ h.
            let (first, after) = b.order.0 h in
            let (start, before) = a.order.0 first in (start, from (before, rw a.last at after))),
        λ (start, h).
            let (before, after) = to h in b.order.1 (a.order.1 (start, before), rw a.last after),
      );
}

-- What is known of a run on the entries `es`
abbrev Checked :
    (List ℕ → List ℕ) → Kind → ℕ → ℕ → List Entry → ℕ → Counters → ℕ × Counters → Type 0
Checked sha kind bits partition es n s r =
    IsPartition sha kind bits partition es × (r.0 ≡ u32 (n + length es)) × Counts s es r.1

blocks_loop-Checked :
    (sha : List ℕ → List ℕ) (kind : Kind) (bits partition : ℕ) (blocks : List (List Entry))
    (processed size : ℕ) (s : Counters)
    → bits ≤ 31
    → EntriesFit (all_blocks blocks)
    → Finishes
        (blocks_loop sha kind bits partition blocks processed size s)
        (Checked sha kind bits partition (all_blocks blocks) (processed + size) s)
unfolding blocks_loop all_blocks
blocks_loop-Checked sha kind bits partition [] processed size s le fit =
    (tt, omega arith, record { last = refl; order = ((λ h. (h, tt)), λ (h, u). h) })
blocks_loop-Checked sha kind bits partition (block ∷ blocks) processed size s le fit =
    let (here, later) = Fit-parts block (all_blocks blocks) fit in
    Finishes-bind (entries_loop sha kind bits partition block s) _ _ _
      (entries_loop-Counts sha kind bits partition block s le here)
      (λ s₁ (part, counts).
        Finishes-weaken
          (blocks_loop sha kind bits partition blocks (u32 (processed + size)) (length block) s₁) _
          _
          (blocks_loop-Checked sha kind bits partition blocks (u32 (processed + size))
            (length block) s₁ le later)
          (λ r (parts, number, counts'). (
            IsPartition-append sha kind bits partition block (all_blocks blocks) part parts,
            omega (arith, number, length-append block (all_blocks blocks)),
            Counts-append s block (all_blocks blocks) s₁ r.1 counts counts',
          )))

blocks_loop-accepts :
    (sha : List ℕ → List ℕ) (kind : Kind) (bits partition : ℕ) (blocks : List (List Entry))
    (processed size : ℕ) (s : Counters)
    → bits ≤ 31
    → EntriesFit (all_blocks blocks)
    → IsPartition sha kind bits partition (all_blocks blocks)
    → (r : ℕ × Counters) × (blocks_loop sha kind bits partition blocks processed size s ≡ ok r)
unfolding blocks_loop all_blocks
blocks_loop-accepts sha kind bits partition [] processed size s le fit part = (_, refl)
blocks_loop-accepts sha kind bits partition (block ∷ blocks) processed size s le fit part =
    let (here, later) = Fit-parts block (all_blocks blocks) fit in
    let (a, b) = IsPartition-parts sha kind bits partition block (all_blocks blocks) part in
    let (s₁, run) = entries_loop-accepts sha kind bits partition block s le here a in
    let (r, rest) =
      blocks_loop-accepts sha kind bits partition blocks (u32 (processed + size)) (length block) s₁
        le later b in
    (r, rw (run, rest) refl)

-- The verdict: the number of entries, and whether their hashes are in order.
pub record IsVerdict (es : List Entry) (r : ℕ × Counters) : Type 0 where
  pub number : r.0 ≡ u32 (length es)
  pub order : (r.1.in_order ≡ true) ↔ IsOrdered 0 es

accepted : {A : Type 0} (m : Run A) (Q : Type 0) → Finishes m (λ a. Q) → is_ok m ≡ true → Q
unfolding is_ok
accepted (ok a) Q h e = h
accepted endless Q h e = absurd h
accepted exits Q h e = absurd (differ e)
accepted fault Q h e = absurd h

-- With at most 31 partitioning bits, and entries with counters and nonces of their widths, the
-- program ends without a fault. It accepts exactly the files all of whose entries are those of
-- their preimages, with the key of the partition. Then it reports their number modulo 2^32, and
-- says that they are in order exactly if no hash is below the one before it. This holds whatever
-- the blocks in which the file is read.
pub dict_checker_iff :
    (sha : List ℕ → List ℕ) (kind : Kind) (bits partition : ℕ) (blocks : List (List Entry))
    → bits ≤ 31
    → EntriesFit (all_blocks blocks)
    → ((is_ok (dict_checker sha kind bits partition blocks) ≡ true)
        ↔ IsPartition sha kind bits partition (all_blocks blocks))
      × Finishes (dict_checker sha kind bits partition blocks) (IsVerdict (all_blocks blocks))
unfolding dict_checker is_ok
dict_checker_iff sha kind bits partition blocks le fit =
    let start : Counters = record {
      prev = no_entry;
      in_order = true;
      duplicates = 0;
      collisions = 0;
    } in
    let checked = blocks_loop-Checked sha kind bits partition blocks 0 0 start le fit in
    (
      (
        (λ run.
            accepted (dict_checker sha kind bits partition blocks) _
              (Finishes-weaken (dict_checker sha kind bits partition blocks) _ _ checked
                (λ r (part, _, _). part))
              run),
        λ part.
            let (r, run) =
              blocks_loop-accepts sha kind bits partition blocks 0 0 start le fit part in
            rw run refl,
      ),
      Finishes-weaken (dict_checker sha kind bits partition blocks) _ _ checked
          (λ r (part, number, counts). record {
            number = omega (arith, number);
            order = ((λ h. (counts.order.0 h).1), λ h. counts.order.1 (refl, h));
          }),
    )
