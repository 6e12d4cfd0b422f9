-- ===== src/Splitter/Receiving.antt =====
-- The loop of the writer of preprocessing/splitter.c: it ends once the mappers have, and then every
-- file has all its entries.
use xor_mining.Base.{
  ℕ, ◌+◌, ◌^◌, ◌<◌, ◌≤◌, ◌≡◌, refl, sym, ap, ◌∙◌, arith, Bool, true, false, List, [], ◌∷◌, length,
  none, some, ◌==◌, ==_iff, ltb, Bool-cases, ◌⊎◌, inl, inr,
}
use xor_mining.Base.Run.{◌>>=◌, Finishes}
use xor_mining.Base.Count.{count}
use xor_mining.Splitter.{Entry, put, Writer, take_block, write_block, receive, write_loop}
use xor_mining.Splitter.Frames.{frames, tally}
use xor_mining.Splitter.Sums.{total_none, total_part}
use xor_mining.Splitter.Writing.{
  Rest, channel_of, open_ends, receives, rest_content, Pending, eof-Pending, block-Pending,
}

-- All mappers have ended, and the files hold all entries.
pub record Written (n : ℕ) (T : (Entry → Bool) → ℕ → ℕ) (w : Writer) : Type 0 where
  pub all_ended : w.n_eof ≡ n
  pub complete : (t : Entry → Bool) (s : ℕ) → tally t (w.files s) ≡ T t s

nothing_left :
    (t : Entry → Bool) (s : ℕ) (r : Rest) → open_ends r ≡ 0 → tally t (rest_content s r) ≡ 0
unfolding tally
nothing_left t s none e = refl
nothing_left t s (some fs) e = absurd (omega (arith, e))

Pending-Written :
    (n_slots n : ℕ) (T : (Entry → Bool) → ℕ → ℕ) (rests : ℕ → Rest) (w : Writer)
    → Pending n_slots n T rests w
    → w.n_eof ≡ n
    → Written n T w
Pending-Written n_slots n T rests w h e = record {
  all_ended = e;
  complete = λ t s.
      let closed : (p : ℕ) → p < n → tally t (rest_content s (rests p)) ≡ 0 = λ p lt.
        nothing_left t s (rests p)
          (omega (arith, total_part (λ q. open_ends (rests q)) n p lt, h.ends, e)) in
      let none_left = total_none (λ p. tally t (rest_content s (rests p))) n closed in
      omega (arith, h.kept t s, none_left);
}

ended :
    (n_slots n : ℕ) (T : (Entry → Bool) → ℕ → ℕ) (rests : ℕ → Rest) (w : Writer)
    → Pending n_slots n T rests w
    → ((p : ℕ) → p < n → open_ends (rests p) ≡ 0)
    → w.n_eof ≡ n
ended n_slots n T rests w h closed =
    let none_open = total_none (λ p. open_ends (rests p)) n closed in
    omega (arith, h.ends, none_open)

no_receives : (r : Rest) → receives r ≤ 0 → open_ends r ≡ 0
no_receives none le = refl
no_receives (some fs) le = absurd (omega (arith, le))

-- The receives left, after one from `p`
receives-put :
    (rests : ℕ → Rest) (p q : ℕ) (v : Rest) (sources : List ℕ)
    → receives v + 1 ≤ receives (rests p)
    → receives (rests p) ≤ count p (p ∷ sources)
    → receives (rests q) ≤ count q (p ∷ sources)
    → receives (put rests p v q) ≤ count q sources
receives-put rests p q v sources less here there = elim (Bool-cases (q == p)) [
  | inl e ↦
      let same : q ≡ p = (==_iff _ _).0 e in
      let one : (p == p) ≡ true = (==_iff p p).1 refl in
      rw (e, same) (omega (arith, less, rw one at here))
  | inr e ↦
      let other : (p == q) ≡ false = ground (arith, e) in rw e (omega (arith, rw other at there))
]

-- How the loop goes on after a receive
abbrev Continues : ℕ → ℕ → ((Entry → Bool) → ℕ → ℕ) → List ℕ → Type 0
Continues n_slots n T sources =
    (rests : ℕ → Rest) (w : Writer)
    → Pending n_slots n T rests w
    → ((q : ℕ) → receives (rests q) ≤ count q sources)
    → Finishes (write_loop n_slots n sources w) (Written n T)

receive-Written :
    (n_slots n : ℕ) (T : (Entry → Bool) → ℕ → ℕ) (p : ℕ) (sources : List ℕ) (rests : ℕ → Rest)
    (w : Writer) (r : Rest)
    → n < 2 ^ 32
    → Pending n_slots n T rests w
    → ((q : ℕ) → receives (rests q) ≤ count q (p ∷ sources))
    → Continues n_slots n T sources
    → rests p ≡ r
    → Finishes (receive n_slots p (channel_of r) w >>= write_loop n_slots n sources) (Written n T)
unfolding receive take_block write_block frames
receive-Written n_slots n T p sources rests w none few h enough next e = next rests w h left
  where
    left : (q : ℕ) → receives (rests q) ≤ count q sources
    left q = elim (Bool-cases (p == q)) [
      | inl s ↦
          let same : p ≡ q = (==_iff _ _).0 s in
          let gone : receives (rests q) ≡ 0 = ap receives (ap rests (sym same) ∙ e) in
          omega (arith, gone)
      | inr s ↦ omega (arith, rw s at (enough q))
    ]
receive-Written n_slots n T p sources rests w (some []) few h enough next e =
    let less : 1 ≤ receives (rests p) = omega (arith, ap receives e) in
    next (put rests p none) _ (eof-Pending n_slots n p T rests w few h e)
      (λ q. receives-put rests p q none sources less (enough p) (enough q))
receive-Written n_slots n T p sources rests w (some ((slot, block) ∷ fs)) few h enough next e =
    let known = (rw e at (h.keyed p)).0 in
    let below : ltb slot n_slots ≡ true = ground (arith, known) in
    let less : length fs + 2 ≤ receives (rests p) = omega (arith, ap receives e) in
    rw (Finishes, below)
      (next (put rests p (some fs)) _ (block-Pending n_slots n p slot T rests w block fs h e)
        (λ q. receives-put rests p q (some fs) sources (omega (arith, less)) (enough p) (enough q)))

pub write_loop-Written :
    (n_slots n : ℕ) (T : (Entry → Bool) → ℕ → ℕ) (sources : List ℕ) (rests : ℕ → Rest) (w : Writer)
    → n < 2 ^ 32
    → Pending n_slots n T rests w
    → ((p : ℕ) → receives (rests p) ≤ count p sources)
    → Finishes (write_loop n_slots n sources w) (Written n T)
unfolding write_loop
write_loop-Written n_slots n T [] rests w few h enough =
    let e = ended n_slots n T rests w h (λ p lt. no_receives (rests p) (enough p)) in
    let over : ltb w.n_eof n ≡ false = ground (arith, e) in
    rw (Finishes, over) (Pending-Written n_slots n T rests w h e)
write_loop-Written n_slots n T (p ∷ sources) rests w few h enough =
    go (Bool-cases (ltb w.n_eof n))
      (λ rests' w' h' enough'. write_loop-Written n_slots n T sources rests' w' few h' enough')
  where
    go :
        (ltb w.n_eof n ≡ true) ⊎ (ltb w.n_eof n ≡ false)
        → Continues n_slots n T sources
        → Finishes (write_loop n_slots n (p ∷ sources) w) (Written n T)
    go (inl e) next =
        rw (write_loop, Finishes, e, h.channel p)
          (receive-Written n_slots n T p sources rests w (rests p) few h enough next refl)
    go (inr e) next =
        let over : w.n_eof ≡ n = ground (arith, e, h.ends) in
        rw (write_loop, Finishes, e) (Pending-Written n_slots n T rests w h over)
