-- ===== src/Splitter/Ending.antt =====
-- The reader of preprocessing/splitter.c tells each mapper once that there is no more, and the
-- mappers then put their messages on the channels.
use xor_mining.Base.{
  ℕ, zero, suc, ◌+◌, ◌^◌, ◌<◌, ◌≤◌, ◌≡◌, refl, sym, ◌∙◌, arith, List, [], ◌∷◌, ◌++◌, append_assoc,
  append-nil, map, length, replicate, none, some, if◌then◌else◌, ◌==◌, ==_iff, Bool-cases, ◌⊎◌, inl,
  inr, true, false,
}
use xor_mining.Base.Run.{Finishes, Finishes-bind, Finishes-weaken}
use xor_mining.Base.Count.{count}
use xor_mining.Hasher.{Kind}
use xor_mining.Hasher.Digest.{Preimage}
use xor_mining.Splitter.{
  Entry, Message, Reply, nonce_block, no_more, put, eof_loop, mapper, run_mappers,
}
use xor_mining.Splitter.Frames.{content, Keyed}
use xor_mining.Splitter.Entries.{entries_of}
use xor_mining.Splitter.Flushing.{dealt, AllDealtFit, Sends, mapper-Sends}
use xor_mining.Splitter.Writing.{Rest, channel_of}

pub eof_loop-tells :
    (finals : List ℕ) (inbox : ℕ → List Reply)
    → Finishes
        (eof_loop (length finals) finals inbox)
        (λ inbox'. (p : ℕ) → inbox' p ≡ inbox p ++ replicate (count p finals) no_more)
unfolding eof_loop replicate
eof_loop-tells [] inbox = λ p. sym (append-nil (inbox p))
eof_loop-tells (q ∷ finals) inbox =
    Finishes-weaken (eof_loop (length finals) finals (put inbox q (inbox q ++ (no_more ∷ [])))) _ _
      (eof_loop-tells finals (put inbox q (inbox q ++ (no_more ∷ []))))
      (λ inbox' tells p. tells p ∙ told p (Bool-cases (p == q)))
  where
    told :
        (p : ℕ)
        → ((p == q) ≡ true) ⊎ ((p == q) ≡ false)
        → put inbox q (inbox q ++ (no_more ∷ [])) p ++ replicate (count p finals) no_more
          ≡ inbox p ++ replicate ((if q == p then 1 else 0) + count p finals) no_more
    told p (inl e) =
        let same : p ≡ q = (==_iff _ _).0 e in
        let one_more : 1 + count q finals ≡ suc (count q finals) = omega arith in
        rw (same, (==_iff q q).1 refl, one_more)
          (append_assoc (inbox q) (no_more ∷ []) (replicate (count q finals) no_more))
    told p (inr e) =
        let other : (q == p) ≡ false = ground (arith, e) in
        let none_here : 0 + count p finals ≡ count p finals = omega arith in
        rw (e, other, none_here) refl

-- What is to come from a mapper whose entries are `es`
abbrev pub IsWhole : ℕ → ℕ → (ℕ → List Entry) → Rest → Type 0
IsWhole n_slots n es none = ⊥
IsWhole n_slots n es (some fs) =
    Keyed n_slots fs × (length fs ≤ n) × ((s : ℕ) → s < n_slots → content s fs ≡ es s)

-- The channels of the first `n` mappers, which were dealt `blocks`.
pub record Channels (sha : List ℕ → List ℕ) (kind : Kind) (bits n : ℕ)
    (blocks : ℕ → List (List Preimage)) (channels : ℕ → List Message) : Type 0 where
  pub rests : ℕ → Rest
  pub channel : (p : ℕ) → channels p ≡ channel_of (rests p)
  pub outside : (p : ℕ) → n ≤ p → rests p ≡ none
  pub whole :
      (p : ℕ)
      → p < n
      → IsWhole
          (2 ^ bits)
          (length (dealt (blocks p)) + 2 ^ bits)
          (λ s. entries_of sha kind bits s (dealt (blocks p)))
          (rests p)

put-Channels :
    (sha : List ℕ → List ℕ) (kind : Kind) (bits n : ℕ) (blocks : ℕ → List (List Preimage))
    (channels : ℕ → List Message) (messages : List Message)
    → Channels sha kind bits n blocks channels
    → Sends
        (2 ^ bits)
        (length (dealt (blocks n)) + 2 ^ bits)
        (λ s. entries_of sha kind bits s (dealt (blocks n)))
        messages
    → Channels sha kind bits (suc n) blocks (put channels n messages)
put-Channels sha kind bits n blocks channels messages c m = record {
  rests = put c.rests n (some m.sends);
  channel =
      λ p. elim (Bool-cases (p == n)) [ inl e ↦ rw e m.sent_frames | inr e ↦ rw e (c.channel p) ];
  outside = λ p ge.
      let other : (p == n) ≡ false = ground (arith, ge) in
      rw other (c.outside p (omega (arith, ge)));
  whole = λ p lt. elim (Bool-cases (p == n)) [
    | inl e ↦
        let same : p ≡ n = (==_iff _ _).0 e in
        rw (same, (==_iff n n).1 refl) (m.keyed, m.few, m.whole)
    | inr e ↦ rw e (c.whole p (ground (arith, e, lt)))
  ];
}

pub run_mappers-Channels :
    (sha : List ℕ → List ℕ) (kind : Kind) (bits n : ℕ) (blocks : ℕ → List (List Preimage))
    (inbox : ℕ → List Reply)
    → bits ≤ 31
    → ((p : ℕ) → AllDealtFit (blocks p))
    → ((p : ℕ) → p < n → inbox p ≡ map nonce_block (blocks p) ++ (no_more ∷ []))
    → Finishes (run_mappers sha kind bits n inbox) (Channels sha kind bits n blocks)
unfolding run_mappers
run_mappers-Channels sha kind bits zero blocks inbox le fit full = record {
  rests = λ p. none;
  channel = λ p. refl;
  outside = λ p ge. refl;
  whole = λ p lt. absurd (omega (arith, lt));
}
run_mappers-Channels sha kind bits (suc n) blocks inbox le fit full =
    Finishes-bind (run_mappers sha kind bits n inbox) _ _ _
      (run_mappers-Channels sha kind bits n blocks inbox le fit (λ p lt. full p (omega arith)))
      (λ channels c.
        Finishes-bind (mapper sha kind bits (inbox n)) _ _ _
          (rw (full n (omega arith)) (mapper-Sends sha kind bits (blocks n) le (fit n)))
          (λ m sends. put-Channels sha kind bits n blocks channels m.sent c sends))
