-- ===== src/Splitter/Writing.antt =====
-- The writer of preprocessing/splitter.c against mappers that send blocks and the end: whatever the
-- order of its receives, each file gets the entries sent with its key.
use xor_mining.Base.{
  ℕ, ◌+◌, ◌^◌, ◌<◌, ◌≤◌, ◌≡◌, refl, sym, ap, ◌∙◌, arith, Bool, false, List, [], ◌∷◌, ◌++◌, length,
  Option, none, some, if◌then◌else◌, ◌==◌, ==_iff, ltb, Bool-cases, inl, inr,
}
use xor_mining.Word.{u32}
use xor_mining.Splitter.{Entry, Message, eof, put, Writer}
use xor_mining.Splitter.Frames.{Frame, frames, content, Keyed, tally, tally-append}
use xor_mining.Splitter.Sums.{total, total-put}

-- What a mapper has still to send: nothing, or blocks and the end.
abbrev pub Rest : Type 0
Rest = Option (List Frame)

abbrev pub channel_of : Rest → List Message
channel_of none = []
channel_of (some fs) = frames fs ++ (eof ∷ [])

abbrev pub open_ends : Rest → ℕ
open_ends none = 0
open_ends (some fs) = 1

abbrev pub receives : Rest → ℕ
receives none = 0
receives (some fs) = length fs + 1

abbrev pub rest_content : ℕ → Rest → List Entry
rest_content s none = []
rest_content s (some fs) = content s fs

abbrev pub RestKeyed : ℕ → Rest → Type 0
RestKeyed n none = Unit
RestKeyed n (some fs) = Keyed n fs

-- Of the entries with key `s` that pass a test, `T` stand in the file or are still to come.
pub record Pending (n_slots n : ℕ) (T : (Entry → Bool) → ℕ → ℕ) (rests : ℕ → Rest) (w : Writer)
    : Type 0 where
  pub channel : (p : ℕ) → w.channels p ≡ channel_of (rests p)
  pub keyed : (p : ℕ) → RestKeyed n_slots (rests p)
  pub outside : (p : ℕ) → n ≤ p → rests p ≡ none
  pub ends : w.n_eof + total (λ p. open_ends (rests p)) n ≡ n
  pub kept :
      (t : Entry → Bool) (s : ℕ)
      → tally t (w.files s) + total (λ p. tally t (rest_content s (rests p))) n ≡ T t s

pub inside :
    (n p : ℕ) (rests : ℕ → Rest) {fs : List Frame}
    → ((q : ℕ) → n ≤ q → rests q ≡ none)
    → rests p ≡ some fs
    → p < n
inside n p rests out e = elim (Bool-cases (ltb p n)) [
  | inl lt ↦ ground (arith, lt)
  | inr ge ↦ absurd (differ (sym (out p (ground (arith, ge))) ∙ e))
]
  where
    differ : {fs : List Frame} → ¬ (none ≡ some fs)
    differ e = cc

channel-put :
    (channels : ℕ → List Message) (rests : ℕ → Rest) (p : ℕ) (v : Rest) (messages : List Message)
    → messages ≡ channel_of v
    → ((q : ℕ) → channels q ≡ channel_of (rests q))
    → (q : ℕ) → put channels p messages q ≡ channel_of (put rests p v q)
channel-put channels rests p v messages same h q = elim (Bool-cases (q == p)) [
  | inl e ↦ rw e same
  | inr e ↦ rw e (h q)
]

keyed-put :
    (n : ℕ) (rests : ℕ → Rest) (p : ℕ) (v : Rest)
    → RestKeyed n v
    → ((q : ℕ) → RestKeyed n (rests q))
    → (q : ℕ) → RestKeyed n (put rests p v q)
keyed-put n rests p v new old q = elim (Bool-cases (q == p)) [
  | inl e ↦ rw e new
  | inr e ↦ rw e (old q)
]

outside-put :
    (n : ℕ) (rests : ℕ → Rest) (p : ℕ) (v : Rest)
    → p < n
    → ((q : ℕ) → n ≤ q → rests q ≡ none)
    → (q : ℕ) → n ≤ q
    → put rests p v q ≡ none
outside-put n rests p v lt out q ge =
    let other : (q == p) ≡ false = ground (arith, lt, ge) in rw other (out q ge)

-- After the end of the mapper `p`
pub eof-Pending :
    (n_slots n p : ℕ) (T : (Entry → Bool) → ℕ → ℕ) (rests : ℕ → Rest) (w : Writer)
    → n < 2 ^ 32
    → Pending n_slots n T rests w
    → rests p ≡ some []
    → Pending n_slots n T
        (put rests p none)
        (record w { n_eof = u32 (w.n_eof + 1); channels = put w.channels p [] })
unfolding content tally
eof-Pending n_slots n p T rests w few h e =
    let lt = inside n p rests h.outside e in
    let moved = total-put open_ends rests p none n lt in
    let was : open_ends (rests p) ≡ 1 = ap open_ends e in
    record {
      channel = channel-put w.channels rests p none [] refl h.channel;
      keyed = keyed-put n_slots rests p none tt h.keyed;
      outside = outside-put n rests p none lt h.outside;
      ends = omega (arith, h.ends, moved, was, few);
      kept = λ t s.
          let shift = total-put (λ r. tally t (rest_content s r)) rests p none n lt in
          let gone : tally t (rest_content s (rests p)) ≡ 0 =
            ap (λ r. tally t (rest_content s r)) e in
          omega (arith, h.kept t s, shift, gone);
    }

-- After a block of the mapper `p` with key `slot`
pub block-Pending :
    (n_slots n p slot : ℕ) (T : (Entry → Bool) → ℕ → ℕ) (rests : ℕ → Rest) (w : Writer)
    (block : List Entry) (fs : List Frame)
    → Pending n_slots n T rests w
    → rests p ≡ some ((slot, block) ∷ fs)
    → Pending n_slots n T (put rests p (some fs)) (record w {
      files = put w.files slot (w.files slot ++ block);
      channels = put w.channels p (frames fs ++ (eof ∷ []));
    })
unfolding content tally
block-Pending n_slots n p slot T rests w block fs h e =
    let lt = inside n p rests h.outside e in
    let moved = total-put open_ends rests p (some fs) n lt in
    let was : open_ends (rests p) ≡ 1 = ap open_ends e in
    record {
      channel = channel-put w.channels rests p (some fs) (frames fs ++ (eof ∷ [])) refl h.channel;
      keyed = keyed-put n_slots rests p (some fs) ((rw e at (h.keyed p)).1) h.keyed;
      outside = outside-put n rests p (some fs) lt h.outside;
      ends = omega (arith, h.ends, moved, was);
      kept = λ t s.
          let shift = total-put (λ r. tally t (rest_content s r)) rests p (some fs) n lt in
          let before : tally t (rest_content s (rests p))
              ≡ tally t ((if slot == s then block else []) ++ content s fs) =
            ap (λ r. tally t (rest_content s r)) e in
          let parts = tally-append t (if slot == s then block else []) (content s fs) in
          let written = file-put w.files slot block t s in
          omega (arith, h.kept t s, shift, before, parts, written);
    }
  where
    file-put :
        (files : ℕ → List Entry) (slot : ℕ) (block : List Entry) (t : Entry → Bool) (s : ℕ)
        → tally t (put files slot (files slot ++ block) s)
          ≡ tally t (files s) + tally t (if slot == s then block else [])
    file-put files slot block t s = elim (Bool-cases (s == slot)) [
      | inl q ↦
          let same : s ≡ slot = (==_iff _ _).0 q in
          rw (same, (==_iff slot slot).1 refl) (tally-append t (files slot) block)
      | inr q ↦ let other : (slot == s) ≡ false = ground (arith, q) in rw (q, other) (omega arith)
    ]
