-- ===== src/Splitter/Buffers.antt =====
-- The buffers of a mapper of preprocessing/splitter.c: an entry is appended, a full buffer is sent.
use xor_mining.Base.{
  ℕ, ◌+◌, ◌<◌, ◌≤◌, ◌≡◌, refl, sym, ap, ◌∙◌, arith, true, false, List, [], ◌∷◌, ◌++◌, append_assoc,
  append-nil, length, if◌then◌else◌, ◌==◌, ==_iff, ltb, Bool-cases, ◌⊎◌, inl, inr, length-append,
}
use xor_mining.Base.Run.{Finishes}
use xor_mining.Splitter.{Entry, put, writer_buffer_size, Mapper, send_slot, store_entry}
use xor_mining.Splitter.Frames.{
  Frame, frames, content, Keyed, frames-append, content-append, Keyed-append,
}

-- The mapper has sent at most `n` blocks, and for each key it holds or has sent the entries `es`.
pub record Holds (n_slots n : ℕ) (es : ℕ → List Entry) (m : Mapper) : Type 0 where
  pub sends : List Frame
  pub sent_frames : m.sent ≡ frames sends
  pub keyed : Keyed n_slots sends
  pub few : length sends ≤ n
  pub held : (s : ℕ) → content s sends ++ m.output s ≡ es s

-- No buffer is full.
abbrev pub Room : Mapper → Type 0
Room m = (s : ℕ) → length (m.output s) < writer_buffer_size

pub Holds-more :
    (n_slots n : ℕ) (es : ℕ → List Entry) (m : Mapper)
    → Holds n_slots n es m
    → Holds n_slots (n + 1) es m
Holds-more n_slots n es m h = record {
  sends = h.sends;
  sent_frames = h.sent_frames;
  keyed = h.keyed;
  few = omega (arith, h.few);
  held = h.held;
}

pub Holds-ext :
    (n_slots n : ℕ) (es es' : ℕ → List Entry) (m : Mapper)
    → ((s : ℕ) → es s ≡ es' s)
    → Holds n_slots n es m
    → Holds n_slots n es' m
Holds-ext n_slots n es es' m same h = record {
  sends = h.sends;
  sent_frames = h.sent_frames;
  keyed = h.keyed;
  few = h.few;
  held = λ s. h.held s ∙ same s;
}

-- What is sent and what is held of a key, after a buffer was sent
pub sent_or_held :
    (sends : List Frame) (output : ℕ → List Entry) (slot s : ℕ)
    → content s (sends ++ ((slot, output slot) ∷ [])) ++ put output slot [] s
      ≡ content s sends ++ output s
unfolding content
sent_or_held sends output slot s =
    rw
      (
        content-append s sends ((slot, output slot) ∷ []),
        append_assoc (content s sends) ((if slot == s then output slot else []) ++ [])
            (put output slot [] s),
      )
      (ap (λ r. content s sends ++ r) (here (Bool-cases (s == slot))))
  where
    here :
        ((s == slot) ≡ true) ⊎ ((s == slot) ≡ false)
        → ((if slot == s then output slot else []) ++ []) ++ put output slot [] s ≡ output s
    here (inl e) =
        let same : s ≡ slot = (==_iff _ _).0 e in
        rw (same, (==_iff slot slot).1 refl, append-nil (output slot), append-nil (output slot))
          refl
    here (inr e) = let other : (slot == s) ≡ false = ground (arith, e) in rw (other, e) refl

pub send_slot-Holds :
    (n_slots n slot : ℕ) (es : ℕ → List Entry) (m : Mapper)
    → slot < n_slots
    → Holds n_slots n es m
    → Holds n_slots (n + 1) es (send_slot slot m)
unfolding send_slot frames
send_slot-Holds n_slots n slot es m lt h = record {
  sends = h.sends ++ ((slot, m.output slot) ∷ []);
  sent_frames = rw (h.sent_frames, frames-append h.sends ((slot, m.output slot) ∷ [])) refl;
  keyed = Keyed-append n_slots h.sends ((slot, m.output slot) ∷ []) h.keyed (lt, tt);
  few = omega (arith, h.few, length-append h.sends ((slot, m.output slot) ∷ []));
  held = λ s. sent_or_held h.sends m.output slot s ∙ h.held s;
}

-- The entries of a key, after an entry came in
abbrev pub adds : ℕ → Entry → (ℕ → List Entry) → ℕ → List Entry
adds slot e es s = es s ++ (if slot == s then e ∷ [] else [])

put_entry :
    (before : List Entry) (output : ℕ → List Entry) (slot s : ℕ) (e : Entry)
    → before ++ put output slot (output slot ++ (e ∷ [])) s
      ≡ (before ++ output s) ++ (if slot == s then e ∷ [] else [])
put_entry before output slot s e = here (Bool-cases (s == slot))
  where
    here :
        ((s == slot) ≡ true) ⊎ ((s == slot) ≡ false)
        → before ++ put output slot (output slot ++ (e ∷ [])) s
          ≡ (before ++ output s) ++ (if slot == s then e ∷ [] else [])
    here (inl e') =
        let same : s ≡ slot = (==_iff _ _).0 e' in
        rw (same, (==_iff slot slot).1 refl) (sym (append_assoc before (output slot) (e ∷ [])))
    here (inr e') =
        let other : (slot == s) ≡ false = ground (arith, e') in
        rw (other, e') (sym (append-nil (before ++ output s)))

pub put-Holds :
    (n_slots n slot : ℕ) (es : ℕ → List Entry) (m : Mapper) (e : Entry)
    → Holds n_slots n es m
    → Holds n_slots n
        (adds slot e es)
        (record m { output = put m.output slot (m.output slot ++ (e ∷ [])) })
put-Holds n_slots n slot es m e h = record {
  sends = h.sends;
  sent_frames = h.sent_frames;
  keyed = h.keyed;
  few = h.few;
  held = λ s.
      put_entry (content s h.sends) m.output slot s e
      ∙ ap (λ r. r ++ (if slot == s then e ∷ [] else [])) (h.held s);
}

Room-put :
    (m : Mapper) (slot : ℕ) (block : List Entry)
    → length block < writer_buffer_size
    → Room m
    → (s : ℕ) → length (put m.output slot block s) < writer_buffer_size
Room-put m slot block small room s = elim (Bool-cases (s == slot)) [
  | inl e ↦ rw e small
  | inr e ↦ rw e (room s)
]

Room-send_slot :
    (m : Mapper) (slot : ℕ)
    → ((s : ℕ) → (s == slot) ≡ false → length (m.output s) < writer_buffer_size)
    → Room (send_slot slot m)
unfolding send_slot
Room-send_slot m slot room s = elim (Bool-cases (s == slot)) [
  | inl e ↦ rw e (omega arith)
  | inr e ↦ rw e (room s e)
]

-- What `store_entry` leaves behind
abbrev pub After : ℕ → ℕ → (ℕ → List Entry) → Mapper → Type 0
After n_slots n es m = Room m × Holds n_slots n es m

pub store_entry-After :
    (n_slots n slot : ℕ) (es : ℕ → List Entry) (e : Entry) (m : Mapper)
    → slot < n_slots
    → After n_slots n es m
    → Finishes (store_entry n_slots slot e m) (After n_slots (n + 1) (adds slot e es))
unfolding store_entry
store_entry-After n_slots n slot es e m lt (room, h) =
    let below : ltb slot n_slots ≡ true = ground (arith, lt) in
    let free : ltb (length (m.output slot)) writer_buffer_size ≡ true = ground (arith, room slot) in
    rw (below, free) (full (Bool-cases (length buffer == writer_buffer_size)))
  where
    buffer : List Entry
    buffer = m.output slot ++ (e ∷ [])

    m' : Mapper
    m' = record m { output = put m.output slot buffer }

    h' : Holds n_slots n (adds slot e es) m'
    h' = put-Holds n_slots n slot es m e h

    full :
        ((length buffer == writer_buffer_size) ≡ true)
          ⊎ ((length buffer == writer_buffer_size) ≡ false)
        → After n_slots
            (n + 1)
            (adds slot e es)
            (if length buffer == writer_buffer_size then send_slot slot m' else m')
    full (inl q) = rw q (
      Room-send_slot m' slot (λ s ne. rw ne (room s)),
      send_slot-Holds n_slots n slot (adds slot e es) m' lt h',
    )
    full (inr q) =
        let size = length-append (m.output slot) (e ∷ []) in
        let small : length buffer < writer_buffer_size = ground (arith, q, size, room slot) in
        rw q (Room-put m slot buffer small room, Holds-more n_slots n (adds slot e es) m' h')
