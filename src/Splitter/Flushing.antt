-- ===== src/Splitter/Flushing.antt =====
-- A whole mapper of preprocessing/splitter.c: its loop over the answers of the reader, and the last
-- sends.
use xor_mining.Base.{
  ℕ, zero, suc, ◌+◌, ◌^◌, ◌<◌, ◌≤◌, ◌≡◌, refl, sym, ap, ◌∙◌, arith, List, [], ◌∷◌, ◌++◌,
  append_assoc, append-nil, map, length, length-append, ==_iff, Bool-cases, ◌==◌, inl, inr,
}
use xor_mining.Base.Run.{Finishes, Finishes-bind, Finishes-weaken}
use xor_mining.Hasher.{Kind}
use xor_mining.Hasher.Digest.{Preimage}
use xor_mining.Splitter.{
  Entry, Message, eof, nonce_block, no_more, Mapper, send_slot, map_block, map_loop, flush_loop,
  mapper,
}
use xor_mining.Splitter.Frames.{Frame, frames, content, Keyed}
use xor_mining.Splitter.Sums.{put_here}
use xor_mining.Splitter.Entries.{entries_of, entries_of-append}
use xor_mining.Splitter.Buffers.{Holds, After, Holds-ext, send_slot-Holds}
use xor_mining.Splitter.Mapping.{AllFit, collects, map_block-After}

-- The preimages of several blocks
unfoldable pub dealt : List (List Preimage) → List Preimage
dealt [] = []
dealt (block ∷ blocks) = block ++ dealt blocks

abbrev pub AllDealtFit : List (List Preimage) → Type 0
AllDealtFit [] = Unit
AllDealtFit (block ∷ blocks) = AllFit block × AllDealtFit blocks

map_loop-After :
    (sha : List ℕ → List ℕ) (kind : Kind) (bits : ℕ) (blocks : List (List Preimage)) (n : ℕ)
    (es : ℕ → List Entry) (m : Mapper)
    → bits ≤ 31
    → AllDealtFit blocks
    → After (2 ^ bits) n es m
    → Finishes
        (map_loop sha kind bits (map nonce_block blocks ++ (no_more ∷ [])) m)
        (After (2 ^ bits) (n + length (dealt blocks)) (collects sha kind bits (dealt blocks) es))
unfolding map_loop dealt entries_of
map_loop-After sha kind bits [] n es m le fit (room, h) =
    let same : n + 0 ≡ n = omega arith in
    (room, rw same (Holds-ext (2 ^ bits) n es _ m (λ s. sym (append-nil (es s))) h))
map_loop-After sha kind bits (block ∷ blocks) n es m le (here, fit) a =
    Finishes-bind (map_block sha kind bits block m) _ _ _
      (map_block-After sha kind bits block n es m le here a)
      (λ m' a'.
        Finishes-weaken (map_loop sha kind bits (map nonce_block blocks ++ (no_more ∷ [])) m') _ _
          (map_loop-After sha kind bits blocks (n + length block) (collects sha kind bits block es)
            m' le fit a')
          (λ m'' (room, h).
            let size : n + length block + length (dealt blocks)
                ≡ n + length (block ++ dealt blocks) =
              omega (arith, length-append block (dealt blocks)) in
            (
              room,
              rw size at (
                  Holds-ext (2 ^ bits) (n + length block + length (dealt blocks)) _
                    (collects sha kind bits (block ++ dealt blocks) es) m''
                    (λ s.
                      append_assoc (es s) (entries_of sha kind bits s block)
                        (entries_of sha kind bits s (dealt blocks))
                      ∙ ap (λ r. es s ++ r)
                          (sym (entries_of-append sha kind bits s block (dealt blocks))))
                    h),
            )))

send_slot-emptied : (m : Mapper) (slot s : ℕ) → m.output s ≡ [] → (send_slot slot m).output s ≡ []
unfolding send_slot
send_slot-emptied m slot s e = elim (Bool-cases (s == slot)) [ inl q ↦ rw q refl | inr q ↦ rw q e ]

send_slot-empties : (m : Mapper) (slot : ℕ) → (send_slot slot m).output slot ≡ []
unfolding send_slot
send_slot-empties m slot = put_here m.output slot []

-- The loop leaves an empty buffer empty, and empties those it goes over.
flush_loop-emptied :
    (left slot s : ℕ) (m : Mapper) → m.output s ≡ [] → (flush_loop left slot m).output s ≡ []
unfolding flush_loop
flush_loop-emptied zero slot s m e = e
flush_loop-emptied (suc left) slot s m e =
    flush_loop-emptied left (slot + 1) s (send_slot slot m) (send_slot-emptied m slot s e)

flush_loop-empties :
    (left slot s : ℕ) (m : Mapper)
    → slot ≤ s
    → s < slot + left
    → (flush_loop left slot m).output s ≡ []
unfolding flush_loop
flush_loop-empties zero slot s m le lt = absurd (omega arith)
flush_loop-empties (suc left) slot s m le lt = elim (Bool-cases (s == slot)) [
  | inl q ↦
      let same : s ≡ slot = (==_iff _ _).0 q in
      flush_loop-emptied left (slot + 1) s (send_slot slot m) (rw same (send_slot-empties m slot))
  | inr q ↦
      flush_loop-empties left (slot + 1) s (send_slot slot m) (ground (arith, q)) (omega arith)
]

flush_loop-Holds :
    (n_slots left slot n : ℕ) (es : ℕ → List Entry) (m : Mapper)
    → slot + left ≤ n_slots
    → Holds n_slots n es m
    → Holds n_slots (n + left) es (flush_loop left slot m)
unfolding flush_loop
flush_loop-Holds n_slots zero slot n es m le h = let e : n + 0 ≡ n = omega arith in rw e h
flush_loop-Holds n_slots (suc left) slot n es m le h =
    let e : n + suc left ≡ n + 1 + left = omega arith in
    rw e (
      flush_loop-Holds n_slots left (slot + 1) (n + 1) es (send_slot slot m) (omega arith)
        (send_slot-Holds n_slots n slot es m (omega arith) h))

-- What a mapper sends: blocks with keys below `n_slots`, at most `n` of them, that hold the entries
-- `es`, and the end.
pub record Sends (n_slots n : ℕ) (es : ℕ → List Entry) (messages : List Message) : Type 0 where
  pub sends : List Frame
  pub sent_frames : messages ≡ frames sends ++ (eof ∷ [])
  pub keyed : Keyed n_slots sends
  pub few : length sends ≤ n
  pub whole : (s : ℕ) → s < n_slots → content s sends ≡ es s

pub mapper-Sends :
    (sha : List ℕ → List ℕ) (kind : Kind) (bits : ℕ) (blocks : List (List Preimage))
    → bits ≤ 31
    → AllDealtFit blocks
    → Finishes (mapper sha kind bits (map nonce_block blocks ++ (no_more ∷ []))) (λ m.
      Sends
        (2 ^ bits)
        (length (dealt blocks) + 2 ^ bits)
        (λ s. entries_of sha kind bits s (dealt blocks))
        m.sent)
unfolding mapper frames content
mapper-Sends sha kind bits blocks le fit =
    let start : Mapper = record {
      output = λ slot. [];
      n_processed = 0;
      n_invalid = 0;
      sent = [];
    } in
    let first : After (2 ^ bits) 0 (λ s. []) start = (
      (λ s. omega arith),
      record { sends = []; sent_frames = refl; keyed = tt; few = omega arith; held = λ s. refl },
    ) in
    Finishes-bind (map_loop sha kind bits (map nonce_block blocks ++ (no_more ∷ [])) start) _ _ _
      (map_loop-After sha kind bits blocks 0 (λ s. []) start le fit first)
      (λ m (room, h).
        let h' =
          flush_loop-Holds (2 ^ bits) (2 ^ bits) 0 (0 + length (dealt blocks)) _ m (omega arith)
            h in
        record {
          sends = h'.sends;
          sent_frames = ap (λ r. r ++ (eof ∷ [])) h'.sent_frames;
          keyed = h'.keyed;
          few = omega (arith, h'.few);
          whole = λ s lt.
              sym (append-nil (content s h'.sends))
              ∙ ap (λ r. content s h'.sends ++ r)
                  (sym (flush_loop-empties (2 ^ bits) 0 s m (omega arith) (omega (arith, lt))))
              ∙ h'.held s;
        })
