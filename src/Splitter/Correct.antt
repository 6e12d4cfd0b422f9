-- ===== src/Splitter/Correct.antt =====
-- preprocessing/splitter.c as a whole: each entry of the dictionary comes to the file of its key.
use xor_mining.Base.{
  ℕ, zero, suc, ◌+◌, ◌^◌, ◌<◌, ◌≤◌, ◌≡◌, refl, sym, ap, ◌∙◌, arith, Bool, List, [], ◌∷◌, ◌++◌,
  length, length-append, map, replicate, none, some, ltb, Bool-cases, inl, inr,
}
use xor_mining.Base.Run.{Finishes, Finishes-bind, Finishes-weaken}
use xor_mining.Base.Count.{count}
use xor_mining.Hasher.{Kind}
use xor_mining.Hasher.Digest.{Preimage}
use xor_mining.Splitter.{
  Entry, Message, Reply, nonce_block, no_more, Writer, reader, run_mappers, read_loop, eof_loop,
  write_loop, splitter,
}
use xor_mining.Splitter.Frames.{tally, tally-append}
use xor_mining.Splitter.Sums.{total, total-ext, total_none, total_part}
use xor_mining.Splitter.Entries.{entries_of, entries_of-append}
use xor_mining.Splitter.Mapping.{AllFit}
use xor_mining.Splitter.Flushing.{dealt, AllDealtFit}
use xor_mining.Splitter.Reading.{Additive, AllBelow, blocks_of, Deals, read_loop-Deals}
use xor_mining.Splitter.Ending.{eof_loop-tells, IsWhole, Channels, run_mappers-Channels}
use xor_mining.Splitter.Writing.{Rest, open_ends, receives, rest_content, RestKeyed, Pending}
use xor_mining.Splitter.Receiving.{write_loop-Written}

-- The requests and the receives come in an order that the processes can make: a request for each
-- block of the file, then one of each mapper; and each mapper is received from as often as it may
-- send.
pub record Order (bits n_mapper : ℕ) (file : List Preimage) (requests finals sources : List ℕ)
    : Type 0 where
  pub enough_requests : length requests ≡ blocks_of file
  pub from_mappers : AllBelow n_mapper requests
  pub last_requests : length finals ≡ n_mapper
  pub each_once : (p : ℕ) → p < n_mapper → count p finals ≡ 1
  pub enough_receives : (p : ℕ) → p < n_mapper → length file + 2 ^ bits + 1 ≤ count p sources

-- Each file holds the entries of its key, in some order.
pub record IsSplit (sha : List ℕ → List ℕ) (kind : Kind) (bits n_mapper : ℕ) (file : List Preimage)
    (w : Writer) : Type 0 where
  pub all_ended : w.n_eof ≡ n_mapper
  pub sorted_out :
      (t : Entry → Bool) (s : ℕ)
      → s < 2 ^ bits
      → tally t (w.files s) ≡ tally t (entries_of sha kind bits s file)

tally-Additive :
    (sha : List ℕ → List ℕ) (kind : Kind) (bits s : ℕ) (t : Entry → Bool)
    → Additive (λ ps. tally t (entries_of sha kind bits s ps))
unfolding entries_of tally
tally-Additive sha kind bits s t = record {
  of_none = refl;
  of_append = λ xs ys.
      ap (λ r. tally t r) (entries_of-append sha kind bits s xs ys)
      ∙ tally-append t (entries_of sha kind bits s xs) (entries_of sha kind bits s ys);
}

length-Additive : Additive (λ ps. length ps)
length-Additive = record { of_none = refl; of_append = λ xs ys. length-append xs ys }

nothing-Deals : (n : ℕ) → Deals n (λ μ. 0) (λ q. [])
unfolding dealt
nothing-Deals n = record {
  blocks = λ p. [];
  holds = λ p. refl;
  fit = λ p. tt;
  sums = λ μ a. total_none (λ p. μ (dealt [])) n (λ p lt. a.of_none);
}

-- Each mapper has its blocks and the end; together the blocks are the file.
record Filled (n : ℕ) (file : List Preimage) (inbox : ℕ → List Reply) : Type 0 where
  blocks : ℕ → List (List Preimage)
  fit : (p : ℕ) → AllDealtFit (blocks p)
  full : (p : ℕ) → p < n → inbox p ≡ map nonce_block (blocks p) ++ (no_more ∷ [])
  sums : (μ : List Preimage → ℕ) → Additive μ → total (λ p. μ (dealt (blocks p))) n ≡ μ file

reader-Filled :
    (bits n : ℕ) (file : List Preimage) (requests finals sources : List ℕ)
    → AllFit file
    → Order bits n file requests finals sources
    → Finishes (reader n (requests ++ finals) file) (Filled n file)
unfolding reader replicate
reader-Filled bits n file requests finals sources fit o =
    Finishes-bind (read_loop (requests ++ finals) file (λ q. [])) _ _ _
      (read_loop-Deals n (λ μ. 0) requests finals file (λ q. []) o.enough_requests o.from_mappers
        fit (nothing-Deals n))
      (λ (left, inbox) (same, all).
        Finishes-weaken (eof_loop n left inbox)
          (λ inbox'. (p : ℕ) → inbox' p ≡ inbox p ++ replicate (count p finals) no_more) _
          (rw (same, sym o.last_requests) (eof_loop-tells finals inbox))
          (λ inbox' tells. record {
            blocks = all.deals.blocks;
            fit = all.deals.fit;
            full = λ p lt. tells p ∙ rw (all.deals.holds p, o.each_once p lt) refl;
            sums = λ μ a. all.deals.sums μ a ∙ omega (arith, all.gains μ a);
          }))

open_whole :
    (n_slots n : ℕ) (es : ℕ → List Entry) (r : Rest) → IsWhole n_slots n es r → open_ends r ≡ 1
open_whole n_slots n es none h = absurd h
open_whole n_slots n es (some fs) h = refl

keyed_whole :
    (n_slots n : ℕ) (es : ℕ → List Entry) (r : Rest) → IsWhole n_slots n es r → RestKeyed n_slots r
keyed_whole n_slots n es none h = absurd h
keyed_whole n_slots n es (some fs) h = h.0

few_whole :
    (n_slots n : ℕ) (es : ℕ → List Entry) (r : Rest) → IsWhole n_slots n es r → receives r ≤ n + 1
few_whole n_slots n es none h = absurd h
few_whole n_slots n es (some fs) h = omega (arith, h.1)

content_whole :
    (n_slots n s : ℕ) (es : ℕ → List Entry) (r : Rest)
    → s < n_slots
    → IsWhole n_slots n es r
    → rest_content s r ≡ es s
content_whole n_slots n s es none lt h = absurd h
content_whole n_slots n s es (some fs) lt h = h.2 s lt

total_ones : (f : ℕ → ℕ) (n : ℕ) → ((p : ℕ) → p < n → f p ≡ 1) → total f n ≡ n
unfolding total
total_ones f zero h = refl
total_ones f (suc n) h =
    let rest = total_ones f n (λ p lt. h p (omega arith)) in omega (arith, rest, h n (omega arith))

module _ (sha : List ℕ → List ℕ) (kind : Kind) (bits n : ℕ) (file : List Preimage)
    (inbox : ℕ → List Reply) (filled : Filled n file inbox) (channels : ℕ → List Message)
    (c : Channels sha kind bits n filled.blocks channels) where
  -- What is to come, by key
  abbrev to_come : (Entry → Bool) → ℕ → ℕ
  to_come t s = total (λ p. tally t (rest_content s (c.rests p))) n

  abbrev start : Writer
  start = record { files = λ slot. []; n_eof = 0; channels = channels }

  start-Pending : Pending (2 ^ bits) n to_come c.rests start
  unfolding tally
  start-Pending = record {
    channel = c.channel;
    keyed = λ p. elim (Bool-cases (ltb p n)) [
      | inl lt ↦ keyed_whole (2 ^ bits) _ _ (c.rests p) (c.whole p (ground (arith, lt)))
      | inr ge ↦ rw (c.outside p (ground (arith, ge))) tt
    ];
    outside = c.outside;
    ends = omega (
      arith,
      total_ones (λ p. open_ends (c.rests p)) n
          (λ p lt. open_whole (2 ^ bits) _ _ (c.rests p) (c.whole p lt)),
    );
    kept = λ t s. omega arith;
  }

  to_come-all :
      (t : Entry → Bool) (s : ℕ)
      → s < 2 ^ bits
      → to_come t s ≡ tally t (entries_of sha kind bits s file)
  to_come-all t s lt =
      total-ext _ (λ p. tally t (entries_of sha kind bits s (dealt (filled.blocks p)))) n
        (λ p h. ap (λ r. tally t r) (content_whole (2 ^ bits) _ s _ (c.rests p) lt (c.whole p h)))
      ∙ filled.sums _ (tally-Additive sha kind bits s t)

  enough :
      (sources : List ℕ)
      → ((p : ℕ) → p < n → length file + 2 ^ bits + 1 ≤ count p sources)
      → (p : ℕ) → receives (c.rests p) ≤ count p sources
  enough sources h p = elim (Bool-cases (ltb p n)) [
    | inl lt ↦
        let below : p < n = ground (arith, lt) in
        let few = few_whole (2 ^ bits) _ _ (c.rests p) (c.whole p below) in
        let part = total_part (λ q. length (dealt (filled.blocks q))) n p below in
        omega (arith, few, part, filled.sums (λ ps. length ps) length-Additive, h p below)
    | inr ge ↦ rw (c.outside p (ground (arith, ge))) (omega arith)
  ]

-- For at most 30 partitioning bits, fewer than 2^32 mappers, and counters and nonces of their widths:
-- if requests and receives come in an order that the processes can make, the program ends without a
-- fault, whatever that order is. Then the writer has received the end of all mappers, and the file of
-- each key holds, in some order, the entries of the valid preimages with this key.
pub splitter-IsSplit :
    (sha : List ℕ → List ℕ) (kind : Kind) (bits n_mapper : ℕ) (file : List Preimage)
    (requests finals sources : List ℕ)
    → bits ≤ 30
    → n_mapper < 2 ^ 32
    → AllFit file
    → Order bits n_mapper file requests finals sources
    → Finishes
        (splitter sha kind bits n_mapper (requests ++ finals) sources file)
        (IsSplit sha kind bits n_mapper file)
unfolding splitter
splitter-IsSplit sha kind bits n file requests finals sources le small fit o =
    Finishes-bind (reader n (requests ++ finals) file) _ _ _
      (reader-Filled bits n file requests finals sources fit o)
      (λ inbox filled.
        Finishes-bind (run_mappers sha kind bits n inbox) _ _ _
          (run_mappers-Channels sha kind bits n filled.blocks inbox (omega (arith, le)) filled.fit
            filled.full)
          (λ channels c.
            Finishes-weaken
              (write_loop (2 ^ bits) n sources (start sha kind bits n file inbox filled channels c))
              _ _
              (write_loop-Written (2 ^ bits) n
                (to_come sha kind bits n file inbox filled channels c) sources c.rests _ small
                (start-Pending sha kind bits n file inbox filled channels c)
                (enough sha kind bits n file inbox filled channels c sources o.enough_receives))
              (λ w done. record {
                all_ended = done.all_ended;
                sorted_out = λ t s lt.
                    done.complete t s
                    ∙ to_come-all sha kind bits n file inbox filled channels c t s lt;
              })))
