-- ===== src/Splitter.antt =====
-- preprocessing/splitter.c: the reader deals the preimages of a file out to the mappers, a mapper
-- hashes them and sends the entries of the dictionary in blocks, and the writer stores each block
-- in the file of its partitioning key. A channel from one process to another is the list of the
-- messages on it. The order in which requests reach the reader, and the sources from which the
-- writer receives, are arguments.
pub mod Frames
pub mod Sums
pub mod Entries
pub mod Buffers
pub mod Mapping
pub mod Flushing
pub mod Writing
pub mod Receiving
pub mod Reading
pub mod Ending
pub mod Correct
mod Tests
use xor_mining.Base.{
  ℕ, zero, suc, ◌+◌, ◌^◌, Bool, true, false, ◌&&◌, List, [], ◌∷◌, ◌++◌, length, Option, none, some,
  if◌then◌else◌, ◌==◌, ltb,
}
use xor_mining.Base.Run.{Run, ok, endless, fault, ◌>>=◌, ◌>>◌}
use xor_mining.Word.{u32}
use xor_mining.Hasher.{Kind}
use xor_mining.Hasher.Digest.{
  Preimage, compute_full_hash, extract_partial_hash, extract_partitioning_key,
}

-- `struct dict_t`
pub record Entry : Type 0 where
  pub hash : ℕ
  pub preimage : Preimage

-- A message of a mapper to the writer, by its tag.
pub data Message : Type 0 where
  key : ℕ → Message
  hash_block : List Entry → Message
  eof : Message

-- An answer of the reader to a request.
pub data Reply : Type 0 where
  nonce_block : List Preimage → Reply
  no_more : Reply

abbrev pub put : {A : Type 0} → (ℕ → A) → ℕ → A → ℕ → A
put f a v z = if z == a then v else f z

abbrev pub reader_buffer_size : ℕ
reader_buffer_size = 65536

abbrev pub writer_buffer_size : ℕ
writer_buffer_size = 1024

-- `fread` of at most `n` items: the items, and the rest of the file.
unfoldable pub fread : ℕ → List Preimage → List Preimage × List Preimage
fread zero file = ([], file)
fread (suc n) [] = ([], [])
fread (suc n) (x ∷ file) = let (block, rest) = fread n file in (x ∷ block, rest)

-- The loop of the reader over the requests: those left over at the end of the file, and the
-- answers to each mapper.
unfoldable pub read_loop :
    List ℕ → List Preimage → (ℕ → List Reply) → Run (List ℕ × (ℕ → List Reply))
read_loop requests [] inbox = ok (requests, inbox)
read_loop [] (x ∷ file) inbox = endless
read_loop (q ∷ requests) (x ∷ file) inbox =
    let (block, rest) = fread reader_buffer_size (x ∷ file) in
    read_loop requests rest (put inbox q (inbox q ++ (nonce_block block ∷ [])))

-- The loop that tells `left` mappers that there is no more.
unfoldable pub eof_loop : ℕ → List ℕ → (ℕ → List Reply) → Run (ℕ → List Reply)
eof_loop zero requests inbox = ok inbox
eof_loop (suc left) [] inbox = endless
eof_loop (suc left) (q ∷ requests) inbox =
    eof_loop left requests (put inbox q (inbox q ++ (no_more ∷ [])))

unfoldable pub reader : ℕ → List ℕ → List Preimage → Run (ℕ → List Reply)
reader n_mapper requests file = do
  (requests', inbox) ← read_loop requests file (λ q. [])
  eof_loop n_mapper requests' inbox

-- The state of a mapper: `output[slot][0 .. output_size[slot]]`, and what it sent to the writer.
pub record Mapper : Type 0 where
  pub output : ℕ → List Entry
  pub n_processed : ℕ
  pub n_invalid : ℕ
  pub sent : List Message

-- The two sends of a buffer, and its reset.
unfoldable pub send_slot : ℕ → Mapper → Mapper
send_slot slot m = record m {
  sent = m.sent ++ (key slot ∷ hash_block (m.output slot) ∷ []);
  n_processed = u32 (m.n_processed + length (m.output slot));
  output = put m.output slot [];
}

-- The entry is appended to its buffer; a full buffer is sent. A place outside the arrays is a fault.
unfoldable pub store_entry : ℕ → ℕ → Entry → Mapper → Run Mapper
store_entry n_slots slot entry m =
    let buffer = m.output slot ++ (entry ∷ []) in
    let m' = record m { output = put m.output slot buffer } in
    if ltb slot n_slots && ltb (length (m.output slot)) writer_buffer_size
    then ok (if length buffer == writer_buffer_size then send_slot slot m' else m')
    else fault

-- The body of the loop over a block; the shift for the key is not defined for more than 31 bits.
unfoldable pub map_preimage : (List ℕ → List ℕ) → Kind → ℕ → Preimage → Mapper → Run Mapper
map_preimage sha kind bits preimage m = elim (compute_full_hash sha kind preimage) [
  | none ↦ fault
  | some (false, full_hash) ↦ ok (record m { n_invalid = u32 (m.n_invalid + 1) })
  | some (true, full_hash) ↦
      let entry : Entry = record { hash = extract_partial_hash full_hash; preimage = preimage } in
      let stored = store_entry (2 ^ bits) (extract_partitioning_key bits full_hash) entry m in
      if ltb 31 bits then fault else stored
]

unfoldable pub map_block : (List ℕ → List ℕ) → Kind → ℕ → List Preimage → Mapper → Run Mapper
map_block sha kind bits [] m = ok m
map_block sha kind bits (p ∷ block) m =
    map_preimage sha kind bits p m >>= map_block sha kind bits block

-- The loop of a mapper over the answers of the reader.
unfoldable pub map_loop : (List ℕ → List ℕ) → Kind → ℕ → List Reply → Mapper → Run Mapper
map_loop sha kind bits [] m = endless
map_loop sha kind bits (no_more ∷ replies) m = ok m
map_loop sha kind bits (nonce_block block ∷ replies) m =
    map_block sha kind bits block m >>= map_loop sha kind bits replies

-- The loop that sends what is left in the buffers.
unfoldable pub flush_loop : ℕ → ℕ → Mapper → Mapper
flush_loop zero slot m = m
flush_loop (suc left) slot m = flush_loop left (slot + 1) (send_slot slot m)

unfoldable pub mapper : (List ℕ → List ℕ) → Kind → ℕ → List Reply → Run Mapper
mapper sha kind bits replies = do
  m ←
      map_loop sha kind bits replies
        (record { output = λ slot. []; n_processed = 0; n_invalid = 0; sent = [] })
  let m' = flush_loop (2 ^ bits) 0 m
  ok (record m' { sent = m'.sent ++ (eof ∷ []) })

-- The writer: the files by slot, the mappers that have ended, and the messages still to receive.
pub record Writer : Type 0 where
  pub files : ℕ → List Entry
  pub n_eof : ℕ
  pub channels : ℕ → List Message

-- A receive with HASH_BLOCK_TAG: the first such message of the source, and the others.
abbrev pub passed_over :
    Message → Option (List Entry × List Message) → Option (List Entry × List Message)
passed_over message none = none
passed_over message (some (block, rest)) = some (block, message ∷ rest)

unfoldable pub take_block : List Message → Option (List Entry × List Message)
take_block [] = none
take_block (key slot ∷ messages) = passed_over (key slot) (take_block messages)
take_block (eof ∷ messages) = passed_over eof (take_block messages)
take_block (hash_block block ∷ messages) = some (block, messages)

-- The second receive from source `p`, and the write.
unfoldable pub write_block : ℕ → ℕ → ℕ → Option (List Entry × List Message) → Writer → Run Writer
write_block n_slots p slot none w = endless
write_block n_slots p slot (some (block, rest)) w =
    if ltb slot n_slots
    then ok (record w {
      files = put w.files slot (w.files slot ++ block);
      channels = put w.channels p rest;
    })
    else fault

-- The body of the writer's loop when the first receive takes a message of `p`, whose channel is
-- given; a source with no message is passed over. A block does not fit in `slot`.
unfoldable pub receive : ℕ → ℕ → List Message → Writer → Run Writer
receive n_slots p [] w = ok w
receive n_slots p (eof ∷ messages) w =
    ok (record w { n_eof = u32 (w.n_eof + 1); channels = put w.channels p messages })
receive n_slots p (key slot ∷ messages) w = write_block n_slots p slot (take_block messages) w
receive n_slots p (hash_block block ∷ messages) w = fault

-- `while (n_eof < n_mapper)`, with the sources in turn.
unfoldable pub write_loop : ℕ → ℕ → List ℕ → Writer → Run Writer
write_loop n_slots n_mapper [] w = if ltb w.n_eof n_mapper then endless else ok w
write_loop n_slots n_mapper (p ∷ sources) w = elim (ltb w.n_eof n_mapper) [
  | true ↦ receive n_slots p (w.channels p) w >>= write_loop n_slots n_mapper sources
  | false ↦ ok w
]

-- The mappers, each with its answers: the channels to the writer.
unfoldable pub run_mappers :
    (List ℕ → List ℕ) → Kind → ℕ → ℕ → (ℕ → List Reply) → Run (ℕ → List Message)
run_mappers sha kind bits zero inbox = ok (λ p. [])
run_mappers sha kind bits (suc n) inbox = do
  channels ← run_mappers sha kind bits n inbox
  m ← mapper sha kind bits (inbox n)
  ok (put channels n m.sent)

-- The program, for the order of the requests and that of the sources.
unfoldable pub splitter :
    (List ℕ → List ℕ) → Kind → ℕ → ℕ → List ℕ → List ℕ → List Preimage → Run Writer
splitter sha kind bits n_mapper requests sources file = do
  inbox ← reader n_mapper requests file
  channels ← run_mappers sha kind bits n_mapper inbox
  write_loop (2 ^ bits) n_mapper sources
      (record { files = λ slot. []; n_eof = 0; channels = channels })
