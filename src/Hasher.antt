-- ===== src/Hasher.antt =====
-- The plaintext of a preimage in preprocessing/hasher.h, `build_plaintext_block`, as a list of 80
-- bytes.
pub mod Plaintext
pub mod Digest
pub mod FileKind
mod Tests
use xor_mining.Base.{
  ℕ, zero, suc, ◌+◌, ◌-◌, ◌*◌, ◌/◌, ◌%◌, ◌^◌, bit_and, List, [], ◌∷◌, ◌++◌, get_or, set, replicate,
  if◌then◌else◌, ◌==◌, Option, none, some,
}
use xor_mining.Word.{◌>>>◌}

-- `enum kind_t`
pub data Kind : Type 0 where
  foo : Kind
  bar : Kind
  foobar : Kind

-- `TEMPLATE[kind]`: a word, `-0x`, 16 zeros and spaces up to 80 bytes
unfoldable pub template : Kind → List ℕ
template foo = (70 ∷ 79 ∷ 79 ∷ 45 ∷ 48 ∷ 120 ∷ []) ++ replicate 16 48 ++ replicate 58 32
template bar = (66 ∷ 65 ∷ 82 ∷ 45 ∷ 48 ∷ 120 ∷ []) ++ replicate 16 48 ++ replicate 58 32
template foobar =
    (70 ∷ 79 ∷ 79 ∷ 66 ∷ 65 ∷ 82 ∷ 45 ∷ 48 ∷ 120 ∷ []) ++ replicate 16 48 ++ replicate 55 32

-- `NIBBLE`: the characters of the hexadecimal digits
abbrev pub nibbles : List ℕ
nibbles = 48 ∷ 49 ∷ 50 ∷ 51 ∷ 52 ∷ 53 ∷ 54 ∷ 55 ∷ 56 ∷ 57 ∷ 65 ∷ 66 ∷ 67 ∷ 68 ∷ 69 ∷ 70 ∷ []

-- The place of the last digit
unfoldable pub last_digit : Kind → ℕ
last_digit foo = 22
last_digit bar = 22
last_digit foobar = 25

-- `while (counter > 0) { … }` with `left` rounds to go
unfoldable pub write_counter : ℕ → ℕ → ℕ → List ℕ → Option (List ℕ)
write_counter zero counter j buffer = if counter == 0 then some buffer else none
write_counter (suc left) counter j buffer =
    let nibble = bit_and counter 0x000f in
    let rest =
      write_counter left (counter >>> 4) (j - 1) (set buffer j (get_or nibbles nibble 0)) in
    if counter == 0 then some buffer else rest

-- `block[19] = __builtin_bswap32(nonce)` on a little-endian machine: the bytes of the nonce, the
-- highest first
unfoldable pub write_nonce : ℕ → List ℕ → List ℕ
write_nonce nonce buffer =
    set
      (set (set (set buffer 76 (nonce / 2 ^ 24 % 256)) 77 (nonce / 2 ^ 16 % 256)) 78
        (nonce / 2 ^ 8 % 256))
      79 (nonce % 256)

-- A counter has 64 bits, so 16 digits.
unfoldable pub build_plaintext_block : Kind → ℕ → ℕ → Option (List ℕ)
build_plaintext_block kind counter nonce =
    elim (write_counter 16 counter (last_digit kind) (template kind)) [
      | none ↦ none
      | some buffer ↦ some (write_nonce nonce buffer)
    ]
