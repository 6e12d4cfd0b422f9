-- ===== src/Hasher/Plaintext.antt =====
-- The counter and the nonce can be read back from the plaintext.
use native.Mathlib.Nat.{pow-succ'}
use xor_mining.Base.{
  ℕ, zero, suc, ◌+◌, ◌-◌, ◌*◌, ◌/◌, ◌%◌, ◌^◌, ◌≤◌, ◌<◌, ◌≡◌, refl, sym, ap, ap₂, ◌∙◌, arith,
  bit_and, true, List, get_or, set, length, length-set, get_or-set_self, get_or-set_ne, replicate,
  if◌then◌else◌, ◌==◌, ==_iff, ltb, Bool-cases, some, ◌⊎◌, inl, inr, passes, passes-below,
}
use xor_mining.Word.{◌>>>◌}
use xor_mining.Word.Mask.{bit_and_mask}
use xor_mining.Hasher.{
  Kind, foo, bar, foobar, nibbles, write_counter, write_nonce, last_digit, template,
  build_plaintext_block,
}

-- The value of a hexadecimal digit, 0 for other characters.
unfoldable pub digit : ℕ → ℕ
digit ch =
    if ltb ch 48
    then 0
    else if ltb ch 58
    then ch - 48
    else if ltb ch 65
    then 0
    else if ltb ch 71
    then ch - 55
    else 0

-- The number in the `n` places up to `j`, the lowest digit last.
unfoldable pub read_counter : ℕ → List ℕ → ℕ → ℕ
read_counter zero buffer j = 0
read_counter (suc n) buffer j = digit (get_or buffer j 0) + 16 * read_counter n buffer (j - 1)

digit-nibbles_run : passes (λ d. digit (get_or nibbles d 0) == d) 0 16 ≡ true
unfolding passes digit
digit-nibbles_run = refl

digit-nibbles : (d : ℕ) → d < 16 → digit (get_or nibbles d 0) ≡ d
digit-nibbles d h = (==_iff _ _).0 (passes-below _ 16 d digit-nibbles_run h)

-- The `n` places up to `j` are blank.
abbrev pub Blank : ℕ → List ℕ → ℕ → Type 0
Blank n buffer j = (i : ℕ) → i ≤ j → j < i + n → digit (get_or buffer i 0) ≡ 0

read_counter-Blank :
    (n j : ℕ) (buffer : List ℕ) → n ≤ j → Blank n buffer j → read_counter n buffer j ≡ 0
unfolding read_counter
read_counter-Blank zero j buffer room blank = refl
read_counter-Blank (suc n) j buffer room blank =
    let here = blank j (omega arith) (omega arith) in
    let rest =
      read_counter-Blank n (j - 1) buffer (omega arith)
        (λ i le lt. blank i (omega arith) (omega arith)) in
    omega (arith, here, rest)

-- What the loop leaves in the buffer.
pub record Writes (n counter j : ℕ) (buffer buffer' : List ℕ) : Type 0 where
  pub size : length buffer' ≡ length buffer
  pub value : read_counter n buffer' j ≡ counter
  pub others : (i : ℕ) → (j < i) ⊎ (i + n ≤ j) → get_or buffer' i 0 ≡ get_or buffer i 0

-- The loop ends after a round for each digit, and writes a number that is read back as the
-- counter, with no change outside its places.
pub write_counter-Writes :
    (n counter j : ℕ) (buffer : List ℕ)
    → counter < 16 ^ n
    → n ≤ j
    → j < length buffer
    → Blank n buffer j
    → (buffer' : List ℕ) × (write_counter n counter j buffer ≡ some buffer')
      × Writes n counter j buffer buffer'
unfolding write_counter read_counter
write_counter-Writes zero counter j buffer small room inside blank =
    let none_left : counter ≡ 0 = omega arith in
    (buffer, ground arith, record { size = refl; value = sym none_left; others = λ i why. refl })
write_counter-Writes (suc n) counter j buffer small room inside blank =
    elim (Bool-cases (counter == 0)) [
      | inl e ↦ (
        buffer,
        rw e refl,
        record {
          size = refl;
          value = read_counter-Blank (suc n) j buffer room blank ∙ sym ((==_iff _ _).0 e);
          others = λ i why. refl;
        },
      )
      | inr e ↦
          let ch = get_or nibbles (bit_and counter 15) 0 in
          let next = set buffer j ch in
          let (buffer', run, w) =
            write_counter-Writes n (counter >>> 4) (j - 1) next (omega (arith, pow-succ' 16 n))
              (omega arith) (omega (arith, length-set buffer j ch))
              (λ i le lt.
                ap digit (get_or-set_ne buffer j i ch 0 (λ q. absurd (omega arith)))
                ∙ blank i (omega arith) (omega arith)) in
          (
            buffer',
            rw e run,
            record {
              size = w.size ∙ length-set buffer j ch;
              value =
                  let kept : get_or buffer' j 0 ≡ ch =
                    w.others j (inl (omega arith)) ∙ get_or-set_self buffer j ch 0 inside in
                  let low : digit ch ≡ counter % 16 =
                    digit-nibbles (bit_and counter 15) (omega (arith, bit_and_mask 4 counter))
                    ∙ bit_and_mask 4 counter in
                  omega (arith, w.value, ap digit kept, low);
              others = λ i why.
                  w.others i (elim why [ inl a ↦ inl (omega arith) | inr b ↦ inr (omega arith) ])
                  ∙ get_or-set_ne buffer j i ch 0 (λ q. elim why [
                    | inl a ↦ absurd (omega arith)
                    | inr b ↦ absurd (omega arith)
                  ]);
            },
          )
    ]

read_counter-same :
    (n j : ℕ) (a b : List ℕ)
    → ((i : ℕ) → i ≤ j → get_or a i 0 ≡ get_or b i 0)
    → read_counter n a j ≡ read_counter n b j
unfolding read_counter
read_counter-same zero j a b same = refl
read_counter-same (suc n) j a b same =
    ap₂ (λ d rest. digit d + 16 * rest) (same j (omega arith))
      (read_counter-same n (j - 1) a b (λ i le. same i (omega arith)))

-- The digits of the template are zeros and spaces.
Blank-template : (kind : Kind) → Blank 16 (template kind) (last_digit kind)
unfolding template last_digit replicate passes digit
Blank-template foo i le lt =
    let e : 7 + (i - 7) ≡ i = omega arith in
    rw e at (
      (==_iff _ 0).0 (
        passes-below (λ d. digit (get_or (template foo) (7 + d) 0) == 0) 16 (i - 7) refl
          (omega arith)))
Blank-template bar i le lt =
    let e : 7 + (i - 7) ≡ i = omega arith in
    rw e at (
      (==_iff _ 0).0 (
        passes-below (λ d. digit (get_or (template bar) (7 + d) 0) == 0) 16 (i - 7) refl
          (omega arith)))
Blank-template foobar i le lt =
    let e : 10 + (i - 10) ≡ i = omega arith in
    rw e at (
      (==_iff _ 0).0 (
        passes-below (λ d. digit (get_or (template foobar) (10 + d) 0) == 0) 16 (i - 10) refl
          (omega arith)))

length-template : (kind : Kind) → length (template kind) ≡ 80
unfolding template replicate
length-template foo = refl
length-template bar = refl
length-template foobar = refl

last_digit-bounds : (kind : Kind) → (16 ≤ last_digit kind) × (last_digit kind < 76)
unfolding last_digit
last_digit-bounds foo = (omega arith, omega arith)
last_digit-bounds bar = (omega arith, omega arith)
last_digit-bounds foobar = (omega arith, omega arith)

-- The last four bytes, the highest first.
abbrev pub read_nonce : List ℕ → ℕ
read_nonce block =
    get_or block 76 0 * 2 ^ 24
    + get_or block 77 0 * 2 ^ 16
    + get_or block 78 0 * 2 ^ 8
    + get_or block 79 0

write_nonce-others :
    (nonce i : ℕ) (buffer : List ℕ)
    → i < 76
    → get_or (write_nonce nonce buffer) i 0 ≡ get_or buffer i 0
unfolding write_nonce
write_nonce-others nonce i buffer lt =
    get_or-set_ne _ 79 i _ 0 (λ q. absurd (omega arith))
    ∙ get_or-set_ne _ 78 i _ 0 (λ q. absurd (omega arith))
    ∙ get_or-set_ne _ 77 i _ 0 (λ q. absurd (omega arith))
    ∙ get_or-set_ne _ 76 i _ 0 (λ q. absurd (omega arith))

length-write_nonce :
    (nonce : ℕ) (buffer : List ℕ) → length (write_nonce nonce buffer) ≡ length buffer
unfolding write_nonce
length-write_nonce nonce buffer =
    length-set _ 79 _ ∙ length-set _ 78 _ ∙ length-set _ 77 _ ∙ length-set buffer 76 _

nonce-read :
    (nonce : ℕ) (buffer : List ℕ)
    → nonce < 2 ^ 32
    → length buffer ≡ 80
    → read_nonce (write_nonce nonce buffer) ≡ nonce
unfolding write_nonce
nonce-read nonce buffer lt size =
    let b76 = set buffer 76 (nonce / 2 ^ 24 % 256) in
    let b77 = set b76 77 (nonce / 2 ^ 16 % 256) in
    let b78 = set b77 78 (nonce / 2 ^ 8 % 256) in
    let s76 : length b76 ≡ 80 = length-set buffer 76 _ ∙ size in
    let s77 : length b77 ≡ 80 = length-set b76 77 _ ∙ s76 in
    let s78 : length b78 ≡ 80 = length-set b77 78 _ ∙ s77 in
    let e76 : get_or (set b78 79 (nonce % 256)) 76 0 ≡ nonce / 2 ^ 24 % 256 =
      get_or-set_ne b78 79 76 _ 0 (λ q. absurd (omega arith))
      ∙ get_or-set_ne b77 78 76 _ 0 (λ q. absurd (omega arith))
      ∙ get_or-set_ne b76 77 76 _ 0 (λ q. absurd (omega arith))
      ∙ get_or-set_self buffer 76 _ 0 (omega (arith, size)) in
    let e77 : get_or (set b78 79 (nonce % 256)) 77 0 ≡ nonce / 2 ^ 16 % 256 =
      get_or-set_ne b78 79 77 _ 0 (λ q. absurd (omega arith))
      ∙ get_or-set_ne b77 78 77 _ 0 (λ q. absurd (omega arith))
      ∙ get_or-set_self b76 77 _ 0 (omega (arith, s76)) in
    let e78 : get_or (set b78 79 (nonce % 256)) 78 0 ≡ nonce / 2 ^ 8 % 256 =
      get_or-set_ne b78 79 78 _ 0 (λ q. absurd (omega arith))
      ∙ get_or-set_self b77 78 _ 0 (omega (arith, s77)) in
    let e79 : get_or (set b78 79 (nonce % 256)) 79 0 ≡ nonce % 256 =
      get_or-set_self b78 79 _ 0 (omega (arith, s78)) in
    omega (arith, e76, e77, e78, e79)

-- A plaintext of 80 bytes, from which the counter and the nonce can be read.
pub record Block (kind : Kind) (counter nonce : ℕ) (block : List ℕ) : Type 0 where
  pub size : length block ≡ 80
  pub counter_read : read_counter 16 block (last_digit kind) ≡ counter
  pub nonce_read : read_nonce block ≡ nonce
  pub others :
      (i : ℕ)
      → (i + 16 ≤ last_digit kind) ⊎ ((last_digit kind < i) × (i < 76))
      → get_or block i 0 ≡ get_or (template kind) i 0

-- The plaintext is built for every 64-bit counter and 32-bit nonce. It has 80 bytes, the counter
-- and the nonce can be read from it, and its other bytes are those of the template.
pub build_plaintext_block-Block :
    (kind : Kind) (counter nonce : ℕ)
    → counter < 2 ^ 64
    → nonce < 2 ^ 32
    → (block : List ℕ) × (build_plaintext_block kind counter nonce ≡ some block)
      × Block kind counter nonce block
unfolding build_plaintext_block
build_plaintext_block-Block kind counter nonce small narrow =
    let (room, before) = last_digit-bounds kind in
    let (buffer, run, w) =
      write_counter-Writes 16 counter (last_digit kind) (template kind) small room
        (omega (arith, before, length-template kind)) (Blank-template kind) in
    let size : length buffer ≡ 80 = w.size ∙ length-template kind in
    (
      write_nonce nonce buffer,
      rw (build_plaintext_block, run) refl,
      record {
        size = length-write_nonce nonce buffer ∙ size;
        counter_read =
            read_counter-same 16 (last_digit kind) (write_nonce nonce buffer) buffer
              (λ i le. write_nonce-others nonce i buffer (omega (arith, before)))
            ∙ w.value;
        nonce_read = nonce-read nonce buffer narrow size;
        others = λ i why.
            write_nonce-others nonce i buffer
              (elim why [ inl a ↦ omega (arith, before) | inr b ↦ b.1 ])
            ∙ w.others i (elim why [ inl a ↦ inr a | inr b ↦ inl b.0 ]);
      },
    )
