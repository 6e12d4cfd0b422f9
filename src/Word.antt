-- ===== src/Word.antt =====
-- Unsigned machine words as native numbers: the shifts and the two's complement of C at a width,
-- and the bits of a word.
mod Step
pub mod Bits
pub mod Xor
pub mod Mask
use xor_mining.Base.{ℕ, zero, suc, ◌+◌, ◌-◌, ◌*◌, ◌/◌, ◌%◌, ◌^◌, Bool, ◌==◌}

-- `x >> k`
infixl 75 ◌>>>◌ ◌<<<◌
abbrev pub ◌>>>◌ : ℕ → ℕ → ℕ
x >>> k = x / 2 ^ k

-- `x << k` before the cast to a width
abbrev pub ◌<<<◌ : ℕ → ℕ → ℕ
x <<< k = x * 2 ^ k

abbrev pub u32 : ℕ → ℕ
u32 x = x % 2 ^ 32

abbrev pub u64 : ℕ → ℕ
u64 x = x % 2 ^ 64

-- `(x >> i) & 1`, digit by digit
unfoldable pub test_bit : ℕ → ℕ → Bool
test_bit x zero = (x % 2) == 1
test_bit x (suc i) = test_bit (x / 2) i
