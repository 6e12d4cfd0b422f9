-- ===== src/Hasher/Tests.antt =====
-- The plaintext of counter 255 and nonce 1, and the kinds of two files.
use xor_mining.Base.{ℕ, ◌≡◌, refl, arith, List, [], ◌∷◌, some}
use xor_mining.Base.Run.{ok}
use xor_mining.Hasher.{bar, foobar, build_plaintext_block}
use xor_mining.Hasher.FileKind.{lower, starts_with, file_get_kind}
use xor_mining.Hasher.Plaintext.{Block, build_plaintext_block-Block}

build_plaintext_block-Block_example :
    (block : List ℕ) × (build_plaintext_block foobar 255 1 ≡ some block) × Block foobar 255 1 block
build_plaintext_block-Block_example =
    build_plaintext_block-Block foobar 255 1 (omega arith) (omega arith)

-- `Foobar.1` and `bar.2`
kind-foobar : file_get_kind (70 ∷ 111 ∷ 111 ∷ 98 ∷ 97 ∷ 114 ∷ 46 ∷ 49 ∷ []) ≡ ok foobar
unfolding file_get_kind starts_with lower
kind-foobar = refl

kind-bar : file_get_kind (98 ∷ 97 ∷ 114 ∷ 46 ∷ 50 ∷ []) ≡ ok bar
unfolding file_get_kind starts_with lower
kind-bar = refl
