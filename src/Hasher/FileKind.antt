-- ===== src/Hasher/FileKind.antt =====
-- `file_get_kind` of preprocessing/preprocessing.c, on the characters of the base name of a file.
use xor_mining.Base.{ℕ, ◌+◌, Bool, true, false, ◌&&◌, List, [], ◌∷◌, if◌then◌else◌, ◌==◌, ltb}
use xor_mining.Base.Run.{Run, ok, exits}
use xor_mining.Hasher.{Kind, foo, bar, foobar}

-- A letter in lower case
unfoldable pub lower : ℕ → ℕ
lower c = if ltb 64 c && ltb c 91 then c + 32 else c

-- `strncasecmp(base, word, n) == 0` for a word of `n` characters in lower case
unfoldable pub starts_with : List ℕ → List ℕ → Bool
starts_with base [] = true
starts_with [] (w ∷ word) = false
starts_with (c ∷ base) (w ∷ word) = (lower c == w) && starts_with base word

unfoldable pub file_get_kind : List ℕ → Run Kind
file_get_kind base =
    if starts_with base (102 ∷ 111 ∷ 111 ∷ 98 ∷ 97 ∷ 114 ∷ [])
    then ok foobar
    else if starts_with base (102 ∷ 111 ∷ 111 ∷ [])
    then ok foo
    else if starts_with base (98 ∷ 97 ∷ 114 ∷ [])
    then ok bar
    else exits
