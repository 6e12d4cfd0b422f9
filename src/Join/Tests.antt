-- ===== src/Join/Tests.antt =====
-- A join of two words with two: the first words of the sides agree on the 19 bits at the top.
use xor_mining.Base.{ℕ, ◌+◌, ◌^◌, ◌≡◌, arith, List, [], ◌∷◌, ◌∈◌, ◌↔◌}
use xor_mining.Base.Run.{ok}
use xor_mining.Join.{Triple, shift_of, subjoin}
use xor_mining.Join.Correct.{InPieces, Joins, subjoin_iff}

abbrev left_pieces : List (List ℕ)
left_pieces = ((2 ^ 50 + 3) ∷ []) ∷ ((2 ^ 60 + 1) ∷ []) ∷ []

abbrev right_pieces : List (List ℕ)
right_pieces = ((2 ^ 50 + 6) ∷ []) ∷ ((2 ^ 59) ∷ []) ∷ []

subjoin_iff_example :
    (out : List Triple) × (subjoin 19 left_pieces right_pieces ≡ ok out)
    × ((t : Triple)
        → (t ∈ out)
          ↔ Joins (shift_of 19) (λ x. InPieces x left_pieces) (λ y. InPieces y right_pieces) t)
subjoin_iff_example =
    subjoin_iff 19 left_pieces right_pieces (omega arith) (omega arith)
      (((λ e. absurd (omega arith)), tt), (((λ e. absurd (omega arith)), tt), tt)) (omega arith)
