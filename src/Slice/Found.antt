-- ===== src/Slice/Found.antt =====
-- The solutions of a slice in the order in which `process_slice` comes to them: partition by
-- partition, as the schedule assigns them, what `subjoin` finds in the buckets of the products.
use xor_mining.Base.{
  ℕ, ◌-◌, ◌^◌, ◌<◌, ◌≡◌, refl, sym, ap, ap₂, ◌∙◌, List, [], ◌∷◌, ◌++◌, append_assoc, map, All,
}
use xor_mining.Base.Run.{Run, ok, endless, exits, fault, bind_inverse}
use xor_mining.Join.{Triple, subjoin}
use xor_mining.Result.{Solution}
use xor_mining.Partition.{Side, pieces_from}
use xor_mining.Partition.Dispatch.{bucket}
use xor_mining.Slice.{Slice, Schedule, local, lift, join_thread, join_threads}
use xor_mining.Slice.Input.{image}
use xor_mining.Slice.Joins.{Pieces}
use xor_mining.Slice.Checkup.{kept, flat}

-- What a run that ended returned
abbrev pub triples : Run (List Triple) → List Triple
triples (ok ts) = ts
triples endless = []
triples exits = []
triples fault = []

abbrev pub all_triples : Run (List (List Triple)) → List Triple
all_triples (ok ts) = flat ts
all_triples endless = []
all_triples exits = []
all_triples fault = []

-- The triples of some partitions of the chunks, one after the other
unfoldable pub joined : ℕ → ℕ → List (List ℕ) → List (List ℕ) → List ℕ → List Triple
joined l p chunks0 chunks1 [] = []
joined l p chunks0 chunks1 (i ∷ is) =
    triples (subjoin l (map (bucket (64 - p) i) chunks0) (map (bucket (64 - p) i) chunks1))
    ++ joined l p chunks0 chunks1 is

-- The solutions of a slice, with repetitions if the lists repeat a word
unfoldable pub solutions_of : Schedule → ℕ → List ℕ → List ℕ → Slice → Triple → List Solution
solutions_of schedule p L0 L1 slice task_index = map (lift slice.minv task_index) (
    map local (
      kept slice.cm slice.n (
        joined slice.l p (schedule.split (image slice.M L0)) (schedule.split (image slice.M L1))
          (flat schedule.assign))))

module _ (l p T : ℕ) (side0 side1 : Side) (chunks0 chunks1 : List (List ℕ))
    (pieces0 : Pieces p T side0 chunks0) (pieces1 : Pieces p T side1 chunks1) where
  joined-append :
      (is js : List ℕ)
      → joined l p chunks0 chunks1 (is ++ js)
        ≡ joined l p chunks0 chunks1 is ++ joined l p chunks0 chunks1 js
  unfolding joined
  joined-append [] js = refl
  joined-append (i ∷ is) js =
      let now =
        triples (subjoin l (map (bucket (64 - p) i) chunks0) (map (bucket (64 - p) i) chunks1)) in
      ap (λ r. now ++ r) (joined-append is js)
      ∙ sym (append_assoc now (joined l p chunks0 chunks1 is) (joined l p chunks0 chunks1 js))

  join_thread-joined :
      (is : List ℕ) {out : List Triple}
      → All (λ i. i < 2 ^ p) is
      → join_thread l (2 ^ p) T side0 side1 is ≡ ok out
      → joined l p chunks0 chunks1 is ≡ out
  unfolding join_thread joined
  join_thread-joined [] below e = ap triples e
  join_thread-joined (i ∷ is) below e =
      let (found, (run, e₁)) =
        bind_inverse (subjoin l (pieces_from (2 ^ p) side0 i 0 T) (pieces_from (2 ^ p) side1 i 0 T))
          _ e in
      let (more, (run', e₂)) = bind_inverse (join_thread l (2 ^ p) T side0 side1 is) _ e₁ in
      let here = ap triples (rw (pieces0.reads i below.0, pieces1.reads i below.0) at run) in
      ap₂ (λ a b. a ++ b) here (join_thread-joined is below.1 run') ∙ ap triples e₂

  pub join_threads-joined :
      (assign : List (List ℕ)) {outs : List (List Triple)}
      → All (All (λ i. i < 2 ^ p)) assign
      → join_threads l (2 ^ p) T side0 side1 assign ≡ ok outs
      → joined l p chunks0 chunks1 (flat assign) ≡ flat outs
  unfolding join_threads joined flat
  join_threads-joined [] below e = ap all_triples e
  join_threads-joined (is ∷ assign) below e =
      let (found, (run, e₁)) = bind_inverse (join_thread l (2 ^ p) T side0 side1 is) _ e in
      let (more, (run', e₂)) = bind_inverse (join_threads l (2 ^ p) T side0 side1 assign) _ e₁ in
      joined-append is (flat assign)
      ∙ ap₂ (λ a b. a ++ b) (join_thread-joined is below.0 run)
          (join_threads-joined assign below.1 run')
      ∙ ap all_triples e₂
