-- ===== src/Qgen/Sequence/Perturbed.antt =====
-- The seeds of the query streams.
use structor.Common.{
  ℕ, zero, suc, ◌+◌, ◌≤◌, ◌<◌, List, length, length-modify, get_or, modify, get_or-modify_self,
  get_or-modify_ne, ltb, if◌then◌else◌, Bool-cases, ◌⊎◌, inl, inr, ◌≡◌, ◌≢◌, refl, ap, ◌∙◌, arith,
}
use structor.Rng.{n_m, next_rand}
use structor.Rng.Cycle.{next_rand_range}
use structor.Skip.Steps.{iterate}
use structor.Seeds.{Seed, no_seed}
use structor.Qgen.Sequence.{set_value, perturb_loop, perturb, queries_per_set}

abbrev pub value_at : List Seed → ℕ → ℕ
value_at seeds i = (get_or seeds i no_seed).value

-- Stream 0 and stream i set, and another stream.
value_at-other :
    (seeds : List Seed) (i j v : ℕ)
    → 0 < j
    → i ≢ j
    → value_at (modify (modify seeds 0 (set_value v)) i (set_value v)) j ≡ value_at seeds j
value_at-other seeds i j v positive other =
    ap (λ (s : Seed). s.value)
      (get_or-modify_ne (modify seeds 0 (set_value v)) i j (set_value v) no_seed other
        ∙ get_or-modify_ne seeds 0 j (set_value v) no_seed (λ e. omega (arith, e)))

perturb_loop-other :
    (n i v j : ℕ) (seeds : List Seed)
    → 0 < j
    → ((k : ℕ) → k < n → i + k ≢ j)
    → value_at (perturb_loop n i v seeds) j ≡ value_at seeds j
unfolding perturb_loop
perturb_loop-other zero i v j seeds positive other = refl
perturb_loop-other (suc n) i v j seeds positive other =
    perturb_loop-other n (i + 1) (next_rand v) j _ positive
      (λ k h e. other (suc k) (omega arith) (omega (arith, e)))
    ∙ value_at-other seeds i j (next_rand v) positive
        (λ e. other 0 (omega arith) (omega (arith, e)))

perturb_loop-own :
    (n i v k : ℕ) (seeds : List Seed)
    → 0 < i
    → i + n ≤ length seeds
    → k < n
    → value_at (perturb_loop n i v seeds) (i + k) ≡ iterate (suc k) v
unfolding perturb_loop
perturb_loop-own zero i v k seeds positive size h = absurd (omega arith)
perturb_loop-own (suc n) i v zero seeds positive size h =
    let here : i + 0 ≡ i = omega arith in
    let seeds' = modify seeds 0 (set_value (next_rand v)) in
    perturb_loop-other n (i + 1) (next_rand v) (i + 0) _ (omega arith) (λ k h' e. omega (arith, e))
    ∙ ap (value_at (modify seeds' i (set_value (next_rand v)))) here
    ∙ ap (λ (s : Seed). s.value)
        (get_or-modify_self seeds' i (set_value (next_rand v)) no_seed
          (omega (arith, length-modify seeds 0 (set_value (next_rand v)))))
perturb_loop-own (suc n) i v (suc k) seeds positive size h =
    let along : i + suc k ≡ i + 1 + k = omega arith in
    let seeds' = modify seeds 0 (set_value (next_rand v)) in
    ap (value_at (perturb_loop (suc n) i v seeds)) along
    ∙ perturb_loop-own n (i + 1) (next_rand v) k _ (omega arith)
        (omega (
          arith,
          length-modify seeds' i (set_value (next_rand v)),
          length-modify seeds 0 (set_value (next_rand v)),
        ))
        (omega arith)

iterate_range : (n s : ℕ) → 0 < s → s < n_m → (0 < iterate n s) × (iterate n s < n_m)
iterate_range zero s p h = (p, h)
iterate_range (suc n) s p h =
    let (np, nh) = next_rand_range s p h in iterate_range n (next_rand s) np nh

perturb-own :
    (rndm q : ℕ) (seeds : List Seed)
    → length seeds ≡ 48
    → 1 ≤ q
    → q ≤ 22
    → value_at (perturb rndm seeds) q ≡ iterate q rndm
unfolding perturb
perturb-own rndm zero seeds size low high = absurd (omega arith)
perturb-own rndm (suc k) seeds size low high =
    let place : suc k ≡ 1 + k = omega arith in
    ap (value_at (perturb_loop queries_per_set 1 rndm (modify seeds 0 (set_value rndm)))) place
    ∙ perturb_loop-own 22 1 rndm k _ (omega arith)
        (omega (arith, length-modify seeds 0 (set_value rndm))) (omega arith)

perturb-other :
    (rndm q : ℕ) (seeds : List Seed) → 22 < q → value_at (perturb rndm seeds) q ≡ value_at seeds q
unfolding perturb
perturb-other rndm q seeds behind =
    perturb_loop-other 22 1 rndm q _ (omega arith) (λ k h e. omega (arith, e))
    ∙ ap (λ (s : Seed). s.value)
        (get_or-modify_ne seeds 0 q (set_value rndm) no_seed (λ e. omega (arith, e)))

-- From 48 seeds and a number given by -r from 1 to 2^31 - 2: the seed of stream q, for q from 1 to 22, is
-- the q-th number that `NextRand` makes of the number, and one that keeps moving; the seed of a stream
-- from 23 on is not touched.
pub perturb-iterate :
    (rndm q : ℕ) (seeds : List Seed)
    → length seeds ≡ 48
    → 0 < rndm
    → rndm < n_m
    → 1 ≤ q
    → (value_at (perturb rndm seeds) q ≡ (if ltb 22 q then value_at seeds q else iterate q rndm))
      × ((22 < q)
          ⊎ ((0 < value_at (perturb rndm seeds) q) × (value_at (perturb rndm seeds) q < n_m)))
perturb-iterate rndm q seeds size positive small low = elim (Bool-cases (ltb 22 q)) [
  | inl behind ↦ rw behind (perturb-other rndm q seeds (ground arith), inl (ground arith))
  | inr inside ↦
      let own = perturb-own rndm q seeds size low (ground arith) in
      let (p, h) = iterate_range q rndm positive small in
      rw inside (own, inr (omega (arith, own), omega (arith, own)))
]
