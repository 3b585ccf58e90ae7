-- ===== src/Seeds/Live.antt =====
-- Draws from streams whose seeds are all between 1 and 2^31 - 2.
use structor.Common.{
  ℕ, ◌-◌, ◌≤◌, ◌<◌, ◌^◌, length, length-modify, ltb, Bool-cases, inl, inr, ◌==◌, ◌≡◌, ◌∙◌, arith,
}
use structor.Rng.{n_m}
use structor.Rng.Cycle.{next_rand_range}
use structor.Seeds.{Streams, max_stream, stream_of, unif_int, dss_random}
use structor.Seeds.Range.{unif_int_range}
use structor.Seeds.Row.{seed_at, dss_random-hit}

-- The array has its 48 seeds, and each is one that NextRand keeps moving.
abbrev pub Live : Streams → Type 0
Live st =
    (length st.seeds ≡ 48)
    × ((i : ℕ) → i ≤ max_stream → (0 < (seed_at i st).value) × ((seed_at i st).value < n_m))

pub length-dss_random :
    (lower upper stream : ℕ) (st : Streams)
    → length (dss_random lower upper stream st).1.seeds ≡ length st.seeds
unfolding dss_random unif_int
length-dss_random lower upper stream st = elim (Bool-cases (ltb max_stream stream)) [
  | inl out ↦ rw out (length-modify st.seeds _ _)
  | inr within ↦ rw within (length-modify _ stream _ ∙ length-modify st.seeds _ _)
]

pub dss_random-Live :
    (lower upper stream : ℕ) (st : Streams) → Live st → Live (dss_random lower upper stream st).1
dss_random-Live lower upper stream st (size, live) =
    (length-dss_random lower upper stream st ∙ size, λ i h. moved i h)
  where
    moved :
        (i : ℕ)
        → i ≤ max_stream
        → (0 < (seed_at i (dss_random lower upper stream st).1).value)
          × ((seed_at i (dss_random lower upper stream st).1).value < n_m)
    moved i h =
        let e = dss_random-hit lower upper stream i st h (omega arith) in
        let (p, q) = live i h in
        let (np, nq) = next_rand_range (seed_at i st).value p q in
        rw e (elim (Bool-cases (stream_of stream == i)) [
          | inl own ↦ rw own (np, nq)
          | inr other ↦ rw other (p, q)
        ])

-- From live streams, `dss_random` returns a number between its bounds.
pub dss_random_range :
    (lower upper stream : ℕ) (st : Streams)
    → Live st
    → lower ≤ upper
    → upper - lower < 2 ^ 53
    → (lower ≤ (dss_random lower upper stream st).0)
      × ((dss_random lower upper stream st).0 ≤ upper)
unfolding dss_random
dss_random_range lower upper stream st (size, live) ordered span =
    let (p, q) = live (stream_of stream) (ground arith) in
    ground (arith, unif_int_range lower upper stream st.seeds p q (ground arith))
