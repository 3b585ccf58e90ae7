-- ===== src/Seeds/Range.antt =====
-- The range of the numbers that `UnifInt` draws, for streams and bounds as the callers give them.
use Prim.Native.Nat.{min, max}
use structor.Common.{ℕ, ◌+◌, ◌-◌, ◌≤◌, ◌<◌, ◌^◌, List, get_or, ltb, Bool-cases, inl, inr, arith}
use structor.Rng.{n_m, next_rand}
use structor.Rng.Cycle.{next_rand_range}
use structor.Double.Error.{scaled-lt}
use structor.Seeds.{Seed, no_seed, stream_of, scaled, unif_int}

scaled_range :
    (low high v : ℕ)
    → 0 < v
    → v < n_m
    → low ≤ high
    → high - low < 2 ^ 53
    → (low ≤ scaled low high v) × (scaled low high v ≤ high)
unfolding scaled
scaled_range low high v p h ordered span =
    omega (arith, scaled-lt v (high - low + 1) p h (omega arith) (omega arith))

-- With a seed from 1 to 2^31 - 2 and bounds less than 2^53 apart, `UnifInt` returns a number between
-- its bounds, ends included, in whichever order the bounds are given.
pub unif_int_range :
    (low high stream : ℕ) (seeds : List Seed)
    → 0 < (get_or seeds (stream_of stream) no_seed).value
    → (get_or seeds (stream_of stream) no_seed).value < n_m
    → max low high - min low high < 2 ^ 53
    → (min low high ≤ (unif_int low high stream seeds).0)
      × ((unif_int low high stream seeds).0 ≤ max low high)
unfolding unif_int
unif_int_range low high stream seeds p h span =
    let value = (get_or seeds (stream_of stream) no_seed).value in
    let (np, nh) = next_rand_range value p h in
    elim (Bool-cases (ltb high low)) [
      | inl swapped ↦ rw swapped (ground (arith, scaled_range high low (next_rand value) np nh))
      | inr ordered ↦ rw ordered (ground (arith, scaled_range low high (next_rand value) np nh))
    ]
