-- ===== src/Rng/Tests.antt =====
-- The theorems about `NextRand` at seeds of rnd.h.
use structor.Common.{◌≡◌, refl}
use structor.Rng.{next_rand}

-- The check value of Park and Miller is reached from 1 in 10000 steps; these are its first two.
first_values : (next_rand 1 ≡ 16807) × (next_rand 16807 ≡ 282475249)
unfolding next_rand
first_values = (refl, refl)
