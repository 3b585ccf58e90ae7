-- ===== src/Rng/Cycle.antt =====
-- What `NextRand` computes: the multiplication by 16807 modulo 2^31 - 1, a bijection.
use structor.Common.{ℕ, ◌*◌, ◌%◌, ◌<◌, ◌≡◌, arith}
use structor.Rng.{n_m, low_product, high_product, next_rand}

pub next_rand-mod : (s : ℕ) → s < n_m → next_rand s ≡ 16807 * s % n_m
unfolding next_rand
next_rand-mod s h = ground arith

-- For a seed below 2^31 - 1 both products of `NextRand` stay below 2^31 - 1, so that nothing
-- overflows a 32-bit long, and the result is 16807 times the seed modulo 2^31 - 1.
pub next_rand_exact :
    (s : ℕ)
    → s < n_m
    → (low_product s < n_m) × (high_product s < n_m) × (next_rand s ≡ 16807 * s % n_m)
unfolding low_product high_product
next_rand_exact s h = (omega arith, omega arith, next_rand-mod s h)

-- `NextRand` maps the seeds from 1 to 2^31 - 2 to such seeds.
pub next_rand_range : (s : ℕ) → 0 < s → s < n_m → (0 < next_rand s) × (next_rand s < n_m)
next_rand_range s p h = omega (arith, next_rand-mod s h)

-- Two seeds below 2^31 - 1 with the same result of `NextRand` are the same.
pub next_rand_injective : (s t : ℕ) → s < n_m → t < n_m → next_rand s ≡ next_rand t → s ≡ t
next_rand_injective s t hs ht e = omega (arith, next_rand-mod s hs, next_rand-mod t ht)
