-- ===== src/Rng.antt =====
-- rnd.c and rnd.h: the Park and Miller generator `NextRand`. Seeds are the numbers below
-- 2 ^ 31 - 1; the sum of the two products can be negative, so both cases are written out.
pub mod Cycle
mod Tests
use structor.Common.{ℕ, ◌+◌, ◌-◌, ◌*◌, ◌/◌, ltb, if◌then◌else◌}

abbrev pub n_a : ℕ
n_a = 16807

abbrev pub n_m : ℕ
n_m = 2147483647

abbrev pub n_q : ℕ
n_q = 127773

abbrev pub n_r : ℕ
n_r = 2836

-- The two products of `NextRand`, nA * nV and nU * nR.
pub low_product : ℕ → ℕ
low_product n_seed = let n_u = n_seed / n_q in n_a * (n_seed - n_q * n_u)

pub high_product : ℕ → ℕ
high_product n_seed = n_seed / n_q * n_r

unfoldable pub next_rand : ℕ → ℕ
unfolding low_product high_product
next_rand n_seed =
    let plus = low_product n_seed in
    let minus = high_product n_seed in if ltb plus minus then plus + n_m - minus else plus - minus
