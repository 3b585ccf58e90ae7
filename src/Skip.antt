-- ===== src/Skip.antt =====
-- speed_seed.c: `NthElement`, which advances a seed by many steps at once, in its two versions.
-- The counter of the life noise and the messages on stderr are left out.
pub mod Steps
pub mod Exact
pub mod Words
mod Tests
use structor.Common.{
  ℕ, zero, suc, ◌+◌, ◌-◌, ◌*◌, ◌/◌, ◌%◌, ◌^◌, ℤ, pos, negsuc, Bool, ltb, ◌==◌, if◌then◌else◌,
}

abbrev pub multiplier : ℕ
multiplier = 16807

abbrev pub modulus : ℕ
modulus = 2147483647

-- `while (N > 0)` of the 64-bit version over Z and Mult.
pub nth_loop : ℕ → ℕ → ℕ → ℕ → ℕ
nth_loop zero n z mult = z
nth_loop (suc fuel) n z mult =
    let odd = if n % 2 == 0 then z else mult * z % modulus in
    let rest = nth_loop fuel (n / 2) odd (mult * mult % modulus) in if n == 0 then z else rest

-- The 64-bit version; a negative N makes no round. Every round halves N, so N rounds are enough.
unfoldable pub nth_element_64 : ℤ → ℕ → ℕ
unfolding nth_loop
nth_element_64 (pos n) start_seed = nth_loop n n start_seed multiplier
nth_element_64 (negsuc n) start_seed = start_seed

-- The end of `RND_ModMult`: the tests of ulBit31 on ulQ and on ulP + ulQ.
pub fold_words : ℕ → ℕ → ℕ
fold_words p q =
    let carry = q / 2 ^ 31 % 2 == 1 in
    let q' = if carry then q - 2 ^ 31 else q in
    let p' = if carry then p + 1 else p in
    let result = p' + q' in if result / 2 ^ 31 % 2 == 1 then result - 2 ^ 31 + 1 else result

-- `RND_ModMult`. Its doubles hold whole numbers, and the scaling by powers of two is exact.
pub mod_mult : ℕ → ℕ → ℕ
unfolding fold_words
mod_mult a b =
    let l = b % 2 ^ 16 in
    let h = (b - l) / 2 ^ 16 in
    let ah = a * h in
    let al = a * l in
    let x = ah / 2 ^ 15 in
    let y = ah - x * 2 ^ 15 in
    let z = al / 2 ^ 31 in let w = al - z * 2 ^ 31 in fold_words (x + z) (w + y * 2 ^ 16)

-- `while (Mask > Order) Mask >>= 1` from 2 ^ 30; the result k stands for the mask 2 ^ (k - 1), and
-- 0 for the mask 0.
pub top_mask : ℕ → ℕ → ℕ
top_mask zero order = zero
top_mask (suc k) order = if ltb order (2 ^ k) then top_mask k order else suc k

-- `while (Mask > 0)`, from the highest bit of the order down.
pub power_loop : ℕ → ℕ → ℕ → ℕ
power_loop zero order result = result
power_loop (suc k) order result = power_loop k order (
    if order / 2 ^ k % 2 == 1
    then mod_mult (mod_mult result result) multiplier
    else mod_mult result result)

-- `RND_seed`: a negative order is taken from the end of the period.
pub rnd_seed : ℤ → ℕ
unfolding top_mask power_loop mod_mult
rnd_seed (pos n) = power_loop (top_mask 31 n) n 1
rnd_seed (negsuc n) = let order = modulus - 1 - suc n in power_loop (top_mask 31 order) order 1

-- The version without 64-bit integers, the one that the makefile's settings compile.
unfoldable pub nth_element : ℤ → ℕ → ℕ
unfolding rnd_seed
nth_element shift seed = mod_mult seed (rnd_seed shift)
