-- ===== src/Skip/Words.antt =====
-- The version of `NthElement` for 32-bit longs against the generator, for negative shifts too.
use mathlib.Core.Path.{subst}
use native.Mathlib.Nat.{mul-le-mul, mul_comm, pow-suc, div-div-eq-div-mul, div-eq_of_lt}
use structor.Common.{
  ℕ, zero, suc, ◌+◌, ◌-◌, ◌*◌, ◌/◌, ◌%◌, ◌^◌, ◌≤◌, ◌<◌, ◌≡◌, refl, sym, ap, ◌∙◌, arith, pos, negsuc,
  inl, inr, ◌==◌, Bool-cases, mul-mod_left_mod, mul-mod_right_mod,
}
use structor.Rng.{n_m}
use structor.Skip.{
  multiplier, modulus, fold_words, mod_mult, nth_loop, top_mask, power_loop, nth_element,
}
use structor.Skip.Steps.{
  iterate, steps, steps-add, steps-lt, steps-factor, iterate-steps, iterate-add, iterate_range,
}
use structor.Skip.Exact.{nth_loop-steps}

fold_words-mod :
    (p q : ℕ)
    → q < 2 ^ 32
    → p * 2 ^ 31 + q < 2 ^ 62
    → (fold_words p q ≤ modulus) × (fold_words p q % modulus ≡ (p * 2 ^ 31 + q) % modulus)
unfolding fold_words
fold_words-mod p q hq h = ground arith

mul-lt : (a b : ℕ) → a < 2 ^ 31 → b < 2 ^ 31 → a * b < 2 ^ 62
mul-lt a b ha hb =
    let a_le : a ≤ 2 ^ 31 - 1 = omega arith in
    let b_le : b ≤ 2 ^ 31 - 1 = omega arith in omega (arith, mul-le-mul a_le b_le)

-- For factors below 2^31, `RND_ModMult` returns a number of at most 2^31 - 1 that is congruent to
-- their product modulo 2^31 - 1.
pub mod_mult-mod :
    (a b : ℕ)
    → a < 2 ^ 31
    → b < 2 ^ 31
    → (mod_mult a b ≤ modulus) × (mod_mult a b % modulus ≡ a * b % modulus)
unfolding mod_mult
mod_mult-mod a b ha hb =
    let (le, eq) = fold_words-mod p q (omega arith) (rw whole (mul-lt a b ha hb)) in
    (le, eq ∙ ap (λ (t : ℕ). t % modulus) whole)
  where
    l : ℕ
    l = b % 2 ^ 16

    h : ℕ
    h = (b - l) / 2 ^ 16

    p : ℕ
    p = a * h / 2 ^ 15 + a * l / 2 ^ 31

    q : ℕ
    q = a * l - a * l / 2 ^ 31 * 2 ^ 31 + (a * h - a * h / 2 ^ 15 * 2 ^ 15) * 2 ^ 16

    halves : b ≡ h * 65536 + l
    halves = omega arith

    whole : p * 2 ^ 31 + q ≡ a * b
    whole = omega (arith, ap (λ (t : ℕ). a * t) halves)

-- 16807 to the power n, modulo 2 ^ 31 - 1.
abbrev power : ℕ → ℕ
power n = steps 16807 n 1

power-add_self : (n : ℕ) → power (n + n) ≡ power n * power n % n_m
power-add_self n =
    steps-add 16807 n n 1 ∙ steps-factor 16807 n (power n) (steps-lt 16807 n 1 (omega arith))

power-suc : (n : ℕ) → power (suc n) ≡ power n * 16807 % n_m
unfolding steps
power-suc n =
    let e : suc n ≡ n + 1 = omega arith in
    ap power e ∙ steps-add 16807 n 1 1 ∙ ap (λ (t : ℕ). t % n_m) (mul_comm 16807 (power n))

-- What `r` has to be when the bits of the order from `q` on have been read.
abbrev IsPower : ℕ → ℕ → Type 0
IsPower q r = (r ≤ modulus) × (r % modulus ≡ power q)

square-IsPower : (q r : ℕ) → IsPower q r → IsPower (q + q) (mod_mult r r)
square-IsPower q r (le, eq) =
    let (le', eq') = mod_mult-mod r r (omega arith) (omega arith) in
    (
      le',
      eq'
          ∙ sym (mul-mod_left_mod r r modulus)
          ∙ sym (mul-mod_right_mod (r % modulus) r modulus)
          ∙ ap (λ (t : ℕ). t * t % modulus) eq
          ∙ sym (power-add_self q),
    )

times-IsPower : (q r : ℕ) → IsPower q r → IsPower (suc q) (mod_mult r multiplier)
times-IsPower q r (le, eq) =
    let (le', eq') = mod_mult-mod r multiplier (omega arith) (omega arith) in
    (
      le',
      eq'
          ∙ sym (mul-mod_left_mod r 16807 modulus)
          ∙ ap (λ (t : ℕ). t * 16807 % modulus) eq
          ∙ sym (power-suc q),
    )

power_loop-IsPower :
    (k order r : ℕ) → IsPower (order / 2 ^ k) r → IsPower order (power_loop k order r)
unfolding power_loop
power_loop-IsPower zero order r h =
    let e : order / 2 ^ zero ≡ order = omega arith in subst (λ q. IsPower q r) e h
power_loop-IsPower (suc k) order r h = elim (Bool-cases (order / 2 ^ k % 2 == 1)) [
  | inl one_bit ↦
      let e : suc (order / 2 ^ suc k + order / 2 ^ suc k) ≡ order / 2 ^ k = ground (arith, half) in
      rw one_bit (
        power_loop-IsPower k order (mod_mult (mod_mult r r) multiplier) (
          subst (λ q. IsPower q (mod_mult (mod_mult r r) multiplier)) e
            (times-IsPower _ _ (square-IsPower _ r h))))
  | inr zero_bit ↦
      let e : order / 2 ^ suc k + order / 2 ^ suc k ≡ order / 2 ^ k = ground (arith, half) in
      rw zero_bit (
        power_loop-IsPower k order (mod_mult r r)
          (subst (λ q. IsPower q (mod_mult r r)) e (square-IsPower _ r h)))
]
  where
    half : order / 2 ^ suc k ≡ order / 2 ^ k / 2
    half = ap (λ (t : ℕ). order / t) (pow-suc 2 k) ∙ sym (div-div-eq-div-mul order (2 ^ k) 2)

lt-top_mask : (k order : ℕ) → order < 2 ^ k → order < 2 ^ top_mask k order
unfolding top_mask
lt-top_mask zero order h = h
lt-top_mask (suc k) order h = ground (arith, lt-top_mask k order)

power_loop-order :
    (order : ℕ) → order < modulus → IsPower order (power_loop (top_mask 31 order) order 1)
power_loop-order order h =
    let k : ℕ = top_mask 31 order in
    let none_left : order / 2 ^ k ≡ 0 = div-eq_of_lt (lt-top_mask 31 order (omega arith)) in
    power_loop-IsPower k order 1
      (subst (λ q. IsPower q 1) (sym none_left) (omega arith, unfold steps in omega arith))

-- Multiplying by a power is making that many steps; the seed is never the modulus itself.
mod_mult-iterate : (n s r : ℕ) → 0 < s → s < n_m → IsPower n r → mod_mult s r ≡ iterate n s
mod_mult-iterate n s r p h (le, eq) =
    let (le', eq') = mod_mult-mod s r (omega arith) (omega arith) in
    let (ip, il) = iterate_range n s p h in
    let same : mod_mult s r % modulus ≡ iterate n s =
      eq'
      ∙ sym (mul-mod_right_mod s r modulus)
      ∙ ap (λ (t : ℕ). s * t % modulus) eq
      ∙ ap (λ (t : ℕ). t % modulus) (mul_comm s (power n))
      ∙ sym (iterate-steps n s h ∙ steps-factor 16807 n s h) in
    omega arith

-- For a shift below 2^31 - 1 and a seed from 1 to 2^31 - 2, the 32-bit `NthElement` leaves the seed
-- that so many calls of `NextRand` leave.
pub nth_element-iterate :
    (n s : ℕ) → n < n_m → 0 < s → s < n_m → nth_element (pos n) s ≡ iterate n s
unfolding nth_element
nth_element-iterate n s hn p h = mod_mult-iterate n s _ p h (power_loop-order n hn)

period_power : nth_loop 2147483646 2147483646 1 16807 ≡ 1
unfolding nth_loop
period_power = refl

-- After 2^31 - 2 calls of `NextRand` every seed below 2^31 - 1 has come back.
pub iterate-period : (s : ℕ) → s < n_m → iterate 2147483646 s ≡ s
iterate-period s h =
    iterate-steps 2147483646 s h
    ∙ steps-factor 16807 2147483646 s h
    ∙ ap (λ (t : ℕ). t * s % n_m)
        (sym (nth_loop-steps 2147483646 2147483646 1 16807 (omega arith)) ∙ period_power)
    ∙ reduced
  where
    reduced : 1 * s % n_m ≡ s
    reduced = omega arith

pub nth_element-negsuc :
    (n s : ℕ)
    → suc n < n_m
    → 0 < s
    → s < n_m
    → nth_element (negsuc n) s ≡ iterate (2147483646 - suc n) s
unfolding nth_element
nth_element-negsuc n s hn p h =
    let order : ℕ = modulus - 1 - suc n in
    mod_mult-iterate order s _ p h (power_loop-order order (omega arith))

-- A negative shift of the 32-bit `NthElement` by fewer than 2^31 - 1 steps takes a seed from 1 to
-- 2^31 - 2 back: as many calls of `NextRand` restore it.
pub nth_element-back :
    (n s : ℕ) → suc n < n_m → 0 < s → s < n_m → iterate (suc n) (nth_element (negsuc n) s) ≡ s
nth_element-back n s hn p h =
    let order : ℕ = 2147483646 - suc n in
    let round : order + suc n ≡ 2147483646 = omega arith in
    ap (iterate (suc n)) (nth_element-negsuc n s hn p h)
    ∙ sym (iterate-add order (suc n) s)
    ∙ ap (λ (k : ℕ). iterate k s) round
    ∙ iterate-period s h
