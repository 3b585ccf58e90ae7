-- ===== src/Skip/Exact.antt =====
-- The 64-bit `NthElement` against the generator applied n times.
use structor.Common.{
  ℕ, zero, suc, ◌+◌, ◌*◌, ◌/◌, ◌%◌, ◌≤◌, ◌<◌, ◌≡◌, refl, sym, ap, ◌∙◌, arith, pos, inl, inr, false,
  ◌==◌, if◌then◌else◌, Bool-cases,
}
use structor.Rng.{n_m}
use structor.Skip.{modulus, nth_loop, nth_element_64}
use structor.Skip.Steps.{iterate, steps, iterate-steps, steps-double}

-- One round: the steps left are those of the square, after one more step if n is odd.
steps_round :
    (m n z : ℕ)
    → steps m n z ≡ steps (m * m % modulus) (n / 2) (if n % 2 == 0 then z else m * z % modulus)
steps_round m n z = elim (Bool-cases (n % 2 == 0)) [
  | inl even ↦
      let e : n ≡ n / 2 + n / 2 = ground arith in
      rw even (ap (λ (k : ℕ). steps m k z) e ∙ steps-double m (n / 2) z)
  | inr odd ↦
      let e : n ≡ suc (n / 2 + n / 2) = ground arith in
      rw odd (ap (λ (k : ℕ). steps m k z) e ∙ unfold steps in steps-double m (n / 2) (m * z % n_m))
]

pub nth_loop-steps : (fuel n z m : ℕ) → n ≤ fuel → nth_loop fuel n z m ≡ steps m n z
unfolding nth_loop
nth_loop-steps zero zero z m h = unfold steps in refl
nth_loop-steps zero (suc n) z m h = absurd (omega arith)
nth_loop-steps (suc fuel) zero z m h = unfold steps in refl
nth_loop-steps (suc fuel) (suc n) z m h =
    let more : (suc n == 0) ≡ false = ground arith in
    let odd : ℕ = if suc n % 2 == 0 then z else m * z % modulus in
    rw more (
      nth_loop-steps fuel (suc n / 2) odd (m * m % modulus) (omega arith)
      ∙ sym (steps_round m (suc n) z))

-- For every count n and every seed below 2^31 - 1, the 64-bit `NthElement` ends and leaves the
-- seed that n calls of `NextRand` leave.
pub nth_element_64-iterate : (n s : ℕ) → s < n_m → nth_element_64 (pos n) s ≡ iterate n s
unfolding nth_element_64
nth_element_64-iterate n s h = nth_loop-steps n n s 16807 (omega arith) ∙ sym (iterate-steps n s h)
