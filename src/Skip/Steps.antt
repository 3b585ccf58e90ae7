-- ===== src/Skip/Steps.antt =====
-- The specification of the jumps: the generator applied n times, and its closed form.
use native.Mathlib.Nat.{mul_assoc}
use structor.Common.{
  ℕ, zero, suc, ◌+◌, ◌*◌, ◌%◌, ◌<◌, ◌≡◌, refl, sym, ap, ◌∙◌, arith, mul-mod_left_mod,
  mul-mod_right_mod,
}
use structor.Rng.{n_m, next_rand}
use structor.Rng.Cycle.{next_rand-mod, next_rand_range}

-- `NextRand` applied n times.
abbrev pub iterate : ℕ → ℕ → ℕ
iterate zero s = s
iterate (suc n) s = iterate n (next_rand s)

-- n multiplications by m modulo 2 ^ 31 - 1.
unfoldable pub steps : ℕ → ℕ → ℕ → ℕ
steps m zero z = z
steps m (suc n) z = steps m n (m * z % n_m)

pub iterate-steps : (n s : ℕ) → s < n_m → iterate n s ≡ steps 16807 n s
unfolding steps
iterate-steps zero s h = refl
iterate-steps (suc n) s h =
    ap (iterate n) (next_rand-mod s h) ∙ iterate-steps n (16807 * s % n_m) (omega arith)

pub iterate_range : (n s : ℕ) → 0 < s → s < n_m → (0 < iterate n s) × (iterate n s < n_m)
iterate_range zero s p h = (p, h)
iterate_range (suc n) s p h =
    let (q, g) = next_rand_range s p h in iterate_range n (next_rand s) q g

pub iterate-add : (a b s : ℕ) → iterate (a + b) s ≡ iterate b (iterate a s)
iterate-add zero b s = let e : zero + b ≡ b = omega arith in rw e
iterate-add (suc a) b s =
    let e : suc a + b ≡ suc (a + b) = omega arith in rw e (iterate-add a b (next_rand s))

pub steps-lt : (m n z : ℕ) → z < n_m → steps m n z < n_m
unfolding steps
steps-lt m zero z h = h
steps-lt m (suc n) z h = steps-lt m n (m * z % n_m) (omega arith)

-- Twice as many steps by m are steps by m squared.
pub steps-double : (m n z : ℕ) → steps m (n + n) z ≡ steps (m * m % n_m) n z
unfolding steps
steps-double m zero z = refl
steps-double m (suc n) z =
    ap (λ (k : ℕ). steps m k z) two
    ∙ steps-double m n (m * (m * z % n_m) % n_m)
    ∙ ap (steps (m * m % n_m) n) square
  where
    two : suc n + suc n ≡ suc (suc (n + n))
    two = omega arith

    square : m * (m * z % n_m) % n_m ≡ m * m % n_m * z % n_m
    square =
        mul-mod_right_mod m (m * z) n_m
        ∙ ap (λ (t : ℕ). t % n_m) (sym (mul_assoc m m z))
        ∙ sym (mul-mod_left_mod (m * m) z n_m)

-- A start value can be factored out.
pub steps-mul : (m n y z : ℕ) → steps m n (y * z % n_m) ≡ steps m n (y % n_m) * z % n_m
unfolding steps
steps-mul m zero y z = sym (mul-mod_left_mod y z n_m)
steps-mul m (suc n) y z =
    ap (steps m n) regroup
    ∙ steps-mul m n (m * y) z
    ∙ ap (λ (t : ℕ). steps m n t * z % n_m) (sym (mul-mod_right_mod m y n_m))
  where
    regroup : m * (y * z % n_m) % n_m ≡ m * y * z % n_m
    regroup = mul-mod_right_mod m (y * z) n_m ∙ ap (λ (t : ℕ). t % n_m) (sym (mul_assoc m y z))

-- All factors gathered: n steps multiply by what n steps make of 1.
pub steps-factor : (m n z : ℕ) → z < n_m → steps m n z ≡ steps m n 1 * z % n_m
steps-factor m n z h =
    ap (steps m n) one ∙ steps-mul m n 1 z ∙ ap (λ (t : ℕ). steps m n t * z % n_m) unit
  where
    one : z ≡ 1 * z % n_m
    one = omega arith

    unit : 1 % n_m ≡ 1
    unit = omega arith

pub steps-add : (m a b z : ℕ) → steps m (a + b) z ≡ steps m b (steps m a z)
unfolding steps
steps-add m zero b z = let e : zero + b ≡ b = omega arith in rw e
steps-add m (suc a) b z =
    let e : suc a + b ≡ suc (a + b) = omega arith in rw e (steps-add m a b (m * z % n_m))
