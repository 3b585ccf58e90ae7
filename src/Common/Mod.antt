-- ===== src/Common/Mod.antt =====
-- Remainders of products.
use Prim.Native.Nat.{ℕ, ◌+◌, ◌*◌, ◌/◌, ◌%◌}
use mathlib.Core.Path.{◌≡◌, ap, ◌∙◌, sym}
use native.Mathlib.Nat.{add-mul-mod_self_left, mul_comm, div-add-mod}
use native.Mathlib.Omega.{arith}

pub mul-mod_left_mod : (a b m : ℕ) → (a % m * b) % m ≡ (a * b) % m
mul-mod_left_mod a b m =
    sym (ap (λ (t : ℕ). t % m) split ∙ add-mul-mod_self_left (a % m * b) m (a / m * b))
  where
    split : a * b ≡ a % m * b + m * (a / m * b)
    split = omega (arith, ap (λ (t : ℕ). t * b) (div-add-mod a m))

pub mul-mod_right_mod : (a b m : ℕ) → (a * (b % m)) % m ≡ (a * b) % m
mul-mod_right_mod a b m =
    ap (λ (t : ℕ). t % m) (mul_comm a (b % m))
    ∙ mul-mod_left_mod b a m
    ∙ ap (λ (t : ℕ). t % m) (mul_comm b a)
