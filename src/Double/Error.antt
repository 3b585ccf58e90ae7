-- ===== src/Double/Error.antt =====
-- The relative error of a rounding, and the scaling of a value in the open unit interval.
use native.Mathlib.Nat.{
  div-add-mod', le_refl, mod-lt, le-div_iff_mul-le, one-le-pow, pow-le-pow_right, mul-le-mul_right,
  mul-le-mul_left, pow-suc, mul-le-mul, div-lt_iff_lt-mul, lt_of_mul-lt-mul_left, le_trans,
}
use structor.Common.{
  ℕ, zero, suc, ◌+◌, ◌*◌, ◌/◌, ◌%◌, ◌^◌, ◌≤◌, ◌<◌, ◌≡◌, ap, arith, ltb, leb, Bool-cases, inl, inr,
}
use structor.Double.{Double, round_even, scale_up, scale_down, round, of_long, div, mul, to_long}

round_even_bounds :
    (num den : ℕ)
    → 0 < den
    → (2 * (round_even num den * den) ≤ 2 * num + den) × (num / den ≤ round_even num den)
unfolding round_even
round_even_bounds num den h = elim (Bool-cases (ltb (2 * (num % den)) den)) [
  | inl low ↦ rw low (omega (arith, div-add-mod' num den), le_refl _)
  | inr high ↦ rw high (elim (Bool-cases (ltb den (2 * (num % den)))) [
    | inl up ↦ rw up (ground (arith, div-add-mod' num den, mod-lt num h), omega arith)
    | inr tie ↦ rw tie (ground (arith, div-add-mod' num den, parity (num / den)), omega arith)
  ])
]
  where
    parity : (q : ℕ) → q % 2 * den ≤ den
    parity q = omega (arith, mul-le-mul_right den (bit q))
      where
        bit : (q : ℕ) → q % 2 ≤ 1
        bit q = omega arith

twice-pow : (x k : ℕ) → x * 2 ^ suc k ≡ x * 2 * 2 ^ k
twice-pow x k = omega (arith, ap (λ (t : ℕ). x * t) (pow-suc 2 k))

scale_up-reaches :
    (fuel num den : ℕ)
    → 2 ^ 52 * den ≤ num * 2 ^ fuel
    → 2 ^ 52 * den ≤ num * 2 ^ scale_up fuel num den
unfolding scale_up
scale_up-reaches zero num den h = h
scale_up-reaches (suc fuel) num den h = elim (Bool-cases (ltb num (2 ^ 52 * den))) [
  | inl more ↦
      rw (more, twice-pow num (scale_up fuel (num * 2) den))
        (scale_up-reaches fuel (num * 2) den (rw (← twice-pow num fuel) h))
  | inr done ↦ rw done (ground arith)
]

scale_up-le : (fuel num den : ℕ) → scale_up fuel num den ≤ fuel
unfolding scale_up
scale_up-le zero num den = omega arith
scale_up-le (suc fuel) num den = ground (arith, scale_up-le fuel (num * 2) den)

scale_down-keeps :
    (fuel num den : ℕ) → 2 ^ 52 * den ≤ num → 2 ^ 52 * (den * 2 ^ scale_down fuel num den) ≤ num
unfolding scale_down
scale_down-keeps zero num den h = omega arith
scale_down-keeps (suc fuel) num den h = elim (Bool-cases (leb (2 ^ 53 * den) num)) [
  | inl more ↦
      rw (more, twice-pow den (scale_down fuel num (den * 2)))
        (scale_down-keeps fuel num (den * 2) (ground arith))
  | inr done ↦ rw done (omega arith)
]

-- A rounding adds at most one part in 2 ^ 53, and leaves at least 53 bits.
pub record IsRounded (num den : ℕ) (d : Double) : Type 0 where
  pub above : d.man * den * 2 ^ 53 ≤ num * 2 ^ d.exp * (2 ^ 53 + 1)
  pub full : 2 ^ 52 ≤ d.man
  pub exp_in : d.exp ≤ 1074

round-IsRounded :
    (num den : ℕ) → 0 < den → 2 ^ 52 * den ≤ num * 2 ^ 1074 → IsRounded num den (round num den)
unfolding round
round-IsRounded num den pos_den reach = record {
  above = above;
  full = le_trans fits (omega (arith, mul-le-mul_left m one_pow));
  exp_in = scale_up-le 1074 num den;
}
  where
    up : ℕ
    up = scale_up 1074 num den

    down : ℕ
    down = scale_down 1074 (num * 2 ^ up) den

    n : ℕ
    n = num * 2 ^ up

    d : ℕ
    d = den * 2 ^ down

    wide : 2 ^ 52 * d ≤ n
    wide = scale_down-keeps 1074 n den (scale_up-reaches 1074 num den reach)

    one_pow : 1 ≤ 2 ^ down
    one_pow = one-le-pow down 2 (omega arith)

    pos_d : 0 < d
    pos_d = omega (arith, mul-le-mul_left den one_pow)

    m : ℕ
    m = round_even n d

    above : m * 2 ^ down * den * 2 ^ 53 ≤ n * (2 ^ 53 + 1)
    above = omega (arith, (round_even_bounds n d pos_d).0, wide)

    fits : 2 ^ 52 ≤ m
    fits = le_trans ((le-div_iff_mul-le pos_d).1 wide) (round_even_bounds n d pos_d).1

-- Both roundings together stay below the true bound: (1 + 2 ^ -53) ^ 2 * (1 - 1 / M) < 1.
scaled-core :
    (v r : ℕ) (q p : Double)
    → v < 2147483647
    → 0 < r
    → IsRounded v 2147483647 q
    → IsRounded (q.man * r) (2 ^ q.exp) p
    → p.man < r * 2 ^ p.exp
scaled-core v r q p small pos_r hq hp =
    lt_of_mul-lt-mul_left (2 ^ q.exp) (omega (arith, hp.above, times, below, pos_x))
  where
    x : ℕ
    x = r * 2 ^ p.exp * 2 ^ q.exp

    pos_x : 1 ≤ r * 2 ^ p.exp * 2 ^ q.exp
    pos_x =
        mul-le-mul (mul-le-mul pos_r (one-le-pow p.exp 2 (omega arith)))
          (one-le-pow q.exp 2 (omega arith))

    times :
        q.man * 2147483647 * 2 ^ 53 * (r * 2 ^ p.exp)
        ≤ v * 2 ^ q.exp * (2 ^ 53 + 1) * (r * 2 ^ p.exp)
    times = mul-le-mul_right (r * 2 ^ p.exp) hq.above

    below : v * x ≤ 2147483646 * x
    below = mul-le-mul_right x (omega arith)

of_long-exact : (n : ℕ) → n ≤ 2 ^ 53 → of_long n ≡ record { man = n; exp = 0 }
unfolding of_long
of_long-exact n h = ground arith

-- A double in [0, 1), at most 1 - 1 / (2 ^ 31 - 1) before it was rounded, times a whole number below
-- 2 ^ 53, is below that number when both operations round.
pub scaled-lt :
    (v r : ℕ)
    → 0 < v
    → v < 2147483647
    → 0 < r
    → r ≤ 2 ^ 53
    → to_long (mul (div (of_long v) (of_long 2147483647)) (of_long r)) < r
unfolding to_long mul div
scaled-lt v r pos_v small_v pos_r small_r =
    rw
      (exact v (omega arith), exact r small_r, exact 2147483647 (omega arith), times_one, plus_zero)
      ((div-lt_iff_lt-mul (one-le-pow p.exp 2 (omega arith))).1
        (scaled-core v r q p small_v pos_r hq hp))
  where
    exact : (n : ℕ) → n ≤ 2 ^ 53 → of_long n ≡ record { man = n; exp = 0 }
    exact n h = of_long-exact n h

    q : Double
    q = round v 2147483647

    p : Double
    p = round (q.man * r) (2 ^ q.exp)

    times_one : v * 1 ≡ v
    times_one = omega arith

    plus_zero : q.exp + 0 ≡ q.exp
    plus_zero = omega arith

    hq : IsRounded v 2147483647 q
    hq = round-IsRounded v 2147483647 (omega arith) (omega arith)

    wide : 2 ^ 52 * 2 ^ q.exp ≤ q.man * r * 2 ^ 1074
    wide =
        mul-le-mul (le_trans hq.full (omega (arith, mul-le-mul_left q.man pos_r)))
          (pow-le-pow_right (omega arith) hq.exp_in)

    hp : IsRounded (q.man * r) (2 ^ q.exp) p
    hp = round-IsRounded (q.man * r) (2 ^ q.exp) (one-le-pow q.exp 2 (omega arith)) wide
