-- ===== src/Double.antt =====
-- The C type `double` where the generator uses it: non-negative values in the range of normal
-- numbers, with the rounding to nearest even of IEEE 754. A value is man / 2 ^ exp.
pub mod Error
use structor.Common.{ℕ, zero, suc, ◌+◌, ◌*◌, ◌/◌, ◌%◌, ◌^◌, ltb, leb, if◌then◌else◌}

pub record Double : Type 0 where
  pub man : ℕ
  pub exp : ℕ

-- num / den to the nearest whole number, a tie to the even one.
unfoldable pub round_even : ℕ → ℕ → ℕ
round_even num den =
    let q = num / den in
    let r = num % den in if ltb (2 * r) den then q else if ltb den (2 * r) then q + 1 else q + q % 2

-- How often num is doubled until num / den has 53 bits, and how often den is.
unfoldable pub scale_up : ℕ → ℕ → ℕ → ℕ
scale_up zero num den = 0
scale_up (suc fuel) num den =
    let more = suc (scale_up fuel (num * 2) den) in if ltb num (2 ^ 52 * den) then more else 0

unfoldable pub scale_down : ℕ → ℕ → ℕ → ℕ
scale_down zero num den = 0
scale_down (suc fuel) num den =
    let more = suc (scale_down fuel num (den * 2)) in if leb (2 ^ 53 * den) num then more else 0

-- The double nearest to num / den. The exponents of a double are within 1074.
unfoldable pub round : ℕ → ℕ → Double
round num den =
    let up = scale_up 1074 num den in
    let down = scale_down 1074 (num * 2 ^ up) den in
    record { man = round_even (num * 2 ^ up) (den * 2 ^ down) * 2 ^ down; exp = up }

-- `(double) n`; whole numbers up to 2 ^ 53 are exact.
unfoldable pub of_long : ℕ → Double
of_long n = if leb n (2 ^ 53) then record { man = n; exp = 0 } else round n 1

unfoldable pub div : Double → Double → Double
div a b = round (a.man * 2 ^ b.exp) (b.man * 2 ^ a.exp)

unfoldable pub mul : Double → Double → Double
mul a b = round (a.man * b.man) (2 ^ (a.exp + b.exp))

-- `(long) a`
unfoldable pub to_long : Double → ℕ
to_long a = a.man / 2 ^ a.exp
