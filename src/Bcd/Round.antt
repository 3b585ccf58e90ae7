-- ===== src/Bcd/Round.antt =====
-- The conversions between a number and its two words.
use structor.Common.{ℕ, ◌+◌, ◌*◌, ◌/◌, ◌%◌, ◌<◌, ◌≡◌, refl, ◌∙◌, arith}
use structor.Bcd.{bin_bcd2, bcd2_bin}

-- The word of seven decimal digits.
abbrev packed : ℕ → ℕ → ℕ → ℕ → ℕ → ℕ → ℕ → ℕ
packed g f e d c b a = ((((((0 + g) * 16 + f) * 16 + e) * 16 + d) * 16 + c) * 16 + b) * 16 + a

bcd2_bin-packed :
    (g f e d c b a : ℕ)
    → g < 10
    → f < 10
    → e < 10
    → d < 10
    → c < 10
    → b < 10
    → a < 10
    → bcd2_bin (packed g f e d c b a)
      ≡ ((((((0 + g) * 10 + f) * 10 + e) * 10 + d) * 10 + c) * 10 + b) * 10 + a
unfolding bcd2_bin
bcd2_bin-packed g f e d c b a hg hf he hd hc hb ha =
    rw n6 (rw n5 (rw n4 (rw n3 (rw n2 (rw n1 (rw n0 refl))))))
  where
    w : ℕ
    w = packed g f e d c b a

    n6 : w / 16777216 % 16 ≡ g
    n6 = omega arith

    n5 : w / 1048576 % 16 ≡ f
    n5 = omega arith

    n4 : w / 65536 % 16 ≡ e
    n4 = omega arith

    n3 : w / 4096 % 16 ≡ d
    n3 = omega arith

    n2 : w / 256 % 16 ≡ c
    n2 = omega arith

    n1 : w / 16 % 16 ≡ b
    n1 = omega arith

    n0 : w / 1 % 16 ≡ a
    n0 = omega arith

-- Seven digits of a number, put together.
seven :
    (n : ℕ)
    → ((((((0 + n / 1000000 % 10) * 10 + n / 100000 % 10) * 10 + n / 10000 % 10) * 10
                    + n / 1000 % 10)
                  * 10
                + n / 100 % 10)
              * 10
            + n / 10 % 10)
          * 10
        + n / 1 % 10
      ≡ n % 10000000
seven n = omega (arith, s0, s1, s2, s3, s4, s5, s6)
  where
    s0 : n / 1 ≡ n / 10 * 10 + n / 1 % 10
    s0 = omega arith

    s1 : n / 10 ≡ n / 100 * 10 + n / 10 % 10
    s1 = omega arith

    s2 : n / 100 ≡ n / 1000 * 10 + n / 100 % 10
    s2 = omega arith

    s3 : n / 1000 ≡ n / 10000 * 10 + n / 1000 % 10
    s3 = omega arith

    s4 : n / 10000 ≡ n / 100000 * 10 + n / 10000 % 10
    s4 = omega arith

    s5 : n / 100000 ≡ n / 1000000 * 10 + n / 100000 % 10
    s5 = omega arith

    s6 : n / 1000000 ≡ n / 10000000 * 10 + n / 1000000 % 10
    s6 = omega arith

-- The word of the lower seven digits of a number.
bcd2_bin-seven :
    (n g f e d c b a : ℕ)
    → g ≡ n / 1000000 % 10
    → f ≡ n / 100000 % 10
    → e ≡ n / 10000 % 10
    → d ≡ n / 1000 % 10
    → c ≡ n / 100 % 10
    → b ≡ n / 10 % 10
    → a ≡ n / 1 % 10
    → bcd2_bin (packed g f e d c b a) ≡ n % 10000000
bcd2_bin-seven n g f e d c b a hg hf he hd hc hb ha =
    bcd2_bin-packed g f e d c b a (lt g (n / 1000000) hg) (lt f (n / 100000) hf)
      (lt e (n / 10000) he) (lt d (n / 1000) hd) (lt c (n / 100) hc) (lt b (n / 10) hb)
      (lt a (n / 1) ha)
    ∙ rw hg (rw hf (rw he (rw hd (rw hc (rw hb (rw ha (seven n)))))))
  where
    lt : (x y : ℕ) → x ≡ y % 10 → x < 10
    lt x y h = omega arith

-- For a number below 10^14, `bcd2_bin` of the low word of `bin_bcd2` is its lower seven digits, and
-- that of the high word its upper seven.
pub bcd2_bin-bin_bcd2 :
    (n : ℕ)
    → n < 100000000000000
    → (bcd2_bin (bin_bcd2 n).low ≡ n % 10000000) × (bcd2_bin (bin_bcd2 n).high ≡ n / 10000000)
unfolding bin_bcd2
bcd2_bin-bin_bcd2 n h = (
  bcd2_bin-seven n _ _ _ _ _ _ _ refl refl refl refl refl refl refl,
  bcd2_bin-seven (n / 10000000) _ _ _ _ _ _ _ d6 d5 d4 d3 d2 d1 d0 ∙ omega arith,
)
  where
    d6 : n / 10000000000000 % 10 ≡ n / 10000000 / 1000000 % 10
    d6 = omega arith

    d5 : n / 1000000000000 % 10 ≡ n / 10000000 / 100000 % 10
    d5 = omega arith

    d4 : n / 100000000000 % 10 ≡ n / 10000000 / 10000 % 10
    d4 = omega arith

    d3 : n / 10000000000 % 10 ≡ n / 10000000 / 1000 % 10
    d3 = omega arith

    d2 : n / 1000000000 % 10 ≡ n / 10000000 / 100 % 10
    d2 = omega arith

    d1 : n / 100000000 % 10 ≡ n / 10000000 / 10 % 10
    d1 = omega arith

    d0 : n / 10000000 % 10 ≡ n / 10000000 / 1 % 10
    d0 = omega arith
