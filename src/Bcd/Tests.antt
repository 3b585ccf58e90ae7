-- ===== src/Bcd/Tests.antt =====
-- The arithmetic of bcd2.c on numbers.
use structor.Common.{◌≡◌, refl, ◌/◌, ◌%◌, arith}
use structor.Bcd.{
  bin_bcd2, bcd2_bin, get_digit, set_digit, add_loop, bcd2_add, sub_loop, bcd2_sub, mul_row,
  mul_loop, bcd2_mul, div_loop, bcd2_div,
}
use structor.Bcd.Round.{bcd2_bin-bin_bcd2}

carries_over : bcd2_add (bin_bcd2 9999999) 1 ≡ (0, bin_bcd2 10000000)
unfolding bcd2_add add_loop bin_bcd2 get_digit set_digit
carries_over = refl

-- One borrow is taken from every higher digit: 110 - 9 gives 99999999999001.
borrows_again : bcd2_sub (bin_bcd2 110) 9 ≡ (1, bin_bcd2 99999999999001)
unfolding bcd2_sub sub_loop bin_bcd2 get_digit set_digit
borrows_again = refl

multiplies : bcd2_mul (bin_bcd2 123456789) 98765 ≡ (0, bin_bcd2 12193209765585)
unfolding bcd2_mul mul_loop mul_row bin_bcd2 get_digit set_digit
multiplies = refl

divides : bcd2_div (bin_bcd2 12193209765592) 98765 ≡ (7, bin_bcd2 123456789)
unfolding bcd2_div div_loop bin_bcd2 get_digit set_digit
divides = refl

bcd2_bin-bin_bcd2_example :
    (bcd2_bin (bin_bcd2 20070312345678).low ≡ 20070312345678 % 10000000)
    × (bcd2_bin (bin_bcd2 20070312345678).high ≡ 20070312345678 / 10000000)
bcd2_bin-bin_bcd2_example = bcd2_bin-bin_bcd2 20070312345678 (omega arith)
