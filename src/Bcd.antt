-- ===== src/Bcd.antt =====
-- bcd2.c: numbers of fourteen decimal digits, in two words of seven digits of four bits each.
pub mod Round
mod Tests
use structor.Common.{
  ℕ, zero, suc, ◌+◌, ◌-◌, ◌*◌, ◌/◌, ◌%◌, ◌^◌, ◌||◌, ltb, leb, ◌==◌, if◌then◌else◌, ℤ, pos, sub_ℕ,
  Option, none, some,
}

-- The two words that a call writes through its pointers.
pub record Words : Type 0 where
  pub low : ℕ
  pub high : ℕ

abbrev pub digits_per_long : ℕ
digits_per_long = 7

-- The four bits at digit n of a word.
abbrev pub nibble : ℕ → ℕ → ℕ
nibble n word = word / 16 ^ n % 16

-- GET_DIGIT
unfoldable pub get_digit : ℕ → Words → ℕ
get_digit num w =
    if leb digits_per_long num then nibble (num - digits_per_long) w.high else nibble num w.low

-- A word of 28 bits with the four bits at digit n replaced. The value is less than 16.
abbrev pub put_nibble : ℕ → ℕ → ℕ → ℕ
put_nibble value n word = let kept = word % 16 ^ 7 in kept - nibble n kept * 16 ^ n + value * 16 ^ n

-- SET_DIGIT
unfoldable pub set_digit : ℕ → ℕ → Words → Words
set_digit value num w =
    if leb digits_per_long num
    then record w { high = put_nibble value (num - digits_per_long) w.high }
    else record w { low = put_nibble value num w.low }

-- One character of the loop of `bin_bcd2`: the digit for 10 ^ count.
abbrev pub push_digit : ℕ → ℕ → Words → Words
push_digit count digit w =
    if ltb count digits_per_long
    then record w { low = w.low * 16 + digit }
    else record w { high = w.high * 16 + digit }

abbrev pub bin_loop : ℕ → ℕ → Words → Words
bin_loop zero binary w = w
bin_loop (suc count) binary w =
    bin_loop count binary (push_digit count (binary / 10 ^ count % 10) w)

-- `bin_bcd2`, for a number of at most fourteen digits, which the buffer holds.
unfoldable pub bin_bcd2 : ℕ → Words
bin_bcd2 binary = bin_loop 14 binary (record { low = 0; high = 0 })

-- The loop of `bcd2_bin`, one round for each digit below `count`.
abbrev pub digit_loop : ℕ → ℕ → ℕ → ℕ
digit_loop zero bcd dest = dest
digit_loop (suc count) bcd dest = digit_loop count bcd (dest * 10 + nibble count bcd)

unfoldable pub bcd2_bin : ℕ → ℕ
bcd2_bin bcd = digit_loop digits_per_long bcd 0

-- The loop of `bcd2_add` from a digit on; it returns the carry.
unfoldable pub add_loop : ℕ → ℕ → Words → Words → ℕ → ℕ × Words
add_loop zero digit w addend carry = (carry, w)
add_loop (suc rounds) digit w addend carry =
    let res = get_digit digit w + get_digit digit addend + carry in
    add_loop rounds (digit + 1) (set_digit (res % 10) digit w) addend (res / 10)

unfoldable pub bcd2_add : Words → ℕ → ℕ × Words
bcd2_add w addend = add_loop 14 0 w (bin_bcd2 addend) 0

-- The loop of `bcd2_sub`. The carry is set by a negative digit and never cleared.
unfoldable pub sub_loop : ℕ → ℕ → Words → Words → ℕ → ℕ × Words
sub_loop zero digit w subend carry = (carry, w)
sub_loop (suc rounds) digit w subend carry =
    let here = get_digit digit w in
    let taken = get_digit digit subend + carry in
    let borrows = ltb here taken in
    sub_loop rounds (digit + 1)
      (set_digit (if borrows then here + 10 - taken else here - taken) digit w) subend
      (if borrows then 1 else carry)

unfoldable pub bcd2_sub : Words → ℕ → ℕ × Words
bcd2_sub w subend = sub_loop 14 0 w (bin_bcd2 subend) 0

-- The inner loop of `bcd2_mul`: one digit m1, which stands at `ldigit`, times all digits.
unfoldable pub mul_row : ℕ → ℕ → ℕ → ℕ → Words → ℕ → Words → ℕ × Words
mul_row zero udigit ldigit m1 old carry w = (carry, w)
mul_row (suc rounds) udigit ldigit m1 old carry w =
    let at = udigit + ldigit in
    let res = m1 * get_digit udigit old + carry + (if ltb at 14 then get_digit at w else 0) in
    mul_row rounds (udigit + 1) ldigit m1 old (res / 10)
      (if ltb at 14 then set_digit (res % 10) at w else w)

unfoldable pub mul_loop : ℕ → ℕ → Words → Words → ℕ → Words → ℕ × Words
mul_loop zero ldigit old multiplier carry w = (carry, w)
mul_loop (suc rounds) ldigit old multiplier carry w =
    let (left, next) = mul_row 14 0 ldigit (get_digit ldigit multiplier) old 0 w in
    mul_loop rounds (ldigit + 1) old multiplier left next

unfoldable pub bcd2_mul : Words → ℕ → ℕ × Words
bcd2_mul w multiplier = mul_loop 14 0 w (bin_bcd2 multiplier) 0 (record { low = 0; high = 0 })

-- The loop of `bcd2_div` over the digits below `digit`, from the top down. Its quotient digits are
-- less than 10, since the carry is less than the divisor.
unfoldable pub div_loop : ℕ → Words → ℕ → ℕ → Words → ℕ × Words
div_loop zero old divisor carry w = (carry, w)
div_loop (suc digit) old divisor carry w =
    let d1 = get_digit digit old + 10 * carry in
    div_loop digit old divisor (d1 % divisor) (set_digit (d1 / divisor) digit w)

unfoldable pub bcd2_div : Words → ℕ → ℕ × Words
bcd2_div w divisor = div_loop 14 w divisor 0 (record { low = 0; high = 0 })

-- `bcd2_mod`, which compares the packed low word with the modulo, on fuel; none if it is used up.
unfoldable pub bcd2_mod : ℕ → Words → ℕ → Option ℕ
bcd2_mod zero w modulo = none
bcd2_mod (suc fuel) w modulo =
    let rest = bcd2_mod fuel (bcd2_sub w modulo).1 modulo in
    if ltb 0 w.high || ltb modulo w.low then rest else some w.low

-- `bcd2_cmp`
unfoldable pub bcd2_cmp : Words → ℕ → ℤ
bcd2_cmp w comp = if ltb 214 (bcd2_bin w.high) then pos 1 else sub_ℕ (bcd2_bin w.low) comp
