-- ===== src/Text.antt =====
-- C strings as lists of character codes, and the conversions of `sprintf` that the generator uses.
use Prim.Native.Char.{code}
use Prim.Native.String.{String}
use structor.Common.{ℕ, zero, suc, ◌+◌, ◌-◌, ◌/◌, ◌%◌, List, [], ◌∷◌, ltb, if◌then◌else◌, length}

abbrev pub Text : Type 0
Text = List ℕ

abbrev pub codes : String → Text
codes String.[] = []
codes (String.◌∷◌ c s) = code c ∷ codes s

-- The decimal digits of n, the last `fuel` of them; 20 are enough for a 64-bit long.
unfoldable pub dec_digits : ℕ → ℕ → Text → Text
dec_digits zero n rest = rest
dec_digits (suc fuel) n rest =
    let more = dec_digits fuel (n / 10) ((b'0' + n % 10) ∷ rest) in
    if ltb n 10 then (b'0' + n) ∷ rest else more

-- `%d`
unfoldable pub dec : ℕ → Text
unfolding dec_digits
dec n = dec_digits 20 n []

abbrev pub zeros : ℕ → Text → Text
zeros zero s = s
zeros (suc n) s = b'0' ∷ zeros n s

-- `%0<width>d`
unfoldable pub dec_pad : ℕ → ℕ → Text
unfolding dec
dec_pad width n = zeros (width - length (dec n)) (dec n)
