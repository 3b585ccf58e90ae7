-- ===== src/Print/Decimal.antt =====
-- Decimal texts read back.
use native.Mathlib.Nat.{pow-suc}
use structor.Common.{
  ℕ, zero, suc, ◌+◌, ◌-◌, ◌*◌, ◌/◌, ◌%◌, ◌^◌, ◌≤◌, ◌<◌, [], ◌∷◌, ◌++◌, length, ltb, Bool-cases, inl,
  inr, ◌⊎◌, true, ◌≡◌, refl, sym, ap, ◌∙◌, arith,
}
use structor.Text.{Text, dec, dec_digits, dec_pad, zeros}
use structor.Print.Split.{Lacks}

-- The number of a text of digits, behind those read before.
unfoldable pub read : ℕ → Text → ℕ
read acc [] = acc
read acc (c ∷ s) = read (acc * 10 + (c - b'0')) s

read-digits :
    (fuel n : ℕ) (rest : Text) → n < 10 ^ fuel → read 0 (dec_digits fuel n rest) ≡ read n rest
unfolding read dec_digits
read-digits zero n rest h = ap (λ (a : ℕ). read a rest) (omega arith)
read-digits (suc fuel) n rest h = elim (Bool-cases (ltb n 10)) [
  | inl last ↦ rw last (ap (λ (a : ℕ). read a rest) (omega arith))
  | inr more ↦ rw more (
      read-digits fuel (n / 10) ((b'0' + n % 10) ∷ rest) (omega arith)
      ∙ ap (λ (a : ℕ). read a rest) (omega arith))
]

pub read-dec : (n : ℕ) → n < 10 ^ 20 → read 0 (dec n) ≡ n
unfolding dec read
read-dec n h = read-digits 20 n [] h

-- A character that is no digit is in no number.
digits-Lacks :
    (c fuel n : ℕ) (rest : Text)
    → (c < b'0') ⊎ (b'9' < c)
    → Lacks c rest
    → Lacks c (dec_digits fuel n rest)
unfolding dec_digits
digits-Lacks c zero n rest h clean = clean
digits-Lacks c (suc fuel) n rest h clean = elim (Bool-cases (ltb n 10)) [
  | inl last ↦ rw last (ground arith, clean)
  | inr more ↦
      rw more (digits-Lacks c fuel (n / 10) ((b'0' + n % 10) ∷ rest) h (ground arith, clean))
]

pub dec-Lacks : (c n : ℕ) → (c < b'0') ⊎ (b'9' < c) → Lacks c (dec n)
unfolding dec
dec-Lacks c n h = digits-Lacks c 20 n [] h tt

length-digits :
    (fuel n k : ℕ) (rest : Text)
    → n < 10 ^ suc k
    → length (dec_digits fuel n rest) ≤ suc k + length rest
unfolding dec_digits
length-digits zero n k rest h = omega arith
length-digits (suc fuel) n zero rest h =
    let last : ltb n 10 ≡ true = ground arith in rw last (omega arith)
length-digits (suc fuel) n (suc k) rest h = elim (Bool-cases (ltb n 10)) [
  | inl last ↦ rw last (omega arith)
  | inr more ↦ rw more (
      let less : n < 10 ^ suc k * 10 = rw (sym (pow-suc 10 (suc k))) h in
      omega (arith, length-digits fuel (n / 10) k ((b'0' + n % 10) ∷ rest) (omega arith)))
]

pub length-dec : (n k : ℕ) → n < 10 ^ suc k → length (dec n) ≤ suc k
unfolding dec
length-dec n k h = omega (arith, length-digits 20 n k [] h)

-- The number of all digits, if those of s are read first.
read-acc : (acc : ℕ) (s : Text) → read acc s ≡ acc * 10 ^ length s + read 0 s
unfolding read
read-acc acc [] = omega arith
read-acc acc (c ∷ s) =
    let e : 10 ^ suc (length s) ≡ 10 ^ length s * 10 = pow-suc 10 (length s) in
    let first : 0 * 10 + (c - b'0') ≡ c - b'0' = omega arith in
    omega (
      arith,
      read-acc (acc * 10 + (c - b'0')) s,
      ap (λ (a : ℕ). read a s) first,
      read-acc (c - b'0') s,
      ap (λ (x : ℕ). acc * x) e,
    )

read-zeros : (acc n : ℕ) (s : Text) → read acc (zeros n s) ≡ read (acc * 10 ^ n) s
unfolding read
read-zeros acc zero s = ap (λ (a : ℕ). read a s) (omega arith)
read-zeros acc (suc n) s =
    read-zeros (acc * 10 + (b'0' - b'0')) n s
    ∙ ap (λ (a : ℕ). read a s) (omega (arith, ap (λ (x : ℕ). acc * x) (pow-suc 10 n)))

read-append : (acc : ℕ) (s t : Text) → read acc (s ++ t) ≡ read (read acc s) t
unfolding read
read-append acc [] t = refl
read-append acc (c ∷ s) t = read-append (acc * 10 + (c - b'0')) s t

pow-add : (n m : ℕ) → 10 ^ (n + m) ≡ 10 ^ n * 10 ^ m
pow-add n zero = let none : n + 0 ≡ n = omega arith in ap (λ (k : ℕ). 10 ^ k) none ∙ omega arith
pow-add n (suc m) =
    let more : n + suc m ≡ suc (n + m) = omega arith in
    ap (λ (k : ℕ). 10 ^ k) more
    ∙ omega (
      arith,
      pow-suc 10 (n + m),
      ap (λ (x : ℕ). 10 ^ n * x) (pow-suc 10 m),
      ap (λ (x : ℕ). x * 10) (pow-add n m),
    )

-- Two longs printed one behind the other, the second in seven places.
pub read-long_pair :
    (high low : ℕ)
    → high < 10 ^ 20
    → low < 10 ^ 7
    → read 0 (dec high ++ dec_pad 7 low) ≡ high * 10 ^ 7 + low
unfolding dec_pad
read-long_pair high low h l =
    let places = length (dec low) in
    let short : places ≤ 7 = length-dec low 6 l in
    let all_places : 7 - places + places ≡ 7 = omega arith in
    let whole : 10 ^ (7 - places) * 10 ^ places ≡ 10 ^ 7 =
      sym (pow-add (7 - places) places) ∙ ap (λ (k : ℕ). 10 ^ k) all_places in
    read-append 0 (dec high) (dec_pad 7 low)
    ∙ ap (λ (a : ℕ). read a (dec_pad 7 low)) (read-dec high h)
    ∙ read-zeros high (7 - places) (dec low)
    ∙ read-acc (high * 10 ^ (7 - places)) (dec low)
    ∙ omega (arith, read-dec low (omega arith), ap (λ (x : ℕ). high * x) whole)

zeros-Lacks : (c n : ℕ) (s : Text) → (c < b'0') ⊎ (b'9' < c) → Lacks c s → Lacks c (zeros n s)
zeros-Lacks c zero s h clean = clean
zeros-Lacks c (suc n) s h clean = (ground arith, zeros-Lacks c n s h clean)

pub dec_pad-Lacks : (c width n : ℕ) → (c < b'0') ⊎ (b'9' < c) → Lacks c (dec_pad width n)
unfolding dec_pad
dec_pad-Lacks c width n h = zeros-Lacks c (width - length (dec n)) (dec n) h (dec-Lacks c n h)
