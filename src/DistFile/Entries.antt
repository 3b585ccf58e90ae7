-- ===== src/DistFile/Entries.antt =====
-- The conversions of `sscanf` on the lines that a section has.
use structor.Common.{
  ℕ, zero, suc, ◌+◌, ◌-◌, ◌*◌, ◌/◌, ◌%◌, ◌^◌, ◌<◌, [], ◌∷◌, ◌++◌, true, false, ◌==◌, ltb,
  Bool-cases, Option, none, some, ℤ, pos, negsuc, inl, inr, ◌≡◌, refl, sym, ap, ◌∙◌, arith,
}
use mathlib.Core.Path.{subst}
use structor.Text.{Text, dec, dec_digits}
use structor.Print.Split.{Lacks}
use structor.Print.Decimal.{read, read-dec}
use structor.DistFile.{
  scan_digits, scan_long, behind_bar, scan_entry, scan_number, converted, negated, is_digit,
  is_space,
}
use structor.DistFile.Lines.{until-Lacks}

abbrev pub AllDigits : Text → Type 0
AllDigits [] = Unit {0}
AllDigits (c ∷ s) = (is_digit c ≡ true) × AllDigits s

pub scan_digits-read : (a : ℕ) (s : Text) → AllDigits s → scan_digits (some a) s ≡ some (read a s)
unfolding scan_digits read
scan_digits-read a [] h = refl
scan_digits-read a (c ∷ s) h = rw h.0 (scan_digits-read (a * 10 + (c - b'0')) s h.1)

pub dec_digits-AllDigits :
    (fuel n : ℕ) (rest : Text) → AllDigits rest → AllDigits (dec_digits fuel n rest)
unfolding dec_digits
dec_digits-AllDigits zero n rest h = h
dec_digits-AllDigits (suc fuel) n rest h = elim (Bool-cases (ltb n 10)) [
  | inl last ↦ rw last (ground arith, h)
  | inr more ↦
      rw more (dec_digits-AllDigits fuel (n / 10) ((b'0' + n % 10) ∷ rest) (ground arith, h))
]

dec_digits-cons :
    (fuel n c : ℕ) (rest : Text) → (d : ℕ) × (s : Text) × (dec_digits fuel n (c ∷ rest) ≡ d ∷ s)
unfolding dec_digits
dec_digits-cons zero n c rest = (c, rest, refl)
dec_digits-cons (suc fuel) n c rest = elim (Bool-cases (ltb n 10)) [
  | inl last ↦ (b'0' + n, c ∷ rest, rw last refl)
  | inr more ↦
      let (d, s, e) = dec_digits-cons fuel (n / 10) (b'0' + n % 10) (c ∷ rest) in (d, s, rw more e)
]

pub dec-cons : (n : ℕ) → (d : ℕ) × (s : Text) × (dec n ≡ d ∷ s)
unfolding dec dec_digits
dec-cons n = elim (Bool-cases (ltb n 10)) [
  | inl last ↦ (b'0' + n, [], rw last refl)
  | inr more ↦ let (d, s, e) = dec_digits-cons 19 (n / 10) (b'0' + n % 10) [] in (d, s, rw more e)
]

scan_digits-cons :
    (d : ℕ) (s : Text) → AllDigits (d ∷ s) → scan_digits none (d ∷ s) ≡ some (read 0 (d ∷ s))
unfolding scan_digits read
scan_digits-cons d s h = rw h.0 (scan_digits-read (0 * 10 + (d - b'0')) s h.1)

scan_long-cons :
    (d : ℕ) (s : Text) → AllDigits (d ∷ s) → scan_long (d ∷ s) ≡ some (pos (read 0 (d ∷ s)))
unfolding scan_long
scan_long-cons d s h =
    let digit : is_digit d ≡ true = h.0 in
    let no_space : is_space d ≡ false = ground arith in
    let no_minus : (d == b'-') ≡ false = ground arith in
    let no_plus : (d == b'+') ≡ false = ground arith in
    rw no_space (
      rw no_minus (
        rw no_plus (
          ap (λ (o : Option ℕ). elim o [ none ↦ none | some n ↦ some (pos n) ])
            (scan_digits-cons d s h))))

scan_long-dec : (n : ℕ) → n < 10 ^ 20 → scan_long (dec n) ≡ some (pos n)
unfolding dec
scan_long-dec n h =
    let (d, s, e) = dec-cons n in
    let digits = dec_digits-AllDigits 20 n [] tt in
    ap scan_long e
    ∙ scan_long-cons d s (subst AllDigits e digits)
    ∙ ap (λ (t : Text). some (pos (read 0 t))) (sym e)
    ∙ ap (λ (k : ℕ). some (pos k)) (read-dec n h)

-- A weight as it is written.
abbrev pub dec_signed : ℤ → Text
dec_signed (pos n) = dec n
dec_signed (negsuc n) = b'-' ∷ dec (n + 1)

abbrev pub size : ℤ → ℕ
size (pos n) = n
size (negsuc n) = n + 1

pub scan_digits-dec : (n : ℕ) → n < 10 ^ 20 → scan_digits none (dec n) ≡ some n
unfolding dec
scan_digits-dec n h =
    let (d, s, e) = dec-cons n in
    ap (scan_digits none) e
    ∙ scan_digits-cons d s (subst AllDigits e (dec_digits-AllDigits 20 n [] tt))
    ∙ ap (λ (t : Text). some (read 0 t)) (sym e)
    ∙ ap (λ (k : ℕ). some k) (read-dec n h)

scan_long-signed : (w : ℤ) → size w < 2 ^ 63 → scan_long (dec_signed w) ≡ some w
unfolding scan_long
scan_long-signed (pos n) h = scan_long-dec n (omega arith)
scan_long-signed (negsuc n) h =
    ap (λ (o : Option ℕ). elim o [ none ↦ none | some k ↦ some (negated k) ])
      (scan_digits-dec (n + 1) (omega arith))
    ∙ negated-suc n
  where
    negated-suc : (n : ℕ) → some (negated (n + 1)) ≡ some (negsuc n)
    negated-suc n = let e : n + 1 ≡ suc n = omega arith in ap (λ (k : ℕ). some (negated k)) e

pub behind_bar-Lacks : (s rest : Text) → Lacks b'|' s → behind_bar (s ++ (b'|' ∷ rest)) ≡ some rest
unfolding behind_bar
behind_bar-Lacks [] rest h = refl
behind_bar-Lacks (c ∷ s) rest h = rw h.0 (behind_bar-Lacks s rest h.1)

-- A text and a number with a bar between them are converted both.
pub scan_entry_lem :
    (c : ℕ) (t : Text) (w : ℤ)
    → Lacks b'|' (c ∷ t)
    → size w < 2 ^ 63
    → scan_entry (c ∷ (t ++ (b'|' ∷ dec_signed w))) ≡ some (c ∷ t, w)
unfolding scan_entry
scan_entry_lem c t w h small =
    ap (λ (u : Text). converted u (scan_number (behind_bar (c ∷ (t ++ (b'|' ∷ dec_signed w))))))
      (until-Lacks b'|' (c ∷ t) (dec_signed w) h)
    ∙ ap (λ (o : Option Text). converted (c ∷ t) (scan_number o))
        (behind_bar-Lacks (c ∷ t) (dec_signed w) h)
    ∙ ap (converted (c ∷ t)) (scan_long-signed w small)
