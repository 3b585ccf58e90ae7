-- ===== src/Build/Fields/City.antt =====
-- The width of `gen_city` and the split of `gen_color`.
use structor.Common.{
  ℕ, zero, suc, ◌+◌, ◌-◌, ◌≤◌, ◌<◌, [], ◌∷◌, ◌++◌, length, length-append, ltb, ◌==◌, if◌then◌else◌,
  Bool-cases, inl, inr, some, true, ◌≡◌, refl, sym, ap, ◌∙◌, arith,
}
use structor.Dist.{◌>>=◌}
use structor.Seeds.{Streams, dss_random}
use structor.Seeds.Live.{Live, dss_random-Live, dss_random_range}
use structor.Text.{Text, dec, dec_digits}
use structor.Build.Fields.{padded, gen_city, gen_color, city_fix}

length-padded : (n : ℕ) (s : Text) → length (padded n s) ≡ n
unfolding padded
length-padded zero s = refl
length-padded (suc n) [] = ap suc (length-padded n [])
length-padded (suc n) (c ∷ s) = ap suc (length-padded n s)

length-dec_digit : (n : ℕ) → n ≤ 9 → length (dec n) ≡ 1
unfolding dec dec_digits
length-dec_digit n h = let small : ltb n 10 ≡ true = ground arith in rw small refl

-- With live streams, `gen_city` makes a city of exactly CITY_FIX characters, which fills its field,
-- whatever the length of the nation's name, and leaves the streams live.
pub gen_city-length :
    (nation_name : Text) (st : Streams)
    → Live st
    → (city : Text) × (st' : Streams) × (gen_city nation_name st ≡ some (city, st'))
      × (length city ≡ city_fix)
      × Live st'
unfolding gen_city ◌>>=◌
gen_city-length nation_name st live =
    let (low, high) = dss_random_range 0 9 98 st live (omega arith) (omega arith) in
    (
      padded (city_fix - 1) nation_name ++ dec (dss_random 0 9 98 st).0,
      (dss_random 0 9 98 st).1,
      refl,
      length-append (padded (city_fix - 1) nation_name) (dec (dss_random 0 9 98 st).0)
          ∙ omega (
            arith,
            length-padded (city_fix - 1) nation_name,
            length-dec_digit (dss_random 0 9 98 st).0 high,
          ),
      dss_random-Live 0 9 98 st live,
    )

-- The number of blanks.
abbrev pub blanks : Text → ℕ
blanks [] = 0
blanks (c ∷ s) = (if c == b' ' then 1 else 0) + blanks s

-- For a name with a blank, `gen_color` returns a color without a blank and a rest, and with a blank
-- between them they are the name.
pub gen_color-append :
    (source : Text)
    → 0 < blanks source
    → (color name : Text) × (gen_color source ≡ some (color, name))
      × (blanks color ≡ 0)
      × (color ++ (b' ' ∷ name) ≡ source)
unfolding gen_color
gen_color-append [] h = absurd (omega arith)
gen_color-append (c ∷ s) h = elim (Bool-cases (c == b' ')) [
  | inl blank ↦
      let e : c ≡ b' ' = ground arith in rw blank ([], s, refl, refl, ap (λ (t : ℕ). t ∷ s) (sym e))
  | inr other ↦
      let later : 0 < blanks s = ground arith in
      let (color, name, found, clean, whole) = gen_color-append s later in
      rw other (
        rw found
          (c ∷ color, name, refl, ground (arith, other, clean), ap (λ (t : Text). c ∷ t) whole))
]
