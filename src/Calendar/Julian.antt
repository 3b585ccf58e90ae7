-- ===== src/Calendar/Julian.antt =====
-- `julian` and `unjulian` are inverse to one another.
use structor.Common.{
  ℕ, zero, suc, ◌+◌, ◌-◌, ◌*◌, ◌/◌, ◌%◌, ◌≤◌, ◌<◌, ltb, Bool-cases, inl, inr, some, ◌≡◌, refl, ap,
  ◌∙◌, arith,
}
use structor.Calendar.{startdate, leap, julian_loop, julian, year_days, unjulian}

pub leap-le : (y : ℕ) → leap y ≤ 1
unfolding leap
leap-le y = ground arith

year_days-suc : (n i : ℕ) → year_days (suc n) i ≡ year_days n i + (365 + leap (i + n))
unfolding year_days
year_days-suc zero i = let e : i + 0 ≡ i = omega arith in rw e (omega arith)
year_days-suc (suc n) i =
    let e : i + 1 + n ≡ i + suc n = omega arith in omega (arith, year_days-suc n (i + 1), ap leap e)

-- A date with a day of its year.
abbrev pub IsDate : ℕ → Type 0
IsDate d = (startdate ≤ d) × (1 ≤ d % 1000) × (d % 1000 ≤ 365 + leap (d / 1000))

-- From the first day of year 92 + n, the loop finds the date that lies `offset` days on.
julian_loop-unjulian :
    (fuel offset n : ℕ)
    → offset < fuel
    → (d : ℕ) × (julian_loop fuel offset ((92 + n) * 1000 + 1) ≡ some d)
      × IsDate d
      × (unjulian d ≡ year_days n 92 + offset)
unfolding julian_loop unjulian
julian_loop-unjulian zero offset n h = absurd (omega arith)
julian_loop-unjulian (suc fuel) offset n h = elim (Bool-cases (ltb yend (start + offset))) [
  | inl e ↦
      let over : days ≤ offset = ground (arith, yr) in
      let (d, runs, is_date, days_d) =
        julian_loop-unjulian fuel (offset - days) (suc n) (omega arith) in
      rw e (
        rw rest_start (rw next_start (d, runs, is_date, omega (arith, days_d, year_days-suc n 92))))
  | inr e ↦
      let inside : offset < days = ground (arith, yr) in
      let day : (start + offset) % 1000 ≡ 1 + offset = omega (arith, leap-le (92 + n)) in
      let year : (start + offset) / 1000 ≡ 92 + n = omega (arith, leap-le (92 + n)) in
      let days_d : unjulian (start + offset) ≡ year_days n 92 + offset =
        rw year (rw day (let span : 92 + n - 92 ≡ n = omega arith in rw span (omega arith))) in
      rw e (start + offset, refl, (omega arith, omega arith, rw year (omega arith)), days_d)
]
  where
    start : ℕ
    start = (92 + n) * 1000 + 1

    days : ℕ
    days = 365 + leap (92 + n)

    yr : start / 1000 ≡ 92 + n
    yr = omega arith

    yend : ℕ
    yend = start / 1000 * 1000 + 365 + leap (start / 1000)

    rest_start : offset - (yend - start + 1) ≡ offset - days
    rest_start = rw yr (omega arith)

    next_start : start + 1000 ≡ (92 + suc n) * 1000 + 1
    next_start = omega arith

-- For every number n of days, `julian` ends at the date n days after STARTDATE: a date of a year
-- from 92 on and of a day of that year, and `unjulian` of it is n.
pub unjulian-julian :
    (n : ℕ) → (d : ℕ) × (julian (startdate + n) ≡ some d) × IsDate d × (unjulian d ≡ n)
unfolding julian year_days
unjulian-julian n =
    let days : startdate + n - startdate ≡ n = omega arith in
    let fuel : startdate + n - startdate + 1 ≡ n + 1 = omega arith in
    let (d, runs, is_date, days_d) = julian_loop-unjulian (n + 1) n 0 (omega arith) in
    rw fuel (rw days (d, runs, is_date, days_d ∙ omega arith))
