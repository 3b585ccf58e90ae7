-- ===== src/Calendar/Dates.antt =====
-- The dates that `mk_ascdate` makes.
use structor.Common.{
  ℕ, zero, suc, ◌+◌, ◌-◌, ◌/◌, ◌%◌, List, [], ◌∷◌, length, Option, some, ◌≡◌, refl, ap, ◌∙◌, arith,
}
use structor.Text.{Text}
use structor.Calendar.{
  startdate, totdate, leap, julian, month_of, time_fields, mk_time, mk_ascdate_from, mk_ascdate,
  ◌>>=◌,
}
use structor.Calendar.Julian.{unjulian-julian, IsDate, leap-le}
use structor.Calendar.Months.{month_of-IsMonth, IsMonth}

bind-some {ℓ κ} :
    {A : Type ℓ} {B : Type κ} (f : A → Option B) {o : Option A} {a : A}
    → o ≡ some a
    → (o >>= f) ≡ f a
bind-some f e = ap (λ o. o >>= f) e

-- For every index n + 1, `mk_time` ends without reading behind the table `months`: its fields are those
-- of the date n days after STARTDATE, a date of the calendar, at the month that its day of the year
-- belongs to.
pub mk_time-fields :
    (n : ℕ)
    → (date m : ℕ) × (julian (startdate + n) ≡ some date)
      × IsDate date
      × IsMonth (leap (date / 1000)) (date % 1000) m
      × (mk_time (n + 1) ≡ some (time_fields (n + 1) (date / 1000) (date % 1000) m))
unfolding mk_time
mk_time-fields n =
    let (date, ends, (from_start, day_low, day_high), days) = unjulian-julian n in
    let (m, found, is_month) =
      month_of-IsMonth (leap (date / 1000)) (date % 1000) (leap-le (date / 1000)) day_low
        day_high in
    let index : n + 1 + startdate - 1 ≡ startdate + n = omega arith in
    let monthly = λ (d k : ℕ). some (time_fields (n + 1) (d / 1000) (d % 1000) k) in
    (
      date,
      m,
      ends,
      (from_start, day_low, day_high),
      is_month,
      bind-some (λ d. month_of (leap (d / 1000)) (d % 1000) >>= monthly d) (ap julian index ∙ ends)
          ∙ bind-some (monthly date) found,
    )

mk_ascdate_from-length :
    (n i : ℕ) → (ts : List Text) × (mk_ascdate_from n (i + 1) ≡ some ts) × (length ts ≡ n)
unfolding mk_ascdate_from
mk_ascdate_from-length zero i = ([], refl, refl)
mk_ascdate_from-length (suc n) i =
    let (date, m, ends, is_date, is_month, made) = mk_time-fields i in
    let t = time_fields (i + 1) (date / 1000) (date % 1000) m in
    let (ts, rest, size) = mk_ascdate_from-length n (i + 1) in
    (
      t.alpha ∷ ts,
      bind-some (λ u. mk_ascdate_from n (i + 1 + 1) >>= λ more. some (u.alpha ∷ more)) made
          ∙ bind-some (λ more. some (t.alpha ∷ more)) rest,
      ap suc size,
    )

-- `mk_ascdate` ends with the TOTDATE dates, none of which reads behind the table `months`.
pub mk_ascdate-length : (ts : List Text) × (mk_ascdate ≡ some ts) × (length ts ≡ totdate)
unfolding mk_ascdate
mk_ascdate-length = mk_ascdate_from-length totdate 0
