-- ===== src/Calendar.antt =====
-- The julian dates of bm_utils.c, which count days as yyddd from 92001, and `mk_time` of build.c.
pub mod Julian
pub mod Months
pub mod Dates
mod Tests
use structor.Common.{
  ℕ, zero, suc, ◌+◌, ◌-◌, ◌*◌, ◌/◌, ◌%◌, List, [], ◌∷◌, ◌++◌, Bool, true, false, ◌&&◌, ltb, leb,
  ◌==◌, if◌then◌else◌, Option, none, some, get_or,
}
use structor.Text.{Text, codes, dec_pad}

abbrev pub startdate : ℕ
startdate = 92001

abbrev pub totdate : ℕ
totdate = 2557

-- `LEAP(y)`
unfoldable pub leap : ℕ → ℕ
leap y = if y % 4 == 0 then (if y % 100 == 0 then 0 else 1) else 0

-- The loop of `julian`, for a date that is not before STARTDATE. Every round but the last takes at
-- least one from the offset, so that one more round than the offset is enough.
unfoldable pub julian_loop : ℕ → ℕ → ℕ → Option ℕ
julian_loop zero offset result = none
julian_loop (suc fuel) offset result =
    let yr = result / 1000 in
    let yend = yr * 1000 + 365 + leap yr in
    let rest = julian_loop fuel (offset - (yend - result + 1)) (result + 1000) in
    if ltb yend (result + offset) then rest else some (result + offset)

unfoldable pub julian : ℕ → Option ℕ
julian date = julian_loop (date - startdate + 1) (date - startdate) startdate

-- The days of n years from year i on.
pub year_days : ℕ → ℕ → ℕ
year_days zero i = 0
year_days (suc n) i = 365 + leap i + year_days n (i + 1)

-- `unjulian`, for a date whose day of the year is not 0.
unfoldable pub unjulian : ℕ → ℕ
unjulian date = year_days (date / 1000 - startdate / 1000) (startdate / 1000) + (date % 1000 - 1)

-- The column `dcnt` of the array `months`: the days up to the end of a month.
abbrev pub month_ends : List ℕ
month_ends = 0 ∷ 31 ∷ 59 ∷ 90 ∷ 120 ∷ 151 ∷ 181 ∷ 212 ∷ 243 ∷ 273 ∷ 304 ∷ 334 ∷ 365 ∷ []

abbrev pub dcnt : ℕ → ℕ
dcnt m = get_or month_ends m 0

-- `LEAP_ADJ(yr, mnth)`, by the leap day of the year.
abbrev pub leap_adj : ℕ → ℕ → ℕ
leap_adj leap_day mnth = if leap_day == 1 && leb 2 mnth then 1 else 0

-- `while (d > months[m].dcnt + LEAP_ADJ(y, m)) m++`; the array has 13 entries, so that 13 rounds
-- are all that stay inside it.
unfoldable pub month_from : ℕ → ℕ → ℕ → ℕ → Option ℕ
month_from zero leap_day d m = none
month_from (suc fuel) leap_day d m =
    let rest = month_from fuel leap_day d (m + 1) in
    if ltb (dcnt m + leap_adj leap_day m) d then rest else some m

unfoldable pub month_of : ℕ → ℕ → Option ℕ
unfolding month_from
month_of leap_day d = month_from 13 leap_day d 0

-- `dss_time_t`
pub record DssTime : Type 0 where
  pub timekey : ℕ
  pub alpha : Text
  pub year : ℕ
  pub month : ℕ
  pub week : ℕ
  pub day : ℕ

-- `PR_DATE` of the star schema.
unfoldable pub pr_date_text : ℕ → ℕ → ℕ → Text
pr_date_text yr mn dy = codes "19" ++ (dec_pad 2 yr ++ (dec_pad 2 mn ++ dec_pad 2 dy))

-- The fields of `mk_time` for year y, day d of the year and month m.
abbrev pub time_fields : ℕ → ℕ → ℕ → ℕ → DssTime
time_fields index y d m = record {
  timekey = index + 8035;
  alpha = pr_date_text y m (d - dcnt (m - 1) - (if leap y == 1 && ltb 2 m then 1 else 0));
  year = 1900 + y;
  month = m + 12 * y - 70 * 12;
  week = (d + 3 - 1) / 7 + 1;
  day = d - dcnt (m - 1) - leap_adj (leap y) (m - 1);
}

infixl 5 ◌>>=◌
abbrev pub ◌>>=◌ {ℓ κ} : {A : Type ℓ} {B : Type κ} → Option A → (A → Option B) → Option B
none >>= f = none
some a >>= f = f a

-- `mk_time`; an index counts from 1.
unfoldable pub mk_time : ℕ → Option DssTime
mk_time index = do
  date ← julian (index + startdate - 1)
  m ← month_of (leap (date / 1000)) (date % 1000)
  some (time_fields index (date / 1000) (date % 1000) m)

-- `mk_ascdate`: the texts of the dates 1 to n, in order.
unfoldable pub mk_ascdate_from : ℕ → ℕ → Option (List Text)
mk_ascdate_from zero i = some []
mk_ascdate_from (suc n) i = do
  t ← mk_time i
  rest ← mk_ascdate_from n (i + 1)
  some (t.alpha ∷ rest)

unfoldable pub mk_ascdate : Option (List Text)
mk_ascdate = mk_ascdate_from totdate 1
