-- ===== src/Build/Dates.antt =====
-- `mk_date` and the functions that it calls. `localtime` of the C library is a parameter.
pub mod Key
pub mod Flags
use structor.Common.{
  ℕ, zero, suc, ◌+◌, ◌-◌, ◌*◌, ◌/◌, ◌%◌, List, [], ◌∷◌, ◌++◌, Bool, true, false, ◌&&◌, ◌||◌, ltb,
  leb, ◌==◌, if◌then◌else◌, get_elem?, get_or, Option, none, some,
}
use structor.Text.{Text, codes, dec}
use structor.Calendar.{leap}

-- The fields of `struct tm` that are read.
pub record Tm : Type 0 where
  pub tm_mday : ℕ
  pub tm_mon : ℕ
  pub tm_year : ℕ
  pub tm_wday : ℕ
  pub tm_yday : ℕ

-- `date_t`; `slen` is the length of the season. The flags are texts of one character.
pub record Date : Type 0 where
  pub datekey : ℕ
  pub date : Text
  pub dayofweek : Text
  pub month : Text
  pub year : ℕ
  pub yearmonthnum : ℕ
  pub yearmonth : Text
  pub daynuminweek : ℕ
  pub daynuminmonth : ℕ
  pub daynuminyear : ℕ
  pub monthnuminyear : ℕ
  pub weeknuminyear : ℕ
  pub sellingseason : Text
  pub lastdayinweekfl : Text
  pub lastdayinmonthfl : Text
  pub holidayfl : Text
  pub weekdayfl : Text

abbrev pub days_in_a_month : List ℕ
days_in_a_month = 31 ∷ 28 ∷ 31 ∷ 30 ∷ 31 ∷ 30 ∷ 31 ∷ 31 ∷ 30 ∷ 31 ∷ 30 ∷ 31 ∷ []

abbrev pub days_in_a_month_l : List ℕ
days_in_a_month_l = 31 ∷ 29 ∷ 31 ∷ 30 ∷ 31 ∷ 30 ∷ 31 ∷ 31 ∷ 30 ∷ 31 ∷ 30 ∷ 31 ∷ []

-- `season`
pub record Season : Type 0 where
  pub name : Text
  pub start_day : ℕ
  pub start_month : ℕ
  pub end_day : ℕ
  pub end_month : ℕ

abbrev season : Text → ℕ → ℕ → ℕ → ℕ → Season
season n sd sm ed em = record {
  name = n;
  start_day = sd;
  start_month = sm;
  end_day = ed;
  end_month = em;
}

abbrev pub seasons : List Season
seasons =
    season (codes "Christmas") 1 11 31 12
    ∷ season (codes "Summer") 1 5 31 8
    ∷ season (codes "Winter") 1 1 31 3
    ∷ season (codes "Spring") 1 4 30 4
    ∷ season (codes "Fall") 1 9 31 10
    ∷ []

-- `holiday`, without its name, which nothing reads.
pub record Holiday : Type 0 where
  pub month : ℕ
  pub day : ℕ

abbrev holiday : ℕ → ℕ → Holiday
holiday m d = record { month = m; day = d }

abbrev pub holidays : List Holiday
holidays =
    holiday 12 24
    ∷ holiday 1 1
    ∷ holiday 2 20
    ∷ holiday 4 20
    ∷ holiday 5 20
    ∷ holiday 7 20
    ∷ holiday 8 20
    ∷ holiday 9 20
    ∷ holiday 10 20
    ∷ holiday 11 20
    ∷ []

abbrev pub month_names : List Text
month_names =
    codes "January"
    ∷ codes "February"
    ∷ codes "March"
    ∷ codes "April"
    ∷ codes "May"
    ∷ codes "June"
    ∷ codes "July"
    ∷ codes "Augest"
    ∷ codes "September"
    ∷ codes "Octorber"
    ∷ codes "November"
    ∷ codes "December"
    ∷ []

abbrev pub weekday_names : List Text
weekday_names =
    codes "Sunday"
    ∷ codes "Monday"
    ∷ codes "Tuesday"
    ∷ codes "Wednesday"
    ∷ codes "Thursday"
    ∷ codes "Friday"
    ∷ codes "Saturday"
    ∷ []

-- `is_last_day_in_month`, for a month from 1 to 12.
unfoldable pub is_last_day_in_month : ℕ → ℕ → ℕ → Bool
is_last_day_in_month year month day =
    day == get_or (if leap year == 0 then days_in_a_month else days_in_a_month_l) (month - 1) 0

abbrev pub in_season : ℕ → ℕ → Season → Bool
in_season month day s =
    leb s.start_month month && leb month s.end_month && leb s.start_day day && leb day s.end_day

abbrev pub season_in : List Season → ℕ → ℕ → Text
season_in [] month day = []
season_in (s ∷ ss) month day = if in_season month day s then s.name else season_in ss month day

-- `gen_season`: the first season of the table that the day is in.
unfoldable pub gen_season : ℕ → ℕ → Text
gen_season month day = season_in seasons month day

abbrev pub holiday_in : List Holiday → ℕ → ℕ → Text
holiday_in [] month day = codes "0"
holiday_in (h ∷ hs) month day =
    if h.month == month && h.day == day then codes "1" else holiday_in hs month day

-- `gen_holiday_fl`
unfoldable pub gen_holiday_fl : ℕ → ℕ → Text
gen_holiday_fl month day = holiday_in holidays month day

-- `%.3s`
abbrev pub first : ℕ → Text → Text
first zero s = []
first (suc n) [] = []
first (suc n) (c ∷ s) = c ∷ first n s

unfoldable pub datekey_of : ℕ → ℕ → ℕ → ℕ
datekey_of year month day = year * 10000 + month * 100 + day

abbrev pub d_startdate : ℕ
d_startdate = 694245661

-- The fields, with the names looked up.
unfoldable pub date_of : Tm → Text → Text → Date
date_of t weekday month =
    let week = (t.tm_wday + 1) % 7 + 1 in
    let mon = t.tm_mon + 1 in
    let year = t.tm_year + 1900 in
    record {
      datekey = datekey_of year mon t.tm_mday;
      date = month ++ (codes " " ++ (dec t.tm_mday ++ (codes ", " ++ dec year)));
      dayofweek = weekday;
      month = month;
      year = year;
      yearmonthnum = year * 100 + mon;
      yearmonth = first 3 month ++ dec year;
      daynuminweek = week;
      daynuminmonth = t.tm_mday;
      daynuminyear = t.tm_yday + 1;
      monthnuminyear = mon;
      weeknuminyear = (t.tm_yday + 1) / 7 + 1;
      sellingseason = gen_season mon t.tm_mday;
      lastdayinweekfl = if week == 7 then codes "1" else codes "0";
      lastdayinmonthfl = if is_last_day_in_month year mon t.tm_mday then codes "0" else codes "1";
      holidayfl = gen_holiday_fl mon t.tm_mday;
      weekdayfl = if week == 1 || week == 7 then codes "0" else codes "1";
    }

-- `mk_date` for an index from 1 on; none if a name is read behind the end of its table.
unfoldable pub mk_date : (ℕ → Tm) → ℕ → Option Date
mk_date localtime index =
    let t = localtime (d_startdate + (index - 1) * 60 * 60 * 24) in
    elim (get_elem? weekday_names ((t.tm_wday + 1) % 7)) [
      | none ↦ none
      | some weekday ↦ elim (get_elem? month_names t.tm_mon) [
        | none ↦ none
        | some month ↦ some (date_of t weekday month)
      ]
    ]
