-- ===== src/Build/Dates/Flags.antt =====
-- The flags of `mk_date`.
use structor.Common.{
  and_left, and_right, ℕ, zero, suc, ◌+◌, ◌-◌, ◌*◌, ◌%◌, ◌<◌, ◌≤◌, Bool, true, false, ◌&&◌, ◌||◌,
  ◌==◌, if◌then◌else◌, Bool-cases, ==_iff, inl, inr, ◌⊎◌, get_or, get_elem?, Option, none, some,
  ◌≡◌, ◌↔◌, refl, ap, ◌∙◌, arith,
}
use structor.Text.{Text, codes}
use structor.Calendar.{leap, dcnt, leap_adj}
use structor.Calendar.Julian.{leap-le}
use structor.Dist.Noise.{get_elem?-some}
use structor.Build.Dates.{
  Tm, Date, days_in_a_month, days_in_a_month_l, weekday_names, month_names, is_last_day_in_month,
  date_of, mk_date, d_startdate,
}

-- The days of a month (from 0) by the table `months` of `mk_time`.
abbrev pub month_length : ℕ → ℕ → ℕ
month_length leap_day mon =
    dcnt (mon + 1) + leap_adj leap_day (mon + 1) - (dcnt mon + leap_adj leap_day mon)

unfoldable agrees : ℕ → ℕ → Bool
agrees l zero = true
agrees l (suc k) =
    agrees l k
    && get_or (if l == 0 then days_in_a_month else days_in_a_month_l) k 0 == month_length l k

common : agrees 0 12 ≡ true
unfolding agrees
common = refl

leap_year : agrees 1 12 ≡ true
unfolding agrees
leap_year = refl

agrees-at :
    (l n k : ℕ)
    → agrees l n ≡ true
    → k < n
    → get_or (if l == 0 then days_in_a_month else days_in_a_month_l) k 0 ≡ month_length l k
unfolding agrees
agrees-at l zero k h below = absurd (omega arith)
agrees-at l (suc n) k h below = elim (Bool-cases (k == n)) [
  | inl e ↦
      let last : k ≡ n = ground arith in
      let row = get_or (if l == 0 then days_in_a_month else days_in_a_month_l) n 0 in
      let same : (row == month_length l n) ≡ true =
        and_right (agrees l n) (row == month_length l n) h in
      rw last ((==_iff row (month_length l n)).0 same)
  | inr other ↦
      let row = get_or (if l == 0 then days_in_a_month else days_in_a_month_l) n 0 in
      agrees-at l n k (and_left (agrees l n) (row == month_length l n) h) (ground arith)
]

table-agrees :
    (l k : ℕ)
    → l ≤ 1
    → k < 12
    → get_or (if l == 0 then days_in_a_month else days_in_a_month_l) k 0 ≡ month_length l k
table-agrees zero k h below = agrees-at 0 12 k common below
table-agrees (suc zero) k h below = agrees-at 1 12 k leap_year below
table-agrees (suc (suc l)) k h below = absurd (omega arith)

flag_is_zero : (b : Bool) → ((if b then codes "0" else codes "1") ≡ codes "0") ↔ (b ≡ true)
flag_is_zero true = (λ h. refl, λ h. refl)
flag_is_zero false = (
  λ h. absurd (omega (arith, ap (λ (t : Text). get_or t 0 0) h)),
  λ h. absurd (ground (arith, h)),
)

-- The test for the days that are not weekdays.
week_end :
    (w : ℕ) → w < 7 → ((((w + 1) % 7 + 1 == 1 || (w + 1) % 7 + 1 == 7)) ≡ true) ↔ (w ≡ 5 ⊎ w ≡ 6)
week_end w h = ground arith

last_day :
    (year mon day : ℕ)
    → mon < 12
    → (is_last_day_in_month year (mon + 1) day ≡ true) ↔ (day ≡ month_length (leap year) mon)
unfolding is_last_day_in_month
last_day year mon day h =
    let index : mon + 1 - 1 ≡ mon = omega arith in
    rw index (
      rw (table-agrees (leap year) mon (leap-le year) h)
        (==_iff day (month_length (leap year) mon)))

trans_iff {ℓ κ μ} : {A : Type ℓ} {B : Type κ} {C : Type μ} → A ↔ B → B ↔ C → A ↔ C
trans_iff (f, f') (g, g') = (λ a. g (f a), λ c. f' (g' c))

mk_date-date_of :
    (localtime : ℕ → Tm) (index : ℕ) (weekday month : Text)
    → get_elem? weekday_names
        (((localtime (d_startdate + (index - 1) * 60 * 60 * 24)).tm_wday + 1) % 7)
      ≡ some weekday
    → get_elem? month_names (localtime (d_startdate + (index - 1) * 60 * 60 * 24)).tm_mon
      ≡ some month
    → mk_date localtime index
      ≡ some (date_of (localtime (d_startdate + (index - 1) * 60 * 60 * 24)) weekday month)
unfolding mk_date
mk_date-date_of localtime index weekday month named month_named =
    let t = localtime (d_startdate + (index - 1) * 60 * 60 * 24) in
    let second = λ (o : Option Text) (name : Text). elim o as (λ x. Option Date) [
      | none ↦ none
      | some m ↦ some (date_of t name m)
    ] in
    ap
      (λ (o : Option Text). elim o as (λ x. Option Date) [
        | none ↦ none
        | some name ↦ second (get_elem? month_names t.tm_mon) name
      ])
      named
    ∙ ap (λ (o : Option Text). second o weekday) month_named

pub mk_date-flags :
    (localtime : ℕ → Tm) (index : ℕ)
    → (localtime (d_startdate + (index - 1) * 60 * 60 * 24)).tm_wday < 7
    → (localtime (d_startdate + (index - 1) * 60 * 60 * 24)).tm_mon < 12
    → (d : Date) × (t : Tm) × (t ≡ localtime (d_startdate + (index - 1) * 60 * 60 * 24))
      × (mk_date localtime index ≡ some d)
      × ((d.weekdayfl ≡ codes "0") ↔ (t.tm_wday ≡ 5 ⊎ t.tm_wday ≡ 6))
      × ((d.lastdayinmonthfl ≡ codes "0")
          ↔ (t.tm_mday ≡ month_length (leap (t.tm_year + 1900)) t.tm_mon))
unfolding date_of
mk_date-flags localtime index wday mon =
    let t = localtime (d_startdate + (index - 1) * 60 * 60 * 24) in
    let (weekday, named) = get_elem?-some weekday_names ((t.tm_wday + 1) % 7) (omega arith) in
    let (month, month_named) = get_elem?-some month_names t.tm_mon mon in
    (
      date_of t weekday month,
      t,
      refl,
      mk_date-date_of localtime index weekday month named month_named,
      trans_iff (flag_is_zero _) (week_end t.tm_wday wday),
      trans_iff (flag_is_zero _) (last_day (t.tm_year + 1900) t.tm_mon t.tm_mday mon),
    )
