-- ===== src/Calendar/Months.antt =====
-- The months of `mk_time` and of the table `months`.
use structor.Common.{
  and_left, and_right, ℕ, zero, suc, ◌+◌, ◌-◌, ◌≤◌, ◌<◌, Bool, true, false, ◌&&◌, ◌⊎◌, inl, inr,
  ltb, leb, Bool-cases, Option, none, some, ◌≡◌, refl, arith,
}
use structor.Calendar.{dcnt, leap_adj, month_of}

-- The month found for day d of a year is one of 1 to 12, and the day is behind the end of the month
-- before and not behind its own.
unfoldable holds_month : ℕ → ℕ → Option ℕ → Bool
holds_month leap_day d none = false
holds_month leap_day d (some m) =
    leb 1 m
    && leb m 12
    && ltb (dcnt (m - 1) + leap_adj leap_day (m - 1)) d
    && leb d (dcnt m + leap_adj leap_day m)

unfoldable all_days : ℕ → ℕ → Bool
all_days leap_day zero = true
all_days leap_day (suc n) =
    all_days leap_day n && holds_month leap_day (suc n) (month_of leap_day (suc n))

le-suc_cases : (d n : ℕ) → d ≤ suc n → (d ≤ n) ⊎ (d ≡ suc n)
le-suc_cases d n h = elim (Bool-cases (leb d n)) [
  | inl e ↦ inl (ground arith)
  | inr e ↦ inr (ground arith)
]

all_days-at :
    (leap_day n d : ℕ)
    → all_days leap_day n ≡ true
    → 1 ≤ d
    → d ≤ n
    → holds_month leap_day d (month_of leap_day d) ≡ true
unfolding all_days
all_days-at leap_day zero d h low high = absurd (omega arith)
all_days-at leap_day (suc n) d h low high = elim (le-suc_cases d n high) [
  | inl le ↦
      all_days-at leap_day n d
        (and_left (all_days leap_day n) (holds_month leap_day (suc n) (month_of leap_day (suc n)))
          h)
        low le
  | inr e ↦
      rw e (
        and_right (all_days leap_day n) (holds_month leap_day (suc n) (month_of leap_day (suc n)))
          h)
]

common : all_days 0 365 ≡ true
unfolding month_of all_days holds_month
common = refl

leap_year : all_days 1 366 ≡ true
unfolding month_of all_days holds_month
leap_year = refl

abbrev pub IsMonth : ℕ → ℕ → ℕ → Type 0
IsMonth leap_day d m =
    (1 ≤ m)
    × (m ≤ 12)
    × (dcnt (m - 1) + leap_adj leap_day (m - 1) < d)
    × (d ≤ dcnt m + leap_adj leap_day m)

holds_month→ :
    (leap_day d : ℕ) (o : Option ℕ)
    → holds_month leap_day d o ≡ true
    → (m : ℕ) × (o ≡ some m) × IsMonth leap_day d m
unfolding holds_month
holds_month→ leap_day d none h = absurd (ground (arith, h))
holds_month→ leap_day d (some m) h =
    (m, refl, (ground arith, ground arith, ground arith, ground arith))

-- For every day d of a year with or without a leap day, the loop of `mk_time` stops inside the table
-- `months`, at a month m from 1 to 12: d is behind the end of month m - 1 and not behind the end of
-- month m, both moved by the leap day.
pub month_of-IsMonth :
    (leap_day d : ℕ)
    → leap_day ≤ 1
    → 1 ≤ d
    → d ≤ 365 + leap_day
    → (m : ℕ) × (month_of leap_day d ≡ some m) × IsMonth leap_day d m
month_of-IsMonth zero d h low high =
    holds_month→ 0 d (month_of 0 d) (all_days-at 0 365 d common low (omega arith))
month_of-IsMonth (suc zero) d h low high =
    holds_month→ 1 d (month_of 1 d) (all_days-at 1 366 d leap_year low (omega arith))
month_of-IsMonth (suc (suc n)) d h low high = absurd (omega arith)
