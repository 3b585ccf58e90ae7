-- ===== src/Build/Dates/Key.antt =====
-- Date keys.
use structor.Common.{ℕ, ◌<◌, ◌≤◌, ◌≡◌, arith}
use structor.Build.Dates.{datekey_of}

-- With months and days below 100, keys are ordered as their dates are: a key that is not greater has
-- a year that is not greater, in the same year a month that is not, and in the same month a day that is not.
pub datekey_of-le :
    (y m d y' m' d' : ℕ)
    → m < 100
    → d < 100
    → m' < 100
    → d' < 100
    → datekey_of y m d ≤ datekey_of y' m' d'
    → (y ≤ y') × (y ≡ y' → m ≤ m') × (y ≡ y' → m ≡ m' → d ≤ d')
unfolding datekey_of
datekey_of-le y m d y' m' d' hm hd hm' hd' le =
    (omega arith, λ same. omega arith, λ same same_month. omega arith)
