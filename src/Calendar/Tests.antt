-- ===== src/Calendar/Tests.antt =====
-- Dates, and the properties at concrete dates.
use structor.Common.{◌+◌, ℕ, some, ◌≡◌, refl}
use structor.Calendar.{time_fields, julian, leap, mk_time, month_of, unjulian, startdate, DssTime}
use structor.Calendar.Julian.{unjulian-julian, IsDate}

julian_leap_year : julian (92001 + 366) ≡ some 93001
unfolding julian structor.Calendar.julian_loop leap
julian_leap_year = refl

unjulian-julian_example :
    (d : ℕ) × (julian (startdate + 2556) ≡ some d) × IsDate d × (unjulian d ≡ 2556)
unjulian-julian_example = unjulian-julian 2556
