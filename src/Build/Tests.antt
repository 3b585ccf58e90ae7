-- ===== src/Build/Tests.antt =====
-- The rows on a small configuration, and the properties at concrete inputs.
use structor.Common.{ℕ, ◌+◌, ◌<◌, ◌≤◌, ◌%◌, [], ◌∷◌, some, true, inl, ◌≡◌, refl, arith}
use structor.Seeds.{Streams}
use structor.Seeds.Live.{Live}
use structor.Seeds.Start.{initial_streams, initial_streams-Live}
use structor.Text.{Text, codes}
use structor.Dist.{Distribution}
use structor.Dist.Pick.{IsDistribution}
use structor.Calendar.Dates.{mk_ascdate-length}
use structor.Build.Config.{Config}
use structor.Build.Keys.{ez_sparse, hd_sparse}
use structor.Build.Keys.Sparse.{mk_sparse-injective}
use structor.Build.Orders.{living_customer, cust_mortality, mk_order, Order}
use structor.Build.Orders.Mortality.{living_customer-ends}
use structor.Build.Orders.Whole.{IsConfig, IsOrder, mk_order-IsOrder}
use structor.Build.Dates.{Tm, datekey_of}

abbrev one_of : Text → Distribution
one_of t = record { count = 1; max = 1; list = record { weight = 1; text = t } ∷ [] }

abbrev small : Config
small = record {
  scale = 1;
  refresh = 1;
  cust_base = 30000;
  supp_base = 2000;
  l_pkey_max = 200000;
  nations = one_of (codes "PERU");
  regions = one_of (codes "AMERICA");
  c_mseg_set = one_of (codes "MACHINERY");
  colors = one_of (codes "red");
  p_types_set = one_of (codes "TIN");
  p_cntr_set = one_of (codes "BOX");
  o_priority_set = one_of (codes "1-URGENT");
  l_smode_set = one_of (codes "RAIL");
}

one_of-IsDistribution : (t : Text) → IsDistribution (one_of t)
one_of-IsDistribution t = record {
  count_positive = omega arith;
  count_inside = omega arith;
  total_positive = omega arith;
  total_small = omega arith;
}

small-IsConfig : IsConfig small
small-IsConfig = record {
  parts = (omega arith, omega arith);
  suppliers = (omega arith, omega arith);
  customers = (omega arith, omega arith);
  priorities = one_of-IsDistribution (codes "1-URGENT");
  modes = one_of-IsDistribution (codes "RAIL");
  short_priorities = λ i h. let e : i ≡ 0 = omega arith in rw e (omega arith);
  short_modes = λ i h. let e : i ≡ 0 = omega arith in rw e (omega arith);
}

mk_order-IsOrder_example :
    (o : Order) × (st' : Streams) × (mk_order small mk_ascdate-length.0 9 0 initial_streams
      ≡ some (o, st'))
    × IsOrder small 9 0 o
    × Live st'
mk_order-IsOrder_example =
    mk_order-IsOrder small mk_ascdate-length.0 9 0 initial_streams small-IsConfig (inl refl)
      (omega arith) (omega arith) mk_ascdate-length.1 initial_streams-Live

living_customer-ends_example :
    (key : ℕ) × (living_customer 3 30000 true 30000 ≡ some key)
    × (1 ≤ key)
    × (key ≤ 30000)
    × (0 < key % cust_mortality)
    × (key ≤ 30000 + 1)
    × (30000 ≤ key + 1)
living_customer-ends_example = living_customer-ends 30000 30000 (omega arith) (omega arith)

abbrev nine : ℕ
nine = 9

abbrev one : ℕ
one = 1

mk_sparse-injective_example : (nine ≡ nine) × (one ≡ one)
mk_sparse-injective_example =
    mk_sparse-injective 10 nine nine one one (omega arith) (omega arith) (omega arith) refl

-- Row 9 has the last bits 001, and its packed digits 9 end in 001; row 10 has 010, and its digits 000.
keys_differ : ((ez_sparse 10 0).low ≡ 34) × ((hd_sparse 10 0).low ≡ 32)
unfolding ez_sparse hd_sparse structor.Bcd.bin_bcd2 structor.Bcd.bcd2_bin structor.Bcd.bcd2_add
    structor.Bcd.add_loop structor.Bcd.bcd2_mul structor.Bcd.mul_loop structor.Bcd.mul_row
    structor.Bcd.bcd2_div structor.Bcd.div_loop structor.Bcd.get_digit structor.Bcd.set_digit
keys_differ = (refl, refl)

abbrev may : ℕ
may = 5

early_key : datekey_of one may nine ≤ datekey_of nine one one
unfolding datekey_of
early_key = omega arith

-- Friday, 31 January 1992.
abbrev friday : ℕ → Tm
friday n = record { tm_mday = 31; tm_mon = 0; tm_year = 92; tm_wday = 5; tm_yday = 30 }
