-- ===== src/Build/Orders.antt =====
-- `mk_order` and its lineorders.
pub mod Mortality
pub mod Lines
pub mod Whole
use Prim.Native.Nat.{max, min}
use structor.Common.{
  ℕ, zero, suc, ◌+◌, ◌-◌, ◌*◌, ◌/◌, ◌%◌, List, [], ◌∷◌, map, length, leb, Bool, true, false,
  get_elem?, ◌==◌, if◌then◌else◌, Option, none, some,
}
use structor.Text.{Text}
use structor.Dist.{Gen, ◌>>=◌, ret, lift, random, pick_str}
use structor.Bcd.{Words}
use structor.Calendar.{startdate, totdate}
use structor.Build.Config.{Config}
use structor.Build.Fields.{rpb_routine}
use structor.Build.Keys.{mk_sparse, update_seq}

-- `lineorder_t`
pub record LineOrder : Type 0 where
  pub okey : Words
  pub linenumber : ℕ
  pub custkey : ℕ
  pub partkey : ℕ
  pub suppkey : ℕ
  pub orderdate : Text
  pub opriority : Text
  pub ship_priority : ℕ
  pub quantity : ℕ
  pub extended_price : ℕ
  pub order_totalprice : ℕ
  pub discount : ℕ
  pub revenue : ℕ
  pub supp_cost : ℕ
  pub tax : ℕ
  pub commit_date : Text
  pub shipmode : Text

-- `order_t`; `clerk` is not set.
pub record Order : Type 0 where
  pub okey : Words
  pub custkey : ℕ
  pub totalprice : ℕ
  pub odate : Text
  pub opriority : Text
  pub spriority : ℕ
  pub lines : ℕ
  pub lineorders : List LineOrder

abbrev pub cust_mortality : ℕ
cust_mortality = 3

-- `while (custkey % CUST_MORTALITY == 0)`, which goes one up at most to the last key, then one down,
-- in turn; `up` is the sign of delta. It is on fuel, and none when that is used up.
unfoldable pub living_customer : ℕ → ℕ → Bool → ℕ → Option ℕ
living_customer zero ckey_max up custkey = none
living_customer (suc fuel) ckey_max up custkey =
    let moved = min (if up then custkey + 1 else custkey - 1) ckey_max in
    let rest = living_customer fuel ckey_max (if up then false else true) moved in
    if custkey % cust_mortality == 0 then rest else some custkey

-- The room of `opriority` and of `shipmode`, without the zero byte.
abbrev pub maxagg_len : ℕ
maxagg_len = 10

abbrev pub o_ship_mode_len : ℕ
o_ship_mode_len = 10

-- A text that a field of the row takes; none where the copy runs over its end.
abbrev pub fitting : ℕ → Text → Option Text
fitting room t = if leb (length t) room then some t else none

-- What a lineorder takes over from its order, besides its line number.
pub record Head : Type 0 where
  pub okey : Words
  pub custkey : ℕ
  pub odate : Text
  pub opriority : Text
  pub tmp_date : ℕ

abbrev pub pennies : ℕ
pennies = 100

-- The body of the first loop over the lines; `lcnt` counts from 0.
unfoldable pub mk_line : Config → List Text → Head → ℕ → Gen LineOrder
mk_line cfg asc_date head lcnt = do
  partkey ← random 1 cfg.l_pkey_max 19
  suppkey ← random 1 (cfg.supp_base * cfg.scale) 20
  quantity ← random 1 50 14
  discount ← random 0 10 15
  tax ← random 0 8 16
  c_date ← random 30 90 22
  commit_date ← lift (get_elem? asc_date (c_date + head.tmp_date - startdate))
  mode ← pick_str cfg.l_smode_set 18
  shipmode ← lift (fitting o_ship_mode_len mode.1)
  ret (record {
    okey = head.okey;
    linenumber = lcnt + 1;
    custkey = head.custkey;
    partkey = partkey;
    suppkey = suppkey;
    orderdate = head.odate;
    opriority = head.opriority;
    ship_priority = 0;
    quantity = quantity;
    extended_price = rpb_routine partkey * quantity;
    order_totalprice = 0;
    discount = discount;
    revenue = rpb_routine partkey * quantity * (100 - discount) / pennies;
    supp_cost = 6 * rpb_routine partkey / 10;
    tax = tax;
    commit_date = commit_date;
    shipmode = shipmode;
  })

unfoldable pub mk_lines : ℕ → Config → List Text → Head → ℕ → Gen (List LineOrder)
mk_lines zero cfg asc_date head lcnt = ret []
mk_lines (suc n) cfg asc_date head lcnt = do
  l ← mk_line cfg asc_date head lcnt
  ls ← mk_lines n cfg asc_date head (lcnt + 1)
  ret (l ∷ ls)

-- What a line adds to the price of its order, with tax.
abbrev pub line_total : LineOrder → ℕ
line_total l = l.extended_price * (100 - l.discount) / pennies * (100 + l.tax) / pennies

abbrev pub total : List LineOrder → ℕ
total [] = 0
total (l ∷ ls) = line_total l + total ls

-- The second loop over the lines.
abbrev pub priced : ℕ → LineOrder → LineOrder
priced totalprice l = record l { order_totalprice = totalprice }

-- O_ODATE_MAX
abbrev pub o_odate_max : ℕ
o_odate_max = startdate + totdate - (121 + 30) - 1

-- `mk_order`, with the dates that `mk_ascdate` made at the first call; these fit, and so do the prices in
-- their longs. It is none where it divides by zero or where a priority or a mode does not fit its field;
-- the members of o_oprio with more than ten characters, as 4-NOT SPECIFIED of dists.dss, do not.
unfoldable pub mk_order : Config → List Text → ℕ → ℕ → Gen Order
mk_order cfg asc_date index upd_num = do
  tmp_date ← random startdate o_odate_max 13
  odate ← lift (get_elem? asc_date (tmp_date - startdate))
  seq ← lift (update_seq cfg.refresh upd_num)
  drawn ← random 1 (cfg.cust_base * cfg.scale) 40
  custkey ← lift (living_customer 3 (cfg.cust_base * cfg.scale) true drawn)
  priority ← pick_str cfg.o_priority_set 38
  opriority ← lift (fitting maxagg_len priority.1)
  clk_num ← random 1 (max (cfg.scale * 1000) 1000) 11
  lines ← random 1 7 43
  ls ←
      mk_lines lines cfg asc_date
        (record {
          okey = mk_sparse cfg.scale index seq;
          custkey = custkey;
          odate = odate;
          opriority = opriority;
          tmp_date = tmp_date;
        })
        0
  ret (record {
    okey = mk_sparse cfg.scale index seq;
    custkey = custkey;
    totalprice = total ls;
    odate = odate;
    opriority = opriority;
    spriority = 0;
    lines = lines;
    lineorders = map (priced (total ls)) ls;
  })
