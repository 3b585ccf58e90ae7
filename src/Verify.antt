-- ===== src/Verify.antt =====
-- The functions `vrf_*` of print.c, which `gen_tbl` calls for a loader with -O v: they add the fields of
-- the rows to the totals of the tables, by the macros VRF_STR, VRF_INT and VRF_HUGE of dss.h.
pub mod Order
mod Tests
use structor.Common.{ℕ, ◌+◌, ◌%◌, ◌^◌, List, [], ◌∷◌, ◌++◌, ◌==◌, if◌then◌else◌}
use structor.Text.{Text}
use structor.Bcd.{Words}
use structor.Build.Parties.{Customer, Supplier}
use structor.Build.Parts.{Part}
use structor.Build.Orders.{LineOrder}
use structor.Build.Dates.{Date}
use structor.Table.{Row, order_row, supplier_row, customer_row, part_row, date_row}

-- A sum that a macro makes: the table whose total grows, and by how much.
pub record Amount : Type 0 where
  pub table : ℕ
  pub value : ℕ

-- VRF_STR, of characters that are not negative.
unfoldable pub vrf_str : ℕ → Text → List Amount
vrf_str t [] = []
vrf_str t (c ∷ d) = record { table = t; value = c } ∷ vrf_str t d

abbrev pub vrf_int : ℕ → ℕ → List Amount
vrf_int t d = record { table = t; value = d } ∷ []

abbrev pub vrf_huge : ℕ → Words → List Amount
vrf_huge t d = record { table = t; value = d.low + d.high } ∷ []

unfoldable pub vrf_cust : Customer → List Amount
vrf_cust c =
    vrf_int 3 c.custkey
    ++ (vrf_str 3 c.name
        ++ (vrf_str 3 c.address
            ++ (vrf_str 3 c.city
                ++ (vrf_str 3 c.nation_name
                    ++ (vrf_str 3 c.region_name
                        ++ (vrf_str 3 c.phone ++ vrf_str 3 c.mktsegment))))))

unfoldable pub vrf_lineorder : LineOrder → List Amount
vrf_lineorder l =
    vrf_huge 5 l.okey
    ++ (vrf_int 5 l.linenumber
        ++ (vrf_int 5 l.custkey
            ++ (vrf_int 5 l.partkey
                ++ (vrf_int 5 l.suppkey
                    ++ (vrf_str 5 l.orderdate
                        ++ (vrf_str 5 l.opriority
                            ++ (vrf_int 5 l.ship_priority
                                ++ (vrf_int 5 l.quantity
                                    ++ (vrf_int 5 l.extended_price
                                        ++ (vrf_int 5 l.order_totalprice
                                            ++ (vrf_int 5 l.discount
                                                ++ (vrf_int 5 l.revenue
                                                    ++ (vrf_int 5 l.supp_cost
                                                        ++ (vrf_int 5 l.tax
                                                            ++ (vrf_str 5 l.commit_date
                                                            ++ vrf_str 5 l.shipmode)))))))))))))))

-- The loop of `vrf_line`.
unfoldable pub vrf_line : List LineOrder → List Amount
vrf_line [] = []
vrf_line (l ∷ ls) = vrf_lineorder l ++ vrf_line ls

unfoldable pub vrf_part : Part → List Amount
vrf_part p =
    vrf_int 0 p.partkey
    ++ (vrf_str 0 p.name
        ++ (vrf_str 0 p.mfgr
            ++ (vrf_str 0 p.brand
                ++ (vrf_str 0 p.type
                    ++ (vrf_int 0 p.size ++ (vrf_str 0 p.container ++ vrf_str 0 p.category))))))

-- Most fields go to the total of the customers. The keys of nation and region are never set.
unfoldable pub vrf_supp : ℕ → ℕ → Supplier → List Amount
vrf_supp nation_key region_key s =
    vrf_int 2 s.suppkey
    ++ (vrf_str 2 s.name
        ++ (vrf_str 3 s.address
            ++ (vrf_int 3 nation_key
                ++ (vrf_str 3 s.nation_name
                    ++ (vrf_int 3 region_key ++ (vrf_str 3 s.region_name ++ vrf_str 3 s.phone))))))

unfoldable pub vrf_date : Date → List Amount
vrf_date d =
    vrf_int 4 d.datekey
    ++ (vrf_str 4 d.date
        ++ (vrf_str 4 d.dayofweek
            ++ (vrf_str 4 d.month
                ++ (vrf_int 4 d.year
                    ++ (vrf_int 4 d.yearmonthnum
                        ++ (vrf_str 4 d.yearmonth
                            ++ (vrf_int 4 d.daynuminweek
                                ++ (vrf_int 4 d.daynuminmonth
                                    ++ (vrf_int 4 d.daynuminyear
                                        ++ (vrf_int 4 d.monthnuminyear
                                            ++ (vrf_int 4 d.weeknuminyear
                                                ++ (vrf_str 4 d.sellingseason
                                                    ++ (vrf_str 4 d.lastdayinweekfl
                                                        ++ (vrf_str 4 d.lastdayinmonthfl
                                                            ++ vrf_str 4 d.weekdayfl))))))))))))))

-- The verifier of a table, `tdefs[tnum].verify`; the keys are those that a supplier's memory holds.
unfoldable pub verify : ℕ → ℕ → Row → List Amount
verify nation_key region_key (order_row o) = vrf_line o.lineorders
verify nation_key region_key (supplier_row s) = vrf_supp nation_key region_key s
verify nation_key region_key (customer_row c) = vrf_cust c
verify nation_key region_key (part_row p) = vrf_part p
verify nation_key region_key (date_row d) = vrf_date d

-- `tdefs[t].vtotal` for every t, an unsigned long.
abbrev pub Totals : Type 0
Totals = ℕ → ℕ

-- `tdefs[t].vtotal += d`
abbrev pub add_total : Amount → Totals → Totals
add_total a totals t = if a.table == t then (totals t + a.value) % 2 ^ 64 else totals t

unfoldable pub add_totals : List Amount → Totals → Totals
add_totals [] totals = totals
add_totals (a ∷ more) totals = add_totals more (add_total a totals)

-- The calls of the verifier for some rows.
unfoldable pub verify_rows : ℕ → ℕ → List Row → Totals → Totals
verify_rows nation_key region_key [] totals = totals
verify_rows nation_key region_key (r ∷ rs) totals =
    verify_rows nation_key region_key rs (add_totals (verify nation_key region_key r) totals)
