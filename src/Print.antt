-- ===== src/Print.antt =====
-- print.c: `dbg_print` and the functions `pr_*` of the star schema benchmark, as the text that they
-- write, with the macros PR_STR, PR_VSTR, PR_INT and PR_HUGE of dss.h.
pub mod Split
pub mod Decimal
pub mod Read
pub mod Loader
pub mod Width
mod Tests
use structor.Common.{
  ℕ, zero, suc, ◌-◌, ◌/◌, ◌%◌, List, [], ◌∷◌, ◌++◌, map, length, ℤ, pos, negsuc, Bool, true, false,
  ◌==◌, if◌then◌else◌,
}
use structor.Text.{Text, dec, dec_pad}
use structor.Bcd.{Words}
use structor.Build.Parties.{Customer, Supplier}
use structor.Build.Parts.{Part}
use structor.Build.Orders.{Order, LineOrder}
use structor.Build.Dates.{Date}
use structor.Table.{Row, order_row, supplier_row, customer_row, part_row, date_row}

-- The data of a call of `dbg_print`, by its format; a string comes with its width.
pub data Field : Type 0 where
  dt_str : Text → ℕ → Field
  dt_int dt_key dt_chr : ℕ → Field
  dt_huge : Words → Field
  dt_money : ℤ → Field

-- SEPARATOR
abbrev pub separator : ℕ
separator = b'|'

abbrev pub newline : ℕ
newline = 10

abbrev pub spaces : ℕ → Text
spaces zero = []
spaces (suc n) = b' ' ∷ spaces n

-- `%<width>s` and `%-<width>s`
abbrev pub pad_left : ℕ → Text → Text
pad_left width s = spaces (width - length s) ++ s

abbrev pub pad_right : ℕ → Text → Text
pad_right width s = s ++ spaces (width - length s)

-- `%ld`, or `%<width>ld` if the output is columnar.
abbrev pub long_text : Bool → ℕ → ℕ → Text
long_text columnar width n = if columnar then pad_left width (dec n) else dec n

abbrev pub money_text : Bool → ℕ → Text
money_text columnar cents = long_text columnar 12 (cents / 100) ++ (b'.' ∷ dec_pad 2 (cents % 100))

-- The switch of `dbg_print` on the format.
unfoldable pub field_text : Bool → Field → Text
field_text columnar (dt_str s len) = if columnar then pad_right len s else s
field_text columnar (dt_int n) = long_text columnar 12 n
field_text columnar (dt_huge w) =
    if w.high == 0
    then long_text columnar 12 w.low
    else long_text columnar 5 w.high ++ dec_pad 7 w.low
field_text columnar (dt_key n) = dec n
field_text columnar (dt_money (pos n)) = money_text columnar n
field_text columnar (dt_money (negsuc n)) = b'-' ∷ money_text columnar (suc n)
field_text columnar (dt_chr c) = if columnar then c ∷ b' ' ∷ [] else c ∷ []

-- `dbg_print`; `no_sep` is a `sep` of -1. EOL_HANDLING is not defined, so the last field has a
-- separator too.
unfoldable pub dbg_print : Bool → Field → Bool → Text
dbg_print true f no_sep = field_text true f
dbg_print false f true = field_text false f
dbg_print false f false = field_text false f ++ (separator ∷ [])

unfoldable pub pr_fields : Bool → List Field → Text
pr_fields columnar [] = []
pr_fields columnar (f ∷ fs) = dbg_print columnar f false ++ pr_fields columnar fs

-- A record: its fields, and PR_END.
unfoldable pub pr_record : Bool → List Field → Text
pr_record columnar fs = pr_fields columnar fs ++ (newline ∷ [])

-- The columns of `pr_cust`, with the widths of shared.h; 24 is C_ADDR_LEN * V_STR_HGH.
abbrev pub cust_fields : Customer → List Field
cust_fields c =
    dt_int c.custkey
    ∷ dt_str c.name 25
    ∷ dt_str c.address 24
    ∷ dt_str c.city 10
    ∷ dt_str c.nation_name 15
    ∷ dt_str c.region_name 12
    ∷ dt_str c.phone 15
    ∷ dt_str c.mktsegment 10
    ∷ []

unfoldable pub pr_cust : Bool → Customer → Text
pr_cust columnar c = pr_record columnar (cust_fields c)

abbrev pub supp_fields : Supplier → List Field
supp_fields s =
    dt_int s.suppkey
    ∷ dt_str s.name 25
    ∷ dt_str s.address 24
    ∷ dt_str s.city 10
    ∷ dt_str s.nation_name 15
    ∷ dt_str s.region_name 12
    ∷ dt_str s.phone 15
    ∷ []

unfoldable pub pr_supp : Bool → Supplier → Text
pr_supp columnar s = pr_record columnar (supp_fields s)

abbrev pub part_fields : Part → List Field
part_fields p =
    dt_int p.partkey
    ∷ dt_str p.name 22
    ∷ dt_str p.mfgr 6
    ∷ dt_str p.category 7
    ∷ dt_str p.brand 10
    ∷ dt_str p.color 3
    ∷ dt_str p.type 12
    ∷ dt_int p.size
    ∷ dt_str p.container 10
    ∷ []

unfoldable pub pr_part : Bool → Part → Text
pr_part columnar p = pr_record columnar (part_fields p)

abbrev pub line_fields : LineOrder → List Field
line_fields l =
    dt_huge l.okey
    ∷ dt_int l.linenumber
    ∷ dt_int l.custkey
    ∷ dt_int l.partkey
    ∷ dt_int l.suppkey
    ∷ dt_str l.orderdate 13
    ∷ dt_str l.opriority 8
    ∷ dt_int l.ship_priority
    ∷ dt_int l.quantity
    ∷ dt_int l.extended_price
    ∷ dt_int l.order_totalprice
    ∷ dt_int l.discount
    ∷ dt_int l.revenue
    ∷ dt_int l.supp_cost
    ∷ dt_int l.tax
    ∷ dt_str l.commit_date 13
    ∷ dt_str l.shipmode 10
    ∷ []

-- The loop of `pr_line`, over the lines that `mk_order` makes, `lines` of them.
unfoldable pub pr_lines : Bool → List LineOrder → Text
pr_lines columnar [] = []
pr_lines columnar (l ∷ ls) = pr_record columnar (line_fields l) ++ pr_lines columnar ls

unfoldable pub pr_line : Bool → Order → Text
pr_line columnar o = pr_lines columnar o.lineorders

abbrev pub date_fields : Date → List Field
date_fields d =
    dt_int d.datekey
    ∷ dt_str d.date 18
    ∷ dt_str d.dayofweek 9
    ∷ dt_str d.month 9
    ∷ dt_int d.year
    ∷ dt_int d.yearmonthnum
    ∷ dt_str d.yearmonth 7
    ∷ dt_int d.daynuminweek
    ∷ dt_int d.daynuminmonth
    ∷ dt_int d.daynuminyear
    ∷ dt_int d.monthnuminyear
    ∷ dt_int d.weeknuminyear
    ∷ dt_str d.sellingseason 12
    ∷ dt_str d.lastdayinweekfl 2
    ∷ dt_str d.lastdayinmonthfl 2
    ∷ dt_str d.holidayfl 2
    ∷ dt_str d.weekdayfl 2
    ∷ []

unfoldable pub pr_date : Bool → Date → Text
pr_date columnar d = pr_record columnar (date_fields d)

-- The loader of a table, `tdefs[tnum].loader[0]`.
unfoldable pub loader : Bool → Row → Text
loader columnar (order_row o) = pr_line columnar o
loader columnar (supplier_row s) = pr_supp columnar s
loader columnar (customer_row c) = pr_cust columnar c
loader columnar (part_row p) = pr_part columnar p
loader columnar (date_row d) = pr_date columnar d
