-- ===== src/Table.antt =====
-- `gen_tbl` of driver.c: the rows of one table, with the segments of an update.
pub mod Segments
pub mod Rows
pub mod Runs
pub mod Agree
mod Tests
use structor.Common.{
  ℕ, zero, suc, ◌+◌, ◌-◌, ◌*◌, ◌/◌, ◌%◌, List, [], ◌∷◌, ℤ, negsuc, Bool, true, false, ◌&&◌, ltb,
  leb, ◌==◌, ◌||◌, pos, if◌then◌else◌, Option, none, some,
}
use structor.Seeds.{Streams, row_start, row_stop, no_table}
use structor.Text.{Text}
use structor.Dist.{Gen, ◌>>=◌, ret, lift}
use structor.Build.Config.{Config}
use structor.Build.Parties.{Customer, Supplier, mk_cust, mk_supp}
use structor.Build.Parts.{Part, mk_part}
use structor.Build.Orders.{Order, mk_order}
use structor.Build.Dates.{Tm, Date, mk_date}

-- What the loop hands to the loader or the verifier of its table.
pub data Row : Type 0 where
  order_row : Order → Row
  supplier_row : Supplier → Row
  customer_row : Customer → Row
  part_row : Part → Row
  date_row : Date → Row

-- The switches that `gen_tbl` reads, the dates of the orders, and `localtime`.
pub record Run : Type 0 where
  pub config : Config
  pub asc_date : List Text
  pub localtime : ℕ → Tm
  pub insert_segments : ℕ
  pub set_seeds : Bool

-- One call of a loader, which takes the update number; the verifier takes 0 for it.
pub record Call : Type 0 where
  pub row : Row
  pub upd_num : ℕ

-- The row counter of a segment, which is one more than `rows_this_segment`, and the update number.
pub record Segment : Type 0 where
  pub rows : ℕ
  pub upd_num : ℕ

-- The rows of a segment, and the rows that are left for the first ones.
abbrev pub rows_per_segment : ℕ → ℕ → ℕ
rows_per_segment count segments = count / segments

abbrev pub residual_rows : ℕ → ℕ → ℕ
residual_rows count segments = count - rows_per_segment count segments * segments

-- The segment of the next row.
unfoldable pub next_segment : ℕ → ℕ → Segment → Segment
next_segment per residual s =
    if (if ltb (s.upd_num / 10000) residual then ltb per s.rows else leb per s.rows)
    then record { rows = 1; upd_num = s.upd_num + 10000 }
    else record s { rows = s.rows + 1 }

-- `if (insert_segments && (upd_num > 0))`, in the case LINE.
abbrev pub order_segment : ℕ → ℕ → Segment → Segment
order_segment segments count s =
    if ltb 0 segments && ltb 0 s.upd_num
    then next_segment (rows_per_segment count segments) (residual_rows count segments) s
    else s

-- The switch on the table. ORDER and DATE are both 4, LINE is 5; no other table of the star schema
-- makes a row.
unfoldable pub make_row : Run → ℕ → ℕ → ℕ → Segment → Gen (Option Row × Segment)
make_row run tnum total i s =
    if tnum == 5
    then (do
      o ← mk_order run.config run.asc_date i (s.upd_num % 10000)
      ret (some (order_row o), order_segment run.insert_segments total s))
    else if tnum == 2
    then (do supp ← mk_supp run.config i; ret (some (supplier_row supp), s))
    else if tnum == 3
    then (do cust ← mk_cust run.config i; ret (some (customer_row cust), s))
    else if tnum == 0
    then (do part ← mk_part run.config i; ret (some (part_row part), s))
    else if tnum == 4
    then (do dt ← lift (mk_date run.localtime i); ret (some (date_row dt), s))
    else ret (none, s)

-- The loaders take the update number but for dates, which are loaded with 0.
abbrev pub calls_of : Bool → ℕ → Option Row → ℕ → List Call → List Call
calls_of true tnum r upd_num rest = rest
calls_of false tnum none upd_num rest = rest
calls_of false tnum (some r) upd_num rest =
    record { row = r; upd_num = if tnum == 4 then 0 else upd_num } ∷ rest

-- `tdefs[t].child`: NONE for the tables of the star schema; the entries of zeros have 0, which is PART.
abbrev pub child_of : ℕ → ℤ
child_of t = if t == 1 || ltb 5 t then pos 0 else no_table

abbrev pub start_row : Gen ℕ
start_row st = some (0, row_start st)

abbrev pub stop_row : Bool → ℕ → Gen ℕ
stop_row set_seeds t st = some (0, row_stop set_seeds child_of t st)

-- The loop of `gen_tbl` from row i on, over the rows that are left.
unfoldable pub gen_rows : Run → ℕ → ℕ → ℕ → ℕ → Segment → Gen (List Call)
gen_rows run tnum total zero i s = ret []
gen_rows run tnum total (suc count) i s = do
  started ← start_row
  made ← make_row run tnum total i s
  stopped ← stop_row run.set_seeds tnum
  rest ← gen_rows run tnum total count (i + 1) made.1
  ret (calls_of run.set_seeds tnum made.0 made.1.upd_num rest)

unfoldable pub gen_tbl : Run → ℕ → ℕ → ℕ → ℕ → Gen (List Call)
gen_tbl run tnum start count upd_num =
    gen_rows run tnum count count start (record { rows = 0; upd_num = upd_num })
