-- ===== src/Print/Loader.antt =====
-- What a loader prints into a flat file is read back: rows end in a newline, fields in a separator.
use mathlib.Core.List.{append-nil, append_assoc}
use structor.Common.{◌+◌, ◌*◌, ◌^◌, List, [], ◌∷◌, ◌++◌, map, false, ◌≡◌, refl, sym, ap, ◌∙◌}
use structor.Text.{Text}
use structor.Build.Orders.{LineOrder}
use structor.Table.{Row, order_row, supplier_row, customer_row, part_row, date_row}
use structor.Print.{
  Field, separator, newline, field_text, dbg_print, pr_fields, pr_record, cust_fields, pr_cust,
  supp_fields, pr_supp, part_fields, pr_part, line_fields, pr_lines, pr_line, date_fields, pr_date,
  loader,
}
use structor.Print.Split.{join, split, AllLack, split-join, Lacks-join}
use structor.Print.Read.{
  read_file, Value, text_value, number_value, value_of, Kind, text_kind, number_kind, kind_of,
  read_all, AllClean, field_text-Lacks, read-field_text,
}

record_text : List Field → Text
record_text fs = join separator (map (field_text false) fs)

pr_record-join : (fs : List Field) → pr_record false fs ≡ record_text fs ++ (newline ∷ [])
unfolding pr_record pr_fields dbg_print record_text
pr_record-join [] = refl
pr_record-join (f ∷ fs) =
    ap (λ (s : Text). s ++ (newline ∷ []))
      (append_assoc (field_text false f) (separator ∷ []) (pr_fields false fs))
    ∙ append_assoc (field_text false f) (separator ∷ pr_fields false fs) (newline ∷ [])
    ∙ ap (λ (s : Text). field_text false f ++ (separator ∷ s)) (pr_record-join fs)
    ∙ sym (append_assoc (field_text false f) (separator ∷ record_text fs) (newline ∷ []))

texts_Lack :
    (fs : List Field)
    → AllClean fs
    → AllLack separator (map (field_text false) fs) × AllLack newline (map (field_text false) fs)
texts_Lack [] clean = (tt, tt)
texts_Lack (f ∷ fs) (clean, all) =
    let (sep, line) = field_text-Lacks f clean in
    let (seps, lines) = texts_Lack fs all in ((sep, seps), (line, lines))

-- The rows of a file, and that all their fields are clean.
abbrev file_text : List (List Field) → Text
file_text [] = []
file_text (fs ∷ rs) = pr_record false fs ++ file_text rs

abbrev pub AllRowsClean : List (List Field) → Type 0
AllRowsClean [] = Unit
AllRowsClean (fs ∷ rs) = AllClean fs × AllRowsClean rs

file_text-join : (rs : List (List Field)) → file_text rs ≡ join newline (map record_text rs)
file_text-join [] = refl
file_text-join (fs ∷ rs) =
    ap (λ (s : Text). s ++ file_text rs) (pr_record-join fs)
    ∙ append_assoc (record_text fs) (newline ∷ []) (file_text rs)
    ∙ ap (λ (s : Text). record_text fs ++ (newline ∷ s)) (file_text-join rs)

records_Lack : (rs : List (List Field)) → AllRowsClean rs → AllLack newline (map record_text rs)
unfolding record_text
records_Lack [] clean = tt
records_Lack (fs ∷ rs) (clean, all) =
    (Lacks-join newline separator _ refl (texts_Lack fs clean).1, records_Lack rs all)

-- The fields of every row come back.
fields_back :
    (rs : List (List Field))
    → AllRowsClean rs
    → map (split separator) (map record_text rs) ≡ map (map (field_text false)) rs
unfolding record_text
fields_back [] clean = refl
fields_back (fs ∷ rs) (clean, all) =
    rw (split-join separator (map (field_text false) fs) (texts_Lack fs clean).0)
      (ap (λ (ts : List (List Text)). map (field_text false) fs ∷ ts) (fields_back rs all))

values_back :
    (fs : List Field)
    → AllClean fs
    → read_all (map kind_of fs) (map (field_text false) fs) ≡ map value_of fs
values_back [] clean = refl
values_back (f ∷ fs) (clean, all) = rw (read-field_text f clean, values_back fs all) refl

-- The fields that are printed.
abbrev pub rows_of : Row → List (List Field)
rows_of (order_row o) = map line_fields o.lineorders
rows_of (supplier_row s) = supp_fields s ∷ []
rows_of (customer_row c) = cust_fields c ∷ []
rows_of (part_row p) = part_fields p ∷ []
rows_of (date_row d) = date_fields d ∷ []

abbrev party_kinds : List Kind → List Kind
party_kinds more =
    number_kind ∷ text_kind ∷ text_kind ∷ text_kind ∷ text_kind ∷ text_kind ∷ text_kind ∷ more

abbrev pub kinds_of : Row → List Kind
kinds_of (order_row o) =
    number_kind ∷ number_kind ∷ number_kind ∷ number_kind ∷ number_kind ∷ text_kind ∷ text_kind
    ∷ number_kind ∷ number_kind ∷ number_kind ∷ number_kind ∷ number_kind ∷ number_kind
    ∷ number_kind ∷ number_kind ∷ text_kind ∷ text_kind ∷ []
kinds_of (supplier_row s) = party_kinds []
kinds_of (customer_row c) = party_kinds (text_kind ∷ [])
kinds_of (part_row p) =
    number_kind ∷ text_kind ∷ text_kind ∷ text_kind ∷ text_kind ∷ text_kind ∷ text_kind
    ∷ number_kind ∷ text_kind ∷ []
kinds_of (date_row d) =
    number_kind ∷ text_kind ∷ text_kind ∷ text_kind ∷ number_kind ∷ number_kind ∷ text_kind
    ∷ number_kind ∷ number_kind ∷ number_kind ∷ number_kind ∷ number_kind ∷ text_kind ∷ text_kind
    ∷ text_kind ∷ text_kind ∷ text_kind ∷ []

lines_back :
    (ls : List LineOrder)
    → AllRowsClean (map line_fields ls)
    → (ks : List Kind) → ((l : LineOrder) → map kind_of (line_fields l) ≡ ks)
    → map (read_all ks) (map (map (field_text false)) (map line_fields ls))
      ≡ map (map value_of) (map line_fields ls)
lines_back [] clean ks e = refl
lines_back (l ∷ ls) (clean, all) ks e = rw (lines_back ls all ks e) (
    ap
      (λ (k : List Kind).
        read_all k (map (field_text false) (line_fields l))
        ∷ map (map value_of) (map line_fields ls))
      (sym (e l))
    ∙ ap (λ (vs : List Value). vs ∷ map (map value_of) (map line_fields ls))
        (values_back (line_fields l) clean))

loader-file_text : (r : Row) → loader false r ≡ file_text (rows_of r)
unfolding loader pr_line pr_lines pr_cust pr_supp pr_part pr_date
loader-file_text (order_row o) = lines o.lineorders
  where
    lines : (ls : List LineOrder) → pr_lines false ls ≡ file_text (map line_fields ls)
    lines [] = refl
    lines (l ∷ ls) = ap (λ (s : Text). pr_record false (line_fields l) ++ s) (lines ls)
loader-file_text (supplier_row s) = sym (append-nil _)
loader-file_text (customer_row c) = sym (append-nil _)
loader-file_text (part_row p) = sym (append-nil _)
loader-file_text (date_row d) = sym (append-nil _)

-- The columns of each table in the flat file, by the fields of its row.
abbrev line_columns : LineOrder → List Value
line_columns l =
    number_value (l.okey.high * 10 ^ 7 + l.okey.low)
    ∷ number_value l.linenumber
    ∷ number_value l.custkey
    ∷ number_value l.partkey
    ∷ number_value l.suppkey
    ∷ text_value l.orderdate
    ∷ text_value l.opriority
    ∷ number_value l.ship_priority
    ∷ number_value l.quantity
    ∷ number_value l.extended_price
    ∷ number_value l.order_totalprice
    ∷ number_value l.discount
    ∷ number_value l.revenue
    ∷ number_value l.supp_cost
    ∷ number_value l.tax
    ∷ text_value l.commit_date
    ∷ text_value l.shipmode
    ∷ []

abbrev pub columns_of : Row → List (List Value)
columns_of (order_row o) = map line_columns o.lineorders
columns_of (supplier_row s) =
    (number_value s.suppkey
      ∷ text_value s.name
      ∷ text_value s.address
      ∷ text_value s.city
      ∷ text_value s.nation_name
      ∷ text_value s.region_name
      ∷ text_value s.phone
      ∷ [])
    ∷ []
columns_of (customer_row c) =
    (number_value c.custkey
      ∷ text_value c.name
      ∷ text_value c.address
      ∷ text_value c.city
      ∷ text_value c.nation_name
      ∷ text_value c.region_name
      ∷ text_value c.phone
      ∷ text_value c.mktsegment
      ∷ [])
    ∷ []
columns_of (part_row p) =
    (number_value p.partkey
      ∷ text_value p.name
      ∷ text_value p.mfgr
      ∷ text_value p.category
      ∷ text_value p.brand
      ∷ text_value p.color
      ∷ text_value p.type
      ∷ number_value p.size
      ∷ text_value p.container
      ∷ [])
    ∷ []
columns_of (date_row d) =
    (number_value d.datekey
      ∷ text_value d.date
      ∷ text_value d.dayofweek
      ∷ text_value d.month
      ∷ number_value d.year
      ∷ number_value d.yearmonthnum
      ∷ text_value d.yearmonth
      ∷ number_value d.daynuminweek
      ∷ number_value d.daynuminmonth
      ∷ number_value d.daynuminyear
      ∷ number_value d.monthnuminyear
      ∷ number_value d.weeknuminyear
      ∷ text_value d.sellingseason
      ∷ text_value d.lastdayinweekfl
      ∷ text_value d.lastdayinmonthfl
      ∷ text_value d.holidayfl
      ∷ text_value d.weekdayfl
      ∷ [])
    ∷ []

-- The columns are the values of the fields that are printed.
columns_of-rows_of : (r : Row) → map (map value_of) (rows_of r) ≡ columns_of r
columns_of-rows_of (order_row o) = lines o.lineorders
  where
    lines : (ls : List LineOrder) → map (map value_of) (map line_fields ls) ≡ map line_columns ls
    lines [] = refl
    lines (l ∷ ls) = ap (λ (rs : List (List Value)). line_columns l ∷ rs) (lines ls)
columns_of-rows_of (supplier_row s) = refl
columns_of-rows_of (customer_row c) = refl
columns_of-rows_of (part_row p) = refl
columns_of-rows_of (date_row d) = refl

-- If the texts of a row lack the separator and the newline, its numbers are below 2^63, and the low
-- word of an order key is below 10^7 if its high word is not 0, then what the loader of its table
-- prints into a flat file, taken apart at newlines and separators and read by the kinds of the table's
-- columns, is the row: its fields in the order of the table's columns, one line for each line of an
-- order.
pub loader-read_file :
    (r : Row)
    → AllRowsClean (rows_of r)
    → map (read_all (kinds_of r)) (read_file (loader false r)) ≡ columns_of r
loader-read_file r clean =
    ap (λ (s : Text). map (read_all (kinds_of r)) (read_file s))
      (loader-file_text r ∙ file_text-join (rows_of r))
    ∙ ap (λ (ts : List Text). map (read_all (kinds_of r)) (map (split separator) ts))
        (split-join newline (map record_text (rows_of r)) (records_Lack (rows_of r) clean))
    ∙ ap (map (read_all (kinds_of r))) (fields_back (rows_of r) clean)
    ∙ by_table r clean
    ∙ columns_of-rows_of r
  where
    by_table :
        (r : Row)
        → AllRowsClean (rows_of r)
        → map (read_all (kinds_of r)) (map (map (field_text false)) (rows_of r))
          ≡ map (map value_of) (rows_of r)
    by_table (order_row o) clean = lines_back o.lineorders clean _ (λ l. refl)
    by_table (supplier_row s) clean =
        ap (λ (vs : List Value). vs ∷ []) (values_back (supp_fields s) clean.0)
    by_table (customer_row c) clean =
        ap (λ (vs : List Value). vs ∷ []) (values_back (cust_fields c) clean.0)
    by_table (part_row p) clean =
        ap (λ (vs : List Value). vs ∷ []) (values_back (part_fields p) clean.0)
    by_table (date_row d) clean =
        ap (λ (vs : List Value). vs ∷ []) (values_back (date_fields d) clean.0)
