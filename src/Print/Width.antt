-- ===== src/Print/Width.antt =====
-- Columnar output: the widths of the columns.
use structor.Common.{
  ℕ, zero, suc, ◌+◌, ◌-◌, ◌*◌, ◌^◌, ◌≤◌, ◌<◌, ◌⊎◌, List, [], ◌∷◌, ◌++◌, map, length, length-append,
  true, Bool-cases, inl, inr, ◌==◌, ◌≡◌, refl, ap, ◌∙◌, arith,
}
use structor.Text.{Text, dec, dec_pad, zeros}
use structor.Table.{Row, order_row, supplier_row, customer_row, part_row, date_row}
use structor.Build.Orders.{LineOrder}
use structor.Print.{
  Field, dt_str, dt_int, dt_huge, dt_key, dt_chr, dt_money, spaces, pad_left, pad_right, field_text,
  dbg_print, pr_fields, pr_record, pr_cust, pr_supp, pr_part, pr_lines, pr_line, pr_date,
  line_fields, loader,
}
use structor.Print.Decimal.{length-dec}
use structor.Print.Loader.{rows_of}

length-spaces : (n : ℕ) → length (spaces n) ≡ n
length-spaces zero = refl
length-spaces (suc n) = ap suc (length-spaces n)

length-pad_left : (w : ℕ) (s : Text) → length s ≤ w → length (pad_left w s) ≡ w
length-pad_left w s h =
    omega (arith, length-append (spaces (w - length s)) s, length-spaces (w - length s))

length-pad_right : (w : ℕ) (s : Text) → length s ≤ w → length (pad_right w s) ≡ w
length-pad_right w s h =
    omega (arith, length-append s (spaces (w - length s)), length-spaces (w - length s))

length-zeros : (n : ℕ) (s : Text) → length (zeros n s) ≡ n + length s
length-zeros zero s = omega arith
length-zeros (suc n) s = omega (arith, length-zeros n s)

length-dec_pad : (n : ℕ) → n < 10 ^ 7 → length (dec_pad 7 n) ≡ 7
unfolding dec_pad
length-dec_pad n h = omega (arith, length-zeros (7 - length (dec n)) (dec n), length-dec n 6 h)

-- The columns of the printed tables, and what fits into them.
abbrev pub width : Field → ℕ
width (dt_str s len) = len
width (dt_int n) = 12
width (dt_huge w) = 12
width f = 0

abbrev pub Fits : Field → Type 0
Fits (dt_str s len) = length s ≤ len
Fits (dt_int n) = n < 10 ^ 12
Fits (dt_huge w) = ((w.high ≡ 0) × (w.low < 10 ^ 12)) ⊎ ((w.high < 10 ^ 5) × (w.low < 10 ^ 7))
Fits f = ⊥

abbrev pub AllFit : List Field → Type 0
AllFit [] = Unit
AllFit (f ∷ fs) = Fits f × AllFit fs

abbrev pub record_width : List Field → ℕ
record_width [] = 1
record_width (f ∷ fs) = width f + record_width fs

length-field_text : (f : Field) → Fits f → length (field_text true f) ≡ width f
unfolding field_text
length-field_text (dt_str s len) h = length-pad_right len s h
length-field_text (dt_int n) h = length-pad_left 12 (dec n) (length-dec n 11 h)
length-field_text (dt_huge w) h = elim (Bool-cases (w.high == 0)) [
  | inl small ↦ rw small (length-pad_left 12 (dec w.low) (length-dec w.low 11 (ground arith)))
  | inr large ↦ rw large (
      let high : w.high < 10 ^ 5 = ground arith in
      let low : w.low < 10 ^ 7 = ground arith in
      length-append (pad_left 5 (dec w.high)) (dec_pad 7 w.low)
      ∙ omega (
        arith,
        length-pad_left 5 (dec w.high) (length-dec w.high 4 high),
        length-dec_pad w.low low,
      ))
]
length-field_text (dt_key n) h = absurd h
length-field_text (dt_money n) h = absurd h
length-field_text (dt_chr c) h = absurd h

length-pr_record : (fs : List Field) → AllFit fs → length (pr_record true fs) ≡ record_width fs
unfolding pr_record pr_fields dbg_print
length-pr_record [] h = refl
length-pr_record (f ∷ fs) (h, hs) = omega (
  arith,
  length-append (field_text true f ++ pr_fields true fs) (10 ∷ []),
  length-append (field_text true f) (pr_fields true fs),
  length-append (pr_fields true fs) (10 ∷ []),
  length-field_text f h,
  length-pr_record fs hs,
)

-- What the file grows by for a row, and by which columns.
abbrev pub AllRowsFit : List (List Field) → Type 0
AllRowsFit [] = Unit
AllRowsFit (fs ∷ rs) = AllFit fs × AllRowsFit rs

abbrev pub row_width : Row → ℕ
row_width (order_row o) = 201 * length o.lineorders
row_width (supplier_row s) = 114
row_width (customer_row c) = 124
row_width (part_row p) = 95
row_width (date_row d) = 160

-- If the fields of a row fit into their columns, then its loader's columnar output has the width of
-- the table's columns, whatever the row: 124 characters for a customer, 114 for a supplier, 95
-- for a part, 160 for a date and 201 for each line of an order, with the newline.
pub length-loader : (r : Row) → AllRowsFit (rows_of r) → length (loader true r) ≡ row_width r
unfolding loader pr_line pr_lines pr_cust pr_supp pr_part pr_date
length-loader (order_row o) h = lines o.lineorders h
  where
    lines :
        (ls : List LineOrder)
        → AllRowsFit (map line_fields ls)
        → length (pr_lines true ls) ≡ 201 * length ls
    lines [] h = refl
    lines (l ∷ ls) (fit, all) =
        length-append (pr_record true (line_fields l)) (pr_lines true ls)
        ∙ omega (arith, length-pr_record (line_fields l) fit, lines ls all)
length-loader (supplier_row s) h = length-pr_record _ h.0
length-loader (customer_row c) h = length-pr_record _ h.0
length-loader (part_row p) h = length-pr_record _ h.0
length-loader (date_row d) h = length-pr_record _ h.0
