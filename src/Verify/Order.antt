-- ===== src/Verify/Order.antt =====
-- The totals do not depend on the order of the rows.
use structor.Common.{
  ℕ, ◌+◌, ◌%◌, ◌^◌, ◌<◌, List, [], ◌∷◌, ◌++◌, ◌==◌, if◌then◌else◌, Bool-cases, inl, inr, ◌≡◌, refl,
  sym, ap, ◌∙◌, arith,
}
use structor.Table.{Row}
use structor.Verify.{Amount, verify, Totals, add_total, add_totals, verify_rows}

-- What amounts add to the total of table t, and what rows do.
abbrev pub sum_of : ℕ → List Amount → ℕ
sum_of t [] = 0
sum_of t (a ∷ more) = (if a.table == t then a.value else 0) + sum_of t more

abbrev pub row_sum : ℕ → ℕ → ℕ → List Row → ℕ
row_sum nation_key region_key t [] = 0
row_sum nation_key region_key t (r ∷ rs) =
    sum_of t (verify nation_key region_key r) + row_sum nation_key region_key t rs

add_totals-sum_of :
    (more : List Amount) (totals : Totals) (t : ℕ)
    → totals t < 2 ^ 64
    → add_totals more totals t ≡ (totals t + sum_of t more) % 2 ^ 64
unfolding add_totals
add_totals-sum_of [] totals t small = omega arith
add_totals-sum_of (a ∷ more) totals t small = elim (Bool-cases (a.table == t)) [
  | inl own ↦
      let next : add_total a totals t ≡ (totals t + a.value) % 2 ^ 64 = rw own refl in
      add_totals-sum_of more (add_total a totals) t (omega (arith, next)) ∙ rw own (omega arith)
  | inr other ↦
      let next : add_total a totals t ≡ totals t = rw other refl in
      add_totals-sum_of more (add_total a totals) t (omega (arith, next)) ∙ rw other (omega arith)
]

row_sum-append :
    (n r t : ℕ) (xs ys : List Row) → row_sum n r t (xs ++ ys) ≡ row_sum n r t xs + row_sum n r t ys
row_sum-append n r t [] ys = omega arith
row_sum-append n r t (x ∷ xs) ys = omega (arith, row_sum-append n r t xs ys)

-- The total of a table after some rows, if it was an unsigned long: the sum of what their fields add
-- to it, modulo 2^64.
verify_rows-row_sum :
    (n r : ℕ) (rows : List Row) (totals : Totals) (t : ℕ)
    → totals t < 2 ^ 64
    → verify_rows n r rows totals t ≡ (totals t + row_sum n r t rows) % 2 ^ 64
unfolding verify_rows
verify_rows-row_sum n r [] totals t small = omega arith
verify_rows-row_sum n r (x ∷ rows) totals t small =
    let next = add_totals-sum_of (verify n r x) totals t small in
    verify_rows-row_sum n r rows (add_totals (verify n r x) totals) t (omega (arith, next))
    ∙ omega (arith, next)

-- Two batches of rows, as of two children, give the same totals in both orders, and together the sum
-- of what their fields add, modulo 2^64, to the total of a table that starts as an unsigned long.
pub verify_rows-append :
    (nation_key region_key : ℕ) (xs ys : List Row) (totals : Totals) (t : ℕ)
    → totals t < 2 ^ 64
    → (verify_rows nation_key region_key (xs ++ ys) totals t
        ≡ verify_rows nation_key region_key (ys ++ xs) totals t)
      × (verify_rows nation_key region_key (xs ++ ys) totals t
          ≡ (totals t + (row_sum nation_key region_key t xs + row_sum nation_key region_key t ys))
            % 2 ^ 64)
verify_rows-append n r xs ys totals t small =
    let one = verify_rows-row_sum n r (xs ++ ys) totals t small in
    let two = verify_rows-row_sum n r (ys ++ xs) totals t small in
    let sum = row_sum-append n r t xs ys in
    let sum' = row_sum-append n r t ys xs in
    (
      one ∙ ap (λ (k : ℕ). (totals t + k) % 2 ^ 64) (omega arith) ∙ sym two,
      one ∙ ap (λ (k : ℕ). (totals t + k) % 2 ^ 64) sum,
    )
