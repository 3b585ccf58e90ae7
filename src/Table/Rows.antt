-- ===== src/Table/Rows.antt =====
-- The date table, row by row.
use structor.Common.{
  ℕ, zero, suc, ◌+◌, ◌<◌, List, [], ◌∷◌, length, Option, some, Bool, false, ◌≡◌, refl, ap, ◌∙◌,
}
use structor.Seeds.{Streams, row_start, row_stop}
use structor.Dist.{◌>>=◌, bind-some, ret, lift}
use structor.Build.Dates.{Tm, Date, mk_date}
use structor.Build.Dates.Flags.{mk_date-flags}
use structor.Table.{date_row, Run, Call, Segment, make_row, calls_of, child_of, gen_rows, gen_tbl}

-- What `localtime` returns is a day of a week and of a year.
abbrev pub IsCalendar : (ℕ → Tm) → Type 0
IsCalendar localtime = (n : ℕ) → ((localtime n).tm_wday < 7) × ((localtime n).tm_mon < 12)

-- The calls load the dates of the indices from i on, in order, with the update number 0.
abbrev pub AllDates : Run → ℕ → List Call → Type 0
AllDates run i [] = Unit
AllDates run i (c ∷ cs) =
    ((d : Date) × (mk_date run.localtime i ≡ some d) × (c.row ≡ date_row d) × (c.upd_num ≡ 0))
    × AllDates run (i + 1) cs

make_row-date :
    (run : Run) (total i : ℕ) (s : Segment) (st : Streams)
    → IsCalendar run.localtime
    → (d : Date) × (mk_date run.localtime i ≡ some d)
      × (make_row run 4 total i s st ≡ some ((some (date_row d), s), st))
unfolding make_row ◌>>=◌
make_row-date run total i s st calendar =
    let (wday, mon) = calendar _ in
    let (d, t, is_t, made, weekday_flag, month_flag) = mk_date-flags run.localtime i wday mon in
    (
      d,
      made,
      bind-some (lift (mk_date run.localtime i)) (λ dt. ret (some (date_row dt), s)) st
          (ap (λ (o : Option Date). lift o st) made),
    )

gen_rows-dates :
    (run : Run) (total count i : ℕ) (s : Segment) (st : Streams)
    → IsCalendar run.localtime
    → run.set_seeds ≡ false
    → (calls : List Call) × (st' : Streams) × (gen_rows run 4 total count i s st
        ≡ some (calls, st'))
      × (length calls ≡ count)
      × AllDates run i calls
unfolding gen_rows ◌>>=◌
gen_rows-dates run total zero i s st calendar loads = ([], st, refl, refl, tt)
gen_rows-dates run total (suc count) i s st calendar loads =
    let (d, dated, made) = make_row-date run total i s (row_start st) calendar in
    let next = row_stop run.set_seeds child_of 4 (row_start st) in
    let (calls, st', rest, size, all) =
      gen_rows-dates run total count (i + 1) s next calendar loads in
    (
      record { row = date_row d; upd_num = 0 } ∷ calls,
      st',
      bind-some (make_row run 4 total i s) _ (row_start st) made
          ∙ bind-some (gen_rows run 4 total count (i + 1) s) _ next rest
          ∙ ap (λ (b : Bool). some (calls_of b 4 (some (date_row d)) s.upd_num calls, st')) loads,
      ap suc size,
      ((d, dated, refl, refl), all),
    )

-- If `localtime` returns days of a week and of a year, `gen_tbl` outside the calibrating mode loads
-- `count` dates, those of the indices from `start` on and in their order, whatever the seeds.
pub gen_tbl-dates :
    (run : Run) (start count upd_num : ℕ) (st : Streams)
    → IsCalendar run.localtime
    → run.set_seeds ≡ false
    → (calls : List Call) × (st' : Streams) × (gen_tbl run 4 start count upd_num st
        ≡ some (calls, st'))
      × (length calls ≡ count)
      × AllDates run start calls
unfolding gen_tbl ◌>>=◌
gen_tbl-dates run start count upd_num st calendar loads =
    gen_rows-dates run count count start (record { rows = 0; upd_num = upd_num }) st calendar loads
