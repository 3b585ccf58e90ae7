-- ===== src/Main.antt =====
-- `main` of driver.c behind the options: the calls that it makes for the tables, or for the updates.
pub mod Tables
pub mod Updates
mod Tests
use structor.Common.{
  ℕ, zero, suc, ◌+◌, ◌-◌, ◌*◌, ◌^◌, List, [], ◌∷◌, ℤ, pos, negsuc, pos_part, Bool, true, false,
  ◌&&◌, ltb, ◌==◌, if◌then◌else◌, Option, none, some,
}
use structor.Double.{of_long, div, mul, to_long}
use structor.Seeds.{Seed}
use structor.Advance.{sd_order, sd_line}
use structor.Options.{Settings, above_one}

-- A call of `gen_tbl` with the first row and the number of rows, of `partial`, or of `pload`.
pub data Load : Type 0 where
  serial : ℕ → ℕ → ℕ → Load
  child : ℕ → ℕ → Load
  parallel : ℕ → Load

-- `rowcnt` of a table that is not loaded in parallel. `part_factor` stands for the factor that the part
-- table takes from the C library's `log`.
abbrev pub serial_count : (ℕ → ℕ) → Settings → ℕ → ℕ
serial_count part_factor s i =
    if i == 4
    then s.bases i
    else if i == 0
    then s.bases i * part_factor s.scale
    else if ltb i 8
    then s.bases i * s.scale
    else s.bases i

abbrev pub parallel_load : Settings → ℕ → Load
parallel_load s i = elim s.step [ pos n ↦ child i n | negsuc n ↦ parallel i ]

-- The load of a table of the mask; none is INTERNAL_ERROR.
unfoldable pub load_of : (ℕ → ℕ) → Settings → ℕ → Option Load
load_of part_factor s i =
    if above_one s.children && ltb i 8
    then (if s.validate then none else some (parallel_load s i))
    else some (serial i 1 (serial_count part_factor s i))

abbrev pub also : Option Load → Option (List Load) → Option (List Load)
also none ls = none
also (some l) none = none
also (some l) (some ls) = some (l ∷ ls)

-- The loop over the tables from i on.
unfoldable pub loads_from : ℕ → ℕ → (ℕ → ℕ) → Settings → Option (List Load)
loads_from zero i part_factor s = some []
loads_from (suc n) i part_factor s =
    let rest = loads_from n (i + 1) part_factor s in
    if s.table i then also (load_of part_factor s i) rest else rest

-- From PART, 0, to REGION, 9.
unfoldable pub main_loads : (ℕ → ℕ) → Settings → Option (List Load)
main_loads part_factor s = loads_from 10 0 part_factor s

-- The calls of `gen_tbl` and `pr_drange` for one update.
pub record Update : Type 0 where
  pub minrow : ℕ
  pub rowcnt : ℕ
  pub number : ℕ

-- The rows of an update before the cast to an int: the base of the lineorder table by 10000, by scale
-- and by refresh, for a refresh that is not negative.
abbrev pub update_rows : Settings → ℕ
update_rows s = to_long (
    mul (mul (div (of_long (s.bases 5)) (of_long 10000)) (of_long s.scale))
      (of_long (pos_part s.refresh)))

-- `step - 1` if the step is positive.
abbrev pub first_update : Settings → ℕ
first_update s = pos_part s.step - 1

-- The seeds behind the updates before the first.
unfoldable pub update_seeds : Settings → ℕ → List Seed → List Seed
update_seeds s rowcnt seeds =
    if ltb 0 (pos_part s.step)
    then sd_line 0 (rowcnt * (pos_part s.step - 1))
        (sd_order (rowcnt * (pos_part s.step - 1)) seeds)
    else seeds

-- The loop `while (upd_num < updates)`, over the updates that are left.
unfoldable pub updates_from : ℕ → ℕ → ℕ → List Update
updates_from zero rowcnt upd_num = []
updates_from (suc n) rowcnt upd_num =
    record { minrow = upd_num * rowcnt + 1; rowcnt = rowcnt; number = upd_num + 1 }
    ∷ updates_from n rowcnt (upd_num + 1)

-- The updates of a run; none where the cast `(int)(fix1 * scale * refresh)` is undefined.
unfoldable pub main_updates : Settings → Option (List Update)
main_updates s =
    if ltb (update_rows s) (2 ^ 31)
    then some (updates_from (pos_part s.updates - first_update s) (update_rows s) (first_update s))
    else none
