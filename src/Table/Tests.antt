-- ===== src/Table/Tests.antt =====
-- The properties of `gen_tbl` at concrete inputs.
use structor.Common.{ℕ, ◌+◌, ◌*◌, ◌≤◌, ◌<◌, suc, List, [], length, some, false, ◌≡◌, refl, arith}
use structor.Seeds.{Streams}
use structor.Seeds.Start.{initial_streams}
use structor.Dist.{Distribution}
use structor.Table.{Run, Call, gen_tbl}
use structor.Table.Rows.{AllDates, gen_tbl-dates}
use structor.Table.Segments.{segment_after, rows_before, segment_after-rows}

abbrev nothing : Distribution
nothing = record { count = 0; max = 0; list = [] }

abbrev dates_only : Run
dates_only = record {
  config = record {
    scale = 1;
    refresh = 1;
    cust_base = 30000;
    supp_base = 2000;
    l_pkey_max = 200000;
    nations = nothing;
    regions = nothing;
    c_mseg_set = nothing;
    colors = nothing;
    p_types_set = nothing;
    p_cntr_set = nothing;
    o_priority_set = nothing;
    l_smode_set = nothing;
  };
  asc_date = [];
  localtime = λ n. record { tm_mday = 1; tm_mon = 0; tm_year = 92; tm_wday = 3; tm_yday = 0 };
  insert_segments = 0;
  set_seeds = false;
}

gen_tbl-dates_example :
    (calls : List Call) × (st' : Streams) × (gen_tbl dates_only 4 1 2 0 initial_streams
      ≡ some (calls, st'))
    × (length calls ≡ 2)
    × AllDates dates_only 1 calls
gen_tbl-dates_example =
    gen_tbl-dates dates_only 1 2 0 initial_streams (λ n. (omega arith, omega arith)) refl

-- Ten rows in three segments: 4, 3 and 3.
segment_after-rows_example :
    (k : ℕ) × ((segment_after 3 1 (suc 4) (record { rows = 0; upd_num = 1 })).upd_num
      ≡ 1 + 10000 * k)
    × (rows_before 3 1 k ≤ 4)
    × (4 < rows_before 3 1 (suc k))
segment_after-rows_example = segment_after-rows 3 1 1 4 (omega arith) (omega arith)
