-- ===== src/Load/Tests.antt =====
-- A child of a small load of customers.
use structor.Common.{
  ◌*◌, ◌≤◌, some, ℕ, zero, suc, List, [], ◌∷◌, get_or, false, ◌&&◌, ltb, true, ◌≡◌, refl, arith,
  ◌<◌, length, Bool,
}
use structor.Rng.{n_m}
use structor.Seeds.{Streams, Seed, no_seed}
use structor.Seeds.Table.{layout, initial_values}
use structor.Text.{Text, codes}
use structor.Dist.{Distribution}
use structor.Build.Fields.{nation_and_region}
use structor.Chunk.{cust_table, row_count}
use structor.Chunk.Dates.{serial_rows}
use structor.Chunk.Resume.{IsSeeded, streams}
use structor.Table.{Run, Call, gen_tbl}
use structor.Load.Customers.{IsReady}
use structor.Load.Rows.{IsServed, serial-IsServed}
use structor.Chunk.Tiling.{Generates}

abbrev one_of : Text → Distribution
one_of t = record { count = 1; max = 1; list = record { weight = 1; text = t } ∷ [] }

abbrev one_region : Distribution
one_region = record { count = 1; max = 1; list = record { weight = 0; text = codes "PERU" } ∷ [] }

abbrev small : Run
small = record {
  config = record {
    scale = 1;
    refresh = 1;
    cust_base = 30000;
    supp_base = 2000;
    l_pkey_max = 200000;
    nations = one_region;
    regions = one_of (codes "AMERICA");
    c_mseg_set = one_of (codes "MACHINERY");
    colors = one_of (codes "red");
    p_types_set = one_of (codes "TIN");
    p_cntr_set = one_of (codes "BOX");
    o_priority_set = one_of (codes "1-URGENT");
    l_smode_set = one_of (codes "RAIL");
  };
  asc_date = [];
  localtime = λ n. record { tm_mday = 1; tm_mon = 0; tm_year = 92; tm_wday = 3; tm_yday = 0 };
  insert_segments = 0;
  set_seeds = false;
}

abbrev start_value : ℕ → ℕ
start_value i = get_or initial_values i 1

small-IsReady : IsReady small.config
unfolding nation_and_region
small-IsReady = record {
  nations = record {
    count_positive = omega arith;
    count_small = omega arith;
    names = λ i h. ((codes "PERU", codes "AMERICA"), let e : i ≡ 0 = omega arith in rw e refl);
  };
  segments = record {
    count_positive = omega arith;
    count_inside = omega arith;
    total_positive = omega arith;
    total_small = omega arith;
  };
}

-- All seeds of an array are in range.
abbrev in_range : List Seed → Bool
in_range [] = true
in_range (s ∷ ss) = (ltb 0 s.value && ltb s.value n_m) && in_range ss

in_range-get_or :
    (ss : List Seed) (i : ℕ)
    → in_range ss ≡ true
    → i < length ss
    → (0 < (get_or ss i no_seed).value) × ((get_or ss i no_seed).value < n_m)
in_range-get_or [] i h inside = absurd (omega arith)
in_range-get_or (s ∷ ss) zero h inside = ground arith
in_range-get_or (s ∷ ss) (suc i) h inside = in_range-get_or ss i (ground arith) (omega arith)

start-IsSeeded : IsSeeded start_value
start-IsSeeded i h = in_range-get_or (layout start_value) i refl h

-- 30000 children, each with one row of a scale of 1.
serial-IsServed_example :
    (serial : List Call) × (last : Streams) × (gen_tbl small cust_table 1
        (serial_rows (λ n. n) cust_table 1)
        0
        (streams start_value)
      ≡ some (serial, last))
    × ((r : ℕ)
        → 1 ≤ r
        → r ≤ 30000 * 1
        → (s : ℕ) × (0 < s)
          × (s ≤ 30000)
          × IsServed small refl 1 30000 0 start_value serial r s
          × ((s' : ℕ)
              → 0 < s'
              → s' ≤ 30000
              → Generates cust_table 1 30000 (layout start_value) r s'
              → s' ≡ s))
unfolding row_count
serial-IsServed_example =
    serial-IsServed small refl (λ n. n) 1 30000 0 start_value small-IsReady start-IsSeeded
      (omega arith) (omega arith) (omega arith) (omega arith)
