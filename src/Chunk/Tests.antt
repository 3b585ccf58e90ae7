-- ===== src/Chunk/Tests.antt =====
-- Parallel loads with few children.
use structor.Common.{ℕ, zero, suc, ◌≤◌, ◌<◌, List, [], ◌∷◌, ℤ, ◌≡◌, refl, arith, get_or}
use structor.Seeds.{Draw, no_table}
use structor.Seeds.Table.{layout, initial_values, initial}
use structor.Advance.Rows.{OwnStream}
use structor.Chunk.{
  tdefs, row_count, extra_count, done, scale_overflow, undefined, set_state, Chunk, partial,
  supp_table, cust_table, line_table,
}
use structor.Chunk.Tiling.{Generates, partial-tiles}
use structor.Chunk.Resume.{Resumes, cust-Resumes, supp-Resumes}
use structor.Chunk.Lines.{KeepsOrderStreams, line-KeepsOrderStreams}

abbrev no_child : ℕ → ℤ
no_child t = no_table

abbrev start_value : ℕ → ℕ
start_value i = get_or initial_values i 0

-- A customer row: the phone number, and the two rows of a scale of one table row a child.
abbrev cust_rows : ℕ → List (List Draw)
cust_rows zero = []
cust_rows (suc n) = (record { lower = 100; upper = 999; stream = 28 } ∷ []) ∷ cust_rows n

errors :
    (set_state supp_table 5000 2 1 initial ≡ scale_overflow)
    × (set_state supp_table 1 1 2 initial ≡ undefined)
unfolding set_state
errors = (refl, refl)

third : (c : Chunk) × (partial supp_table 1 3 3 [] ≡ done c) × (c.start ≡ 1333) × (c.count ≡ 668)
unfolding partial set_state tdefs row_count extra_count
third = (_, refl, refl, refl)

own_phone : OwnStream cust_table 28 (record { seeds = layout start_value; stray = [] })
own_phone = record {
  small = omega arith;
  inside = omega arith;
  own = refl;
  value_pos = omega arith;
  value_lt = omega arith;
  boundary_lt = omega arith;
}

own_offset : OwnStream supp_table 47 (record { seeds = layout start_value; stray = [] })
own_offset = record {
  small = omega arith;
  inside = omega arith;
  own = refl;
  value_pos = omega arith;
  value_lt = omega arith;
  boundary_lt = omega arith;
}

-- 30000 customers for 30000 children: the third one starts behind two rows.
cust-Resumes_example : Resumes no_child cust_table 1 30000 3 start_value (cust_rows 2) 28
unfolding row_count
cust-Resumes_example =
    cust-Resumes no_child 1 30000 3 28 start_value (cust_rows 2) (omega arith) (omega arith)
      (omega arith) (omega arith) refl own_phone (refl, omega arith, (refl, omega arith, tt))
      (omega arith)

supp-Resumes_example : Resumes no_child supp_table 1 1000 2 start_value (cust_rows 2) 47
unfolding row_count
supp-Resumes_example =
    supp-Resumes no_child 1 1000 2 47 start_value (cust_rows 2) (omega arith) (omega arith)
      (omega arith) (omega arith) refl own_offset (refl, omega arith, (refl, omega arith, tt))
      (omega arith)

partial-tiles_example :
    (s : ℕ) × (0 < s)
    × (s ≤ 3)
    × Generates supp_table 1 3 initial 1999 s
    × ((s' : ℕ) → 0 < s' → s' ≤ 3 → Generates supp_table 1 3 initial 1999 s' → s' ≡ s)
unfolding tdefs
partial-tiles_example =
    partial-tiles supp_table 1 3 initial (omega arith) (omega arith) (omega arith) 1999
      (omega arith) (omega arith)

line-KeepsOrderStreams_example :
    (c : Chunk) × (partial line_table 10 4 3 (layout start_value) ≡ done c)
    × KeepsOrderStreams start_value c.seeds
line-KeepsOrderStreams_example =
    line-KeepsOrderStreams 10 4 3 start_value (omega arith) (omega arith) (omega arith)
      (omega arith)
