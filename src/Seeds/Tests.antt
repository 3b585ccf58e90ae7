-- ===== src/Seeds/Tests.antt =====
-- Streams of rnd.h in use.
use Prim.Native.Nat.{min, max}
use structor.Common.{ℕ, ◌+◌, ◌≤◌, ◌≡◌, refl, arith, List, [], ◌∷◌, ℤ, false, get_or}
use structor.Skip.Steps.{iterate}
use structor.Rng.{next_rand}
use structor.Double.{of_long, div, mul, to_long, round, round_even, scale_up, scale_down}
use structor.Seeds.{Streams, Draw, no_table, no_seed, scaled, unif_int, row}
use structor.Seeds.Table.{initial}
use structor.Seeds.Row.{row_value}
use structor.Seeds.Range.{unif_int_range}

abbrev no_child : ℕ → ℤ
no_child t = no_table

abbrev start : Streams
start = record { seeds = initial; stray = [] }

abbrev draw : ℕ → ℕ → ℕ → Draw
draw l u s = record { lower = l; upper = u; stream = s }

-- A part row: 4 draws for the name, the manufacturer, the category from stream 97.
abbrev part_row : List Draw
part_row = draw 0 91 37 ∷ draw 0 91 37 ∷ draw 1 5 0 ∷ draw 1 5 97 ∷ []

first_draw : (unif_int 1 50 3 initial).0 ≡ 7
unfolding unif_int scaled of_long div mul to_long round round_even scale_up scale_down next_rand
first_draw = refl

unif_int_range_example :
    (min 5 1 ≤ (unif_int 5 1 98 initial).0) × ((unif_int 5 1 98 initial).0 ≤ max 5 1)
unif_int_range_example = unif_int_range 5 1 98 initial (omega arith) (omega arith) (omega arith)

-- Stream 0 ends a part row one step behind its boundary, because of the draw from stream 97.
row_value_example :
    (get_or (row false no_child 0 part_row start).seeds 0 no_seed).value ≡ iterate (1 + 1) 1
row_value_example =
    row_value no_child 0 part_row 0 start (omega arith) (omega arith) refl (omega arith)
      (omega arith) (omega arith) (omega arith)
