-- ===== src/Qgen/Sequence/Tests.antt =====
-- The properties of the main program of qgen.c at concrete inputs.
use structor.Common.{ℕ, ◌<◌, List, [], length, some, pos, ◌⊎◌, ◌≡◌, refl, arith}
use structor.Rng.{n_m}
use structor.Skip.Steps.{iterate}
use structor.Seeds.Start.{initial_streams}
use structor.Qgen.Sequence.{sequence, names, main_queries, perturb}
use structor.Qgen.Sequence.Once.{count, main_queries-once}
use structor.Qgen.Sequence.Perturbed.{value_at, perturb-iterate}

second_stream : sequence 42 2 ≡ some 3
unfolding sequence
second_stream = refl

main_queries-once_example :
    (row : List ℕ) × (main_queries (pos 42) [] ≡ some (names row))
    × (length row ≡ 22)
    × (count 9 row ≡ 1)
main_queries-once_example = main_queries-once 42 9 (omega arith) (omega arith)

perturb-iterate_example :
    (value_at (perturb 7 initial_streams.seeds) 5 ≡ iterate 5 7)
    × ((22 < 5)
        ⊎ ((0 < value_at (perturb 7 initial_streams.seeds) 5)
            × (value_at (perturb 7 initial_streams.seeds) 5 < n_m)))
perturb-iterate_example =
    perturb-iterate 7 5 initial_streams.seeds refl (omega arith) (omega arith) (omega arith)
