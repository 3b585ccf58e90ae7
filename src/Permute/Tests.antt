-- ===== src/Permute/Tests.antt =====
-- The properties of the permutation at the initial seeds.
use structor.Common.{ℕ, List, some, ◌≡◌, arith}
use structor.Seeds.{Streams}
use structor.Seeds.Live.{Live}
use structor.Seeds.Start.{initial_streams, initial_streams-Live}
use structor.Permute.{permute_new}
use structor.Permute.Swap.{Keeps}
use structor.Permute.Shuffle.{permute_new-Keeps}

permute_new-Keeps_example :
    (a : List ℕ) × (st' : Streams) × (permute_new 92 37 initial_streams
      ≡ some (record { source = 0; set = a }, st'))
    × Keeps 92 a
    × Live st'
permute_new-Keeps_example =
    permute_new-Keeps 92 37 initial_streams (omega arith) (omega arith) initial_streams-Live
