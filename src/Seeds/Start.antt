-- ===== src/Seeds/Start.antt =====
-- The seeds of rnd.h are live.
use structor.Common.{ℕ, [], Bool, true, ◌&&◌, ltb, all_below, all_below-at, ◌≡◌, refl, arith}
use structor.Rng.{n_m}
use structor.Seeds.{Streams}
use structor.Seeds.Live.{Live}
use structor.Seeds.Row.{seed_at}
use structor.Seeds.Table.{initial}

abbrev pub initial_streams : Streams
initial_streams = record { seeds = initial; stray = [] }

abbrev is_live : ℕ → Bool
is_live i = ltb 0 (seed_at i initial_streams).value && ltb (seed_at i initial_streams).value n_m

every_seed : all_below is_live 48 ≡ true
unfolding all_below
every_seed = refl

pub initial_streams-Live : Live initial_streams
initial_streams-Live = (
  refl,
  λ i h.
      let e = all_below-at is_live 48 i every_seed (omega arith) in
      (ground (arith, e), ground (arith, e)),
)
