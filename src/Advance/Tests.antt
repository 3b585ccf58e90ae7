-- ===== src/Advance/Tests.antt =====
-- Skipping rows from the seeds of rnd.h.
use structor.Common.{ℕ, refl, get_or, ◌≡◌}
use structor.Rng.{next_rand}
use structor.Skip.{nth_element}
use structor.Skip.Steps.{iterate}
use structor.Seeds.{no_seed}
use structor.Seeds.Table.{initial, initial_values}
use structor.Advance.{sd_order}

abbrev first_value : ℕ → ℕ
first_value i = get_or initial_values i 0

-- One skipped order moves the customer key as one call of NextRand does: 851767375 * 16807 mod M.
order_key : (get_or (sd_order 1 initial) 40 no_seed).value ≡ iterate 1 851767375
unfolding sd_order nth_element next_rand
order_key = refl
