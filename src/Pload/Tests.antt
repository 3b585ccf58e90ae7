-- ===== src/Pload/Tests.antt =====
-- Two children, of which one is left behind by a wait that missed.
use structor.Common.{◌+◌, ◌≤◌, length, [], ◌∷◌, true, false, ◌≡◌, refl, arith}
use structor.Pload.{
  State, returned, ended, initial_state, spawns, all_started, exits, reaps, returns, quiet, misses,
  Reach, start, later,
}
use structor.Pload.Waits.{returned-ended}
use structor.Pload.Ends.{EndsFrom, Reach-EndsFrom}

abbrev left_behind : State
left_behind = record { kids = true ∷ false ∷ []; reaped = 1; missed = 1; phase = returned }

left_behind-Reach : Reach 2 left_behind
left_behind-Reach =
    later
      (later
        (later
          (later
            (later
              (later (later start (quiet (spawns refl (omega arith))))
                (quiet (spawns refl (omega arith))))
              (quiet (all_started refl refl)))
            (quiet (exits 0 refl)))
          (quiet (reaps 1 refl (omega arith))))
        (misses 0 refl))
      (quiet (returns refl))

returned-ended_example :
    (length left_behind.kids ≡ 2) × (2 ≤ ended left_behind.kids + left_behind.missed)
returned-ended_example = returned-ended 2 left_behind left_behind-Reach refl

Reach-EndsFrom_example : EndsFrom 3 initial_state
Reach-EndsFrom_example = Reach-EndsFrom 3 initial_state start
