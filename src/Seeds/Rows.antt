-- ===== src/Seeds/Rows.antt =====
-- A whole row keeps the streams live.
use structor.Common.{
  ℕ, ◌+◌, ◌≤◌, ◌<◌, List, ℤ, pos, sub_ℕ, eqb_ℤ, false, ◌||◌, length, length-map, get_or-map,
  Bool-cases, inl, inr, ◌≡◌, ◌∙◌, ap, arith,
}
use mathlib.Core.Path.{subst, ap₂}
use structor.Rng.{n_m}
use structor.Skip.{nth_element}
use structor.Skip.Steps.{iterate, iterate_range}
use structor.Seeds.{
  Seed, Streams, Draw, max_stream, no_seed, clear_usage, row_start, stop_seed, stop_table, row_stop,
  draws, row,
}
use structor.Seeds.Row.{
  seed_at, Drawn, draws-Drawn, length-draws, length-row, row-layout, resync, counted, counted-le,
  uncounted,
}
use structor.Seeds.Live.{Live}

-- No stream skips the period in one row.
abbrev pub Bounded : Streams → Type 0
Bounded st = (i : ℕ) → i ≤ max_stream → (seed_at i st).boundary < n_m

stop_seed_range :
    (t child : ℤ) (i : ℕ) (ds : List Draw) (s s' : Seed)
    → Drawn i ds (clear_usage s) s'
    → length ds < n_m
    → s.boundary < n_m
    → 0 < s.value
    → s.value < n_m
    → (0 < (stop_seed false t child s').value) × ((stop_seed false t child s').value < n_m)
unfolding stop_seed
stop_seed_range t child i ds s s' d few small p h =
    elim (Bool-cases (eqb_ℤ s'.table t || eqb_ℤ s'.table child)) [
      | inl own ↦ rw own (rw moved (iterate_range (s.boundary + uncounted i ds) s.value p h))
      | inr other ↦
          rw other (rw d.value (iterate_range (counted i ds + uncounted i ds) s.value p h))
    ]
  where
    used : s'.usage ≡ counted i ds
    used = omega (arith, d.usage)

    moved :
        nth_element (sub_ℕ s'.boundary s'.usage) s'.value
        ≡ iterate (s.boundary + uncounted i ds) s.value
    moved =
        ap₂ (λ (b n : ℕ). nth_element (sub_ℕ b n) s'.value) d.boundary used
        ∙ ap (nth_element (sub_ℕ s.boundary (counted i ds))) d.value
        ∙ resync s.boundary (counted i ds) (uncounted i ds) s.value p h small
            (omega (arith, counted-le i ds))

-- A row of fewer than 2^31 - 1 draws, outside the calibrating mode.
pub row-Live :
    (child : ℕ → ℤ) (t : ℕ) (ds : List Draw) (st : Streams)
    → length ds < n_m
    → Bounded st
    → Live st
    → Live (row false child t ds st)
unfolding row row_stop row_start
row-Live child t ds st few small (size, live) = (length-row child t ds st ∙ size, ends)
  where
    stop : Seed → Seed
    stop = stop_seed false (pos (stop_table t)) (child (stop_table t))

    ends :
        (i : ℕ)
        → i ≤ max_stream
        → (0 < (seed_at i (row false child t ds st)).value)
          × ((seed_at i (row false child t ds st)).value < n_m)
    ends i h =
        let there : i < length (draws ds (row_start st)).seeds =
          rw (length-draws ds (row_start st))
            (rw (length-map st.seeds clear_usage) (omega (arith, size))) in
        let inside : i < length st.seeds = omega (arith, size) in
        rw (get_or-map (draws ds (row_start st)).seeds i stop no_seed no_seed there) (
          stop_seed_range _ _ i ds (seed_at i st) _
            (subst (λ s. Drawn i ds s (seed_at i (draws ds (row_start st))))
              (get_or-map st.seeds i clear_usage no_seed no_seed inside)
              (draws-Drawn ds i (row_start st) h (rw (length-map st.seeds clear_usage) inside)))
            few (small i h) (live i h).0 (live i h).1)

pub row-Bounded :
    (child : ℕ → ℤ) (t : ℕ) (ds : List Draw) (st : Streams)
    → length st.seeds ≡ 48
    → Bounded st
    → Bounded (row false child t ds st)
row-Bounded child t ds st size small i h =
    rw (row-layout child t ds i st h (omega (arith, size))).1 (small i h)

pub row_start-Live : (st : Streams) → Live st → Live (row_start st)
unfolding row_start
row_start-Live st (size, live) = (
  length-map st.seeds clear_usage ∙ size,
  λ i h. rw (get_or-map st.seeds i clear_usage no_seed no_seed (omega (arith, size))) (live i h),
)
