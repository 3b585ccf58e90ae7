-- ===== src/Load/Children.antt =====
-- Every child of a parallel load makes the customers of its part of a serial run.
use native.Mathlib.Nat.{mul-le-mul_left}
use structor.Common.{
  ℕ, ◌+◌, ◌-◌, ◌*◌, ◌/◌, ◌≤◌, ◌<◌, false, ◌==◌, Bool-cases, inl, inr, ◌≡◌, refl, ap, arith,
}
use structor.Rng.{n_m}
use structor.Seeds.Table.{layout}
use structor.Chunk.{tdefs, done, row_count, Chunk, partial, cust_table}
use structor.Chunk.Tiling.{partial-done, rows_of, row_count-total}
use structor.Chunk.Dates.{serial_rows}
use structor.Chunk.Resume.{IsSeeded}
use structor.Table.{Run}
use structor.Load.Seeds.{sd_cust-layout}
use structor.Load.Customers.{IsReady, Matches, chunk-Matches}

-- The chunk of a child ends inside the table.
rows_of-inside :
    (t scale children s : ℕ)
    → 0 < s
    → s ≤ children
    → let q = row_count (tdefs t).base scale children in
      q * (s - 1) + rows_of t scale children s ≤ (tdefs t).base * scale
rows_of-inside t scale children s p h =
    let q = row_count (tdefs t).base scale children in
    let (total, extra) = row_count-total (tdefs t).base scale children (omega arith) in
    let e : s ≡ s - 1 + 1 = omega arith in
    let whole : q * (s - 1) + q ≡ q * s = omega (arith, ap (λ (x : ℕ). q * x) e) in
    elim (Bool-cases (s == children)) [
      | inl last ↦
          let e' : s ≡ children = ground arith in
          rw last (omega (arith, whole, total, ap (λ (x : ℕ). q * x) e'))
      | inr inner ↦ rw inner (omega (arith, whole, total, mul-le-mul_left q h))
    ]

-- With a distribution of segments, a region for every nation and all seeds in range, and for a scale
-- in range of which 324 * row_count is below 2^31 - 1, child s of a parallel load outside the
-- calibrating mode and the serial run from the same seeds both load customers without an error: rows
-- c.start to c.start + c.count - 1 of the serial run are, one by one, the same customers as
-- those of the child but for the digit of the city, and all are well formed.
pub partial-Matches :
    (run : Run) (loads : run.set_seeds ≡ false) (part_factor : ℕ → ℕ) (scale children s upd_num : ℕ)
    (value : ℕ → ℕ)
    → IsReady run.config
    → IsSeeded value
    → 0 < scale
    → 0 < s
    → s ≤ children
    → scale / children ≤ 1000
    → 324 * row_count 30000 scale children < n_m
    → (c : Chunk) × (partial cust_table scale children s (layout value) ≡ done c)
      × Matches run loads (serial_rows part_factor cust_table scale) upd_num value c
unfolding tdefs serial_rows
partial-Matches run loads part_factor scale children s upd_num value ready seeded p ps hs hc fits =
    let k = row_count 30000 scale children in
    let (w, e, seeded') = sd_cust-layout (s - 1) k value seeded fits in
    let n = rows_of cust_table scale children s in
    let inside = rows_of-inside cust_table scale children s ps hs in
    (
      _,
      partial-done cust_table scale children s (layout value) p ps hs hc,
      chunk-Matches run loads ready upd_num (30000 * scale) k (s - 1) n
          (30000 * scale - (k * (s - 1) + n)) value w _ (omega (arith, inside)) refl fits seeded e
          seeded',
    )
