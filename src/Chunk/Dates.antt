-- ===== src/Chunk/Dates.antt =====
-- The rows of a serial run of `main` against those of a parallel one.
use structor.Common.{
  ℕ, ◌+◌, ◌-◌, ◌*◌, ◌/◌, ◌≤◌, ◌<◌, List, ltb, ◌==◌, if◌then◌else◌, ◌≡◌, refl, ap, arith, ◌⊎◌,
}
use structor.Seeds.{Seed}
use structor.Chunk.{
  tdefs, done, row_count, extra_count, Chunk, partial, supp_table, cust_table, date_table,
  line_table,
}
use structor.Chunk.Tiling.{partial-done, row_count-total}

-- The row count of `main` where it does not load in parallel. `part_factor` stands for the factor
-- that `main` takes for the part table from the C library's `log`.
unfoldable pub serial_rows : (ℕ → ℕ) → ℕ → ℕ → ℕ
serial_rows part_factor t scale =
    let base = (tdefs t).base in
    let rowcnt = if ltb t 8 then base * scale else base in
    let rowcnt' = if t == 0 then base * part_factor scale else rowcnt in
    if t == date_table then base else rowcnt'

last_row :
    (t scale children : ℕ) (seeds : List Seed)
    → 0 < scale
    → 0 < children
    → scale / children ≤ 1000
    → (c : Chunk) × (partial t scale children children seeds ≡ done c)
      × (c.start + c.count ≡ (tdefs t).base * scale + 1)
last_row t scale children seeds p pc hc =
    (_, partial-done t scale children children seeds p pc (omega arith) hc, ends)
  where
    q : ℕ
    q = row_count (tdefs t).base scale children

    extra : ℕ
    extra = extra_count (tdefs t).base scale children

    whole : q * (children - 1) + q ≡ q * children
    whole =
        let e : children ≡ children - 1 + 1 = omega arith in omega (arith, ap (λ (x : ℕ). q * x) e)

    ends :
        q * (children - 1) + 1 + (if children == children then q + extra else q)
        ≡ (tdefs t).base * scale + 1
    ends = ground (arith, whole, (row_count-total (tdefs t).base scale children pc).0)

-- For the supplier, customer and lineorder tables the last child of a parallel load ends at the last
-- row of a serial run, for a positive scale in range and at least one child.
pub partial-serial_rows :
    (part_factor : ℕ → ℕ) (t scale children : ℕ) (seeds : List Seed)
    → (t ≡ supp_table) ⊎ ((t ≡ cust_table) ⊎ (t ≡ line_table))
    → 0 < scale
    → 0 < children
    → scale / children ≤ 1000
    → (c : Chunk) × (partial t scale children children seeds ≡ done c)
      × (c.start + c.count ≡ serial_rows part_factor t scale + 1)
unfolding serial_rows
partial-serial_rows f t scale children seeds kind p pc hc =
    let (c, e, ends) = last_row t scale children seeds p pc hc in (c, e, ground (arith, ends))

-- For the date table above scale 1, with at least one child and a scale in range, a serial run makes
-- the 2556 days, and the last child of a parallel load ends at row 2556 * scale, beyond them.
pub partial-date_rows :
    (part_factor : ℕ → ℕ) (scale children : ℕ) (seeds : List Seed)
    → 1 < scale
    → 0 < children
    → scale / children ≤ 1000
    → (c : Chunk) × (partial date_table scale children children seeds ≡ done c)
      × (c.start + c.count ≡ 2556 * scale + 1)
      × (serial_rows part_factor date_table scale ≡ 2556)
      × (2556 + 1 < c.start + c.count)
unfolding serial_rows tdefs
partial-date_rows f scale children seeds p pc hc =
    let (c, e, ends) = last_row date_table scale children seeds (omega arith) pc hc in
    (c, e, ends, refl, omega (arith, ends))
