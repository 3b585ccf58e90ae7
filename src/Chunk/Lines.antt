-- ===== src/Chunk/Lines.antt =====
-- The lineorder table in parallel: the order streams that no child skips.
use structor.Common.{ℕ, zero, suc, ◌-◌, ◌/◌, ◌≤◌, ◌<◌, List, get_or, ◌≡◌, refl}
use structor.Seeds.{Seed, no_seed}
use structor.Seeds.Table.{layout}
use structor.Advance.{repeat, sd_line}
use structor.Chunk.{tdefs, done, row_count, Chunk, partial, line_table}
use structor.Chunk.Tiling.{partial-done}

abbrev value_at : ℕ → List Seed → ℕ
value_at i seeds = (get_or seeds i no_seed).value

line_values : ℕ → (ℕ → ℕ) → ℕ → ℕ
line_values k value i = value_at i (sd_line 1 k (layout value))

sd_line-layout : (k : ℕ) (value : ℕ → ℕ) → sd_line 1 k (layout value) ≡ layout (line_values k value)
unfolding sd_line line_values
sd_line-layout k value = refl

-- The streams of the clerk, the priority and the customer key.
abbrev pub KeepsOrderStreams : (ℕ → ℕ) → List Seed → Type 0
KeepsOrderStreams value seeds =
    (value_at 11 seeds ≡ value 11) × (value_at 38 seeds ≡ value 38) × (value_at 40 seeds ≡ value 40)

kept-KeepsOrderStreams :
    (k : ℕ) (value : ℕ → ℕ) (seeds : List Seed)
    → KeepsOrderStreams (line_values k value) seeds
    → KeepsOrderStreams value seeds
unfolding line_values sd_line
kept-KeepsOrderStreams k value seeds h = h

repeat-KeepsOrderStreams :
    (n k : ℕ) (value : ℕ → ℕ) → KeepsOrderStreams value (repeat n (sd_line 1 k) (layout value))
repeat-KeepsOrderStreams zero k value = (refl, refl, refl)
repeat-KeepsOrderStreams (suc n) k value = rw (sd_line-layout k value) (
    kept-KeepsOrderStreams k value (repeat n (sd_line 1 k) (layout (line_values k value)))
      (repeat-KeepsOrderStreams n k (line_values k value)))

-- For a positive scale in range (at most 1000 for each child, rounded down), every child of a
-- parallel load of the lineorder table starts with the streams of the clerk (11), the
-- priority (38) and the customer key (40) at the same seeds, those of the first row.
pub line-KeepsOrderStreams :
    (scale children s : ℕ) (value : ℕ → ℕ)
    → 0 < scale
    → 0 < s
    → s ≤ children
    → scale / children ≤ 1000
    → (c : Chunk) × (partial line_table scale children s (layout value) ≡ done c)
      × KeepsOrderStreams value c.seeds
unfolding tdefs
line-KeepsOrderStreams scale children s value p ps hs hc = (
  _,
  partial-done line_table scale children s (layout value) p ps hs hc,
  repeat-KeepsOrderStreams (s - 1) (row_count 1500000 scale children) value,
)
