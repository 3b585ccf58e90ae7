-- ===== src/Advance/Tables.antt =====
-- The `sd_*` functions on the array of rnd.h: which streams they move, and by how much.
use native.Mathlib.Nat.{mul_comm}
use structor.Common.{ℕ, ◌*◌, map, ℤ, pos, eqb_ℤ, if◌then◌else◌, ◌≡◌, arith}
use structor.Skip.{nth_element}
use structor.Seeds.{Seed}
use structor.Seeds.Table.{layout, cust, supp, part}
use structor.Advance.{sd_cust, sd_supp, sd_part}

-- The streams of table t moved by the boundaries of k rows, and no other.
abbrev pub skip_rows : ℤ → ℕ → Seed → Seed
skip_rows t k s =
    if eqb_ℤ s.table t then record s { value = nth_element (pos (s.boundary * k)) s.value } else s

one_row : (k : ℕ) → 1 * k ≡ k
one_row k = omega arith

-- `sd_cust` moves every stream of the customer table by the boundaries of the skipped rows.
pub sd_cust-skip_rows :
    (k : ℕ) (value : ℕ → ℕ) → sd_cust k (layout value) ≡ map (skip_rows cust k) (layout value)
unfolding sd_cust
sd_cust-skip_rows k value = simp one_row

pub sd_supp-skip_rows :
    (k : ℕ) (value : ℕ → ℕ) → sd_supp k (layout value) ≡ map (skip_rows supp k) (layout value)
unfolding sd_supp
sd_supp-skip_rows k value = simp one_row

-- `sd_part` for k rows moves every stream of the part table by its boundary for each row, and no other
-- stream.
pub sd_part-skip_rows :
    (k : ℕ) (value : ℕ → ℕ) → sd_part k (layout value) ≡ map (skip_rows part k) (layout value)
unfolding sd_part
sd_part-skip_rows k value = simp (one_row, mul_comm k 92)
