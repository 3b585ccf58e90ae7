-- ===== src/Chunk.antt =====
-- The parallel load: `set_state` of bm_utils.c, `partial` of driver.c, and the table definitions
-- `tdefs` of the star schema benchmark.
pub mod Tiling
pub mod Resume
mod Tests
pub mod Dates
pub mod Lines
use structor.Common.{
  ℕ, zero, suc, ◌+◌, ◌-◌, ◌*◌, ◌/◌, ◌%◌, List, ℤ, pos, negsuc, Bool, ltb, leb, ◌==◌, ◌||◌,
  if◌then◌else◌, Option, none, some,
}
use structor.Seeds.{Seed, no_table}
use structor.Advance.{repeat, sd_part, sd_supp, sd_cust, sd_line}

-- The fields of `tdef` that the load uses; no table of the star schema has a child.
pub record Tdef : Type 0 where
  pub base : ℕ
  pub gen_seed : Option (ℕ → ℕ → List Seed → List Seed)

abbrev pub supp_table : ℕ
supp_table = 2

abbrev pub cust_table : ℕ
cust_table = 3

abbrev pub date_table : ℕ
date_table = 4

abbrev pub line_table : ℕ
line_table = 5

-- `tdefs`, with the base of the lineorder table after `main` has multiplied it by ORDERS_PER_CUST.
unfoldable pub tdefs : ℕ → Tdef
tdefs t =
    if t == 0
    then record { base = 200000; gen_seed = some (λ child k s. sd_part k s) }
    else if t == supp_table
    then record { base = 2000; gen_seed = some (λ child k s. sd_supp k s) }
    else if t == cust_table
    then record { base = 30000; gen_seed = some (λ child k s. sd_cust k s) }
    else if t == date_table
    then record { base = 2556; gen_seed = none }
    else if t == line_table
    then record { base = 150000 * 10; gen_seed = some sd_line }
    else record { base = 0; gen_seed = none }

-- `scale_overflow` stands for the abort of INTERNAL_ERROR, `undefined` for the call of gen_seed with one
-- argument that is made for a step behind the last.
pub data Outcome {ℓ} (A : Type ℓ) : Type ℓ where
  done : A → Outcome A
  scale_overflow undefined : Outcome A

infixl 5 ◌>>=◌
abbrev pub ◌>>=◌ {ℓ κ} : {A : Type ℓ} {B : Type κ} → Outcome A → (A → Outcome B) → Outcome B
done a >>= f = f a
scale_overflow >>= f = scale_overflow
undefined >>= f = undefined

-- What `set_state` returns, leaves in *extra_rows and does to the seeds. Before it is called
-- *extra_rows is not set, which is the none.
pub record State : Type 0 where
  pub rows : ℕ
  pub extra_rows : Option ℕ
  pub seeds : List Seed

abbrev pub remainder : ℕ → ℕ → ℕ → ℕ
remainder base sf procs = base % procs * sf

-- The rows of one child.
unfoldable pub row_count : ℕ → ℕ → ℕ → ℕ
row_count base sf procs = base / procs * sf + remainder base sf procs / procs

unfoldable pub extra_count : ℕ → ℕ → ℕ → ℕ
extra_count base sf procs = remainder base sf procs % procs

-- One round of the loop of `set_state`.
abbrev pub skip_chunk : ℕ → ℕ → List Seed → List Seed
skip_chunk t rowcount seeds = elim (tdefs t).gen_seed [
  | some gen ↦ gen (if t == line_table then 1 else 0) rowcount seeds
  | none ↦ seeds
]

unfoldable pub set_state : ℕ → ℕ → ℕ → ℕ → List Seed → Outcome State
set_state t sf procs step seeds =
    let base = (tdefs t).base in
    let rowcount = row_count base sf procs in
    let skipped = repeat (step - 1) (skip_chunk t rowcount) seeds in
    if sf == 0 || step == 0
    then done (record { rows = 0; extra_rows = none; seeds = seeds })
    else if ltb 1000 (sf / procs)
    then scale_overflow
    else if ltb procs step
    then undefined
    else done
        (record { rows = rowcount; extra_rows = some (extra_count base sf procs); seeds = skipped })

-- The call of `gen_tbl` that `partial` makes: the first row, the number of rows and the seeds.
pub record Chunk : Type 0 where
  pub start : ℕ
  pub count : ℕ
  pub seeds : List Seed

-- The rows of `gen_tbl` for the last child, which takes those left over, and for the others.
abbrev pub last_chunk : ℕ → State → Outcome Chunk
last_chunk s st = elim st.extra_rows [
  | some extra ↦
      done (record { start = st.rows * (s - 1) + 1; count = st.rows + extra; seeds = st.seeds })
  | none ↦ undefined
]

abbrev pub inner_chunk : ℕ → State → Outcome Chunk
inner_chunk s st =
    done (record { start = st.rows * (s - 1) + 1; count = st.rows; seeds = st.seeds })

unfoldable pub partial : ℕ → ℕ → ℕ → ℕ → List Seed → Outcome Chunk
partial t scale children s seeds = do
  st ← set_state t scale children s seeds
  if s == children then last_chunk s st else inner_chunk s st
