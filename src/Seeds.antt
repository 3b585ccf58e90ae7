-- ===== src/Seeds.antt =====
-- rnd.c: the random number streams, `dss_random`, `row_start` and `row_stop`.
pub mod Range
pub mod Row
pub mod Live
pub mod Rows
pub mod Bounds
pub mod Start
pub mod Table
mod Tests
use structor.Common.{
  ℕ, ◌+◌, ◌-◌, List, [], ◌∷◌, map, ℤ, pos, negsuc, sub_ℕ, eqb_ℤ, Bool, true, false, ◌&&◌, ◌||◌, ltb,
  ◌==◌, if◌then◌else◌, get_or, modify,
}
use structor.Rng.{n_m, next_rand}
use structor.Double.{of_long, div, mul, to_long}
use structor.Skip.{nth_element}

-- `seed_t`
pub record Seed : Type 0 where
  pub table : ℤ
  pub value : ℕ
  pub usage : ℕ
  pub boundary : ℕ

abbrev pub max_stream : ℕ
max_stream = 47

-- NONE
abbrev pub no_table : ℤ
no_table = negsuc 0

abbrev pub no_seed : Seed
no_seed = record { table = no_table; value = 0; usage = 0; boundary = 0 }

-- The array `Seed`, and the streams whose counter was written behind its end.
pub record Streams : Type 0 where
  pub seeds : List Seed
  pub stray : List ℕ

-- Stream 0 is used if the stream is out of range.
abbrev pub stream_of : ℕ → ℕ
stream_of stream = if ltb max_stream stream then 0 else stream

-- The value that `UnifInt` returns for the new value of its seed.
pub scaled : ℕ → ℕ → ℕ → ℕ
scaled low high value =
    low + to_long (mul (div (of_long value) (of_long n_m)) (of_long (high - low + 1)))

-- `UnifInt`, with its swap of bounds in the wrong order. The bounds are not negative.
unfoldable pub unif_int : ℕ → ℕ → ℕ → List Seed → ℕ × List Seed
unif_int low high stream seeds =
    let i = stream_of stream in
    let value = next_rand (get_or seeds i no_seed).value in
    (
      if ltb high low then scaled high low value else scaled low high value,
      modify seeds i (λ s. record s { value = value }),
    )

-- `Seed[stream].usage += 1` is made with the stream as given, out of range or not.
abbrev pub count_usage : ℕ → Streams → Streams
count_usage stream st =
    if ltb max_stream stream
    then record st { stray = stream ∷ st.stray }
    else record st { seeds = modify st.seeds stream (λ s. record s { usage = s.usage + 1 }) }

-- `dss_random`, the macro RANDOM.
unfoldable pub dss_random : ℕ → ℕ → ℕ → Streams → ℕ × Streams
dss_random lower upper stream st =
    let (drawn, seeds) = unif_int lower upper stream st.seeds in
    (drawn, count_usage stream (record st { seeds = seeds }))

abbrev pub clear_usage : Seed → Seed
clear_usage s = record s { usage = 0 }

unfoldable pub row_start : Streams → Streams
row_start st = record st { seeds = map clear_usage st.seeds }

-- The body of the loop of `row_stop`; `child` is tdefs[t].child.
unfoldable pub stop_seed : Bool → ℤ → ℤ → Seed → Seed
stop_seed set_seeds t child s =
    if eqb_ℤ s.table t || eqb_ℤ s.table child
    then (if set_seeds && ltb s.boundary s.usage
        then record s { boundary = s.usage }
        else record s { value = nth_element (sub_ℕ s.boundary s.usage) s.value })
    else s

-- ORDER_LINE stands for ORDER, and PART_PSUPP for PART.
abbrev pub stop_table : ℕ → ℕ
stop_table t = if t == 6 then 4 else if t == 7 then 0 else t

-- `row_stop`, over the table of children.
unfoldable pub row_stop : Bool → (ℕ → ℤ) → ℕ → Streams → Streams
row_stop set_seeds child t st = record st {
  seeds = map (stop_seed set_seeds (pos (stop_table t)) (child (stop_table t))) st.seeds;
}

-- The draws that a row makes, each with its bounds and stream, and the row around them.
pub record Draw : Type 0 where
  pub lower : ℕ
  pub upper : ℕ
  pub stream : ℕ

unfoldable pub draws : List Draw → Streams → Streams
draws [] st = st
draws (d ∷ ds) st = draws ds (dss_random d.lower d.upper d.stream st).1

unfoldable pub row : Bool → (ℕ → ℤ) → ℕ → List Draw → Streams → Streams
row set_seeds child t ds st = row_stop set_seeds child t (draws ds (row_start st))
