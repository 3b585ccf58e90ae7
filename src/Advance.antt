-- ===== src/Advance.antt =====
-- speed_seed.c: the functions `sd_*`, which skip the rows of earlier chunks of a table.
pub mod Lines
pub mod Rows
pub mod Tables
mod Tests
use structor.Common.{ℕ, zero, suc, ◌+◌, ◌*◌, List, pos, Bool, ◌==◌, if◌then◌else◌, get_or, modify}
use structor.Skip.{nth_element}
use structor.Seeds.{Seed, no_seed}

-- `ADVANCE_STREAM`
abbrev pub advance_stream : ℕ → ℕ → List Seed → List Seed
advance_stream stream_id num_calls seeds =
    modify seeds stream_id (λ s. record s { value = nth_element (pos num_calls) s.value })

-- `FAKE_V_STR`, whose first argument is not used.
abbrev pub fake_v_str : ℕ → ℕ → List Seed → List Seed
fake_v_str sd cnt seeds = advance_stream sd ((get_or seeds sd no_seed).boundary * cnt) seeds

-- `for (i = first; i < first + n; i++) ADVANCE_STREAM(i, num_calls)`
abbrev pub advance_range : ℕ → ℕ → ℕ → List Seed → List Seed
advance_range first zero num_calls seeds = seeds
advance_range first (suc n) num_calls seeds =
    advance_range (first + 1) n num_calls (advance_stream first num_calls seeds)

-- A body repeated n times.
abbrev pub repeat : ℕ → (List Seed → List Seed) → List Seed → List Seed
repeat zero body seeds = seeds
repeat (suc n) body seeds = repeat n body (body seeds)

pub sd_part : ℕ → List Seed → List Seed
sd_part skip_count seeds =
    let s1 = advance_range 0 5 skip_count seeds in
    let s2 = fake_v_str 6 skip_count s1 in advance_stream 37 (skip_count * 92) s2

-- O_LCNT_MAX is 7; the link to the order streams is made for `child == 1`.
unfoldable pub sd_line : ℕ → ℕ → List Seed → List Seed
sd_line child skip_count seeds =
    let s1 = repeat 7 (advance_range 14 11 skip_count) seeds in
    let s2 = fake_v_str 25 skip_count s1 in
    let s3 = advance_stream 43 skip_count (advance_stream 13 skip_count s2) in
    if child == 1 then s3 else s2

pub sd_order : ℕ → List Seed → List Seed
sd_order skip_count seeds =
    let s1 = advance_stream 43 skip_count seeds in
    let s2 = advance_stream 40 skip_count s1 in
    let s3 = fake_v_str 12 skip_count s2 in
    let s4 = advance_stream 10 skip_count s3 in
    let s5 = advance_stream 11 skip_count s4 in
    let s6 = advance_stream 38 skip_count s5 in advance_stream 13 skip_count s6

pub sd_psupp : ℕ → List Seed → List Seed
sd_psupp skip_count seeds =
    let s1 = repeat 4 (λ s. advance_stream 8 skip_count (advance_stream 7 skip_count s)) seeds in
    fake_v_str 9 skip_count s1

pub sd_cust : ℕ → List Seed → List Seed
sd_cust skip_count seeds =
    let s1 = fake_v_str 26 skip_count seeds in
    let s2 = fake_v_str 31 skip_count s1 in
    let s3 = advance_stream 27 skip_count s2 in
    let s4 = advance_stream 28 (3 * skip_count) s3 in
    let s5 = advance_stream 29 skip_count s4 in advance_stream 30 skip_count s5

pub sd_supp : ℕ → List Seed → List Seed
sd_supp skip_count seeds =
    let s1 = advance_stream 33 skip_count seeds in
    let s2 = advance_stream 34 (3 * skip_count) s1 in
    let s3 = advance_stream 35 skip_count s2 in
    let s4 = fake_v_str 32 skip_count s3 in
    let s5 = fake_v_str 36 skip_count s4 in
    let s6 = advance_stream 46 skip_count s5 in
    let s7 = advance_stream 44 skip_count s6 in
    let s8 = advance_stream 47 skip_count s7 in advance_stream 45 skip_count s8
