-- ===== src/Drange.antt =====
-- `pr_drange` of print.c: the delete file of an update, without the segments of `delete_segments`. The
-- keys are those of the macro MK_SPARSE of dss.h.
pub mod Covers
mod Tests
use structor.Common.{
  ℕ, zero, suc, ◌+◌, ◌-◌, ◌*◌, ◌/◌, ◌%◌, ◌^◌, List, [], ◌∷◌, Bool, ◌&&◌, ◌==◌, ltb, leb,
  if◌then◌else◌, Option, none, some,
}

-- MK_SPARSE of a key below 2^31, in a long, where it does not overflow; the parts that it joins with
-- `|` have no bit in common.
abbrev pub mk_sparse_long : ℕ → ℕ → ℕ
mk_sparse_long key seq = (key / 2 ^ 3 * 2 ^ 2 + seq % 4) * 2 ^ 3 + key % 8

-- A line of the file: a key, the ends of a range, or the deletes of a range from both tables.
pub data Entry : Type 0 where
  key_line : ℕ → Entry
  range_line : ℕ → ℕ → Entry
  delete_sql : ℕ → ℕ → Entry

-- What is printed where a range ends before the key `new`.
abbrev pub entry : Bool → Bool → ℕ → ℕ → ℕ → Entry
entry gen_rng gen_sql start last new =
    if gen_sql
    then delete_sql start last
    else if gen_rng
    then range_line start last
    else key_line new

-- The loop over the rows from `child` on, and the range behind it.
unfoldable pub drange_loop : Bool → Bool → ℕ → ℕ → ℕ → ℕ → ℕ → List Entry
drange_loop gen_rng gen_sql seq zero child start last =
    if gen_rng then range_line start last ∷ [] else []
drange_loop gen_rng gen_sql seq (suc cnt) child start last =
    let new = mk_sparse_long child seq in
    let joined = drange_loop gen_rng gen_sql seq cnt (child + 1) start new in
    let parted = drange_loop gen_rng gen_sql seq cnt (child + 1) new new in
    if gen_rng && new == last + 1 then joined else entry gen_rng gen_sql start last new ∷ parted

-- `pr_drange`, for `min` and `num` from 1 on: none where 10000 / refresh is no divisor, and where `child`,
-- an int that counts on from `min`, overflows.
unfoldable pub pr_drange : Bool → Bool → ℕ → ℕ → ℕ → ℕ → Option (List Entry)
pr_drange gen_rng gen_sql refresh min cnt num =
    let seq = (num - 1) / (10000 / refresh) in
    let start = mk_sparse_long min seq in
    if (ltb 0 refresh && leb refresh 10000) && ltb (min + cnt) (2 ^ 31)
    then some (drange_loop gen_rng gen_sql seq cnt min start (start - 1))
    else none
