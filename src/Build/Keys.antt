-- ===== src/Build/Keys.antt =====
-- The sparse order keys.
pub mod Sparse
use structor.Common.{ℕ, ◌+◌, ◌*◌, ◌/◌, ◌%◌, ◌^◌, ltb, leb, ◌&&◌, if◌then◌else◌, Option, none, some}
use structor.Bcd.{Words, bin_bcd2, bcd2_bin, bcd2_add, bcd2_mul, bcd2_div}

abbrev pub sparse_keep : ℕ
sparse_keep = 3

abbrev pub sparse_bits : ℕ
sparse_bits = 2

abbrev pub max_32b_scale : ℕ
max_32b_scale = 1000

-- `ez_sparse`, in the low word; no shift overflows a 64-bit long for i below 2^58.
unfoldable pub ez_sparse : ℕ → ℕ → Words
ez_sparse i seq =
    let low_bits = i % 2 ^ sparse_keep in
    record {
      low = (i / 2 ^ sparse_keep * 2 ^ sparse_bits + seq) * 2 ^ sparse_keep + low_bits;
      high = 0;
    }

-- `hd_sparse`, which takes the low bits from the packed decimal digits.
unfoldable pub hd_sparse : ℕ → ℕ → Words
hd_sparse i seq =
    let base = bin_bcd2 i in
    let divided = (bcd2_div base (2 ^ sparse_keep)).1 in
    let shifted = (bcd2_mul divided (2 ^ sparse_bits)).1 in
    let added = (bcd2_add shifted seq).1 in
    let kept = (bcd2_mul added (2 ^ sparse_keep)).1 in
    let res = (bcd2_add kept (base.low % 2 ^ sparse_keep)).1 in
    record { low = bcd2_bin res.low; high = bcd2_bin res.high }

-- `mk_sparse`
unfoldable pub mk_sparse : ℕ → ℕ → ℕ → Words
mk_sparse scale i seq = if ltb scale max_32b_scale then ez_sparse i seq else hd_sparse i seq

-- The sequence number that `mk_order` passes; none where an update divides by zero, which refresh does for
-- 0 and 10000 / refresh for more than 10000.
unfoldable pub update_seq : ℕ → ℕ → Option ℕ
update_seq refresh upd_num =
    if ltb 0 upd_num
    then (if ltb 0 refresh && leb refresh 10000
        then some (1 + upd_num / (10000 / refresh))
        else none)
    else some 0
