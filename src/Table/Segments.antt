-- ===== src/Table/Segments.antt =====
-- How the rows of an update are cut into segments.
use structor.Common.{
  ℕ, zero, suc, ◌+◌, ◌-◌, ◌*◌, ◌/◌, ◌%◌, ◌≤◌, ◌<◌, ltb, leb, if◌then◌else◌, Bool-cases, inl, inr,
  true, false, ◌≡◌, refl, ap, ◌∙◌, arith,
}
use native.Mathlib.Nat.{div-add-mod, mod-lt}
use structor.Table.{Segment, next_segment, rows_per_segment, residual_rows}

-- The rows that segment k gets, and those that the k segments before it get.
abbrev pub size_of : ℕ → ℕ → ℕ → ℕ
size_of per residual k = if ltb k residual then per + 1 else per

abbrev pub rows_before : ℕ → ℕ → ℕ → ℕ
rows_before per residual zero = 0
rows_before per residual (suc k) = rows_before per residual k + size_of per residual k

-- The segments after n rows.
abbrev pub segment_after : ℕ → ℕ → ℕ → Segment → Segment
segment_after per residual zero s = s
segment_after per residual (suc n) s = next_segment per residual (segment_after per residual n s)

-- The state between two rows: n rows are done, the last of them in segment k.
record InSegment (per residual u n k : ℕ) (s : Segment) : Type 0 where
  number : s.upd_num ≡ u + 10000 * k
  place : n ≡ rows_before per residual k + s.rows
  fits : s.rows ≤ size_of per residual k

-- A segment is full when it has all its rows.
is_full :
    (per residual k rows : ℕ)
    → rows ≤ size_of per residual k
    → (if ltb k residual then ltb per rows else leb per rows) ≡ leb (size_of per residual k) rows
is_full per residual k rows h = elim (Bool-cases (ltb k residual)) [
  | inl early ↦ rw early (ground arith)
  | inr late ↦ rw late refl
]

size_of-positive : (per residual k : ℕ) → 1 ≤ per → 1 ≤ size_of per residual k
size_of-positive per residual k h = ground arith

next_segment-InSegment :
    (per residual u n k : ℕ) (s : Segment)
    → 1 ≤ per
    → u < 10000
    → InSegment per residual u n k s
    → (k' : ℕ) × InSegment per residual u (n + 1) k' (next_segment per residual s)
      × (1 ≤ (next_segment per residual s).rows)
unfolding next_segment
next_segment-InSegment per residual u n k s hper small inside =
    let index : s.upd_num / 10000 ≡ k = omega (arith, inside.number) in
    rw (index, is_full per residual k s.rows inside.fits)
      (elim (Bool-cases (leb (size_of per residual k) s.rows)) [
        | inl full ↦ rw full (
          suc k,
          record {
            number = omega (arith, inside.number);
            place = ground (arith, inside.place, inside.fits, full);
            fits = size_of-positive per residual (suc k) hper;
          },
          omega arith,
        )
        | inr room ↦ rw room (
          k,
          record {
            number = inside.number;
            place = omega (arith, inside.place);
            fits = ground (arith, room);
          },
          omega arith,
        )
      ])

segment_after-InSegment :
    (per residual u n : ℕ)
    → 1 ≤ per
    → u < 10000
    → (k : ℕ) × InSegment per residual u n k
        (segment_after per residual n (record { rows = 0; upd_num = u }))
segment_after-InSegment per residual u zero hper small =
    (0, record { number = omega arith; place = omega arith; fits = omega arith })
segment_after-InSegment per residual u (suc n) hper small =
    let (k, inside) = segment_after-InSegment per residual u n hper small in
    let (k', next, some_rows) = next_segment-InSegment per residual u n k _ hper small inside in
    (k', record { number = next.number; place = omega (arith, next.place); fits = next.fits })

-- With at least one row a segment, the row after n others of an update with number u below 10000
-- goes to the segment k of number u + 10000 k that has its place: rows_before k ≤ n < rows_before (k + 1).
pub segment_after-rows :
    (per residual u n : ℕ)
    → 1 ≤ per
    → u < 10000
    → (k : ℕ) × ((segment_after per residual (suc n) (record { rows = 0; upd_num = u })).upd_num
        ≡ u + 10000 * k)
      × (rows_before per residual k ≤ n)
      × (n < rows_before per residual (suc k))
segment_after-rows per residual u n hper small =
    let before = segment_after per residual n (record { rows = 0; upd_num = u }) in
    let (k, inside) = segment_after-InSegment per residual u n hper small in
    let (k', next, some_rows) =
      next_segment-InSegment per residual u n k before hper small inside in
    (k', next.number, omega (arith, next.place, some_rows), omega (arith, next.place, next.fits))

-- The rows before the end of the last segment are all the rows.
rows_before-residual :
    (per residual k : ℕ) → k ≤ residual → rows_before per residual k ≡ k * (per + 1)
rows_before-residual per residual zero h = omega arith
rows_before-residual per residual (suc k) h =
    let early : ltb k residual ≡ true = ground arith in
    rw early (omega (arith, rows_before-residual per residual k (omega arith)))

rows_before-rest :
    (per residual n : ℕ) → rows_before per residual (residual + n) ≡ residual * (per + 1) + n * per
rows_before-rest per residual zero =
    let e : residual + 0 ≡ residual = omega arith in
    rw e (rows_before-residual per residual residual (omega arith) ∙ omega arith)
rows_before-rest per residual (suc n) =
    let e : residual + suc n ≡ suc (residual + n) = omega arith in
    let late : ltb (residual + n) residual ≡ false = ground arith in
    rw e (rw late (omega (arith, rows_before-rest per residual n)))

-- For at least one segment, the rows before the end of the last segment are all the rows of the update.
pub rows_before-count :
    (count segments : ℕ)
    → 0 < segments
    → rows_before (rows_per_segment count segments) (residual_rows count segments) segments ≡ count
rows_before-count count segments h =
    let split : segments ≡ residual + rest = omega (arith, residual_mod, mod-lt count h) in
    ap (rows_before per residual) split
    ∙ rows_before-rest per residual rest
    ∙ omega (arith, div-add-mod count segments, residual_mod, ap (λ (t : ℕ). t * per) split)
  where
    per : ℕ
    per = rows_per_segment count segments

    residual : ℕ
    residual = residual_rows count segments

    rest : ℕ
    rest = segments - residual

    residual_mod : residual ≡ count % segments
    residual_mod = omega (arith, div-add-mod count segments)
