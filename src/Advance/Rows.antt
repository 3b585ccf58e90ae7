-- ===== src/Advance/Rows.antt =====
-- Skipping rows against generating them: what a parallel chunk relies on.
use structor.Common.{
  ℕ, suc, ◌+◌, ◌*◌, ◌≤◌, ◌<◌, List, [], ◌∷◌, map, ℤ, pos, false, get_or, length, get_or-map, ◌≡◌,
  sym, ap, ◌∙◌, arith,
}
use structor.Rng.{n_m}
use structor.Skip.{nth_element}
use structor.Skip.Steps.{iterate, iterate-add, iterate_range}
use structor.Skip.Words.{nth_element-iterate}
use structor.Seeds.{Seed, Streams, Draw, max_stream, no_seed, stop_table, row}
use structor.Seeds.Row.{uncounted, row_value, row-layout, length-row}
use structor.Advance.Tables.{skip_rows}

-- The rows of a table one after another, each with its draws.
abbrev pub rows : (ℕ → ℤ) → ℕ → List (List Draw) → Streams → Streams
rows child t [] st = st
rows child t (ds ∷ rest) st = rows child t rest (row false child t ds st)

-- No row draws from a stream out of range, if seed i is the one that such draws use.
abbrev pub AllCounted : ℕ → List (List Draw) → Type 0
AllCounted i [] = Unit {0}
AllCounted i (ds ∷ rest) = (uncounted i ds ≡ 0) × (length ds < n_m) × AllCounted i rest

-- Stream i belongs to table t, and its seed is in range.
pub record OwnStream (t i : ℕ) (st : Streams) : Type 0 where
  pub small : i ≤ max_stream
  pub inside : i < length st.seeds
  pub own : (get_or st.seeds i no_seed).table ≡ pos (stop_table t)
  pub value_pos : 0 < (get_or st.seeds i no_seed).value
  pub value_lt : (get_or st.seeds i no_seed).value < n_m
  pub boundary_lt : (get_or st.seeds i no_seed).boundary < n_m

module _ (child : ℕ → ℤ) (t i : ℕ) where
  row-OwnStream :
      (ds : List Draw) (st : Streams)
      → length ds < n_m
      → OwnStream t i st
      → OwnStream t i (row false child t ds st)
  row-OwnStream ds st few o =
      let (et, eb) = row-layout child t ds i st o.small o.inside in
      let ev =
        row_value child t ds i st o.small o.inside o.own o.value_pos o.value_lt o.boundary_lt few in
      let (p, h) =
        iterate_range ((get_or st.seeds i no_seed).boundary + uncounted i ds)
          (get_or st.seeds i no_seed).value o.value_pos o.value_lt in
      record {
        small = o.small;
        inside = rw (length-row child t ds st) o.inside;
        own = et ∙ o.own;
        value_pos = rw ev p;
        value_lt = rw ev h;
        boundary_lt = rw eb o.boundary_lt;
      }

  pub rows_value :
      (rs : List (List Draw)) (st : Streams)
      → OwnStream t i st
      → AllCounted i rs
      → (get_or (rows child t rs st).seeds i no_seed).value
        ≡ iterate
            ((get_or st.seeds i no_seed).boundary * length rs)
            (get_or st.seeds i no_seed).value
  rows_value [] st o h = let e : (get_or st.seeds i no_seed).boundary * 0 ≡ 0 = omega arith in rw e
  rows_value (ds ∷ rest) st o (none_out, few, h) =
      rows_value rest (row false child t ds st) (row-OwnStream ds st few o) h
      ∙ ap (λ (c : ℕ). iterate (c * length rest) moved)
          (row-layout child t ds i st o.small o.inside).1
      ∙ ap (iterate (b * length rest)) one_row
      ∙ sym (iterate-add b (b * length rest) v)
      ∙ ap (λ (c : ℕ). iterate c v) times
    where
      b : ℕ
      b = (get_or st.seeds i no_seed).boundary

      v : ℕ
      v = (get_or st.seeds i no_seed).value

      moved : ℕ
      moved = (get_or (row false child t ds st).seeds i no_seed).value

      plus_none : b + uncounted i ds ≡ b
      plus_none = omega arith

      one_row : moved ≡ iterate b v
      one_row =
          row_value child t ds i st o.small o.inside o.own o.value_pos o.value_lt o.boundary_lt few
          ∙ ap (λ (c : ℕ). iterate c v) plus_none

      times : b + b * length rest ≡ b * suc (length rest)
      times = omega arith

-- Skipping k rows of table t moves each of its streams to where generating k rows leaves it, for any
-- draws that the rows make in range of the streams, while boundary * k is below 2^31 - 1.
pub skip_rows-rows :
    (child : ℕ → ℤ) (t i : ℕ) (rs : List (List Draw)) (st : Streams)
    → OwnStream t i st
    → AllCounted i rs
    → (get_or st.seeds i no_seed).boundary * length rs < n_m
    → (get_or (map (skip_rows (pos (stop_table t)) (length rs)) st.seeds) i no_seed).value
      ≡ (get_or (rows child t rs st).seeds i no_seed).value
skip_rows-rows child t i rs st o h fits =
    ap (λ (s : Seed). s.value)
      (get_or-map st.seeds i (skip_rows (pos (stop_table t)) (length rs)) no_seed no_seed o.inside)
    ∙ skipped
    ∙ nth_element-iterate _ _ fits o.value_pos o.value_lt
    ∙ sym (rows_value child t i rs st o h)
  where
    s : Seed
    s = get_or st.seeds i no_seed

    skipped :
        (skip_rows (pos (stop_table t)) (length rs) s).value
        ≡ nth_element (pos (s.boundary * length rs)) s.value
    skipped = rw o.own (ground arith)
