-- ===== src/Load/Seeds.antt =====
-- The seeds of the customer table: a child's after `sd_cust`, and a serial run's after as many rows.
use native.Mathlib.Nat.{mul-le-mul_right}
use structor.Common.{
  ℕ, ◌*◌, ◌≤◌, ◌<◌, List, [], ◌∷◌, length, length-map, get_or, get_or-map, true, false, pos, ◌≡◌,
  ◌⊎◌, inl, inr, refl, sym, ap, ◌∙◌, arith,
}
use structor.Rng.{n_m}
use structor.Seeds.{Seed, Streams, Draw, no_seed, max_stream, clear_usage, row_start, row}
use structor.Seeds.Row.{seed_at, row-layout, length-row}
use structor.Seeds.Live.{Live}
use structor.Seeds.Table.{layout}
use structor.Seeds.Bounds.{cust_boundary}
use structor.Advance.{repeat, sd_cust}
use structor.Advance.Tables.{sd_cust-skip_rows}
use structor.Advance.Rows.{rows, OwnStream}
use structor.Chunk.{cust_table}
use structor.Chunk.Resume.{
  streams, value_at, IsSeeded, skipped_values, chunks-layout, get_or-clear, sd_cust-rows,
}
use structor.Dist.Agree.{Sim}
use structor.Build.Parties.Agree.{cust_streams}
use structor.Table.{child_of}
use structor.Table.Runs.{AllShort, AllShort-counted}

pub streams-Live : (value : ℕ → ℕ) → IsSeeded value → Live (streams value)
streams-Live value seeded = (refl, λ i h. seeded i (omega arith))

pub sd_cust-layout :
    (n k : ℕ) (value : ℕ → ℕ)
    → IsSeeded value
    → 324 * k < n_m
    → (w : ℕ → ℕ) × (repeat n (sd_cust k) (layout value) ≡ layout w) × IsSeeded w
sd_cust-layout n k value live fits =
    chunks-layout 3 sd_cust sd_cust-skip_rows (λ k v. unfold skipped_values in refl) n k value live
      (λ i h own. omega (arith, mul-le-mul_right k (cust_boundary value i h own)))

one_of : (i : ℕ) → cust_streams i ≡ true → (i ≡ 26) ⊎ ((i ≡ 27) ⊎ ((i ≡ 28) ⊎ (i ≡ 30)))
one_of i on = ground arith

cust_streams-own :
    (value : ℕ → ℕ) (i : ℕ)
    → cust_streams i ≡ true
    → (get_or (layout value) i no_seed).table ≡ pos 3
cust_streams-own value i on = elim (one_of i on) [
  | inl e ↦ rw e refl
  | inr (inl e) ↦ rw e refl
  | inr (inr (inl e)) ↦ rw e refl
  | inr (inr (inr e)) ↦ rw e refl
]

rows-layout :
    (t i : ℕ) (rs : List (List Draw)) (st : Streams)
    → i ≤ max_stream
    → i < length st.seeds
    → ((seed_at i (rows child_of t rs st)).table ≡ (seed_at i st).table)
      × ((seed_at i (rows child_of t rs st)).boundary ≡ (seed_at i st).boundary)
rows-layout t i [] st h inside = (refl, refl)
rows-layout t i (ds ∷ rs) st h inside =
    let next = row-layout child_of t ds i st h inside in
    let (et, eb) =
      rows-layout t i rs (row false child_of t ds st) h (rw (length-row child_of t ds st) inside) in
    (et ∙ next.0, eb ∙ next.1)

length-rows :
    (t : ℕ) (rs : List (List Draw)) (st : Streams)
    → length (rows child_of t rs st).seeds ≡ length st.seeds
length-rows t [] st = refl
length-rows t (ds ∷ rs) st =
    length-rows t rs (row false child_of t ds st) ∙ length-row child_of t ds st

clear_same :
    (s s' : Seed)
    → s.table ≡ s'.table
    → s.boundary ≡ s'.boundary
    → s.value ≡ s'.value
    → clear_usage s ≡ clear_usage s'
clear_same s s' et eb ev = rw (et, eb, ev) refl

-- Behind as many rows as n chunks of k have, the next row of both runs starts with the same seeds on
-- the streams of the customers.
pub rows-Sim :
    (n k : ℕ) (value w : ℕ → ℕ) (rs : List (List Draw))
    → IsSeeded value
    → 324 * k < n_m
    → repeat n (sd_cust k) (layout value) ≡ layout w
    → length rs ≡ k * n
    → AllShort rs
    → Sim cust_streams
        (row_start (rows child_of cust_table rs (streams value)))
        (row_start (streams w))
unfolding row_start
rows-Sim n k value w rs seeded fits e len short = record {
  size = length-map _ clear_usage ∙ length-rows cust_table rs (streams value);
  size' = refl;
  same = λ i h on.
      let own = cust_streams-own value i on in
      let (et, eb) = rows-layout cust_table i rs (streams value) h (omega arith) in
      let like = get_or-clear value w i (omega arith) in
      let positive : 0 < i = ground arith in
      get_or-map (rows child_of cust_table rs (streams value)).seeds i clear_usage no_seed no_seed
        (omega (arith, length-rows cust_table rs (streams value)))
      ∙ clear_same (seed_at i (rows child_of cust_table rs (streams value)))
          (get_or (layout w) i no_seed) (et ∙ ap (λ (s : Seed). s.table) like)
          (eb ∙ ap (λ (s : Seed). s.boundary) like)
          (sym (
              sd_cust-rows child_of k n i value rs len (owned i h own)
                (AllShort-counted i rs positive short)
                (omega (arith, mul-le-mul_right k (cust_boundary value i (omega arith) own))))
            ∙ ap (value_at i) e)
      ∙ sym (get_or-map (layout w) i clear_usage no_seed no_seed (omega arith));
}
  where
    owned :
        (i : ℕ)
        → i ≤ max_stream
        → (get_or (layout value) i no_seed).table ≡ pos 3
        → OwnStream cust_table i (streams value)
    owned i h own = record {
      small = h;
      inside = omega arith;
      own = own;
      value_pos = (seeded i (omega arith)).0;
      value_lt = (seeded i (omega arith)).1;
      boundary_lt = omega (arith, cust_boundary value i (omega arith) own);
    }
