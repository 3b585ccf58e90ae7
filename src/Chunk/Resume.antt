-- ===== src/Chunk/Resume.antt =====
-- A child resumes the streams of its table where a serial run stands at the child's first row.
use structor.Common.{
  ℕ, zero, suc, ◌+◌, ◌-◌, ◌*◌, ◌/◌, ◌≤◌, ◌<◌, List, [], map, ℤ, pos, negsuc, eqb_ℤ, true,
  Bool-cases, inl, inr, length, get_or, get_or-map, ◌≡◌, refl, sym, ap, ◌∙◌, arith,
}
use structor.Rng.{n_m}
use structor.Skip.{nth_element}
use structor.Skip.Steps.{iterate, iterate-add, iterate_range}
use structor.Skip.Words.{nth_element-iterate}
use structor.Seeds.{Seed, Streams, Draw, no_seed}
use structor.Seeds.Table.{layout}
use structor.Advance.{repeat, sd_cust, sd_supp}
use structor.Advance.Tables.{skip_rows, sd_cust-skip_rows, sd_supp-skip_rows}
use structor.Advance.Rows.{OwnStream, AllCounted, rows, rows_value}
use structor.Chunk.{tdefs, done, row_count, Chunk, partial, cust_table, supp_table}
use structor.Chunk.Tiling.{partial-done}

abbrev pub streams : (ℕ → ℕ) → Streams
streams value = record { seeds = layout value; stray = [] }

abbrev pub value_at : ℕ → List Seed → ℕ
value_at i seeds = (get_or seeds i no_seed).value

-- The values after k rows of table t are skipped.
unfoldable pub skipped_values : ℕ → ℕ → (ℕ → ℕ) → ℕ → ℕ
skipped_values t k value i = value_at i (map (skip_rows (pos t) k) (layout value))

-- The tables and boundaries of the array do not depend on its values.
abbrev pub clear_value : Seed → Seed
clear_value s = record s { value = 0 }

clear-layout : (v w : ℕ → ℕ) → map clear_value (layout v) ≡ map clear_value (layout w)
clear-layout v w = refl

pub get_or-clear :
    (v w : ℕ → ℕ) (i : ℕ)
    → i < 48
    → clear_value (get_or (layout v) i no_seed) ≡ clear_value (get_or (layout w) i no_seed)
get_or-clear v w i h =
    sym (get_or-map (layout v) i clear_value no_seed no_seed h)
    ∙ ap (λ (xs : List Seed). get_or xs i no_seed) (clear-layout v w)
    ∙ get_or-map (layout w) i clear_value no_seed no_seed h

-- Every seed is one that NextRand keeps moving.
abbrev pub IsSeeded : (ℕ → ℕ) → Type 0
IsSeeded value =
    (i : ℕ) → i < 48 → (0 < value_at i (layout value)) × (value_at i (layout value) < n_m)

eqb_ℤ-pos : (a : ℤ) (t : ℕ) → eqb_ℤ a (pos t) ≡ true → a ≡ pos t
eqb_ℤ-pos (pos n) t e = ap pos (ground arith)
eqb_ℤ-pos (negsuc n) t e = absurd (ground arith)

-- A table whose `gen_seed` moves its streams by the boundaries of the skipped rows.
module _ (t : ℕ) (gen : ℕ → List Seed → List Seed)
    (law : (k : ℕ) (value : ℕ → ℕ)
      → gen k (layout value) ≡ map (skip_rows (pos t) k) (layout value))
    (closed : (k : ℕ) (value : ℕ → ℕ)
      → map (skip_rows (pos t) k) (layout value) ≡ layout (skipped_values t k value)) where
  one_chunk :
      (k i : ℕ) (value : ℕ → ℕ)
      → i < 48
      → (get_or (layout value) i no_seed).table ≡ pos t
      → 0 < value_at i (layout value)
      → value_at i (layout value) < n_m
      → (get_or (layout value) i no_seed).boundary * k < n_m
      → value_at i (layout (skipped_values t k value))
        ≡ iterate ((get_or (layout value) i no_seed).boundary * k) (value_at i (layout value))
  one_chunk k i value h own p m fits =
      ap (value_at i) (sym (closed k value))
      ∙ ap (λ (s : Seed). s.value)
          (get_or-map (layout value) i (skip_rows (pos t) k) no_seed no_seed h)
      ∙ moved
      ∙ nth_element-iterate _ _ fits p m
    where
      s : Seed
      s = get_or (layout value) i no_seed

      moved : (skip_rows (pos t) k s).value ≡ nth_element (pos (s.boundary * k)) s.value
      moved = rw own (ground arith)

  -- The chunks before child n + 1 move a stream by all their rows.
  chunks :
      (n k i b : ℕ) (value : ℕ → ℕ)
      → i < 48
      → (get_or (layout value) i no_seed).table ≡ pos t
      → (get_or (layout value) i no_seed).boundary ≡ b
      → 0 < value_at i (layout value)
      → value_at i (layout value) < n_m
      → b * k < n_m
      → value_at i (repeat n (gen k) (layout value))
        ≡ iterate (b * (k * n)) (value_at i (layout value))
  chunks zero k i b value h own e p m fits = let none : b * (k * zero) ≡ 0 = omega arith in rw none
  chunks (suc n) k i b value h own e p m fits =
      ap (λ (xs : List Seed). value_at i (repeat n (gen k) xs)) (law k value ∙ closed k value)
      ∙ chunks n k i b next h (ap (λ (s : Seed). s.table) (get_or-clear next value i h) ∙ own)
          (ap (λ (s : Seed). s.boundary) (get_or-clear next value i h) ∙ e)
          (rw one (iterate_range (b * k) (value_at i (layout value)) p m).0)
          (rw one (iterate_range (b * k) (value_at i (layout value)) p m).1) fits
      ∙ ap (iterate (b * (k * n))) one
      ∙ sym (iterate-add (b * k) (b * (k * n)) (value_at i (layout value)))
      ∙ ap (λ (c : ℕ). iterate c (value_at i (layout value))) count
    where
      next : ℕ → ℕ
      next = skipped_values t k value

      one : value_at i (layout next) ≡ iterate (b * k) (value_at i (layout value))
      one =
          one_chunk k i value h own p m (rw e fits)
          ∙ ap (λ (c : ℕ). iterate (c * k) (value_at i (layout value))) e

      count : b * k + b * (k * n) ≡ b * (k * suc n)
      count = omega arith

  -- The chunks leave an array of the same tables and boundaries, with its values in range.
  pub chunks-layout :
      (n k : ℕ) (value : ℕ → ℕ)
      → IsSeeded value
      → ((i : ℕ)
          → i < 48
          → (get_or (layout value) i no_seed).table ≡ pos t
          → (get_or (layout value) i no_seed).boundary * k < n_m)
      → (w : ℕ → ℕ) × (repeat n (gen k) (layout value) ≡ layout w) × IsSeeded w
  chunks-layout zero k value live fits = (value, refl, live)
  chunks-layout (suc n) k value live fits =
      let next = skipped_values t k value in
      let (w, e, live') =
        chunks-layout n k next (λ i h. in_range i h)
          (λ i h own.
            rw (ap (λ (s : Seed). s.boundary) (get_or-clear next value i h))
              (fits i h (sym (ap (λ (s : Seed). s.table) (get_or-clear next value i h)) ∙ own))) in
      (w, ap (repeat n (gen k)) (law k value ∙ closed k value) ∙ e, live')
    where
      in_range :
          (i : ℕ)
          → i < 48
          → (0 < value_at i (layout (skipped_values t k value)))
            × (value_at i (layout (skipped_values t k value)) < n_m)
      in_range i h = elim (Bool-cases (eqb_ℤ (get_or (layout value) i no_seed).table (pos t))) [
        | inl own ↦
            let e = eqb_ℤ-pos _ t own in
            rw (one_chunk k i value h e (live i h).0 (live i h).1 (fits i h e)) (
              iterate_range ((get_or (layout value) i no_seed).boundary * k)
                (value_at i (layout value)) (live i h).0 (live i h).1)
        | inr other ↦
            rw
              (ap (value_at i) (sym (closed k value))
                ∙ ap (λ (s : Seed). s.value)
                    (get_or-map (layout value) i (skip_rows (pos t) k) no_seed no_seed h))
              (rw other (live i h))
      ]

-- The chunk of a child starts behind the rows `rs` that a serial run makes before it, with stream i
-- where those rows leave it.
abbrev pub Resumes : (ℕ → ℤ) → ℕ → ℕ → ℕ → ℕ → (ℕ → ℕ) → List (List Draw) → ℕ → Type 0
Resumes child t scale children s value rs i =
    (c : Chunk) × (partial t scale children s (layout value) ≡ done c)
    × (c.start ≡ length rs + 1)
    × (value_at i c.seeds ≡ value_at i (rows child t rs (streams value)).seeds)

-- What `sd_cust` leaves to child s is what the rows before it leave.
pub sd_cust-rows :
    (child : ℕ → ℤ) (k n i : ℕ) (value : ℕ → ℕ) (rs : List (List Draw))
    → length rs ≡ k * n
    → OwnStream cust_table i (streams value)
    → AllCounted i rs
    → (get_or (layout value) i no_seed).boundary * k < n_m
    → value_at i (repeat n (sd_cust k) (layout value))
      ≡ value_at i (rows child cust_table rs (streams value)).seeds
sd_cust-rows child k n i value rs len o all fits =
    chunks 3 sd_cust sd_cust-skip_rows (λ k v. unfold skipped_values in refl) n k i b value o.inside
      o.own refl o.value_pos o.value_lt fits
    ∙ ap (λ (n : ℕ). iterate (b * n) (value_at i (layout value))) (sym len)
    ∙ sym (rows_value child cust_table i rs (streams value) o all)
  where
    b : ℕ
    b = (get_or (layout value) i no_seed).boundary

-- A stream of the customer table at child s, for a scale in range: when fewer than 2^31 - 1 steps are
-- skipped for one chunk, and the rows before the child make no draw out of range that this stream
-- pays for, the child starts at the row after them and with the seed that they leave.
pub cust-Resumes :
    (child : ℕ → ℤ) (scale children s i : ℕ) (value : ℕ → ℕ) (rs : List (List Draw))
    → 0 < scale
    → 0 < s
    → s ≤ children
    → scale / children ≤ 1000
    → length rs ≡ row_count 30000 scale children * (s - 1)
    → OwnStream cust_table i (streams value)
    → AllCounted i rs
    → (get_or (layout value) i no_seed).boundary * row_count 30000 scale children < n_m
    → Resumes child cust_table scale children s value rs i
unfolding tdefs
cust-Resumes child scale children s i value rs p ps hs hc len o all fits = (
  _,
  partial-done cust_table scale children s (layout value) p ps hs hc,
  ap (λ (n : ℕ). n + 1) (sym len),
  sd_cust-rows child (row_count 30000 scale children) (s - 1) i value rs len o all fits,
)

-- A stream of the supplier table at child s, for a scale in range: when fewer than 2^31 - 1 steps are
-- skipped for one chunk, and the rows before the child make no draw out of range that this stream
-- pays for, the child starts at the row after them and with the seed that they leave.
pub supp-Resumes :
    (child : ℕ → ℤ) (scale children s i : ℕ) (value : ℕ → ℕ) (rs : List (List Draw))
    → 0 < scale
    → 0 < s
    → s ≤ children
    → scale / children ≤ 1000
    → length rs ≡ row_count 2000 scale children * (s - 1)
    → OwnStream supp_table i (streams value)
    → AllCounted i rs
    → (get_or (layout value) i no_seed).boundary * row_count 2000 scale children < n_m
    → Resumes child supp_table scale children s value rs i
unfolding tdefs
supp-Resumes child scale children s i value rs p ps hs hc len o all fits = (
  _,
  partial-done supp_table scale children s (layout value) p ps hs hc,
  ap (λ (n : ℕ). n + 1) (sym len),
  chunks 2 sd_supp sd_supp-skip_rows (λ k v. unfold skipped_values in refl) (s - 1)
        (row_count 2000 scale children) i _ value o.inside o.own refl o.value_pos o.value_lt fits
      ∙ ap (λ (n : ℕ). iterate (b * n) (value_at i (layout value))) (sym len)
      ∙ sym (rows_value child supp_table i rs (streams value) o all),
)
  where
    b : ℕ
    b = (get_or (layout value) i no_seed).boundary
