-- ===== src/Chunk/Tiling.antt =====
-- The chunks of the children cover the rows of a table once.
use native.Mathlib.Nat.{div-add-mod, mod-lt, mul-le-mul_left}
use structor.Common.{
  ℕ, suc, ◌+◌, ◌-◌, ◌*◌, ◌/◌, ◌%◌, ◌≤◌, ◌<◌, List, true, false, ltb, ◌==◌, ◌||◌, if◌then◌else◌,
  Bool-cases, inl, inr, some, ◌≡◌, ◌⊎◌, ap, arith,
}
use structor.Seeds.{Seed}
use structor.Advance.{repeat}
use structor.Chunk.{
  tdefs, done, remainder, row_count, extra_count, set_state, skip_chunk, Chunk, partial,
}

-- The rows of all children and the rows left over are the rows of the table.
pub row_count-total :
    (base sf procs : ℕ)
    → 0 < procs
    → (row_count base sf procs * procs + extra_count base sf procs ≡ base * sf)
      × (extra_count base sf procs < procs)
unfolding row_count extra_count
row_count-total base sf procs h = (
  omega (
    arith,
    ap (λ (x : ℕ). x * sf) (div-add-mod base procs),
    div-add-mod (remainder base sf procs) procs,
  ),
  mod-lt (remainder base sf procs) h,
)

set_state-done :
    (t scale children s : ℕ) (seeds : List Seed)
    → 0 < scale
    → 0 < s
    → s ≤ children
    → scale / children ≤ 1000
    → let q = row_count (tdefs t).base scale children in
      set_state t scale children s seeds
      ≡ done (record {
        rows = q;
        extra_rows = some (extra_count (tdefs t).base scale children);
        seeds = repeat (s - 1) (skip_chunk t q) seeds;
      })
unfolding set_state
set_state-done t scale children s seeds p ps hs hc =
    let on : (scale == 0 || s == 0) ≡ false = ground arith in
    let small : ltb 1000 (scale / children) ≡ false = ground arith in
    let known : ltb children s ≡ false = ground arith in rw (on, small, known)

-- The number of rows of child s.
abbrev pub rows_of : ℕ → ℕ → ℕ → ℕ → ℕ
rows_of t scale children s =
    let q = row_count (tdefs t).base scale children in
    if s == children then q + extra_count (tdefs t).base scale children else q

pub partial-done :
    (t scale children s : ℕ) (seeds : List Seed)
    → 0 < scale
    → 0 < s
    → s ≤ children
    → scale / children ≤ 1000
    → let q = row_count (tdefs t).base scale children in
      partial t scale children s seeds
      ≡ done (record {
        start = q * (s - 1) + 1;
        count = rows_of t scale children s;
        seeds = repeat (s - 1) (skip_chunk t q) seeds;
      })
unfolding partial
partial-done t scale children s seeds p ps hs hc =
    rw (set_state-done t scale children s seeds p ps hs hc)
      (elim (Bool-cases (s == children)) [ inl last ↦ rw last | inr inner ↦ rw inner ])

lt_trichotomy : (a b : ℕ) → (a < b) ⊎ ((a ≡ b) ⊎ (b < a))
lt_trichotomy a b = omega arith

-- Row r is generated by child s.
abbrev pub Generates : ℕ → ℕ → ℕ → List Seed → ℕ → ℕ → Type 0
Generates t scale children seeds r s =
    (c : Chunk) × (partial t scale children s seeds ≡ done c)
    × (c.start ≤ r)
    × (r < c.start + c.count)

module _ (t scale children : ℕ) (seeds : List Seed) (p : 0 < scale)
    (hc : scale / children ≤ 1000) where
  -- A row of child s, in numbers.
  Generates-bounds :
      (r s : ℕ)
      → 0 < s
      → s ≤ children
      → Generates t scale children seeds r s
      → let q = row_count (tdefs t).base scale children in
        (q * (s - 1) + 1 ≤ r) × (r < q * (s - 1) + 1 + rows_of t scale children s)
  Generates-bounds r s ps hs (c, e, lo, hi) = (omega (arith, e0), omega (arith, e0, e1))
    where
      q : ℕ
      q = row_count (tdefs t).base scale children

      found : c ≡ record {
        start = q * (s - 1) + 1;
        count = rows_of t scale children s;
        seeds = repeat (s - 1) (skip_chunk t q) seeds;
      }
      found = cc (partial-done t scale children s seeds p ps hs hc)

      e0 : c.start ≡ q * (s - 1) + 1
      e0 = ap (λ (d : Chunk). d.start) found

      e1 : c.count ≡ rows_of t scale children s
      e1 = ap (λ (d : Chunk). d.count) found

  -- An earlier child's rows end before a later one's.
  Generates-lt :
      (r s s' : ℕ)
      → 0 < s
      → s' ≤ children
      → Generates t scale children seeds r s
      → Generates t scale children seeds r s'
      → s < s'
      → ⊥
  Generates-lt r s s' ps hs g g' lt =
      let q : ℕ = row_count (tdefs t).base scale children in
      let inner : (s == children) ≡ false = ground arith in
      let inner_rows : rows_of t scale children s ≡ q = rw inner in
      let le : s - 1 + 1 ≤ s' - 1 = omega arith in
      let (lo, hi) = Generates-bounds r s ps (omega arith) g in
      let (lo', hi') = Generates-bounds r s' (omega arith) hs g' in
      omega (arith, inner_rows, mul-le-mul_left q le)

  -- The child that generates row r.
  owner : ℕ → ℕ
  owner r =
      let q = row_count (tdefs t).base scale children in
      if q == 0
      then children
      else if ltb ((r - 1) / q + 1) children
      then (r - 1) / q + 1
      else children

  owner_bounds :
      (r : ℕ)
      → 0 < children
      → 1 ≤ r
      → r ≤ (tdefs t).base * scale
      → let q = row_count (tdefs t).base scale children in
        let s = owner r in
        (q * (s - 1) + 1 ≤ r) × (r < q * (s - 1) + 1 + rows_of t scale children s)
  unfolding owner
  owner_bounds r pc lo hi = elim (Bool-cases (q == 0)) [
    | inl zero_rows ↦
        rw (zero_rows, last)
          (let none : q ≡ 0 = ground arith in
            let left : q * (children - 1) ≡ 0 = rw none (omega arith) in
            let all : q * children ≡ 0 = rw none (omega arith) in
            (omega (arith, left), omega (arith, left, all, total)))
    | inr some_rows ↦
        let pos_q : 0 < q = ground arith in
        let split : q * ((r - 1) / q) + (r - 1) % q ≡ r - 1 = div-add-mod (r - 1) q in
        rw some_rows (elim (Bool-cases (ltb ((r - 1) / q + 1) children)) [
          | inl inner ↦
              let apart : ((r - 1) / q + 1 == children) ≡ false = ground arith in
              let back : (r - 1) / q + 1 - 1 ≡ (r - 1) / q = omega arith in
              rw (inner, apart, back)
                (omega (arith, split), omega (arith, split, mod-lt (r - 1) pos_q))
          | inr outer ↦
              let le : children - 1 ≤ (r - 1) / q = ground arith in
              let whole : q * (children - 1) + q ≡ q * children =
                let e : children ≡ suc (children - 1) = omega arith in
                omega (arith, ap (λ (x : ℕ). q * x) e) in
              rw (outer, last)
                (omega (arith, split, mul-le-mul_left q le), omega (arith, whole, total))
        ])
  ]
    where
      q : ℕ
      q = row_count (tdefs t).base scale children

      total : q * children + extra_count (tdefs t).base scale children ≡ (tdefs t).base * scale
      total = (row_count-total (tdefs t).base scale children pc).0

      last : (children == children) ≡ true
      last = ground arith

-- For a positive scale at most 1000 times the number of children (the quotient is rounded down), every
-- row from 1 to base * scale of a table is generated by exactly one child.
pub partial-tiles :
    (t scale children : ℕ) (seeds : List Seed)
    → 0 < scale
    → 0 < children
    → scale / children ≤ 1000
    → (r : ℕ) → 1 ≤ r
    → r ≤ (tdefs t).base * scale
    → (s : ℕ) × (0 < s)
      × (s ≤ children)
      × Generates t scale children seeds r s
      × ((s' : ℕ) → 0 < s' → s' ≤ children → Generates t scale children seeds r s' → s' ≡ s)
unfolding owner
partial-tiles t scale children seeds p pc hc r lo hi = (s, ps, hs, g, unique)
  where
    q : ℕ
    q = row_count (tdefs t).base scale children

    s : ℕ
    s = owner t scale children seeds p hc r

    ps : 0 < s
    ps = ground arith

    hs : s ≤ children
    hs = ground arith

    g : Generates t scale children seeds r s
    g =
        let (lower, upper) = owner_bounds t scale children seeds p hc r pc lo hi in
        (_, partial-done t scale children s seeds p ps hs hc, lower, upper)

    unique : (s' : ℕ) → 0 < s' → s' ≤ children → Generates t scale children seeds r s' → s' ≡ s
    unique s' ps' hs' g' = elim (lt_trichotomy s' s) [
      | inl lt ↦ absurd (Generates-lt t scale children seeds p hc r s' s ps' hs g' g lt)
      | inr (inl same) ↦ same
      | inr (inr gt) ↦ absurd (Generates-lt t scale children seeds p hc r s s' ps hs' g g' gt)
    ]
