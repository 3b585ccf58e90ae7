-- ===== src/Seeds/Bounds.antt =====
-- The boundaries of the initial array.
use structor.Common.{
  ℕ, zero, suc, ◌≤◌, ◌<◌, List, [], ◌∷◌, length, Bool, true, ◌&&◌, leb, pos, eqb_ℤ, get_or, ◌≡◌,
  refl, arith, if◌then◌else◌,
}
use structor.Seeds.{Seed, no_seed}
use structor.Seeds.Table.{layout}
use structor.Seeds.Rows.{Bounded}

-- A test that all seeds of an array pass.
abbrev all : (Seed → Bool) → List Seed → Bool
all p [] = true
all p (s ∷ ss) = p s && all p ss

all-get_or :
    (p : Seed → Bool) (ss : List Seed) (i : ℕ)
    → all p ss ≡ true
    → i < length ss
    → p (get_or ss i no_seed) ≡ true
all-get_or p [] i h inside = absurd (omega arith)
all-get_or p (s ∷ ss) zero h inside = ground arith
all-get_or p (s ∷ ss) (suc i) h inside = all-get_or p ss i (ground arith) (omega arith)

-- Customers make at most 324 draws from a stream, and no table makes more than 2160.
abbrev is_small : Seed → Bool
is_small s = leb s.boundary 2160 && (if eqb_ℤ s.table (pos 3) then leb s.boundary 324 else true)

layout-small : (value : ℕ → ℕ) → all is_small (layout value) ≡ true
layout-small value = refl

pub layout-Bounded : (value : ℕ → ℕ) → Bounded (record { seeds = layout value; stray = [] })
layout-Bounded value i h =
    let small = all-get_or is_small (layout value) i (layout-small value) (omega arith) in
    ground arith

pub cust_boundary :
    (value : ℕ → ℕ) (i : ℕ)
    → i < 48
    → (get_or (layout value) i no_seed).table ≡ pos 3
    → (get_or (layout value) i no_seed).boundary ≤ 324
cust_boundary value i h own =
    let small = all-get_or is_small (layout value) i (layout-small value) h in
    let here : eqb_ℤ (get_or (layout value) i no_seed).table (pos 3) ≡ true = rw own refl in
    ground arith
