-- ===== src/Main/Tables.antt =====
-- The tables that a run loads.
use structor.Common.{
  ℕ, zero, suc, ◌+◌, List, [], ◌∷◌, map, ℤ, pos, negsuc, Bool, true, false, ◌&&◌, ◌||◌, ltb,
  if◌then◌else◌, Bool-cases, inl, inr, none, some, ◌⊎◌, ◌≡◌, refl, arith,
}
use structor.Options.{Settings, above_one}
use structor.Main.{
  Load, serial, child, parallel, serial_count, parallel_load, load_of, loads_from, main_loads,
}

abbrev pub table_of : Load → ℕ
table_of (serial t first count) = t
table_of (child t s) = t
table_of (parallel t) = t

-- The bits of the mask from i on, in order.
abbrev pub tables_from : ℕ → ℕ → (ℕ → Bool) → List ℕ
tables_from zero i table = []
tables_from (suc n) i table =
    if table i then i ∷ tables_from n (i + 1) table else tables_from n (i + 1) table

-- The mask has one of the tables below NATION.
abbrev pub any_scaled : ℕ → ℕ → (ℕ → Bool) → Bool
any_scaled zero i table = false
any_scaled (suc n) i table = (table i && ltb i 8) || any_scaled n (i + 1) table

-- A run that would validate what its children load.
abbrev pub is_refused : Settings → Bool
is_refused s = (above_one s.children && s.validate) && any_scaled 10 0 s.table

-- The load of a table is of the kind that the settings ask for.
abbrev pub IsLoad : (ℕ → ℕ) → Settings → Load → Type 0
IsLoad part_factor s l = l ≡ (
    if above_one s.children && ltb (table_of l) 8
    then parallel_load s (table_of l)
    else serial (table_of l) 1 (serial_count part_factor s (table_of l)))

abbrev pub AllLoads : (ℕ → ℕ) → Settings → List Load → Type 0
AllLoads part_factor s [] = Unit
AllLoads part_factor s (l ∷ ls) = IsLoad part_factor s l × AllLoads part_factor s ls

table_of-parallel : (s : Settings) (i : ℕ) → table_of (parallel_load s i) ≡ i
table_of-parallel s i = by_step s.step
  where
    by_step : (z : ℤ) → table_of (elim z [ pos n ↦ child i n | negsuc n ↦ parallel i ]) ≡ i
    by_step (pos n) = refl
    by_step (negsuc n) = refl

parallel-IsLoad :
    (f : ℕ → ℕ) (s : Settings) (i : ℕ)
    → (above_one s.children && ltb i 8) ≡ true
    → IsLoad f s (parallel_load s i)
parallel-IsLoad f s i on = rw (table_of-parallel s i, on) refl

-- A table is refused, or it is loaded.
load_of-cases :
    (f : ℕ → ℕ) (s : Settings) (i : ℕ)
    → ((((above_one s.children && s.validate) && ltb i 8) ≡ true) × (load_of f s i ≡ none))
      ⊎ ((((above_one s.children && s.validate) && ltb i 8) ≡ false)
          × ((l : Load) × (load_of f s i ≡ some l) × (table_of l ≡ i) × IsLoad f s l))
unfolding load_of
load_of-cases f s i = elim (Bool-cases (above_one s.children && ltb i 8)) [
  | inl on ↦ elim (Bool-cases s.validate) [
    | inl v ↦ rw (on, v) (inl (ground arith, refl))
    | inr v ↦
        rw (on, v)
          (inr (
            ground arith,
            (parallel_load s i, refl, table_of-parallel s i, parallel-IsLoad f s i on),
          ))
  ]
  | inr off ↦
      rw off (inr (ground arith, (serial i 1 (serial_count f s i), refl, refl, rw off refl)))
]

-- What the loop over the tables returns.
abbrev IsResult : ℕ → ℕ → (ℕ → ℕ) → Settings → Type 0
IsResult n i f s =
    ((((above_one s.children && s.validate) && any_scaled n i s.table) ≡ true)
      × (loads_from n i f s ≡ none))
    ⊎ ((((above_one s.children && s.validate) && any_scaled n i s.table) ≡ false)
        × ((ls : List Load) × (loads_from n i f s ≡ some ls)
            × (map table_of ls ≡ tables_from n i s.table)
            × AllLoads f s ls))

loads_from-IsResult : (n i : ℕ) (f : ℕ → ℕ) (s : Settings) → IsResult n i f s
unfolding loads_from
loads_from-IsResult zero i f s = inr (ground arith, ([], refl, refl, tt))
loads_from-IsResult (suc n) i f s = elim (Bool-cases (s.table i)) [
  | inl wanted ↦ rw wanted (elim (load_of-cases f s i) [
    | inl (refused, none_here) ↦ rw none_here (inl (ground arith, refl))
    | inr (kept, (l, some_here, t, is_load)) ↦ elim (loads_from-IsResult n (i + 1) f s) [
      | inl (refused, none_later) ↦ rw (some_here, none_later) (inl (ground arith, refl))
      | inr (free, (ls, later, ts, all)) ↦
          rw (some_here, later)
            (inr (ground arith, (l ∷ ls, refl, rw (t, ts) refl, (is_load, all))))
    ]
  ])
  | inr unwanted ↦ rw unwanted (loads_from-IsResult n (i + 1) f s)
]

-- If there are more children than one, the run validates and the mask has a table below NATION, the
-- loop of `main` ends in INTERNAL_ERROR. Else it makes one load for every table of the mask, in
-- their order: by `partial` with the step or by `pload` if there are more children than one and the table
-- is below NATION, and by `gen_tbl` from row 1 otherwise.
pub main_loads-cases :
    (f : ℕ → ℕ) (s : Settings)
    → ((is_refused s ≡ true) × (main_loads f s ≡ none))
      ⊎ ((is_refused s ≡ false)
          × ((ls : List Load) × (main_loads f s ≡ some ls)
              × (map table_of ls ≡ tables_from 10 0 s.table)
              × AllLoads f s ls))
unfolding main_loads
main_loads-cases f s = loads_from-IsResult 10 0 f s
