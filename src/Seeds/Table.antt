-- ===== src/Seeds/Table.antt =====
-- The initial `Seed` array of rnd.h.
use structor.Common.{ℕ, ◌*◌, List, [], ◌∷◌, ℤ, pos, get_or}
use structor.Seeds.{Seed, no_table}

abbrev seed : ℤ → ℕ → ℕ → Seed
seed t v b = record { table = t; value = v; usage = 0; boundary = b }

abbrev rng_per_sent : ℕ
rng_per_sent = 27

abbrev pub o_lcnt_max : ℕ
o_lcnt_max = 7

abbrev pub part : ℤ
part = pos 0

abbrev pub psupp : ℤ
psupp = pos 1

abbrev pub supp : ℤ
supp = pos 2

abbrev pub cust : ℤ
cust = pos 3

abbrev pub order : ℤ
order = pos 4

abbrev pub line : ℤ
line = pos 5

-- The array with its tables and boundaries, over the values of the streams.
abbrev pub layout : (ℕ → ℕ) → List Seed
layout value =
    seed part (value 0) 1
    ∷ seed part (value 1) 1
    ∷ seed part (value 2) 1
    ∷ seed part (value 3) 1
    ∷ seed part (value 4) 1
    ∷ seed no_table (value 5) 1
    ∷ seed part (value 6) (rng_per_sent * 3)
    ∷ seed psupp (value 7) 4
    ∷ seed psupp (value 8) 4
    ∷ seed psupp (value 9) (4 * rng_per_sent * 20)
    ∷ seed order (value 10) 1
    ∷ seed order (value 11) 1
    ∷ seed order (value 12) (rng_per_sent * 8)
    ∷ seed order (value 13) 1
    ∷ seed line (value 14) o_lcnt_max
    ∷ seed line (value 15) o_lcnt_max
    ∷ seed line (value 16) o_lcnt_max
    ∷ seed line (value 17) o_lcnt_max
    ∷ seed line (value 18) o_lcnt_max
    ∷ seed line (value 19) o_lcnt_max
    ∷ seed line (value 20) o_lcnt_max
    ∷ seed line (value 21) o_lcnt_max
    ∷ seed line (value 22) o_lcnt_max
    ∷ seed line (value 23) o_lcnt_max
    ∷ seed line (value 24) o_lcnt_max
    ∷ seed line (value 25) (o_lcnt_max * rng_per_sent * 5)
    ∷ seed cust (value 26) 9
    ∷ seed cust (value 27) 1
    ∷ seed cust (value 28) 3
    ∷ seed cust (value 29) 1
    ∷ seed cust (value 30) 1
    ∷ seed cust (value 31) (rng_per_sent * 12)
    ∷ seed supp (value 32) 9
    ∷ seed supp (value 33) 1
    ∷ seed supp (value 34) 3
    ∷ seed supp (value 35) 1
    ∷ seed supp (value 36) (rng_per_sent * 11)
    ∷ seed part (value 37) 92
    ∷ seed order (value 38) 1
    ∷ seed line (value 39) 1
    ∷ seed order (value 40) 1
    ∷ seed (pos 8) (value 41) (rng_per_sent * 16)
    ∷ seed (pos 9) (value 42) (rng_per_sent * 16)
    ∷ seed order (value 43) 1
    ∷ seed supp (value 44) 1
    ∷ seed supp (value 45) 1
    ∷ seed supp (value 46) 1
    ∷ seed supp (value 47) 1
    ∷ []

abbrev pub initial_values : List ℕ
initial_values =
    1 ∷ 46831694 ∷ 1841581359 ∷ 1193163244 ∷ 727633698 ∷ 933588178 ∷ 804159733 ∷ 1671059989
    ∷ 1051288424 ∷ 1961692154 ∷ 1227283347 ∷ 1171034773 ∷ 276090261 ∷ 1066728069 ∷ 209208115
    ∷ 554590007 ∷ 721958466 ∷ 1371272478 ∷ 675466456 ∷ 1808217256 ∷ 2095021727 ∷ 1769349045
    ∷ 904914315 ∷ 373135028 ∷ 717419739 ∷ 1095462486 ∷ 881155353 ∷ 1489529863 ∷ 1521138112
    ∷ 298370230 ∷ 1140279430 ∷ 1335826707 ∷ 706178559 ∷ 110356601 ∷ 884434366 ∷ 962338209
    ∷ 1341315363 ∷ 709314158 ∷ 591449447 ∷ 431918286 ∷ 851767375 ∷ 606179079 ∷ 1500869201
    ∷ 1434868289 ∷ 263032577 ∷ 753643799 ∷ 202794285 ∷ 715851524 ∷ []

abbrev pub initial : List Seed
initial = layout (λ i. get_or initial_values i 0)
