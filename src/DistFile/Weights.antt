-- ===== src/DistFile/Weights.antt =====
-- The draws from a distribution that `read_dist` has read.
use structor.Common.{ℕ, zero, suc, List, [], ◌∷◌, Option, none, some, pos}
use structor.Seeds.Live.{Live}
use structor.Dist.{Distribution, SetMember}
use structor.DistFile.{Target}
use structor.DistFile.Written.{Entry, added}

-- The members that are written.
abbrev pub members_of : List (Option SetMember) → List SetMember
members_of [] = []
members_of (none ∷ ms) = members_of ms
members_of (some m ∷ ms) = m ∷ members_of ms

-- A target as the rest of the program uses it.
abbrev pub loaded : Target → Distribution
loaded t = record {
  count = t.count;
  max = t.max;
  list = elim t.list [ none ↦ [] | some ms ↦ members_of ms ];
}

abbrev pub no_entry : Entry
no_entry = record { text = []; weight = pos 0 }

-- The sum of the weights of the first i entries.
abbrev pub sum_before : ℕ → List Entry → ℕ → ℕ
sum_before sum [] i = sum
sum_before sum (e ∷ es) zero = sum
sum_before sum (e ∷ es) (suc i) = sum_before (added sum e.weight) es i
