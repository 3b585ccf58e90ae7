-- ===== src/Build/Fields.antt =====
-- The fields that several tables share: prices, phone numbers, cities, categories and colors.
pub mod City
pub mod Runs
use structor.Common.{
  ℕ, zero, suc, ◌+◌, ◌-◌, ◌*◌, ◌/◌, ◌%◌, List, [], ◌∷◌, ◌++◌, length, get_elem?, ltb, ◌==◌,
  if◌then◌else◌, Option, none, some,
}
use structor.Text.{Text, codes, dec, dec_pad}
use structor.Dist.{Gen, ◌>>=◌, ret, lift, random, Distribution, dist_member}

-- `rpb_routine`, in cents.
unfoldable pub rpb_routine : ℕ → ℕ
rpb_routine p = 90000 + p / 10 % 20001 + p % 1000 * 100

abbrev pub nations_max : ℕ
nations_max = 90

-- `gen_phone`: the four numbers and the hyphens between them.
unfoldable pub gen_phone : ℕ → ℕ → Gen Text
gen_phone ind seed = do
  acode ← random 100 999 seed
  exchg ← random 100 999 seed
  number ← random 1000 9999 seed
  ret (
      dec_pad 2 (10 + ind % nations_max)
      ++ (codes "-"
          ++ (dec_pad 3 acode
              ++ (codes "-" ++ (dec_pad 3 exchg ++ (codes "-" ++ dec_pad 4 number))))))

-- `gen_category`
unfoldable pub gen_category : ℕ → Gen Text
gen_category seed = do
  num1 ← random 1 5 seed
  num2 ← random 1 5 seed
  ret (codes "MFGR" ++ (dec num1 ++ dec num2))

abbrev pub city_fix : ℕ
city_fix = 10

-- The first n characters of a name, with blanks behind its end.
unfoldable pub padded : ℕ → Text → Text
padded zero s = []
padded (suc n) [] = b' ' ∷ padded n []
padded (suc n) (c ∷ s) = c ∷ padded n s

-- `gen_city`: nine characters of the nation's name and a digit, drawn from stream 98.
unfoldable pub gen_city : Text → Gen Text
gen_city nation_name = do
  random_pick ← random 0 9 98
  ret (padded (city_fix - 1) nation_name ++ dec random_pick)

-- `gen_color`: the text before the first blank, and the text behind it; none if there is no blank.
unfoldable pub gen_color : Text → Option (Text × Text)
gen_color [] = none
gen_color (c ∷ s) =
    let rest = gen_color s in
    if c == b' ' then some ([], s) else elim rest [ none ↦ none | some p ↦ some (c ∷ p.0, p.1) ]

-- The nation and region names of a draw i: `nations.list[i].weight` is the region's index.
unfoldable pub nation_and_region : Distribution → Distribution → ℕ → Option (Text × Text)
nation_and_region nations regions i = elim (get_elem? nations.list i) [
  | none ↦ none
  | some m ↦ elim (dist_member regions m.weight) [ none ↦ none | some r ↦ some (m.text, r) ]
]
