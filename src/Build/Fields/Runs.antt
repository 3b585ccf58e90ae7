-- ===== src/Build/Fields/Runs.antt =====
-- The shared fields run.
use structor.Common.{ℕ, ◌+◌, ◌-◌, ◌≤◌, ◌<◌, ◌%◌, ◌^◌, ◌++◌, some, ◌≡◌, refl, arith}
use structor.Text.{Text, codes, dec, dec_pad}
use structor.Dist.{lift, random, Distribution}
use structor.Dist.Runs.{Runs, Runs-ret, Runs-lift, Runs-bind, Runs-random}
use structor.Build.Fields.{gen_phone, gen_city, padded, city_fix, nation_and_region, nations_max}

-- The country code of the phone number of nation i.
abbrev pub country_code : ℕ → Text
country_code ind = dec_pad 2 (10 + ind % nations_max) ++ codes "-"

pub Runs-gen_phone : (ind seed : ℕ) → Runs 3 (gen_phone ind seed) (λ t. Unit {0})
unfolding gen_phone
Runs-gen_phone ind seed =
    Runs-bind (random 100 999 seed) _ (Runs-random 100 999 seed (omega arith) (omega arith))
      (λ acode h.
        Runs-bind (random 100 999 seed) _ (Runs-random 100 999 seed (omega arith) (omega arith))
          (λ exchg h'.
            Runs-bind (random 1000 9999 seed) _
              (Runs-random 1000 9999 seed (omega arith) (omega arith))
              (λ number h''. Runs-ret (λ t. Unit {0}) _ tt)))

-- A city is the padded name and a digit.
abbrev pub IsCityOf : Text → Text → Type 0
IsCityOf name city = (d : ℕ) × (d ≤ 9) × (city ≡ padded (city_fix - 1) name ++ dec d)

pub Runs-gen_city : (name : Text) → Runs 1 (gen_city name) (IsCityOf name)
unfolding gen_city
Runs-gen_city name =
    Runs-bind (random 0 9 98) _ (Runs-random 0 9 98 (omega arith) (omega arith))
      (λ d within. Runs-ret (IsCityOf name) _ (d, within.1, refl))

-- Every nation of the distribution has a region.
pub record IsNations (nations regions : Distribution) : Type 0 where
  pub count_positive : 0 < nations.count
  pub count_small : nations.count < 2 ^ 53
  pub names :
      (i : ℕ)
      → i < nations.count
      → (p : Text × Text) × (nation_and_region nations regions i ≡ some p)

pub Runs-nation_and_region :
    (nations regions : Distribution) (i : ℕ)
    → IsNations nations regions
    → i < nations.count
    → Runs 0
        (lift (nation_and_region nations regions i))
        (λ p. nation_and_region nations regions i ≡ some p)
Runs-nation_and_region nations regions i ok h =
    let (p, e) = ok.names i h in Runs-lift _ (nation_and_region nations regions i) p e e
