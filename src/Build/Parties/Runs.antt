-- ===== src/Build/Parties/Runs.antt =====
-- Customers and suppliers are made without a read behind an array.
use structor.Common.{ℕ, ◌-◌, ◌≤◌, ◌<◌, length, some, ◌≡◌, refl, arith}
use structor.Dist.{lift, random, pick_str, v_str_15}
use structor.Dist.Pick.{IsDistribution}
use structor.Dist.Runs.{Runs, Runs-ret, Runs-bind, Runs-random, Runs-weaken}
use structor.Dist.Strings.{Runs-a_rnd, Runs-pick_str, IsMember}
use structor.Build.Config.{Config}
use structor.Build.Fields.{gen_phone, gen_city, nation_and_region}
use structor.Build.Fields.Runs.{
  Runs-gen_phone, Runs-gen_city, Runs-nation_and_region, IsNations, IsCityOf,
}
use structor.Build.Parties.{Customer, Supplier, mk_cust, mk_supp}

-- A customer of that key whose nation is one of the distribution's and stands in the nation's region
-- and city.
pub record IsCustomer (cfg : Config) (key : ℕ) (c : Customer) : Type 0 where
  pub keyed : c.custkey ≡ key
  pub address : (6 ≤ length c.address) × (length c.address ≤ 24)
  pub nation :
      (i : ℕ) × (i < cfg.nations.count)
      × (nation_and_region cfg.nations cfg.regions i ≡ some (c.nation_name, c.region_name))
  pub city : IsCityOf c.nation_name c.city
  pub segment : (i : ℕ) × IsMember cfg.c_mseg_set (i, c.mktsegment)

pub Runs-mk_cust :
    (cfg : Config) (n_cust : ℕ)
    → IsNations cfg.nations cfg.regions
    → IsDistribution cfg.c_mseg_set
    → Runs 32 (mk_cust cfg n_cust) (IsCustomer cfg n_cust)
unfolding mk_cust
Runs-mk_cust cfg n_cust ok segments =
    Runs-weaken 32 (omega arith) (λ c h. h)
      (Runs-bind (v_str_15 26) _ (Runs-a_rnd 6 24 26 (omega arith) (omega arith)) λ address within.
        Runs-bind (random 0 (cfg.nations.count - 1) 27) _
          (Runs-random 0 (cfg.nations.count - 1) 27 (omega arith) (omega (arith, ok.count_small)))
          λ i low.
            let below : i < cfg.nations.count = omega (arith, low.1, ok.count_positive) in
            Runs-bind (lift (nation_and_region cfg.nations cfg.regions i)) _
              (Runs-nation_and_region cfg.nations cfg.regions i ok below)
              λ names named. Runs-bind (gen_city names.0) _ (Runs-gen_city names.0) λ city placed.
                Runs-bind (gen_phone i 28) _ (Runs-gen_phone i 28) λ phone h.
                  Runs-bind (pick_str cfg.c_mseg_set 30) _
                    (Runs-pick_str cfg.c_mseg_set 30 segments)
                    λ segment member. Runs-ret (IsCustomer cfg n_cust) _ (record {
                      keyed = refl;
                      address = within;
                      nation = (i, below, named);
                      city = placed;
                      segment = (segment.0, member);
                    }))

-- The same of a supplier.
pub record IsSupplier (cfg : Config) (key : ℕ) (s : Supplier) : Type 0 where
  pub keyed : s.suppkey ≡ key
  pub address : (6 ≤ length s.address) × (length s.address ≤ 24)
  pub nation :
      (i : ℕ) × (i < cfg.nations.count)
      × (nation_and_region cfg.nations cfg.regions i ≡ some (s.nation_name, s.region_name))
  pub city : IsCityOf s.nation_name s.city

pub Runs-mk_supp :
    (cfg : Config) (index : ℕ)
    → IsNations cfg.nations cfg.regions
    → Runs 32 (mk_supp cfg index) (IsSupplier cfg index)
unfolding mk_supp
Runs-mk_supp cfg index ok =
    Runs-weaken 32 (omega arith) (λ c h. h)
      (Runs-bind (v_str_15 32) _ (Runs-a_rnd 6 24 32 (omega arith) (omega arith)) λ address within.
        Runs-bind (random 0 (cfg.nations.count - 1) 33) _
          (Runs-random 0 (cfg.nations.count - 1) 33 (omega arith) (omega (arith, ok.count_small)))
          λ i low.
            let below : i < cfg.nations.count = omega (arith, low.1, ok.count_positive) in
            Runs-bind (lift (nation_and_region cfg.nations cfg.regions i)) _
              (Runs-nation_and_region cfg.nations cfg.regions i ok below)
              λ names named. Runs-bind (gen_city names.0) _ (Runs-gen_city names.0) λ city placed.
                Runs-bind (gen_phone i 28) _ (Runs-gen_phone i 28) λ phone h.
                  Runs-ret (IsSupplier cfg index) _ (record {
                    keyed = refl;
                    address = within;
                    nation = (i, below, named);
                    city = placed;
                  }))
