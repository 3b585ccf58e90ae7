-- ===== src/Build/Parties.antt =====
-- `mk_cust` and `mk_supp`.
pub mod Runs
pub mod Agree
use structor.Common.{ℕ, ◌-◌, ◌++◌}
use structor.Text.{Text, codes, dec_pad}
use structor.Dist.{Gen, ◌>>=◌, ret, lift, random, pick_str, v_str_15}
use structor.Build.Config.{Config}
use structor.Build.Fields.{gen_phone, gen_city, nation_and_region}

-- The fields of `customer_t` that `mk_cust` sets; `alen` is the length of the address.
pub record Customer : Type 0 where
  pub custkey : ℕ
  pub name : Text
  pub address : Text
  pub city : Text
  pub nation_name : Text
  pub region_name : Text
  pub phone : Text
  pub mktsegment : Text

unfoldable pub mk_cust : Config → ℕ → Gen Customer
mk_cust cfg n_cust = do
  address ← v_str_15 26
  i ← random 0 (cfg.nations.count - 1) 27
  names ← lift (nation_and_region cfg.nations cfg.regions i)
  city ← gen_city names.0
  phone ← gen_phone i 28
  segment ← pick_str cfg.c_mseg_set 30
  ret (record {
    custkey = n_cust;
    name = codes "Customer#" ++ dec_pad 9 n_cust;
    address = address;
    city = city;
    nation_name = names.0;
    region_name = names.1;
    phone = phone;
    mktsegment = segment.1;
  })

-- The fields of `supplier_t` that `mk_supp` sets.
pub record Supplier : Type 0 where
  pub suppkey : ℕ
  pub name : Text
  pub address : Text
  pub city : Text
  pub nation_name : Text
  pub region_name : Text
  pub phone : Text

-- The phone number is drawn from stream 28, which belongs to the customers.
unfoldable pub mk_supp : Config → ℕ → Gen Supplier
mk_supp cfg index = do
  address ← v_str_15 32
  i ← random 0 (cfg.nations.count - 1) 33
  names ← lift (nation_and_region cfg.nations cfg.regions i)
  city ← gen_city names.0
  phone ← gen_phone i 28
  ret (record {
    suppkey = index;
    name = codes "Supplier#" ++ dec_pad 9 index;
    address = address;
    city = city;
    nation_name = names.0;
    region_name = names.1;
    phone = phone;
  })
