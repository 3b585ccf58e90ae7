-- ===== src/Verify/Tests.antt =====
-- Totals of a supplier and a customer.
use structor.Common.{[], ◌≡◌, refl}
use structor.Text.{codes}
use structor.Build.Parties.{Supplier}
use structor.Verify.{vrf_str, vrf_supp}
use structor.Verify.Order.{sum_of}

abbrev short : Supplier
short = record {
  suppkey = 5;
  name = [];
  address = codes "a";
  city = codes "b";
  nation_name = [];
  region_name = [];
  phone = [];
}

-- The address counts for the customers, the city for no table.
other_total : (sum_of 2 (vrf_supp 0 0 short) ≡ 5) × (sum_of 3 (vrf_supp 0 0 short) ≡ 97)
unfolding vrf_supp vrf_str
other_total = (refl, refl)
