-- ===== src/Build/Parties/Agree.antt =====
-- The customers and suppliers that two runs make from states that agree on the streams of their
-- tables. The digit of the city comes from stream 0, and a supplier's phone number from stream 28,
-- which belong to other tables.
use structor.Common.{ℕ, ◌-◌, Bool, ◌==◌, ◌||◌, true, ◌≡◌, refl}
use structor.Seeds.{stream_of}
use structor.Text.{Text}
use structor.Dist.{lift, random, pick_str, v_str_15}
use structor.Dist.Agree.{
  Agree, Agree-ret, Agree-bind, Agree-then, Agree-lift, Agree-draw, Agree-random, Agree-pick_str,
  Agree-a_rnd,
}
use structor.Build.Config.{Config}
use structor.Build.Fields.{gen_phone, gen_city, nation_and_region}
use structor.Build.Parties.{Customer, Supplier, mk_cust, mk_supp}

-- The streams of `mk_cust` in the customer table: address, nation, phone and segment.
abbrev pub cust_streams : ℕ → Bool
cust_streams i = i == 26 || (i == 27 || (i == 28 || i == 30))

-- The streams of `mk_supp` in the supplier table: address and nation.
abbrev pub supp_streams : ℕ → Bool
supp_streams i = i == 32 || i == 33

-- A city is drawn with its digit from stream 0.
Agree-gen_city :
    {S : ℕ → Bool} (name : Text) → Agree S (λ a b. Unit {0}) (gen_city name) (gen_city name)
unfolding gen_city
Agree-gen_city name =
    Agree-bind (random 0 9 98) (random 0 9 98) _ _ (Agree-draw 0 9 98) λ a b r. Agree-ret _ _ tt

Agree-gen_phone :
    {S : ℕ → Bool} (ind seed : ℕ)
    → S (stream_of seed) ≡ true
    → Agree S ◌≡◌ (gen_phone ind seed) (gen_phone ind seed)
unfolding gen_phone
Agree-gen_phone ind seed on =
    Agree-then (random 100 999 seed) _ _ (Agree-random 100 999 seed on) λ acode.
      Agree-then (random 100 999 seed) _ _ (Agree-random 100 999 seed on) λ exchg.
        Agree-then (random 1000 9999 seed) _ _ (Agree-random 1000 9999 seed on)
          λ number. Agree-ret _ _ refl

-- A phone number that may differ is still drawn.
Agree-any_phone :
    {S : ℕ → Bool} (ind seed : ℕ)
    → Agree S (λ a b. Unit {0}) (gen_phone ind seed) (gen_phone ind seed)
unfolding gen_phone
Agree-any_phone ind seed =
    Agree-bind (random 100 999 seed) (random 100 999 seed) _ _ (Agree-draw 100 999 seed) λ a a' h.
      Agree-bind (random 100 999 seed) (random 100 999 seed) _ _ (Agree-draw 100 999 seed)
        λ e e' h'.
          Agree-bind (random 1000 9999 seed) (random 1000 9999 seed) _ _ (Agree-draw 1000 9999 seed)
            λ n n' h''. Agree-ret _ _ tt

-- The same customer but for the city.
pub record SameButCity (c c' : Customer) : Type 0 where
  pub custkey : c.custkey ≡ c'.custkey
  pub name : c.name ≡ c'.name
  pub address : c.address ≡ c'.address
  pub nation_name : c.nation_name ≡ c'.nation_name
  pub region_name : c.region_name ≡ c'.region_name
  pub phone : c.phone ≡ c'.phone
  pub mktsegment : c.mktsegment ≡ c'.mktsegment

pub Agree-mk_cust :
    (cfg : Config) (n_cust : ℕ)
    → Agree cust_streams SameButCity (mk_cust cfg n_cust) (mk_cust cfg n_cust)
unfolding mk_cust
Agree-mk_cust cfg n_cust = Agree-then (v_str_15 26) _ _ (Agree-a_rnd 6 24 26 refl) λ address.
    Agree-then (random 0 (cfg.nations.count - 1) 27) _ _ (Agree-random _ _ 27 refl) λ i.
      Agree-then (lift (nation_and_region cfg.nations cfg.regions i)) _ _ (Agree-lift _) λ names.
        Agree-bind (gen_city names.0) (gen_city names.0) _ _ (Agree-gen_city names.0)
          λ city city' h. Agree-then (gen_phone i 28) _ _ (Agree-gen_phone i 28 refl) λ phone.
            Agree-then (pick_str cfg.c_mseg_set 30) _ _ (Agree-pick_str cfg.c_mseg_set 30 refl)
              λ segment. Agree-ret _ _ (record {
                custkey = refl;
                name = refl;
                address = refl;
                nation_name = refl;
                region_name = refl;
                phone = refl;
                mktsegment = refl;
              })

-- The same supplier but for the city and the phone number.
pub record SamePlace (s s' : Supplier) : Type 0 where
  pub suppkey : s.suppkey ≡ s'.suppkey
  pub name : s.name ≡ s'.name
  pub address : s.address ≡ s'.address
  pub nation_name : s.nation_name ≡ s'.nation_name
  pub region_name : s.region_name ≡ s'.region_name

pub Agree-mk_supp :
    (cfg : Config) (index : ℕ)
    → Agree supp_streams SamePlace (mk_supp cfg index) (mk_supp cfg index)
unfolding mk_supp
Agree-mk_supp cfg index = Agree-then (v_str_15 32) _ _ (Agree-a_rnd 6 24 32 refl) λ address.
    Agree-then (random 0 (cfg.nations.count - 1) 33) _ _ (Agree-random _ _ 33 refl) λ i.
      Agree-then (lift (nation_and_region cfg.nations cfg.regions i)) _ _ (Agree-lift _) λ names.
        Agree-bind (gen_city names.0) (gen_city names.0) _ _ (Agree-gen_city names.0)
          λ city city' h.
            Agree-bind (gen_phone i 28) (gen_phone i 28) _ _ (Agree-any_phone i 28)
              λ phone phone' h'. Agree-ret _ _ (record {
                suppkey = refl;
                name = refl;
                address = refl;
                nation_name = refl;
                region_name = refl;
              })
