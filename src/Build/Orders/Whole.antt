-- ===== src/Build/Orders/Whole.antt =====
-- A whole order.
use Prim.Native.Nat.{max}
use structor.Common.{
  ℕ, ◌+◌, ◌-◌, ◌*◌, ◌/◌, ◌⊎◌, inl, inr, ◌&&◌, ltb, leb, if◌then◌else◌, Bool-cases, get_or, ◌≤◌, ◌<◌,
  ◌%◌, ◌^◌, List, length, length-map, get_elem?, Option, some, true, ◌≡◌, refl, sym, ap, ◌∙◌, arith,
}
use mathlib.Core.Option.{some-injective}
use structor.Seeds.{Streams, dss_random}
use structor.Seeds.Live.{Live, dss_random-Live, dss_random_range}
use structor.Text.{Text}
use structor.Calendar.{startdate, totdate, mk_ascdate}
use structor.Calendar.Dates.{mk_ascdate-length}
use structor.Dist.{◌>>=◌, bind-some, lift, pick_str}
use structor.Dist.Noise.{get_elem?-some}
use structor.Dist.Pick.{IsDistribution, no_member, pick_str-first}
use structor.Build.Config.{Config}
use structor.Build.Keys.{mk_sparse, update_seq}
use structor.Build.Orders.{
  Order, Head, living_customer, cust_mortality, mk_lines, mk_order, priced, total, o_odate_max,
  maxagg_len, o_ship_mode_len, fitting,
}
use structor.Build.Orders.Lines.{
  HasShort, fitting-short, IsReady, AllPriced, total-priced, priced-AllPriced, AllLines,
  mk_lines-AllLines, priced-AllLines,
}
use structor.Build.Orders.Mortality.{living_customer-ends}

-- The globals that an order takes for granted: keys to draw from, and the two distributions, with texts
-- that fit their fields.
pub record IsConfig (cfg : Config) : Type 0 where
  pub parts : (1 ≤ cfg.l_pkey_max) × (cfg.l_pkey_max < 2 ^ 53)
  pub suppliers : (1 ≤ cfg.supp_base * cfg.scale) × (cfg.supp_base * cfg.scale < 2 ^ 53)
  pub customers : (1 ≤ cfg.cust_base * cfg.scale) × (cfg.cust_base * cfg.scale < 2 ^ 53)
  pub priorities : IsDistribution cfg.o_priority_set
  pub modes : IsDistribution cfg.l_smode_set
  pub short_priorities : HasShort cfg.o_priority_set maxagg_len
  pub short_modes : HasShort cfg.l_smode_set o_ship_mode_len

mk_ascdate-totdate : (ts : List Text) → mk_ascdate ≡ some ts → length ts ≡ totdate
mk_ascdate-totdate ts made =
    let (known, made', size) = mk_ascdate-length in
    ap length (some-injective _ _ (sym made ∙ made')) ∙ size

update_seq-some :
    (refresh upd_num : ℕ)
    → (upd_num ≡ 0) ⊎ ((1 ≤ refresh) × (refresh ≤ 10000))
    → update_seq refresh upd_num
      ≡ some (if ltb 0 upd_num then 1 + upd_num / (10000 / refresh) else 0)
unfolding update_seq
update_seq-some refresh upd_num (inl none_yet) = rw none_yet refl
update_seq-some refresh upd_num (inr (low, high)) =
    let divides : (ltb 0 refresh && leb refresh 10000) ≡ true = ground arith in
    elim (Bool-cases (ltb 0 upd_num)) [ inl b ↦ rw (b, divides) refl | inr b ↦ rw b refl ]

-- What the lines share with their order.
abbrev pub head_of : Order → ℕ → Head
head_of o tmp_date = record {
  okey = o.okey;
  custkey = o.custkey;
  odate = o.odate;
  opriority = o.opriority;
  tmp_date = tmp_date;
}

pub record IsOrder (cfg : Config) (index upd_num : ℕ) (o : Order) : Type 0 where
  pub key :
      o.okey
      ≡ mk_sparse cfg.scale index (if ltb 0 upd_num then 1 + upd_num / (10000 / cfg.refresh) else 0)
  pub priority : length o.opriority ≤ maxagg_len
  pub customer : (1 ≤ o.custkey) × (o.custkey ≤ cfg.cust_base * cfg.scale)
  pub living : 0 < o.custkey % cust_mortality
  pub count : (1 ≤ o.lines) × (o.lines ≤ 7)
  pub size : length o.lineorders ≡ o.lines
  pub totals : (o.totalprice ≡ total o.lineorders) × AllPriced o.totalprice o.lineorders
  pub all_lines : (tmp_date : ℕ) × AllLines cfg (head_of o tmp_date) 0 o.lineorders

-- With live streams, the dates of `mk_ascdate`, a row below 10^13, and the globals that IsConfig lists, among them priorities and ship modes
-- of at most ten characters, and for an update, of a number below 10000, a refresh from 1 to 10000, `mk_order` returns an order,
-- without reading behind the dates, writing behind a field, dividing by zero or looping on: it has the
-- sparse key of its number, a customer that CUST_MORTALITY does not divide, from 1 to 7 lines that IsLine
-- holds of, and the sum of its lines' prices, which every line carries.
pub mk_order-IsOrder :
    (cfg : Config) (asc_date : List Text) (index upd_num : ℕ) (st : Streams)
    → IsConfig cfg
    → (upd_num ≡ 0) ⊎ ((1 ≤ cfg.refresh) × (cfg.refresh ≤ 10000))
    → index < 10 ^ 13
    → upd_num < 10000
    → mk_ascdate ≡ some asc_date
    → Live st
    → (o : Order) × (st' : Streams) × (mk_order cfg asc_date index upd_num st ≡ some (o, st'))
      × IsOrder cfg index upd_num o
      × Live st'
unfolding mk_order ◌>>=◌
mk_order-IsOrder cfg asc_date index upd_num st ok divides small few made live =
    let dates : length asc_date ≡ totdate = mk_ascdate-totdate asc_date made in
    let seq = if ltb 0 upd_num then 1 + upd_num / (10000 / cfg.refresh) else 0 in
    let ckeys = cfg.cust_base * cfg.scale in
    let d1 = dss_random startdate o_odate_max 13 st in
    let live1 = dss_random-Live startdate o_odate_max 13 st live in
    let r1 = dss_random_range startdate o_odate_max 13 st live (omega arith) (omega arith) in
    let (odate, dated) =
      get_elem?-some asc_date (d1.0 - startdate) (omega (arith, dates, r1.0, r1.1)) in
    let d2 = dss_random 1 ckeys 40 d1.1 in
    let live2 = dss_random-Live 1 ckeys 40 d1.1 live1 in
    let r2 =
      dss_random_range 1 ckeys 40 d1.1 live1 ok.customers.0 (omega (arith, ok.customers.1)) in
    let (custkey, ends, low, high, living, above, under) =
      living_customer-ends ckeys d2.0 r2.0 r2.1 in
    let (i, j, st3, picked, inside, within, which, live3) =
      pick_str-first cfg.o_priority_set 38 d2.1 ok.priorities live2 in
    let clerks = max (cfg.scale * 1000) 1000 in
    let d4 = dss_random 1 clerks 11 st3 in
    let live4 = dss_random-Live 1 clerks 11 st3 live3 in
    let d5 = dss_random 1 7 43 d4.1 in
    let live5 = dss_random-Live 1 7 43 d4.1 live4 in
    let r5 = dss_random_range 1 7 43 d4.1 live4 (omega arith) (omega arith) in
    let head : Head = record {
      okey = mk_sparse cfg.scale index seq;
      custkey = custkey;
      odate = odate;
      opriority = _;
      tmp_date = d1.0;
    } in
    let ready : IsReady cfg asc_date head = record {
      parts = ok.parts;
      suppliers = ok.suppliers;
      modes = ok.modes;
      short_modes = ok.short_modes;
      dates = dates;
      ordered = r1;
    } in
    let (ls, st', looped, size, all, live') =
      mk_lines-AllLines d5.0 cfg asc_date head 0 d5.1 ready live5 in
    (
      _,
      st',
      bind-some (lift (get_elem? asc_date (d1.0 - startdate))) _ d1.1
            (ap (λ (o : Option Text). lift o d1.1) dated)
          ∙ bind-some (lift (update_seq cfg.refresh upd_num)) _ d1.1
              (ap (λ (o : Option ℕ). lift o d1.1) (update_seq-some cfg.refresh upd_num divides))
          ∙ bind-some (lift (living_customer 3 ckeys true d2.0)) _ d2.1
              (ap (λ (o : Option ℕ). lift o d2.1) ends)
          ∙ bind-some (pick_str cfg.o_priority_set 38) _ d2.1 picked
          ∙ bind-some (lift (fitting maxagg_len (get_or cfg.o_priority_set.list i no_member).text))
              _ st3
              (ap (λ (o : Option Text). lift o st3)
                (fitting-short maxagg_len _ (ok.short_priorities i inside)))
          ∙ bind-some (mk_lines d5.0 cfg asc_date head 0) _ d5.1 looped,
      record {
        key = refl;
        priority = ok.short_priorities i inside;
        customer = (low, high);
        living = living;
        count = r5;
        size = length-map ls (priced (total ls)) ∙ size;
        totals = (sym (total-priced (total ls) ls), priced-AllPriced (total ls) ls);
        all_lines = (d1.0, priced-AllLines cfg head (total ls) 0 ls all);
      },
      live',
    )
