-- ===== src/Build/Orders/Lines.antt =====
-- The lines of an order.
use structor.Common.{
  ℕ, zero, suc, ◌+◌, ◌-◌, ◌*◌, ◌≤◌, ◌<◌, ◌^◌, List, [], ◌∷◌, map, length, get_elem?, get_or, leb,
  true, Option, some, ◌≡◌, refl, ap, ◌∙◌, arith,
}
use structor.Seeds.{Streams, dss_random}
use structor.Seeds.Live.{Live, dss_random-Live, dss_random_range}
use structor.Text.{Text}
use structor.Calendar.{startdate, totdate}
use structor.Dist.{Distribution, ◌>>=◌, bind-some, ret, lift, pick_str}
use structor.Dist.Noise.{get_elem?-some}
use structor.Dist.Pick.{IsDistribution, no_member, pick_str-first}
use structor.Build.Config.{Config}
use structor.Build.Fields.{rpb_routine}
use structor.Build.Orders.{
  LineOrder, Head, mk_line, mk_lines, priced, total, line_total, o_odate_max, o_ship_mode_len,
  fitting,
}

-- The texts of the members have at most so many characters.
abbrev pub HasShort : Distribution → ℕ → Type 0
HasShort s room = (i : ℕ) → i < s.count → length (get_or s.list i no_member).text ≤ room

pub fitting-short : (room : ℕ) (t : Text) → length t ≤ room → fitting room t ≡ some t
fitting-short room t h = let short : leb (length t) room ≡ true = ground arith in rw short refl

-- A line within the bounds of its columns that carries the data of its order.
pub record IsLine (cfg : Config) (head : Head) (lcnt : ℕ) (l : LineOrder) : Type 0 where
  pub number : l.linenumber ≡ lcnt + 1
  pub same_order : (l.okey ≡ head.okey) × (l.custkey ≡ head.custkey) × (l.orderdate ≡ head.odate)
  pub part : (1 ≤ l.partkey) × (l.partkey ≤ cfg.l_pkey_max)
  pub supplier : (1 ≤ l.suppkey) × (l.suppkey ≤ cfg.supp_base * cfg.scale)
  pub amount : (1 ≤ l.quantity) × (l.quantity ≤ 50)
  pub rebate : l.discount ≤ 10
  pub taken : l.opriority ≡ head.opriority
  pub mode : length l.shipmode ≤ o_ship_mode_len
  pub price : l.extended_price ≡ rpb_routine l.partkey * l.quantity

-- The lines are lines of the order, numbered on from lcnt + 1.
abbrev pub AllLines : Config → Head → ℕ → List LineOrder → Type 0
AllLines cfg head lcnt [] = Unit
AllLines cfg head lcnt (l ∷ ls) = IsLine cfg head lcnt l × AllLines cfg head (lcnt + 1) ls

-- What the lines take for granted: keys to draw from, the modes, the dates, and the order's date.
pub record IsReady (cfg : Config) (asc_date : List Text) (head : Head) : Type 0 where
  pub parts : (1 ≤ cfg.l_pkey_max) × (cfg.l_pkey_max < 2 ^ 53)
  pub suppliers : (1 ≤ cfg.supp_base * cfg.scale) × (cfg.supp_base * cfg.scale < 2 ^ 53)
  pub modes : IsDistribution cfg.l_smode_set
  pub short_modes : HasShort cfg.l_smode_set o_ship_mode_len
  pub dates : length asc_date ≡ totdate
  pub ordered : (startdate ≤ head.tmp_date) × (head.tmp_date ≤ o_odate_max)

pub mk_line-IsLine :
    (cfg : Config) (asc_date : List Text) (head : Head) (lcnt : ℕ) (st : Streams)
    → IsReady cfg asc_date head
    → Live st
    → (l : LineOrder) × (st' : Streams) × (mk_line cfg asc_date head lcnt st ≡ some (l, st'))
      × IsLine cfg head lcnt l
      × Live st'
unfolding mk_line ◌>>=◌
mk_line-IsLine cfg asc_date head lcnt st ready live =
    let skeys = cfg.supp_base * cfg.scale in
    let d1 = dss_random 1 cfg.l_pkey_max 19 st in
    let live1 = dss_random-Live 1 cfg.l_pkey_max 19 st live in
    let r1 =
      dss_random_range 1 cfg.l_pkey_max 19 st live ready.parts.0 (omega (arith, ready.parts.1)) in
    let d2 = dss_random 1 skeys 20 d1.1 in
    let live2 = dss_random-Live 1 skeys 20 d1.1 live1 in
    let r2 =
      dss_random_range 1 skeys 20 d1.1 live1 ready.suppliers.0 (omega (arith, ready.suppliers.1)) in
    let d3 = dss_random 1 50 14 d2.1 in
    let live3 = dss_random-Live 1 50 14 d2.1 live2 in
    let r3 = dss_random_range 1 50 14 d2.1 live2 (omega arith) (omega arith) in
    let d4 = dss_random 0 10 15 d3.1 in
    let live4 = dss_random-Live 0 10 15 d3.1 live3 in
    let r4 = dss_random_range 0 10 15 d3.1 live3 (omega arith) (omega arith) in
    let d5 = dss_random 0 8 16 d4.1 in
    let live5 = dss_random-Live 0 8 16 d4.1 live4 in
    let d6 = dss_random 30 90 22 d5.1 in
    let live6 = dss_random-Live 30 90 22 d5.1 live5 in
    let r6 = dss_random_range 30 90 22 d5.1 live5 (omega arith) (omega arith) in
    let at = d6.0 + head.tmp_date - startdate in
    let (commit, found) =
      get_elem?-some asc_date at
        (omega (arith, ready.dates, ready.ordered.0, ready.ordered.1, r6.0, r6.1)) in
    let (i, j, st', picked, inside, within, which, live7) =
      pick_str-first cfg.l_smode_set 18 d6.1 ready.modes live6 in
    (
      _,
      st',
      bind-some (lift (get_elem? asc_date at)) _ d6.1 (ap (λ (o : Option Text). lift o d6.1) found)
          ∙ bind-some (pick_str cfg.l_smode_set 18) _ d6.1 picked
          ∙ bind-some
              (lift (fitting o_ship_mode_len (get_or cfg.l_smode_set.list i no_member).text)) _ st'
              (ap (λ (o : Option Text). lift o st')
                (fitting-short o_ship_mode_len _ (ready.short_modes i inside))),
      record {
        number = refl;
        same_order = (refl, refl, refl);
        part = r1;
        supplier = r2;
        amount = r3;
        rebate = r4.1;
        taken = refl;
        mode = ready.short_modes i inside;
        price = refl;
      },
      live7,
    )

-- From live streams and with the data that IsReady lists, the loop of `mk_order` makes n lines: they
-- are numbered on, within the bounds of their columns, and carry the key, customer, date and priority of
-- the order.
pub mk_lines-AllLines :
    (n : ℕ) (cfg : Config) (asc_date : List Text) (head : Head) (lcnt : ℕ) (st : Streams)
    → IsReady cfg asc_date head
    → Live st
    → (ls : List LineOrder) × (st' : Streams) × (mk_lines n cfg asc_date head lcnt st
        ≡ some (ls, st'))
      × (length ls ≡ n)
      × AllLines cfg head lcnt ls
      × Live st'
unfolding mk_lines ◌>>=◌
mk_lines-AllLines zero cfg asc_date head lcnt st ready live = ([], st, refl, refl, tt, live)
mk_lines-AllLines (suc n) cfg asc_date head lcnt st ready live =
    let (l, st1, made, is_line, live1) = mk_line-IsLine cfg asc_date head lcnt st ready live in
    let (ls, st2, rest, size, are_lines, live2) =
      mk_lines-AllLines n cfg asc_date head (lcnt + 1) st1 ready live1 in
    (
      l ∷ ls,
      st2,
      bind-some (mk_line cfg asc_date head lcnt) _ st made
          ∙ bind-some (mk_lines n cfg asc_date head (lcnt + 1)) (λ more. ret (l ∷ more)) st1 rest,
      ap suc size,
      (is_line, are_lines),
      live2,
    )

pub priced-AllLines :
    (cfg : Config) (head : Head) (price lcnt : ℕ) (ls : List LineOrder)
    → AllLines cfg head lcnt ls
    → AllLines cfg head lcnt (map (priced price) ls)
priced-AllLines cfg head price lcnt [] all = tt
priced-AllLines cfg head price lcnt (l ∷ ls) (is_line, all) = (
  record {
    number = is_line.number;
    same_order = is_line.same_order;
    part = is_line.part;
    supplier = is_line.supplier;
    amount = is_line.amount;
    rebate = is_line.rebate;
    taken = is_line.taken;
    mode = is_line.mode;
    price = is_line.price;
  },
  priced-AllLines cfg head price (lcnt + 1) ls all,
)

pub total-priced : (price : ℕ) (ls : List LineOrder) → total (map (priced price) ls) ≡ total ls
total-priced price [] = refl
total-priced price (l ∷ ls) = ap (λ (t : ℕ). line_total l + t) (total-priced price ls)

-- Every line carries the price of its order.
abbrev pub AllPriced : ℕ → List LineOrder → Type 0
AllPriced price [] = Unit
AllPriced price (l ∷ ls) = (l.order_totalprice ≡ price) × AllPriced price ls

pub priced-AllPriced : (price : ℕ) (ls : List LineOrder) → AllPriced price (map (priced price) ls)
priced-AllPriced price [] = tt
priced-AllPriced price (l ∷ ls) = (refl, priced-AllPriced price ls)
