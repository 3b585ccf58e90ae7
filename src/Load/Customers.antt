-- ===== src/Load/Customers.antt =====
-- The customers of a child against those of a serial run.
use structor.Common.{
  ℕ, zero, suc, ◌+◌, ◌*◌, ◌<◌, List, [], ◌∷◌, ◌++◌, map, length, false, some, ◌≡◌, refl, ap, ◌∙◌,
  arith,
}
use mathlib.Core.Option.{some-injective}
use mathlib.Core.Path.{subst}
use structor.Rng.{n_m}
use structor.Seeds.{Seed, Streams, row_start, clear_usage}
use structor.Seeds.Table.{layout}
use structor.Seeds.Live.{Live}
use structor.Seeds.Rows.{Bounded}
use structor.Seeds.Bounds.{layout-Bounded}
use structor.Advance.{repeat, sd_cust}
use structor.Advance.Rows.{rows}
use structor.Dist.{◌>>=◌, ret}
use structor.Dist.Agree.{Sim}
use structor.Dist.Pick.{IsDistribution}
use structor.Build.Config.{Config}
use structor.Build.Fields.Runs.{IsNations}
use structor.Build.Parties.{Customer, mk_cust}
use structor.Build.Parties.Runs.{IsCustomer, Runs-mk_cust}
use structor.Build.Parties.Agree.{cust_streams, SameButCity, Agree-mk_cust}
use structor.Chunk.{Chunk, cust_table}
use structor.Chunk.Resume.{streams, IsSeeded}
use structor.Table.{Run, Call, Segment, customer_row, make_row, child_of, gen_rows, gen_tbl}
use structor.Table.Runs.{Source, AllRows, Loaded, gen_rows-Loaded, rows-Live}
use structor.Table.Agree.{AllSame, Agree-gen_rows}
use structor.Load.Seeds.{streams-Live, rows-Sim}

pub make_row-customer :
    (run : Run) (total i : ℕ) (s : Segment)
    → make_row run cust_table total i s
      ≡ (mk_cust run.config i >>= λ c. ret (some (customer_row c), s))
unfolding make_row
make_row-customer run total i s = refl

-- The customer table of a run.
abbrev pub customers : (run : Run) → run.set_seeds ≡ false → Source run cust_table Customer
customers run loads = record {
  mk = mk_cust run.config;
  into = customer_row;
  made = make_row-customer run;
  loads = loads;
}

abbrev Same : (run : Run) → run.set_seeds ≡ false → Segment → List Call → List Call → Type 0
Same run loads s =
    AllSame (customers run loads) cust_streams SameButCity (Agree-mk_cust run.config) s

row_start-again : (st : Streams) → row_start (row_start st) ≡ row_start st
unfolding row_start
row_start-again st =
    ap (λ (xs : List Seed). record { seeds = xs; stray = st.stray }) (twice st.seeds)
  where
    twice : (xs : List Seed) → map clear_usage (map clear_usage xs) ≡ map clear_usage xs
    twice [] = refl
    twice (s ∷ xs) = ap (λ (ys : List Seed). clear_usage s ∷ ys) (twice xs)

gen_rows-row_start :
    (run : Run) (t total n i : ℕ) (s : Segment) (st : Streams)
    → gen_rows run t total (suc n) i s (row_start st) ≡ gen_rows run t total (suc n) i s st
unfolding gen_rows ◌>>=◌
gen_rows-row_start run t total n i s st = rw (row_start-again st) refl

-- The same rows from states of which the next row makes states that agree.
agree_from :
    (run : Run) (loads : run.set_seeds ≡ false) (total total' n i : ℕ) (s : Segment)
    (st st' t t' : Streams) (calls calls' : List Call)
    → Sim cust_streams (row_start st) (row_start st')
    → gen_rows run cust_table total n i s st ≡ some (calls, t)
    → gen_rows run cust_table total' n i s st' ≡ some (calls', t')
    → Same run loads s calls calls'
unfolding gen_rows
agree_from run loads total total' zero i s st st' t t' calls calls' sim e e' =
    subst (λ v. Same run loads s v calls')
      (ap (λ (p : List Call × Streams). p.0) (some-injective _ _ e))
      (subst (λ v. Same run loads s [] v)
        (ap (λ (p : List Call × Streams). p.0) (some-injective _ _ e')) tt)
agree_from run loads total total' (suc n) i s st st' t t' calls calls' sim e e' =
    ((Agree-gen_rows (customers run loads) cust_streams SameButCity (Agree-mk_cust run.config) total
        total' (suc n) i s).at
      (row_start st) (row_start st') t t' calls calls' sim
      (gen_rows-row_start run cust_table total n i s st ∙ e)
      (gen_rows-row_start run cust_table total' n i s st' ∙ e')).0

abbrev pub start_segment : ℕ → Segment
start_segment upd_num = record { rows = 0; upd_num = upd_num }

-- A child's run and the serial run of `total` rows, in which the rows `mine` of the child's numbers
-- are those that the child makes.
pub record Matches (run : Run) (loads : run.set_seeds ≡ false) (total upd_num : ℕ) (value : ℕ → ℕ)
    (c : Chunk) : Type 0 where
  pub calls : List Call
  pub left : Streams
  pub child_runs :
      gen_tbl run cust_table c.start c.count upd_num (record { seeds = c.seeds; stray = [] })
      ≡ some (calls, left)
  pub before : List Call
  pub mine : List Call
  pub after : List Call
  pub last : Streams
  pub serial_runs :
      gen_tbl run cust_table 1 total upd_num (streams value)
      ≡ some (before ++ (mine ++ after), last)
  pub first : length before + 1 ≡ c.start
  pub size : length mine ≡ c.count
  pub calls_size : length calls ≡ c.count
  pub same : Same run loads (start_segment upd_num) mine calls
  pub whole :
      AllRows (customers run loads) (IsCustomer run.config) (start_segment upd_num) c.start mine
      × AllRows (customers run loads) (IsCustomer run.config) (start_segment upd_num) c.start calls

-- What the rows of customers take for granted: every nation has a region, and a distribution of
-- segments.
pub record IsReady (cfg : Config) : Type 0 where
  pub nations : IsNations cfg.nations cfg.regions
  pub segments : IsDistribution cfg.c_mseg_set

module _ (run : Run) (loads : run.set_seeds ≡ false) (ready : IsReady run.config)
    (upd_num : ℕ) where
  load :
      (total n i : ℕ) (st : Streams)
      → Bounded st
      → Live st
      → Loaded (customers run loads) (IsCustomer run.config) total n i (start_segment upd_num) st
  load total n i st small live =
      gen_rows-Loaded (customers run loads) (IsCustomer run.config) total n i
        (start_segment upd_num) st (λ j. Runs-mk_cust run.config j ready.nations ready.segments)
        small live

  -- A chunk of `count` rows behind n chunks of k rows, and `rest` rows behind it.
  pub chunk-Matches :
      (total k n count rest : ℕ) (value w : ℕ → ℕ) (c : Chunk)
      → total ≡ k * n + (count + rest)
      → c ≡ record { start = k * n + 1; count = count; seeds = repeat n (sd_cust k) (layout value) }
      → 324 * k < n_m
      → IsSeeded value
      → repeat n (sd_cust k) (layout value) ≡ layout w
      → IsSeeded w
      → Matches run loads total upd_num value c
  unfolding gen_tbl
  chunk-Matches total k n count rest value w c sum ec fits seeded e seeded' =
      let none =
        load total (k * n) 1 (streams value) (layout-Bounded value) (streams-Live value seeded) in
      let (small1, live1) =
        rows-Live cust_table none.made (streams value) none.short (layout-Bounded value)
          (streams-Live value seeded) in
      let at = rows child_of cust_table none.made (streams value) in
      let some_rows = load total count (k * n + 1) at small1 live1 in
      let (small2, live2) = rows-Live cust_table some_rows.made at some_rows.short small1 live1 in
      let end = rows child_of cust_table some_rows.made at in
      let others = load total rest (k * n + 1 + count) end small2 live2 in
      let own =
        load count count (k * n + 1) (streams w) (layout-Bounded w) (streams-Live w seeded') in
      rw (ec, e)
        (record {
          calls = own.calls;
          left = rows child_of cust_table own.made (streams w);
          child_runs = own.runs;
          before = none.calls;
          mine = some_rows.calls;
          after = others.calls;
          last = rows child_of cust_table others.made end;
          serial_runs =
              none.next total (k * n + 1) (count + rest) (some_rows.calls ++ others.calls) _ sum
                (omega arith)
                (some_rows.next (count + rest) (k * n + 1 + count) rest others.calls _ refl refl
                  others.runs);
          first = ap (λ (m : ℕ). m + 1) none.size;
          size = some_rows.size;
          calls_size = own.size;
          same =
              agree_from run loads total count count (k * n + 1) (start_segment upd_num) at
                (streams w) _ _ some_rows.calls own.calls
                (rows-Sim n k value w none.made seeded fits e none.number none.short) some_rows.runs
                own.runs;
          whole = (some_rows.all, own.all);
        })
