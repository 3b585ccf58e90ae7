-- ===== src/Load/Rows.antt =====
-- All children of a parallel load of customers together against the serial run.
use mathlib.Core.Option.{some-injective}
use mathlib.Core.Path.{subst}
use structor.Common.{
  ℕ, zero, suc, ◌+◌, ◌-◌, ◌*◌, ◌/◌, ◌≤◌, ◌<◌, List, [], ◌∷◌, ◌++◌, length, get_elem?, false, some,
  ◌≡◌, refl, sym, ap, ◌∙◌, arith,
}
use structor.Rng.{n_m}
use structor.Seeds.{Streams}
use structor.Seeds.Table.{layout}
use structor.Chunk.{
  tdefs, Outcome, done, scale_overflow, undefined, row_count, Chunk, partial, cust_table,
}
use structor.Chunk.Tiling.{Generates, partial-tiles}
use structor.Chunk.Dates.{serial_rows}
use structor.Chunk.Resume.{streams, IsSeeded}
use structor.Build.Parties.{Customer}
use structor.Build.Parties.Runs.{IsCustomer}
use structor.Build.Parties.Agree.{cust_streams, SameButCity, Agree-mk_cust}
use structor.Table.{
  Run, Row, Call, Segment, customer_row, order_row, supplier_row, part_row, date_row, gen_tbl,
}
use structor.Table.Runs.{call, AllRows-at}
use structor.Table.Agree.{AllSame-at}
use structor.Load.Customers.{IsReady, Matches, customers, start_segment}
use structor.Load.Children.{partial-Matches}

get_elem?-middle :
    {A : Type 0} (before mine after : List A) (j : ℕ)
    → j < length mine
    → get_elem? (before ++ (mine ++ after)) (length before + j) ≡ get_elem? mine j
get_elem?-middle {A} [] mine after j h = start mine j h
  where
    start :
        (mine : List A) (j : ℕ)
        → j < length mine
        → get_elem? (mine ++ after) (0 + j) ≡ get_elem? mine j
    start [] j h = absurd (omega arith)
    start (x ∷ mine) zero h = refl
    start (x ∷ mine) (suc j) h =
        let same : 0 + suc j ≡ suc (0 + j) = omega arith in
        ap (get_elem? (x ∷ (mine ++ after))) same ∙ start mine j (omega arith)
get_elem?-middle (x ∷ before) mine after j h =
    let same : suc (length before) + j ≡ suc (length before + j) = omega arith in
    ap (get_elem? (x ∷ (before ++ (mine ++ after)))) same ∙ get_elem?-middle before mine after j h

-- The customer of a row, or another one.
customer_of : Customer → Row → Customer
customer_of other (customer_row c) = c
customer_of other (order_row o) = other
customer_of other (supplier_row s) = other
customer_of other (part_row p) = other
customer_of other (date_row d) = other

call-injective :
    (run : Run) (loads : run.set_seeds ≡ false) (s : Segment) (a b : Customer)
    → call (customers run loads) s a ≡ call (customers run loads) s b
    → a ≡ b
unfolding customer_of
call-injective run loads s a b e = ap (λ (c : Call). customer_of a c.row) e

-- The chunk of an outcome, or another one.
chunk_of : Chunk → Outcome Chunk → Chunk
chunk_of other (done c) = c
chunk_of other scale_overflow = other
chunk_of other undefined = other

done-injective : (c d : Chunk) → done c ≡ done d → c ≡ d
unfolding chunk_of
done-injective c d e = ap (chunk_of c) e

-- Row r of the serial calls is made by child s too.
pub record IsServed (run : Run) (loads : run.set_seeds ≡ false) (scale children upd_num : ℕ)
    (value : ℕ → ℕ) (serial : List Call) (r s : ℕ) : Type 0 where
  pub c : Chunk
  pub chunk : partial cust_table scale children s (layout value) ≡ done c
  pub calls : List Call
  pub left : Streams
  pub child_runs :
      gen_tbl run cust_table c.start c.count upd_num (record { seeds = c.seeds; stray = [] })
      ≡ some (calls, left)
  pub a : Customer
  pub b : Customer
  pub serial_row :
      get_elem? serial (r - 1) ≡ some (call (customers run loads) (start_segment upd_num) a)
  pub child_row :
      get_elem? calls (r - c.start) ≡ some (call (customers run loads) (start_segment upd_num) b)
  pub same : SameButCity a b
  pub whole : IsCustomer run.config r a × IsCustomer run.config r b

Matches-IsServed :
    (run : Run) (loads : run.set_seeds ≡ false) (scale children total upd_num : ℕ) (value : ℕ → ℕ)
    (serial : List Call) (last : Streams) (r s : ℕ) (c : Chunk)
    → gen_tbl run cust_table 1 total upd_num (streams value) ≡ some (serial, last)
    → partial cust_table scale children s (layout value) ≡ done c
    → Matches run loads total upd_num value c
    → c.start ≤ r
    → r < c.start + c.count
    → IsServed run loads scale children upd_num value serial r s
Matches-IsServed run loads scale children total upd_num value serial last r s c ran chunk m low
      high =
    let seg = start_segment upd_num in
    let j = r - c.start in
    let inside : j < length m.mine = omega (arith, m.size) in
    let place : c.start + j ≡ r = omega arith in
    let (a, b, at_a, at_b, same) =
      AllSame-at (customers run loads) cust_streams SameButCity (Agree-mk_cust run.config) seg j
        m.mine m.calls m.same inside in
    let (a', at_a', whole_a) =
      AllRows-at (customers run loads) (IsCustomer run.config) seg c.start j m.mine m.whole.0
        inside in
    let own : j < length m.calls = omega (arith, m.calls_size) in
    let (b', at_b', whole_b) =
      AllRows-at (customers run loads) (IsCustomer run.config) seg c.start j m.calls m.whole.1
        own in
    record {
      c = c;
      chunk = chunk;
      calls = m.calls;
      left = m.left;
      child_runs = m.child_runs;
      a = a;
      b = b;
      serial_row =
          ap (λ (cs : List Call). get_elem? cs (r - 1))
            (ap (λ (p : List Call × Streams). p.0) (some-injective _ _ (sym ran ∙ m.serial_runs)))
          ∙ ap (get_elem? (m.before ++ (m.mine ++ m.after))) (omega (arith, m.first))
          ∙ get_elem?-middle m.before m.mine m.after j inside
          ∙ at_a;
      child_row = at_b;
      same = same;
      whole = (
        subst (λ k. IsCustomer run.config k a) place
            (subst (IsCustomer run.config (c.start + j))
              (call-injective run loads seg a' a (some-injective _ _ (sym at_a' ∙ at_a))) whole_a),
        subst (λ k. IsCustomer run.config k b) place
            (subst (IsCustomer run.config (c.start + j))
              (call-injective run loads seg b' b (some-injective _ _ (sym at_b' ∙ at_b))) whole_b),
      );
    }

-- For a serial run and children that start from the same seeds, as with -T c, where no other table comes
-- first: mk_supp draws its phones from a stream of the customers. With a distribution of segments, a
-- region for every nation and all seeds in range, for at least one child and a positive scale in range
-- of which 324 * row_count is below 2^31 - 1, outside the calibrating mode: the serial run loads the
-- customer table without an error, and every row r from 1
-- to 30000 * scale is made by exactly one child, which loads for it the customer of the serial run but
-- for the digit of the city. Both customers are well formed.
pub serial-IsServed :
    (run : Run) (loads : run.set_seeds ≡ false) (part_factor : ℕ → ℕ) (scale children upd_num : ℕ)
    (value : ℕ → ℕ)
    → IsReady run.config
    → IsSeeded value
    → 0 < scale
    → 0 < children
    → scale / children ≤ 1000
    → 324 * row_count 30000 scale children < n_m
    → (serial : List Call) × (last : Streams) × (gen_tbl run cust_table 1
          (serial_rows part_factor cust_table scale)
          upd_num
          (streams value)
        ≡ some (serial, last))
      × ((r : ℕ)
          → 1 ≤ r
          → r ≤ 30000 * scale
          → (s : ℕ) × (0 < s)
            × (s ≤ children)
            × IsServed run loads scale children upd_num value serial r s
            × ((s' : ℕ)
                → 0 < s'
                → s' ≤ children
                → Generates cust_table scale children (layout value) r s'
                → s' ≡ s))
unfolding tdefs
serial-IsServed run loads part_factor scale children upd_num value ready seeded p pc hc fits =
    let one : (s : ℕ)
        → 0 < s
        → s ≤ children
        → (c : Chunk) × (partial cust_table scale children s (layout value) ≡ done c)
          × Matches run loads (serial_rows part_factor cust_table scale) upd_num value c =
      λ s ps hs.
        partial-Matches run loads part_factor scale children s upd_num value ready seeded p ps hs hc
          fits in
    let (c0, chunk0, m0) = one 1 (omega arith) (omega arith) in
    (
      m0.before ++ (m0.mine ++ m0.after),
      m0.last,
      m0.serial_runs,
      λ r low high.
          let (s, ps, hs, (c, chunk, from, to), unique) =
            partial-tiles cust_table scale children (layout value) p pc hc r low high in
          let (c', chunk', m) = one s ps hs in
          (
            s,
            ps,
            hs,
            Matches-IsServed run loads scale children _ upd_num value _ m0.last r s c m0.serial_runs
                chunk
                (subst (Matches run loads (serial_rows part_factor cust_table scale) upd_num value)
                  (done-injective c' c (sym chunk' ∙ chunk)) m)
                from to,
            unique,
          ),
    )
