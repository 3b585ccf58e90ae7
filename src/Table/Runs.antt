-- ===== src/Table/Runs.antt =====
-- The loop of `gen_tbl` on a table whose rows have one generator and leave the segment alone: it runs,
-- its state is that of the rows' draws, and a longer run starts with a shorter one.
use structor.Common.{
  ℕ, zero, suc, ◌+◌, ◌≤◌, ◌<◌, List, [], ◌∷◌, ◌++◌, length, get_elem?, Bool, false, ◌==◌,
  if◌then◌else◌, Option, some, ◌≡◌, refl, ap, ◌∙◌, arith,
}
use mathlib.Core.Path.{ap₂, subst}
use structor.Seeds.{Streams, Draw, draws, row, row_start, row_stop}
use structor.Seeds.Live.{Live}
use structor.Seeds.Row.{uncounted}
use structor.Seeds.Rows.{Bounded, row-Live, row-Bounded, row_start-Live}
use structor.Dist.{Gen, ◌>>=◌, bind-some, ret}
use structor.Dist.Runs.{Runs, RunsAt}
use structor.Advance.Rows.{rows, AllCounted}
use structor.Table.{Run, Row, Call, Segment, make_row, calls_of, child_of, gen_rows}

-- A row makes at most 32 draws.
abbrev pub AllShort : List (List Draw) → Type 0
AllShort [] = Unit
AllShort (ds ∷ rs) = (length ds ≤ 32) × AllShort rs

uncounted-none : (i : ℕ) (ds : List Draw) → 0 < i → uncounted i ds ≡ 0
uncounted-none i [] h = refl
uncounted-none i (d ∷ ds) h = ground (arith, uncounted-none i ds h)

-- Only seed 0 pays for draws out of range.
pub AllShort-counted : (i : ℕ) (rs : List (List Draw)) → 0 < i → AllShort rs → AllCounted i rs
AllShort-counted i [] h short = tt
AllShort-counted i (ds ∷ rs) h (few, short) =
    (uncounted-none i ds h, omega arith, AllShort-counted i rs h short)

pub rows-append :
    (t : ℕ) (rs qs : List (List Draw)) (st : Streams)
    → rows child_of t (rs ++ qs) st ≡ rows child_of t qs (rows child_of t rs st)
rows-append t [] qs st = refl
rows-append t (ds ∷ rs) qs st = rows-append t rs qs (row false child_of t ds st)

pub rows-Live :
    (t : ℕ) (rs : List (List Draw)) (st : Streams)
    → AllShort rs
    → Bounded st
    → Live st
    → Bounded (rows child_of t rs st) × Live (rows child_of t rs st)
rows-Live t [] st short small live = (small, live)
rows-Live t (ds ∷ rs) st (few, short) small live =
    rows-Live t rs (row false child_of t ds st) short (row-Bounded child_of t ds st live.0 small)
      (row-Live child_of t ds st (omega arith) small live)

-- A table t of a run: what makes its rows, and what holds of row i.
pub record Source (run : Run) (t : ℕ) (A : Type 0) : Type 0 where
  pub mk : ℕ → Gen A
  pub into : A → Row
  pub made :
      (total i : ℕ) (s : Segment)
      → make_row run t total i s ≡ (mk i >>= λ a. ret (some (into a), s))
  pub loads : run.set_seeds ≡ false

module _ {run : Run} {t : ℕ} {A : Type 0} (src : Source run t A) where
  abbrev pub call : Segment → A → Call
  call s a = record { row = src.into a; upd_num = if t == 4 then 0 else s.upd_num }

  -- One row, and the rows behind it.
  gen_rows-suc :
      (total n i : ℕ) (s : Segment) (st v : Streams) (a : A) (ds : List Draw) (calls : List Call)
      → src.mk i (row_start st) ≡ some (a, draws ds (row_start st))
      → gen_rows run t total n (i + 1) s (row false child_of t ds st) ≡ some (calls, v)
      → gen_rows run t total (suc n) i s st ≡ some (call s a ∷ calls, v)
  unfolding gen_rows ◌>>=◌ row
  gen_rows-suc total n i s st v a ds calls one rest =
      bind-some (make_row run t total i s) _ (row_start st) (
        ap (λ (g : Gen (Option Row × Segment)). g (row_start st)) (src.made total i s)
        ∙ bind-some (src.mk i) _ (row_start st) one)
      ∙ bind-some (gen_rows run t total n (i + 1) s) _ _ (
          ap
            (λ (b : Bool).
              gen_rows run t total n (i + 1) s (row_stop b child_of t (draws ds (row_start st))))
            src.loads
          ∙ rest)
      ∙ ap (λ (b : Bool). some (calls_of b t (some (src.into a)) s.upd_num calls, v)) src.loads

  -- The calls load rows i, i + 1 and so on, with the update number of the segment.
  abbrev pub AllRows : (ℕ → A → Type 0) → Segment → ℕ → List Call → Type 0
  AllRows P s i [] = Unit
  AllRows P s i (c ∷ cs) = ((a : A) × (c ≡ call s a) × P i a) × AllRows P s (i + 1) cs

  -- Call j of them.
  pub AllRows-at :
      (P : ℕ → A → Type 0) (s : Segment) (i j : ℕ) (cs : List Call)
      → AllRows P s i cs
      → j < length cs
      → (a : A) × (get_elem? cs j ≡ some (call s a)) × P (i + j) a
  AllRows-at P s i j [] all h = absurd (omega arith)
  AllRows-at P s i zero (c ∷ cs) ((a, e, p), all) h =
      let same : i ≡ i + 0 = omega arith in (a, ap some e, subst (λ k. P k a) same p)
  AllRows-at P s i (suc j) (c ∷ cs) (first, all) h =
      let (a, e, p) = AllRows-at P s (i + 1) j cs all (omega arith) in
      let same : i + 1 + j ≡ i + suc j = omega arith in (a, e, subst (λ k. P k a) same p)

  -- The run of n rows from row i on.
  pub record Loaded (P : ℕ → A → Type 0) (total n i : ℕ) (s : Segment) (st : Streams) : Type 0 where
    pub calls : List Call
    pub made : List (List Draw)
    pub runs : gen_rows run t total n i s st ≡ some (calls, rows child_of t made st)
    pub number : length made ≡ n
    pub size : length calls ≡ n
    pub short : AllShort made
    pub all : AllRows P s i calls
    -- the rows behind them
    pub next :
        (k j m : ℕ) (more : List Call) (v : Streams)
        → k ≡ n + m
        → j ≡ i + n
        → gen_rows run t total m j s (rows child_of t made st) ≡ some (more, v)
        → gen_rows run t total k i s st ≡ some (calls ++ more, v)

  Loaded-suc :
      (P : ℕ → A → Type 0) (total n i : ℕ) (s : Segment) (st : Streams)
      (one : RunsAt 32 (src.mk i) (P i) (row_start st))
      → Loaded P total n (i + 1) s (row false child_of t one.made st)
      → Loaded P total (suc n) i s st
  Loaded-suc P total n i s st one rest = record {
    calls = call s one.value ∷ rest.calls;
    made = one.made ∷ rest.made;
    runs = gen_rows-suc total n i s st _ one.value one.made rest.calls one.runs rest.runs;
    number = ap suc rest.number;
    size = ap suc rest.size;
    short = (one.few, rest.short);
    all = ((one.value, refl, one.holds), rest.all);
    next = λ k j m more v ek ej e.
        ap (λ (l : ℕ). gen_rows run t total l i s st) (omega arith)
        ∙ gen_rows-suc total (n + m) i s st v one.value one.made (rest.calls ++ more) one.runs
            (rest.next (n + m) j m more v refl (omega arith) e);
  }

  pub gen_rows-Loaded :
      (P : ℕ → A → Type 0) (total n i : ℕ) (s : Segment) (st : Streams)
      → ((j : ℕ) → Runs 32 (src.mk j) (P j))
      → Bounded st
      → Live st
      → Loaded P total n i s st
  unfolding gen_rows row_start
  gen_rows-Loaded P total zero i s st ok small live = record {
    calls = [];
    made = [];
    runs = refl;
    number = refl;
    size = refl;
    short = tt;
    all = tt;
    next = λ k j m more v ek ej e.
        ap₂ (λ (l h : ℕ). gen_rows run t total l h s st) (omega arith) (omega arith) ∙ e;
  }
  gen_rows-Loaded P total (suc n) i s st ok small live =
      let one = (ok i).at (row_start st) (row_start-Live st live) in
      Loaded-suc P total n i s st one (
        gen_rows-Loaded P total n (i + 1) s (row false child_of t one.made st) ok
          (row-Bounded child_of t one.made st live.0 small)
          (row-Live child_of t one.made st (omega (arith, one.few)) small live))
