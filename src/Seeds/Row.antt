-- ===== src/Seeds/Row.antt =====
-- What one generated row does to a stream.
use mathlib.Core.Path.{subst, ap₂}
use structor.Common.{
  ℕ, suc, ◌+◌, ◌-◌, ◌≤◌, ◌<◌, List, [], ◌∷◌, ℤ, pos, sub_ℕ, eqb_ℤ, false, ◌&&◌, ◌||◌, ltb, leb,
  ◌==◌, if◌then◌else◌, get_or, modify, length, length-map, length-modify, get_or-map,
  get_or-modify_self, get_or-modify_ne, ◌≡◌, refl, sym, ap, ◌∙◌, arith, Bool-cases, inl, inr,
}
use structor.Rng.{n_m, next_rand}
use structor.Skip.{nth_element}
use structor.Skip.Steps.{iterate, iterate-add, iterate_range}
use structor.Skip.Words.{nth_element-iterate, nth_element-negsuc, iterate-period}
use structor.Seeds.{
  Seed, Streams, Draw, max_stream, no_seed, stream_of, unif_int, dss_random, clear_usage, row_start,
  stop_seed, stop_table, row_stop, draws, row,
}

abbrev pub seed_at : ℕ → Streams → Seed
seed_at i st = get_or st.seeds i no_seed

pub get_or-modify :
    (xs : List Seed) (i j : ℕ) (f : Seed → Seed)
    → j < length xs
    → get_or (modify xs i f) j no_seed
      ≡ (if i == j then f (get_or xs j no_seed) else get_or xs j no_seed)
get_or-modify xs i j f h = elim (Bool-cases (i == j)) [
  | inl same ↦ let e : i ≡ j = ground arith in rw same (rw e (get_or-modify_self xs j f no_seed h))
  | inr other ↦ rw other (get_or-modify_ne xs i j f no_seed (ground arith))
]

-- What one draw from a stream does to seed i.
abbrev pub hit : ℕ → ℕ → Seed → Seed
hit i stream s = record s {
  value = if stream_of stream == i then next_rand s.value else s.value;
  usage = if stream == i then s.usage + 1 else s.usage;
}

pub dss_random-hit :
    (lower upper stream i : ℕ) (st : Streams)
    → i ≤ max_stream
    → i < length st.seeds
    → seed_at i (dss_random lower upper stream st).1 ≡ hit i stream (seed_at i st)
unfolding dss_random unif_int
dss_random-hit lower upper stream i st small h = elim (Bool-cases (ltb max_stream stream)) [
  | inl out ↦ rw out (ground (arith, get_or-modify st.seeds 0 i drawn h))
  | inr within ↦ rw within (
      ground (
        arith,
        get_or-modify st.seeds stream i drawn h,
        get_or-modify (modify st.seeds stream drawn) stream i counted,
        length-modify st.seeds stream drawn,
      ))
]
  where
    drawn : Seed → Seed
    drawn s = record s { value = next_rand (get_or st.seeds (stream_of stream) no_seed).value }

    counted : Seed → Seed
    counted s = record s { usage = s.usage + 1 }

-- Draws of a row that use seed i and are counted there.
abbrev pub counted : ℕ → List Draw → ℕ
counted i [] = 0
counted i (d ∷ ds) = (if d.stream == i then 1 else 0) + counted i ds

-- Draws of a row from streams out of range, which use seed 0 and are counted nowhere.
abbrev pub uncounted : ℕ → List Draw → ℕ
uncounted i [] = 0
uncounted i (d ∷ ds) = (if ltb max_stream d.stream && (0 == i) then 1 else 0) + uncounted i ds

pub counted-le : (i : ℕ) (ds : List Draw) → counted i ds ≤ length ds
counted-le i [] = omega arith
counted-le i (d ∷ ds) = ground (arith, counted-le i ds)

-- The seed s after a row's draws, from what it was.
pub record Drawn (i : ℕ) (ds : List Draw) (before after : Seed) : Type 0 where
  pub table : after.table ≡ before.table
  pub boundary : after.boundary ≡ before.boundary
  pub value : after.value ≡ iterate (counted i ds + uncounted i ds) before.value
  pub usage : after.usage ≡ before.usage + counted i ds

Drawn-cons :
    (i : ℕ) (d : Draw) (ds : List Draw) (s t : Seed)
    → i ≤ max_stream
    → Drawn i ds (hit i d.stream s) t
    → Drawn i (d ∷ ds) s t
Drawn-cons i d ds s t small h = record {
  table = h.table;
  boundary = h.boundary;
  value = elim (Bool-cases (stream_of d.stream == i)) [
    | inl drawn ↦
        let e : counted i (d ∷ ds) + uncounted i (d ∷ ds) ≡ suc (counted i ds + uncounted i ds) =
          ground arith in
        h.value ∙ rw (drawn, e)
    | inr not_drawn ↦
        let e : counted i (d ∷ ds) + uncounted i (d ∷ ds) ≡ counted i ds + uncounted i ds =
          ground arith in
        h.value ∙ rw (not_drawn, e)
  ];
  usage = ground (arith, h.usage);
}

length-dss_random :
    (lower upper stream : ℕ) (st : Streams)
    → length (dss_random lower upper stream st).1.seeds ≡ length st.seeds
unfolding dss_random unif_int
length-dss_random lower upper stream st = elim (Bool-cases (ltb max_stream stream)) [
  | inl out ↦ rw out (length-modify st.seeds 0 _)
  | inr within ↦ rw within (length-modify _ stream _ ∙ length-modify st.seeds stream _)
]

pub draws-Drawn :
    (ds : List Draw) (i : ℕ) (st : Streams)
    → i ≤ max_stream
    → i < length st.seeds
    → Drawn i ds (seed_at i st) (seed_at i (draws ds st))
unfolding draws
draws-Drawn [] i st small h = record {
  table = refl;
  boundary = refl;
  value = refl;
  usage = omega arith;
}
draws-Drawn (d ∷ ds) i st small h =
    let st' = (dss_random d.lower d.upper d.stream st).1 in
    Drawn-cons i d ds (seed_at i st) _ small (
      subst (λ s. Drawn i ds s (seed_at i (draws ds st')))
        (dss_random-hit d.lower d.upper d.stream i st small h)
        (draws-Drawn ds i st' small (rw (length-dss_random d.lower d.upper d.stream st) h)))

pub length-draws : (ds : List Draw) (st : Streams) → length (draws ds st).seeds ≡ length st.seeds
unfolding draws
length-draws [] st = refl
length-draws (d ∷ ds) st =
    length-draws ds (dss_random d.lower d.upper d.stream st).1
    ∙ length-dss_random d.lower d.upper d.stream st

-- The end of a row puts a seed of its table on the boundary, whether it was used less or more.
pub resync :
    (b n x v : ℕ)
    → 0 < v
    → v < n_m
    → b < n_m
    → n < n_m
    → nth_element (sub_ℕ b n) (iterate (n + x) v) ≡ iterate (b + x) v
resync b n x v p h hb hn =
    let (ip, il) = iterate_range (n + x) v p h in
    elim (Bool-cases (leb n b)) [
      | inl fewer ↦
          let e : n + x + (b - n) ≡ b + x = ground arith in
          rw fewer (
            nth_element-iterate (b - n) (iterate (n + x) v) (omega arith) ip il
            ∙ sym (iterate-add (n + x) (b - n) v)
            ∙ ap (λ (k : ℕ). iterate k v) e)
      | inr more ↦
          let e : n + x + (2147483646 - suc (n - b - 1)) ≡ 2147483646 + (b + x) = ground arith in
          rw more (
            nth_element-negsuc (n - b - 1) (iterate (n + x) v) (omega arith) ip il
            ∙ sym (iterate-add (n + x) (2147483646 - suc (n - b - 1)) v)
            ∙ ap (λ (k : ℕ). iterate k v) e
            ∙ iterate-add 2147483646 (b + x) v
            ∙ ap (iterate (b + x)) (iterate-period v h))
    ]

stop_seed-value :
    (t : ℕ) (child : ℤ) (s : Seed)
    → s.table ≡ pos t
    → (stop_seed false (pos t) child s).value ≡ nth_element (sub_ℕ s.boundary s.usage) s.value
unfolding stop_seed
stop_seed-value t child s own = rw own (ground arith)

stop_seed-layout :
    (t child : ℤ) (s : Seed)
    → ((stop_seed false t child s).table ≡ s.table)
      × ((stop_seed false t child s).boundary ≡ s.boundary)
unfolding stop_seed
stop_seed-layout t child s = elim (Bool-cases (eqb_ℤ s.table t || eqb_ℤ s.table child)) [
  | inl own ↦ rw own (refl, refl)
  | inr other ↦ rw other (refl, refl)
]

pub length-row :
    (child : ℕ → ℤ) (t : ℕ) (ds : List Draw) (st : Streams)
    → length (row false child t ds st).seeds ≡ length st.seeds
unfolding row row_stop row_start
length-row child t ds st =
    length-map (draws ds (row_start st)).seeds _
    ∙ length-draws ds (row_start st)
    ∙ length-map st.seeds clear_usage

-- At the end of a row of table t, outside the calibrating mode, a seed of that table has moved by its
-- boundary, whatever was drawn in the row, plus the row's draws from streams out of range if it
-- is seed 0. The seeds' range is that of `next_rand_range`, and the row makes fewer than 2^31 - 1
-- draws.
pub row_value :
    (child : ℕ → ℤ) (t : ℕ) (ds : List Draw) (i : ℕ) (st : Streams)
    → i ≤ max_stream
    → i < length st.seeds
    → (get_or st.seeds i no_seed).table ≡ pos (stop_table t)
    → 0 < (get_or st.seeds i no_seed).value
    → (get_or st.seeds i no_seed).value < n_m
    → (get_or st.seeds i no_seed).boundary < n_m
    → length ds < n_m
    → (get_or (row false child t ds st).seeds i no_seed).value
      ≡ iterate
          ((get_or st.seeds i no_seed).boundary + uncounted i ds)
          (get_or st.seeds i no_seed).value
unfolding row row_start row_stop
row_value child t ds i st small inside own pos_v small_v small_b few =
    ap (λ (s : Seed). s.value) (get_or-map ends i stop no_seed no_seed there)
    ∙ stopped
    ∙ ap₂ (λ (b n : ℕ). nth_element (sub_ℕ b n) end.value) d.boundary used
    ∙ ap (nth_element (sub_ℕ before.boundary (counted i ds))) d.value
    ∙ resync before.boundary (counted i ds) (uncounted i ds) before.value pos_v small_v small_b
        (omega (arith, counted-le i ds))
  where
    before : Seed
    before = get_or st.seeds i no_seed

    ends : List Seed
    ends = (draws ds (row_start st)).seeds

    end : Seed
    end = get_or ends i no_seed

    stop : Seed → Seed
    stop = stop_seed false (pos (stop_table t)) (child (stop_table t))

    there : i < length ends
    there = rw (length-draws ds (row_start st)) (rw (length-map st.seeds clear_usage) inside)

    d : Drawn i ds (clear_usage before) end
    d =
        subst (λ s. Drawn i ds s end) (get_or-map st.seeds i clear_usage no_seed no_seed inside)
          (draws-Drawn ds i (row_start st) small (rw (length-map st.seeds clear_usage) inside))

    stopped : (stop end).value ≡ nth_element (sub_ℕ end.boundary end.usage) end.value
    stopped = stop_seed-value (stop_table t) (child (stop_table t)) end (d.table ∙ own)

    used : end.usage ≡ counted i ds
    used = omega (arith, d.usage)

-- A row outside the calibrating mode changes no table and no boundary.
pub row-layout :
    (child : ℕ → ℤ) (t : ℕ) (ds : List Draw) (i : ℕ) (st : Streams)
    → i ≤ max_stream
    → i < length st.seeds
    → ((get_or (row false child t ds st).seeds i no_seed).table ≡ (get_or st.seeds i no_seed).table)
      × ((get_or (row false child t ds st).seeds i no_seed).boundary
          ≡ (get_or st.seeds i no_seed).boundary)
unfolding row row_start row_stop
row-layout child t ds i st small inside =
    rw (get_or-map (draws ds (row_start st)).seeds i stop no_seed no_seed there) (
      let (et, eb) = stop_seed-layout (pos (stop_table t)) (child (stop_table t)) end in
      (et ∙ d.table, eb ∙ d.boundary))
  where
    end : Seed
    end = get_or (draws ds (row_start st)).seeds i no_seed

    stop : Seed → Seed
    stop = stop_seed false (pos (stop_table t)) (child (stop_table t))

    there : i < length (draws ds (row_start st)).seeds
    there = rw (length-draws ds (row_start st)) (rw (length-map st.seeds clear_usage) inside)

    d : Drawn i ds (clear_usage (get_or st.seeds i no_seed)) end
    d =
        subst (λ s. Drawn i ds s end) (get_or-map st.seeds i clear_usage no_seed no_seed inside)
          (draws-Drawn ds i (row_start st) small (rw (length-map st.seeds clear_usage) inside))
