-- ===== src/Qgen/Varsub/March.antt =====
-- The date of query 3.
use structor.Common.{
  ℕ, zero, suc, ◌+◌, ◌≤◌, ◌<◌, List, [], ◌∷◌, ◌++◌, get_elem?, get_or, Bool, true, false, ◌==◌,
  ◌&&◌, and_left, and_right, ==_iff, Option, none, some, all_below, all_below-at, ◌≡◌, refl, sym,
  ap, ◌∙◌, arith,
}
use mathlib.Core.Option.{none-ne-some, some-injective}
use structor.Seeds.{Streams}
use structor.Seeds.Live.{Live}
use structor.Text.{Text, codes, dec, dec_digits, dec_pad}
use structor.Dist.{Distribution, lift, pick_str}
use structor.Dist.Pick.{IsDistribution, no_member}
use structor.Dist.Strings.{Runs-pick_str}
use structor.Calendar.{
  ◌>>=◌, DssTime, mk_time, mk_ascdate, mk_ascdate_from, totdate, julian, month_of, month_from,
  pr_date_text, julian_loop, leap,
}
use structor.Qgen.Varsub.{Sources, unif, texts_1_to_6, query_texts}
use structor.Qgen.Varsub.Returns.{
  Returns, Returns-ret, Returns-runs, Returns-lift, Returns-bind, Returns-unif,
}

-- Whether a date has a text.
abbrev is_text : Text → Text → Bool
is_text [] [] = true
is_text [] (d ∷ t) = false
is_text (c ∷ s) [] = false
is_text (c ∷ s) (d ∷ t) = c == d && is_text s t

abbrev is_date : Option DssTime → Text → Bool
is_date none t = false
is_date (some d) t = is_text d.alpha t

abbrev pub march : ℕ → Text
march day = codes "199503" ++ dec_pad 2 day

march_times : all_below (λ i. is_date (mk_time (1156 + i)) (march (i + 1))) 31 ≡ true
unfolding all_below mk_time julian month_of month_from pr_date_text dec_pad dec dec_digits
    julian_loop leap
march_times = refl

is_text-eq : (s t : Text) → is_text s t ≡ true → s ≡ t
is_text-eq [] [] h = refl
is_text-eq [] (d ∷ t) h = cc h
is_text-eq (c ∷ s) [] h = cc h
is_text-eq (c ∷ s) (d ∷ t) h =
    let same : c ≡ d = (==_iff c d).0 (and_left (c == d) (is_text s t) h) in
    let rest = is_text-eq s t (and_right (c == d) (is_text s t) h) in λ i. same i ∷ rest i

is_date-some :
    (o : Option DssTime) (t : Text)
    → is_date o t ≡ true
    → (d : DssTime) × (o ≡ some d) × (d.alpha ≡ t)
is_date-some none t h = cc h
is_date-some (some d) t h = (d, refl, is_text-eq d.alpha t h)

-- The two parts of a chain that succeeds.
chain-inverse :
    {A B : Type 0} (o : Option A) (f : A → Option B) {b : B}
    → (elim o [ none ↦ none | some a ↦ f a ]) ≡ some b
    → (a : A) × (o ≡ some a) × (f a ≡ some b)
chain-inverse none f e = absurd (none-ne-some _ e)
chain-inverse (some a) f e = (a, refl, e)

mk_ascdate_from-inverse :
    (n i : ℕ) (ts : List Text)
    → mk_ascdate_from (suc n) i ≡ some ts
    → (d : DssTime) × (rest : List Text) × (mk_time i ≡ some d)
      × (mk_ascdate_from n (i + 1) ≡ some rest)
      × (d.alpha ∷ rest ≡ ts)
unfolding mk_ascdate_from
mk_ascdate_from-inverse n i ts e =
    let (d, made, later) =
      chain-inverse (mk_time i) (λ t. mk_ascdate_from n (i + 1) >>= λ rest. some (t.alpha ∷ rest))
        (split (mk_time i) _ e) in
    let (rest, more, whole) =
      chain-inverse (mk_ascdate_from n (i + 1)) (λ ts. some (d.alpha ∷ ts))
        (split (mk_ascdate_from n (i + 1)) _ later) in
    (d, rest, made, more, some-injective _ _ whole)
  where
    split :
        {A B : Type 0} (o : Option A) (f : A → Option B) {b : B}
        → (o >>= f) ≡ some b
        → (elim o [ none ↦ none | some a ↦ f a ]) ≡ some b
    split none f e = e
    split (some a) f e = e

-- The dates of `mk_ascdate` are those of `mk_time`, in order.
get_elem?-mk_ascdate_from :
    (n i k : ℕ) (ts : List Text) (d : DssTime)
    → mk_ascdate_from n i ≡ some ts
    → k < n
    → mk_time (i + k) ≡ some d
    → get_elem? ts k ≡ some d.alpha
get_elem?-mk_ascdate_from zero i k ts d e h time = absurd (omega arith)
get_elem?-mk_ascdate_from (suc n) i zero ts d e h time =
    let (d', rest, made, more, whole) = mk_ascdate_from-inverse n i ts e in
    let here : i + 0 ≡ i = omega arith in
    let same : d' ≡ d = some-injective _ _ (sym made ∙ ap mk_time (sym here) ∙ time) in
    ap (λ (u : List Text). get_elem? u 0) (sym whole) ∙ ap (λ (x : DssTime). some x.alpha) same
get_elem?-mk_ascdate_from (suc n) i (suc k) ts d e h time =
    let (d', rest, made, more, whole) = mk_ascdate_from-inverse n i ts e in
    let there : i + suc k ≡ i + 1 + k = omega arith in
    ap (λ (u : List Text). get_elem? u (suc k)) (sym whole)
    ∙ get_elem?-mk_ascdate_from n (i + 1) k rest d more (omega arith)
        (ap mk_time (sym there) ∙ time)

pub asc_date-march :
    (ts : List Text) (i : ℕ)
    → mk_ascdate ≡ some ts
    → i ≤ 30
    → get_elem? ts (i + 1155) ≡ some (march (i + 1))
unfolding mk_ascdate
asc_date-march ts i e h =
    let (d, time, alpha) = is_date-some (mk_time (1156 + i)) (march (i + 1)) (
      all_below-at (λ k. is_date (mk_time (1156 + k)) (march (k + 1))) 31 i march_times
        (omega arith)) in
    let place : 1156 + i ≡ 1 + (i + 1155) = omega arith in
    get_elem?-mk_ascdate_from totdate 1 (i + 1155) ts d e (omega arith)
      (ap mk_time (sym place) ∙ time)
    ∙ ap (λ (t : Text). some t) alpha

-- The text of a member.
abbrev pub member_text : Distribution → ℕ → Text
member_text s i = (get_or s.list i no_member).text

-- A segment of the distribution and a day of March 1995.
abbrev HasMarch : Distribution → List Text → Type 0
HasMarch s ts =
    (i : ℕ) × (day : ℕ) × (ts ≡ member_text s i ∷ (march day ∷ ([] ∷ [])))
    × (i < s.count)
    × (1 ≤ day)
    × (day ≤ 31)

module _ (fuel : ℕ) (src : Sources) (segments : IsDistribution src.c_mseg_set)
    (dates : mk_ascdate ≡ some src.asc_date) where
  march_3 : Returns (texts_1_to_6 fuel src 3) (HasMarch src.c_mseg_set)
  unfolding texts_1_to_6
  march_3 =
      Returns-bind (pick_str src.c_mseg_set 3) _
        (Returns-runs (Runs-pick_str src.c_mseg_set 3 segments))
        λ segment hs.
          Returns-bind (unif 0 30 3) _ (Returns-unif 0 30 3 (omega arith) (omega arith)) λ n h.
            Returns-bind (lift (get_elem? src.asc_date (n + 1155))) _
              (Returns-lift (λ t. t ≡ march (n + 1)) (get_elem? src.asc_date (n + 1155))
                (march (n + 1)) (asc_date-march src.asc_date n dates h.1) refl)
              λ date e. Returns-ret (HasMarch src.c_mseg_set) (segment.1 ∷ (date ∷ ([] ∷ []))) (
                segment.0,
                n + 1,
                (λ k. hs.1 k ∷ (e k ∷ ([] ∷ []))),
                hs.0,
                omega arith,
                omega arith,
              )

  marches : Returns (query_texts fuel src 3) (λ o.
      (i : ℕ) × (day : ℕ) × (o ≡ some (member_text src.c_mseg_set i ∷ (march day ∷ ([] ∷ []))))
      × (i < src.c_mseg_set.count)
      × (1 ≤ day)
      × (day ≤ 31))
  unfolding query_texts
  marches =
      Returns-bind (texts_1_to_6 fuel src 3) _ march_3
        λ ts h. Returns-ret _ (some ts) (h.0, h.1, ap some h.2, h.3, h.4, h.5)

-- From live streams, with segments that can be drawn from and the dates that `mk_ascdate` makes: the
-- texts of query 3 are that of a member of the segments and the date of a day of March 1995, from the
-- first to the 31st.
pub query_texts-march :
    (fuel : ℕ) (src : Sources) (st : Streams)
    → IsDistribution src.c_mseg_set
    → mk_ascdate ≡ some src.asc_date
    → Live st
    → (i : ℕ) × (day : ℕ) × (st' : Streams) × (query_texts fuel src 3 st
        ≡ some (some (member_text src.c_mseg_set i ∷ (march day ∷ ([] ∷ []))), st'))
      × (i < src.c_mseg_set.count)
      × (1 ≤ day)
      × (day ≤ 31)
      × Live st'
query_texts-march fuel src st segments dates live =
    let r = (marches fuel src segments dates).at st live in
    let (i, day, e, inside, low, high) = r.holds in
    (i, day, r.after, r.runs ∙ ap (λ o. some (o, r.after)) e, inside, low, high, r.live)
