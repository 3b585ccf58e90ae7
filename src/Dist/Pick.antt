-- ===== src/Dist/Pick.antt =====
-- What `pick_str` and `a_rnd` return with live streams.
use structor.Common.{
  ℕ, zero, suc, ◌+◌, ◌-◌, ◌≤◌, ◌<◌, ◌^◌, List, [], ◌∷◌, length, get_elem?, get_or, ltb, Bool-cases,
  inl, inr, Option, none, some, true, false, ◌≡◌, refl, ap, ◌∙◌, arith,
}
use structor.Seeds.{Streams, dss_random}
use structor.Seeds.Live.{Live, dss_random-Live, dss_random_range}
use structor.Text.{Text}
use structor.Dist.{
  Distribution, SetMember, pick_from, last_weight, pick_str, ◌>>=◌, bind-some, lift, random,
}

abbrev pub no_member : SetMember
no_member = record { weight = 0; text = [] }

-- The weight of member i, 0 behind the end.
abbrev pub weight_at : List SetMember → ℕ → ℕ
weight_at ms i = (get_or ms i no_member).weight

-- The scan stops at the first member whose weight is not less than j.
pub pick_from-first :
    (ms : List SetMember) (j base last : ℕ)
    → last < length ms
    → j ≤ weight_at ms last
    → (i : ℕ) × (i ≤ last)
      × (pick_from ms j base ≡ some (base + i, (get_or ms i no_member).text))
      × (j ≤ weight_at ms i)
      × ((k : ℕ) → k < i → weight_at ms k < j)
unfolding pick_from
pick_from-first [] j base last h reach = absurd (omega arith)
pick_from-first (m ∷ ms) j base zero h reach =
    let stop : ltb m.weight j ≡ false = ground arith in
    (
      0,
      omega arith,
      rw stop (ap (λ (t : ℕ). some (t, m.text)) (omega arith)),
      reach,
      λ k below. absurd (omega arith),
    )
pick_from-first (m ∷ ms) j base (suc last) h reach = elim (Bool-cases (ltb m.weight j)) [
  | inl on ↦
      let (i, inside, e, enough, before) =
        pick_from-first ms j (base + 1) last (omega arith) reach in
      (
        suc i,
        omega arith,
        rw on (e ∙ ap (λ (t : ℕ). some (t, (get_or ms i no_member).text)) (omega arith)),
        enough,
        λ k below. earlier on before k below,
      )
  | inr stop ↦ (
    0,
    omega arith,
    rw stop (ap (λ (t : ℕ). some (t, m.text)) (omega arith)),
    ground arith,
    λ k below. absurd (omega arith),
  )
]
  where
    earlier :
        {i : ℕ}
        → ltb m.weight j ≡ true
        → ((k : ℕ) → k < i → weight_at ms k < j)
        → (k : ℕ) → k < suc i
        → weight_at (m ∷ ms) k < j
    earlier on before zero below = ground arith
    earlier on before (suc k) below = before k (omega arith)

pub get_elem?-get_or :
    (ms : List SetMember) (i : ℕ) → i < length ms → get_elem? ms i ≡ some (get_or ms i no_member)
get_elem?-get_or [] i h = absurd (omega arith)
get_elem?-get_or (m ∷ ms) zero h = refl
get_elem?-get_or (m ∷ ms) (suc i) h = get_elem?-get_or ms i (omega arith)

pick_str-from :
    (s : Distribution) (c : ℕ) (st : Streams) (top i : ℕ) (t : Text)
    → last_weight s ≡ some top
    → pick_from s.list (dss_random 1 top c st).0 0 ≡ some (i, t)
    → pick_str s c st ≡ some ((i, t), (dss_random 1 top c st).1)
unfolding pick_str ◌>>=◌
pick_str-from s c st top i t weight picked =
    bind-some (lift (last_weight s)) (λ w. random 1 w c >>= λ j. lift (pick_from s.list j 0)) st
      (ap (λ (o : Option ℕ). lift o st) weight)
    ∙ ap (λ (o : Option (ℕ × Text)). lift o (dss_random 1 top c st).1) picked

pub last_weight-some :
    (s : Distribution)
    → get_elem? s.list (s.count - 1) ≡ some (get_or s.list (s.count - 1) no_member)
    → last_weight s ≡ some (weight_at s.list (s.count - 1))
last_weight-some s member =
    ap (λ (o : Option SetMember). elim o [ none ↦ none | some m ↦ some m.weight ]) member

-- A distribution as `read_dist` fills it: `count` members, the last weight a total of at least 1.
pub record IsDistribution (d : Distribution) : Type 0 where
  pub count_positive : 0 < d.count
  pub count_inside : d.count ≤ length d.list
  pub total_positive : 1 ≤ weight_at d.list (d.count - 1)
  pub total_small : weight_at d.list (d.count - 1) < 2 ^ 53

pub pick_str-first :
    (s : Distribution) (c : ℕ) (st : Streams)
    → IsDistribution s
    → Live st
    → (i : ℕ) × (j : ℕ) × (st' : Streams) × (pick_str s c st
        ≡ some ((i, (get_or s.list i no_member).text), st'))
      × (i < s.count)
      × ((1 ≤ j) × (j ≤ weight_at s.list (s.count - 1)))
      × ((j ≤ weight_at s.list i) × ((k : ℕ) → k < i → weight_at s.list k < j))
      × Live st'
unfolding pick_str ◌>>=◌
pick_str-first s c st ok live =
    let top = weight_at s.list (s.count - 1) in
    let member =
      get_elem?-get_or s.list (s.count - 1) (omega (arith, ok.count_positive, ok.count_inside)) in
    let next = (dss_random 1 top c st).1 in
    let j = (dss_random 1 top c st).0 in
    let range =
      dss_random_range 1 top c st live ok.total_positive (omega (arith, ok.total_small)) in
    let (i, inside, picked, enough, before) =
      pick_from-first s.list j 0 (s.count - 1) (omega (arith, ok.count_positive, ok.count_inside))
        range.1 in
    (
      i,
      j,
      next,
      pick_str-from s c st top i (get_or s.list i no_member).text (last_weight-some s member)
          (picked ∙ ap (λ (t : ℕ). some (t, (get_or s.list i no_member).text)) (omega arith)),
      omega (arith, ok.count_positive),
      range,
      (enough, before),
      dss_random-Live 1 top c st live,
    )
