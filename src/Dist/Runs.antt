-- ===== src/Dist/Runs.antt =====
-- Total correctness of generators: from live streams they run, with at most n draws, to a value that a
-- property holds of. One rule for each way to build a generator.
use structor.Common.{
  ℕ, ◌+◌, ◌-◌, ◌≤◌, ◌<◌, ◌^◌, List, [], ◌∷◌, ◌++◌, length, length-append, Bool, true, false,
  if◌then◌else◌, Option, some, ◌≡◌, refl, sym, ap, ◌∙◌, arith,
}
use structor.Seeds.{Streams, Draw, draws, dss_random}
use structor.Seeds.Live.{Live, dss_random-Live, dss_random_range}
use structor.Dist.{Gen, ◌>>=◌, bind-some, ret, lift, random}

pub draws-append : (ds es : List Draw) (st : Streams) → draws (ds ++ es) st ≡ draws es (draws ds st)
unfolding draws
draws-append [] es st = refl
draws-append (d ∷ ds) es st = draws-append ds es (dss_random d.lower d.upper d.stream st).1

pub draws-Live : (ds : List Draw) (st : Streams) → Live st → Live (draws ds st)
unfolding draws
draws-Live [] st live = live
draws-Live (d ∷ ds) st live = draws-Live ds _ (dss_random-Live d.lower d.upper d.stream st live)

-- The run of a generator from one state.
pub record RunsAt {A : Type 0} (n : ℕ) (g : Gen A) (P : A → Type 0) (st : Streams) : Type 0 where
  pub value : A
  pub made : List Draw
  pub runs : g st ≡ some (value, draws made st)
  pub few : length made ≤ n
  pub holds : P value

pub record Runs {A : Type 0} (n : ℕ) (g : Gen A) (P : A → Type 0) : Type 0 where
  pub at : (st : Streams) → Live st → RunsAt n g P st

module _ {A : Type 0} where
  pub Runs-ret : (P : A → Type 0) (a : A) → P a → Runs 0 (ret a) P
  unfolding draws
  Runs-ret P a h = record {
    at = λ st live. record { value = a; made = []; runs = refl; few = omega arith; holds = h };
  }

  pub Runs-lift : (P : A → Type 0) (o : Option A) (a : A) → o ≡ some a → P a → Runs 0 (lift o) P
  unfolding draws
  Runs-lift P o a e h = record {
    at = λ st live. record {
      value = a;
      made = [];
      runs = ap (λ (p : Option A). lift p st) e;
      few = omega arith;
      holds = h;
    };
  }

  pub Runs-weaken :
      {P Q : A → Type 0} {n : ℕ} {g : Gen A} (m : ℕ)
      → n ≤ m
      → ((a : A) → P a → Q a)
      → Runs n g P
      → Runs m g Q
  Runs-weaken m le imp r = record {
    at = λ st live.
        let one = r.at st live in
        record {
          value = one.value;
          made = one.made;
          runs = one.runs;
          few = omega (arith, one.few);
          holds = imp one.value one.holds;
        };
  }

  pub Runs-if :
      {P : A → Type 0} {n : ℕ} {g h : Gen A} (b : Bool)
      → Runs n g P
      → Runs n h P
      → Runs n (if b then g else h) P
  Runs-if true rg rh = rg
  Runs-if false rg rh = rh

pub Runs-random :
    (lower upper stream : ℕ)
    → lower ≤ upper
    → upper - lower < 2 ^ 53
    → Runs 1 (random lower upper stream) (λ v. (lower ≤ v) × (v ≤ upper))
unfolding draws
Runs-random lower upper stream ordered span = record {
  at = λ st live. record {
    value = (dss_random lower upper stream st).0;
    made = record { lower = lower; upper = upper; stream = stream } ∷ [];
    runs = refl;
    few = omega arith;
    holds = dss_random_range lower upper stream st live ordered span;
  };
}

module _ {A B : Type 0} {P : A → Type 0} {Q : B → Type 0} {n m : ℕ} where
  pub Runs-bind :
      (g : Gen A) (f : A → Gen B)
      → Runs n g P
      → ((a : A) → P a → Runs m (f a) Q)
      → Runs (n + m) (g >>= f) Q
  Runs-bind g f first rest = record {
    at = λ st live.
        let a = first.at st live in
        let b = (rest a.value a.holds).at (draws a.made st) (draws-Live a.made st live) in
        record {
          value = b.value;
          made = a.made ++ b.made;
          runs =
              bind-some g f st a.runs
              ∙ b.runs
              ∙ ap (λ (s : Streams). some (b.value, s)) (sym (draws-append a.made b.made st));
          few = omega (arith, length-append a.made b.made, a.few, b.few);
          holds = b.holds;
        };
  }
