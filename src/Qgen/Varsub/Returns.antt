-- ===== src/Qgen/Varsub/Returns.antt =====
-- Generators that return from live streams and leave live streams.
use structor.Common.{
  ℕ, ◌-◌, ◌≤◌, ◌<◌, ◌^◌, length-modify, get_or, ◌==◌, Bool-cases, inl, inr, Option, some, ◌≡◌, refl,
  ap, ◌∙◌, arith,
}
use structor.Rng.{next_rand}
use structor.Rng.Cycle.{next_rand_range}
use structor.Seeds.{Streams, Seed, no_seed, stream_of, unif_int, draws}
use structor.Seeds.Range.{unif_int_range}
use structor.Seeds.Row.{seed_at, get_or-modify}
use structor.Seeds.Live.{Live}
use structor.Dist.{Gen, ◌>>=◌, bind-some, ret, lift}
use structor.Dist.Runs.{Runs, draws-Live}
use structor.Qgen.Varsub.{unif}

pub record ReturnsAt {A : Type 0} (g : Gen A) (P : A → Type 0) (st : Streams) : Type 0 where
  pub value : A
  pub after : Streams
  pub runs : g st ≡ some (value, after)
  pub live : Live after
  pub holds : P value

pub record Returns {A : Type 0} (g : Gen A) (P : A → Type 0) : Type 0 where
  pub at : (st : Streams) → Live st → ReturnsAt g P st

module _ {A : Type 0} where
  pub Returns-ret : (P : A → Type 0) (a : A) → P a → Returns (ret a) P
  Returns-ret P a h = record {
    at = λ st live. record { value = a; after = st; runs = refl; live = live; holds = h };
  }

  pub Returns-lift : (P : A → Type 0) (o : Option A) (a : A) → o ≡ some a → P a → Returns (lift o) P
  Returns-lift P o a e h = record {
    at = λ st live. record {
      value = a;
      after = st;
      runs = ap (λ (p : Option A). lift p st) e;
      live = live;
      holds = h;
    };
  }

  pub Returns-runs : {n : ℕ} {g : Gen A} {P : A → Type 0} → Runs n g P → Returns g P
  Returns-runs r = record {
    at = λ st live.
        let one = r.at st live in
        record {
          value = one.value;
          after = draws one.made st;
          runs = one.runs;
          live = draws-Live one.made st live;
          holds = one.holds;
        };
  }

pub Returns-bind :
    {A B : Type 0} {P : A → Type 0} {Q : B → Type 0} (g : Gen A) (f : A → Gen B)
    → Returns g P
    → ((a : A) → P a → Returns (f a) Q)
    → Returns (g >>= f) Q
Returns-bind g f first rest = record {
  at = λ st live.
      let a = first.at st live in
      let b = (rest a.value a.holds).at a.after a.live in
      record {
        value = b.value;
        after = b.after;
        runs = bind-some g f st a.runs ∙ b.runs;
        live = b.live;
        holds = b.holds;
      };
}

unif-Live :
    (low high stream : ℕ) (st : Streams)
    → Live st
    → Live (record st { seeds = (unif_int low high stream st.seeds).1 })
unfolding unif_int
unif-Live low high stream st (size, live) = (
  length-modify st.seeds _ _ ∙ size,
  λ i h.
      let (p, q) = live i h in
      let (p', q') = live (stream_of stream) (ground arith) in
      let (np, nq) = next_rand_range (seed_at (stream_of stream) st).value p' q' in
      let e = get_or-modify st.seeds (stream_of stream) i drawn (omega arith) in
      rw e (elim (Bool-cases (stream_of stream == i)) [
        | inl own ↦ rw own (np, nq)
        | inr other ↦ rw other (p, q)
      ]),
)
  where
    drawn : Seed → Seed
    drawn s = record s { value = next_rand (get_or st.seeds (stream_of stream) no_seed).value }

pub Returns-unif :
    (low high stream : ℕ)
    → low ≤ high
    → high - low < 2 ^ 53
    → Returns (unif low high stream) (λ v. (low ≤ v) × (v ≤ high))
unfolding unif
Returns-unif low high stream ordered span = record {
  at = λ st live. record {
    value = (unif_int low high stream st.seeds).0;
    after = record st { seeds = (unif_int low high stream st.seeds).1 };
    runs = refl;
    live = unif-Live low high stream st live;
    holds =
        let (p, q) = live.1 (stream_of stream) (ground arith) in
        ground (arith, unif_int_range low high stream st.seeds p q (ground arith));
  };
}
