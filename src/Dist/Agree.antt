-- ===== src/Dist/Agree.antt =====
-- Generators run from two states of the streams that agree on some of the streams.
use mathlib.Core.Option.{none-ne-some, some-injective}
use structor.Common.{
  ℕ, zero, suc, ◌+◌, ◌≤◌, ◌%◌, ◌/◌, ◌==◌, [], ◌∷◌, length, get_elem?, Bool, true, false,
  if◌then◌else◌, Option, none, some, ◌≡◌, refl, sym, ap, ◌∙◌, arith,
}
use mathlib.Core.Path.{subst}
use structor.Seeds.{Streams, max_stream, stream_of, dss_random, unif_int}
use structor.Seeds.Row.{seed_at, hit, dss_random-hit}
use structor.Seeds.Live.{length-dss_random}
use structor.Dist.{
  Gen, ◌>>=◌, ret, lift, random, Distribution, pick_from, last_weight, pick_str, alpha_num,
  max_long, bits_for, a_rnd_loop, a_rnd,
}

-- A generator that binds has run its first part.
pub bind-inverse :
    {A B : Type 0} (g : Gen A) (f : A → Gen B) (st : Streams) {r : B × Streams}
    → (g >>= f) st ≡ some r
    → (a : A) × (t : Streams) × (g st ≡ some (a, t)) × (f a t ≡ some r)
unfolding ◌>>=◌
bind-inverse {A} {B} g f st {r} e = split (g st) refl e
  where
    split :
        (o : Option (A × Streams))
        → g st ≡ o
        → (elim o [ none ↦ none | some p ↦ f p.0 p.1 ]) ≡ some r
        → (a : A) × (t : Streams) × (g st ≡ some (a, t)) × (f a t ≡ some r)
    split none found end = absurd (none-ne-some _ end)
    split (some p) found end = (p.0, p.1, found, end)

-- Two whole arrays that have the same seeds on the streams that S picks.
pub record Sim (S : ℕ → Bool) (st st' : Streams) : Type 0 where
  pub size : length st.seeds ≡ 48
  pub size' : length st'.seeds ≡ 48
  pub same : (i : ℕ) → i ≤ max_stream → S i ≡ true → seed_at i st ≡ seed_at i st'

-- When both run, their values are related and the states agree again.
pub record Agree (S : ℕ → Bool) {A B : Type 0} (R : A → B → Type 0) (g : Gen A) (h : Gen B)
    : Type 0 where
  pub at :
      (st st' t t' : Streams) (a : A) (b : B)
      → Sim S st st'
      → g st ≡ some (a, t)
      → h st' ≡ some (b, t')
      → R a b × Sim S t t'

module _ {S : ℕ → Bool} {A B : Type 0} {R : A → B → Type 0} where
  pub Agree-ret : (a : A) (b : B) → R a b → Agree S R (ret a) (ret b)
  Agree-ret a b r = record {
    at = λ st st' t t' x y sim e e'.
        let p : (a, st) ≡ (x, t) = some-injective _ _ e in
        let q : (b, st') ≡ (y, t') = some-injective _ _ e' in
        (
          subst (λ v. R v y) (ap (λ (v : A × Streams). v.0) p)
              (subst (λ v. R a v) (ap (λ (v : B × Streams). v.0) q) r),
          subst (λ v. Sim S v t') (ap (λ (v : A × Streams). v.1) p)
              (subst (λ v. Sim S st v) (ap (λ (v : B × Streams). v.1) q) sim),
        );
  }

  pub Agree-bind :
      {C D : Type 0} {Q : C → D → Type 0} (g : Gen A) (h : Gen B) (f : A → Gen C) (k : B → Gen D)
      → Agree S R g h
      → ((a : A) (b : B) → R a b → Agree S Q (f a) (k b))
      → Agree S Q (g >>= f) (h >>= k)
  Agree-bind g h f k first rest = record {
    at = λ st st' t t' c d sim e e'.
        let (a, u, ran, next) = bind-inverse g f st e in
        let (b, u', ran', next') = bind-inverse h k st' e' in
        let (r, sim') = first.at st st' u u' a b sim ran ran' in
        (rest a b r).at u u' t t' c d sim' next next';
  }

pub Agree-lift : {S : ℕ → Bool} {A : Type 0} (o : Option A) → Agree S ◌≡◌ (lift o) (lift o)
Agree-lift none = record { at = λ st st' t t' x y sim e e'. absurd (none-ne-some _ e) }
Agree-lift (some a) = Agree-ret a a refl

-- The rest of a generator is the same when the first values are.
pub Agree-then :
    {S : ℕ → Bool} {A C D : Type 0} {Q : C → D → Type 0} (g : Gen A) (f : A → Gen C) (k : A → Gen D)
    → Agree S ◌≡◌ g g
    → ((a : A) → Agree S Q (f a) (k a))
    → Agree S Q (g >>= f) (g >>= k)
Agree-then {S} {Q = Q} g f k first rest =
    Agree-bind g g f k first (λ a b e. subst (λ v. Agree S Q (f a) (k v)) e (rest a))

dss_random-Sim :
    {S : ℕ → Bool} (lower upper stream : ℕ) (st st' : Streams)
    → Sim S st st'
    → Sim S (dss_random lower upper stream st).1 (dss_random lower upper stream st').1
dss_random-Sim {S} lower upper stream st st' sim = record {
  size = length-dss_random lower upper stream st ∙ sim.size;
  size' = length-dss_random lower upper stream st' ∙ sim.size';
  same = λ i h on.
      dss_random-hit lower upper stream i st h (omega (arith, sim.size))
      ∙ ap (hit i stream) (sim.same i h on)
      ∙ sym (dss_random-hit lower upper stream i st' h (omega (arith, sim.size')));
}

dss_random-value :
    {S : ℕ → Bool} (lower upper stream : ℕ) (st st' : Streams)
    → Sim S st st'
    → S (stream_of stream) ≡ true
    → (dss_random lower upper stream st).0 ≡ (dss_random lower upper stream st').0
unfolding dss_random unif_int
dss_random-value lower upper stream st st' sim on =
    let same = sim.same (stream_of stream) (ground arith) on in rw same

-- A draw from any stream keeps the agreement.
pub Agree-draw :
    {S : ℕ → Bool} (lower upper stream : ℕ)
    → Agree S (λ a b. Unit {0}) (random lower upper stream) (random lower upper stream)
Agree-draw {S} lower upper stream = record {
  at = λ st st' t t' a b sim e e'.
      let p : (dss_random lower upper stream st) ≡ (a, t) = some-injective _ _ e in
      let q : (dss_random lower upper stream st') ≡ (b, t') = some-injective _ _ e' in
      (
        tt,
        subst (λ v. Sim S v t') (ap (λ (v : ℕ × Streams). v.1) p)
            (subst (λ v. Sim S (dss_random lower upper stream st).1 v)
              (ap (λ (v : ℕ × Streams). v.1) q) (dss_random-Sim lower upper stream st st' sim)),
      );
}

-- A draw from a stream they agree on gives the same number.
pub Agree-random :
    {S : ℕ → Bool} (lower upper stream : ℕ)
    → S (stream_of stream) ≡ true
    → Agree S ◌≡◌ (random lower upper stream) (random lower upper stream)
Agree-random lower upper stream on = record {
  at = λ st st' t t' a b sim e e'.
      let p : (dss_random lower upper stream st) ≡ (a, t) = some-injective _ _ e in
      let q : (dss_random lower upper stream st') ≡ (b, t') = some-injective _ _ e' in
      (
        sym (ap (λ (v : ℕ × Streams). v.0) p)
            ∙ dss_random-value lower upper stream st st' sim on
            ∙ ap (λ (v : ℕ × Streams). v.0) q,
        ((Agree-draw lower upper stream).at st st' t t' a b sim e e').1,
      );
}

module _ {S : ℕ → Bool} where
  pub Agree-pick_str :
      (s : Distribution) (c : ℕ)
      → S (stream_of c) ≡ true
      → Agree S ◌≡◌ (pick_str s c) (pick_str s c)
  unfolding pick_str
  Agree-pick_str s c on = Agree-then (lift (last_weight s)) _ _ (Agree-lift (last_weight s)) λ top.
      Agree-then (random 1 top c) _ _ (Agree-random 1 top c on)
        λ j. Agree-lift (pick_from s.list j 0)

  Agree-bits_for :
      (i column char_int : ℕ)
      → S (stream_of column) ≡ true
      → Agree S ◌≡◌ (bits_for i column char_int) (bits_for i column char_int)
  unfolding bits_for
  Agree-bits_for i column char_int on = branch (i % 5 == 0)
    where
      branch :
          (b : Bool)
          → Agree S ◌≡◌
              (if b then random 0 max_long column else ret char_int)
              (if b then random 0 max_long column else ret char_int)
      branch true = Agree-random 0 max_long column on
      branch false = Agree-ret char_int char_int refl

  Agree-a_rnd_loop :
      (n i column char_int : ℕ)
      → S (stream_of column) ≡ true
      → Agree S ◌≡◌ (a_rnd_loop n i column char_int) (a_rnd_loop n i column char_int)
  unfolding a_rnd_loop
  Agree-a_rnd_loop zero i column char_int on = Agree-ret [] [] refl
  Agree-a_rnd_loop (suc n) i column char_int on =
      Agree-then (bits_for i column char_int) _ _ (Agree-bits_for i column char_int on) λ bits.
        Agree-then (lift (get_elem? alpha_num (bits % 64))) _ _ (Agree-lift _) λ c.
          Agree-then (a_rnd_loop n (i + 1) column (bits / 64)) _ _
            (Agree-a_rnd_loop n (i + 1) column (bits / 64) on)
            λ rest. Agree-ret (c ∷ rest) (c ∷ rest) refl

  pub Agree-a_rnd :
      (min max column : ℕ)
      → S (stream_of column) ≡ true
      → Agree S ◌≡◌ (a_rnd min max column) (a_rnd min max column)
  unfolding a_rnd
  Agree-a_rnd min max column on =
      Agree-then (random min max column) _ _ (Agree-random min max column on)
        λ len. Agree-a_rnd_loop len 0 column 0 on
