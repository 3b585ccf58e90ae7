-- ===== src/Qgen/Varsub/Whole.antt =====
-- `varsub` sets as many parameters as the defaults have.
use structor.Common.{
  ℕ, zero, suc, ◌≤◌, List, [], ◌∷◌, length, Bool, true, false, ◌==◌, Bool-cases, inl, inr, Option,
  none, some, if◌then◌else◌, ◌≡◌, ◌≢◌, refl, sym, ap, ◌∙◌, arith,
}
use mathlib.Core.Path.{subst}
use structor.Seeds.{Streams}
use structor.Seeds.Live.{Live}
use structor.Text.{Text}
use structor.Dist.{Gen, ◌>>=◌, ret, lift, bind-some}
use structor.Qgen.Varsub.{
  Sources, query_texts, overlay, until_empty, Result, result_of, log_line, log_texts,
  set_parameters, varsub,
}
use structor.Qgen.Varsub.Returns.{Returns, Returns-ret, Returns-bind}
use structor.Qgen.Varsub.Counts.{IsFull, IsReady, row_length}
use structor.Qgen.Varsub.Early.{
  texts_1, texts_2, texts_3, texts_4, texts_5, texts_6, texts_8, texts_9, texts_10, texts_11,
}
use structor.Qgen.Varsub.Late.{
  texts_13, texts_14, texts_15, texts_16, texts_17, texts_18, texts_19, texts_20, texts_21,
  texts_22,
}

-- A property of the numbers 1 to n, and of one of them.
abbrev AllTo : (ℕ → Type 0) → ℕ → Type 0
AllTo P zero = Unit {0}
AllTo P (suc n) = AllTo P n × P (suc n)

AllTo-at : (P : ℕ → Type 0) (n q : ℕ) → AllTo P n → 1 ≤ q → q ≤ n → P q
AllTo-at P zero q all h below = absurd (omega arith)
AllTo-at P (suc n) q all h below = elim (Bool-cases (q == suc n)) [
  | inl e ↦ let same : suc n ≡ q = ground arith in subst P same all.1
  | inr other ↦ AllTo-at P n q all.0 h (ground arith)
]

-- The texts that a query writes, n of them and an empty one, or ten.
abbrev Writes : ℕ → Option (List Text) → Type 0
Writes n o = (ts : List Text) × (o ≡ some ts) × IsFull 10 n ts

written :
    (n : ℕ) (g : Gen (List Text))
    → Returns g (IsFull 10 n)
    → Returns (g >>= λ ts. ret (some ts)) (Writes n)
written n g r = Returns-bind g _ r λ ts full. Returns-ret (Writes n) (some ts) (ts, refl, full)

abbrev QueryWrites : ℕ → Sources → ℕ → Type 0
QueryWrites fuel src q = q ≢ 7 → q ≢ 12 → Returns (query_texts fuel src q) (Writes (row_length q))

module _ (fuel : ℕ) (src : Sources) (ok : IsReady src) where
  first_queries : AllTo (QueryWrites fuel src) 11
  unfolding query_texts
  first_queries = (
    (
      (
        (
          (
            (
              (
                (
                  (
                    (
                      (tt, λ a b. written 1 _ (texts_1 fuel src ok)),
                      λ a b. written 3 _ (texts_2 fuel src ok),
                    ),
                    λ a b. written 2 _ (texts_3 fuel src ok),
                  ),
                  λ a b. written 1 _ (texts_4 fuel src ok),
                ),
                λ a b. written 2 _ (texts_5 fuel src ok),
              ),
              λ a b. written 3 _ (texts_6 fuel src ok),
            ),
            λ a b. absurd (a refl),
          ),
          λ a b. written 3 _ (texts_8 fuel src ok),
        ),
        λ a b. written 1 _ (texts_9 fuel src ok),
      ),
      λ a b. written 1 _ (texts_10 fuel src ok),
    ),
    λ a b. written 2 _ (texts_11 fuel src ok),
  )

  all_queries : AllTo (QueryWrites fuel src) 22
  unfolding query_texts
  all_queries = (
    (
      (
        (
          (
            (
              (
                (
                  (
                    (
                      (first_queries, λ a b. absurd (b refl)),
                      λ a b. written 2 _ (texts_13 fuel src ok),
                    ),
                    λ a b. written 1 _ (texts_14 fuel src ok),
                  ),
                  λ a b. written 1 _ (texts_15 fuel src ok),
                ),
                λ a b. written 10 _ (texts_16 fuel src ok),
              ),
              λ a b. written 2 _ (texts_17 fuel src ok),
            ),
            λ a b. written 1 _ (texts_18 fuel src ok),
          ),
          λ a b. written 6 _ (texts_19 fuel src ok),
        ),
        λ a b. written 3 _ (texts_20 fuel src ok),
      ),
      λ a b. written 1 _ (texts_21 fuel src ok),
    ),
    λ a b. written 7 _ (texts_22 fuel src ok),
  )

overlay-IsFull :
    (room n : ℕ) (ts ps : List Text)
    → IsFull room n ts
    → length ps ≡ room
    → (r : List Text) × (overlay ts ps ≡ some r) × (length r ≡ room) × (length (until_empty r) ≡ n)
unfolding until_empty
overlay-IsFull zero n [] [] full h = ([], refl, refl, sym full)
overlay-IsFull zero n [] (p ∷ ps) full h = absurd (omega arith)
overlay-IsFull zero n (t ∷ ts) ps full h = absurd full
overlay-IsFull (suc room) n [] ps full h = absurd full
overlay-IsFull (suc room) n (t ∷ ts) [] full h = absurd (omega arith)
overlay-IsFull (suc room) zero (t ∷ []) (p ∷ ps) full h =
    (t ∷ ps, refl, h, ap (λ (u : Text). length (until_empty (u ∷ ps))) full.0)
overlay-IsFull (suc room) zero (t ∷ t' ∷ ts) (p ∷ ps) full h = cc full.1
overlay-IsFull (suc room) (suc n) ([] ∷ ts) (p ∷ ps) full h = absurd (full.0 refl)
overlay-IsFull (suc room) (suc n) ((c ∷ t) ∷ ts) (p ∷ ps) full h =
    let (r, e, size, count) = overlay-IsFull room n ts ps full.1 (omega arith) in
    (
      (c ∷ t) ∷ r,
      ap (λ (o : Option (List Text)). elim o [ none ↦ none | some rest ↦ some ((c ∷ t) ∷ rest) ]) e,
      ap suc size,
      ap suc count,
    )

-- From live streams, with sources that can be drawn from, and for a query from 1 to 22 that is neither 7
-- nor 12, whose loops wait for a second name: without the default flag `varsub` sets the parameters,
-- and the first that is empty comes behind as many as the query has defaults. It keeps ten parameters
-- and live streams, prints nothing, and logs the line of those parameters if it logs.
pub varsub-parameters :
    (fuel : ℕ) (src : Sources) (log : Bool) (q : ℕ) (params : List Text) (st : Streams)
    → IsReady src
    → 1 ≤ q
    → q ≤ 22
    → q ≢ 7
    → q ≢ 12
    → length params ≡ 10
    → Live st
    → (r : Result) × (st' : Streams) × (varsub fuel src
          (record { dflt = false; log = log })
          q
          0
          params
          st
        ≡ some (r, st'))
      × (length r.params ≡ 10)
      × (length (until_empty r.params) ≡ row_length q)
      × (r.logged ≡ (if log then log_line q (until_empty r.params) else []))
      × (r.printed ≡ [])
      × Live st'
unfolding varsub set_parameters
varsub-parameters fuel src log q params st ok low high seven twelve ten live =
    let texts =
      (AllTo-at (QueryWrites fuel src) 22 q (all_queries fuel src ok) low high seven twelve).at st
        live in
    let (ts, e, full) = texts.holds in
    let (params', written, size, count) = overlay-IsFull 10 (row_length q) ts params full ten in
    (
      record {
        params = params';
        logged = if log then log_line q (until_empty params') else [];
        printed = [];
      },
      texts.after,
      bind-some (query_texts fuel src q) _ st texts.runs
          ∙ ap (λ o. result_of (record { dflt = false; log = log }) q params o texts.after) e
          ∙ bind-some (lift (overlay ts params)) _ texts.after
              (ap (λ o. lift o texts.after) written)
          ∙ bind-some (lift (log_texts (record { dflt = false; log = log }) q params')) _
              texts.after (ap (λ o. lift o texts.after) (logs log params')),
      size,
      count,
      refl,
      refl,
      texts.live,
    )
  where
    logs :
        (b : Bool) (ps : List Text)
        → log_texts (record { dflt = false; log = b }) q ps
          ≡ some (if b then log_line q (until_empty ps) else [])
    logs true ps = refl
    logs false ps = refl
