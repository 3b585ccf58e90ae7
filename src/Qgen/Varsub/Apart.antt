-- ===== src/Qgen/Varsub/Apart.antt =====
-- The sizes of query 16 and the country codes of query 22.
use structor.Common.{ℕ, List, [], ◌∷◌, length, set, Option, some, ◌≡◌, refl, ap, ◌∙◌, arith}
use structor.Seeds.{Streams}
use structor.Seeds.Live.{Live}
use structor.Text.{Text}
use structor.Dist.{lift, pick_str}
use structor.Permute.{permute_new}
use structor.Qgen.Varsub.{
  Sources, brand, but_last_word, permuted, decs, texts_14_to_18, texts_19_to_22, query_texts,
}
use structor.Qgen.Varsub.Returns.{Returns, Returns-ret, Returns-lift, Returns-runs, Returns-bind}
use structor.Qgen.Varsub.Permuted.{Runs-permute_new, Returns-permuted, AreApart}
use structor.Qgen.Varsub.Counts.{IsReady, Returns-brand, Returns-p_types}

-- Two texts and eight sizes.
abbrev HasSizes : Option (List Text) → Type 0
HasSizes o =
    (b : Text) × (kind : Text) × (vs : List ℕ) × (o ≡ some (b ∷ (kind ∷ decs 1 vs)))
    × (length vs ≡ 8)
    × AreApart 50 vs

-- Eight codes, the last of which is taken away again.
abbrev HasCodes : Option (List Text) → Type 0
HasCodes o = (vs : List ℕ) × (o ≡ some (set (decs 10 vs) 7 [])) × (length vs ≡ 8) × AreApart 25 vs

module _ (fuel : ℕ) (src : Sources) (ok : IsReady src) where
  sizes_16 : Returns (query_texts fuel src 16) HasSizes
  unfolding query_texts texts_14_to_18
  sizes_16 =
      Returns-bind (texts_14_to_18 fuel src 16) _ texts
        λ ts h. Returns-ret HasSizes (some ts) (h.0, h.1, h.2, ap some h.3, h.4, h.5)
    where
      texts : Returns (texts_14_to_18 fuel src 16) (λ ts.
          (b : Text) × (kind : Text) × (vs : List ℕ) × (ts ≡ b ∷ (kind ∷ decs 1 vs))
          × (length vs ≡ 8)
          × AreApart 50 vs)
      texts = Returns-bind (brand 16) _ (Returns-brand 16) λ b hb.
          Returns-bind (pick_str src.p_types_set 16) _ (Returns-p_types src 16 ok) λ kind hk.
            Returns-bind (lift (but_last_word kind.1)) _
              (Returns-lift (λ t. Unit {0}) (but_last_word kind.1) hk.1.front hk.1.front_found tt)
              λ words hw.
                Returns-bind (permute_new 50 16) _
                  (Returns-runs (Runs-permute_new 50 16 (omega arith)))
                  λ p hp.
                    Returns-bind (lift (permuted 8 50 p)) _
                      (Returns-permuted 8 50 p (omega arith) hp)
                      λ sizes hs.
                        Returns-ret _ (b ∷ (words ∷ decs 1 sizes))
                          (b, words, sizes, refl, hs.0, hs.1)

  codes_22 : Returns (query_texts fuel src 22) HasCodes
  unfolding query_texts texts_19_to_22
  codes_22 =
      Returns-bind (texts_19_to_22 fuel src 22) _ texts
        λ ts h. Returns-ret HasCodes (some ts) (h.0, ap some h.1, h.2, h.3)
    where
      texts :
          Returns
            (texts_19_to_22 fuel src 22)
            (λ ts. (vs : List ℕ) × (ts ≡ set (decs 10 vs) 7 []) × (length vs ≡ 8) × AreApart 25 vs)
      texts =
          Returns-bind (permute_new 25 22) _ (Returns-runs (Runs-permute_new 25 22 (omega arith)))
            λ p hp.
              Returns-bind (lift (permuted 8 25 p)) _ (Returns-permuted 8 25 p (omega arith) hp)
                λ ccodes hs. Returns-ret _ (set (decs 10 ccodes) 7 []) (ccodes, refl, hs.0, hs.1)

-- From live streams and sources that can be drawn from, query 16 gets two texts and the decimals of
-- eight numbers from 1 to 50, no two of them the same.
pub query_texts-sizes :
    (fuel : ℕ) (src : Sources) (st : Streams)
    → IsReady src
    → Live st
    → (b : Text) × (kind : Text) × (vs : List ℕ) × (st' : Streams) × (query_texts fuel src 16 st
        ≡ some (some (b ∷ (kind ∷ decs 1 vs)), st'))
      × (length vs ≡ 8)
      × AreApart 50 vs
      × Live st'
query_texts-sizes fuel src st ok live =
    let r = (sizes_16 fuel src ok).at st live in
    let (b, kind, vs, e, size, apart) = r.holds in
    (b, kind, vs, r.after, r.runs ∙ ap (λ o. some (o, r.after)) e, size, apart, r.live)

-- In the same way query 22 gets the decimals of eight numbers from 10 to 34, no two of them the same, of
-- which the last is made empty again.
pub query_texts-country_codes :
    (fuel : ℕ) (src : Sources) (st : Streams)
    → IsReady src
    → Live st
    → (vs : List ℕ) × (st' : Streams) × (query_texts fuel src 22 st
        ≡ some (some (set (decs 10 vs) 7 []), st'))
      × (length vs ≡ 8)
      × AreApart 25 vs
      × Live st'
query_texts-country_codes fuel src st ok live =
    let r = (codes_22 fuel src ok).at st live in
    let (vs, e, size, apart) = r.holds in
    (vs, r.after, r.runs ∙ ap (λ o. some (o, r.after)) e, size, apart, r.live)
