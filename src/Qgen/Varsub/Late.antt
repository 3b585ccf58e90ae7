-- ===== src/Qgen/Varsub/Late.antt =====
-- The texts of queries 12 to 22 are as many as their defaults.
use structor.Common.{ℕ, [], ◌≢◌, refl, arith}
use structor.Dist.{lift, pick_str}
use structor.Permute.{permute_new}
use structor.Qgen.Varsub.{
  Sources, unif, but_last_word, brand, permuted, texts_7_to_13, texts_14_to_18, texts_19_to_22,
}
use structor.Qgen.Varsub.Returns.{
  Returns, Returns-ret, Returns-lift, Returns-runs, Returns-bind, Returns-unif,
}
use structor.Qgen.Varsub.Permuted.{Runs-permute_new, Returns-permuted}
use structor.Qgen.Varsub.Counts.{
  IsFull, IsReady, dec_not_nil, decs-IsFull, decs_ended-IsFull, Returns-pick_str, Returns-brand,
  Returns-p_types,
}

module _ (fuel : ℕ) (src : Sources) (ok : IsReady src) where
  pub texts_13 : Returns (texts_7_to_13 fuel src 13) (IsFull 10 2)
  unfolding texts_7_to_13
  texts_13 = Returns-bind (pick_str src.q13a 13) _ (Returns-pick_str src.q13a 13 ok.q13a) λ a ha.
      Returns-bind (pick_str src.q13b 13) _ (Returns-pick_str src.q13b 13 ok.q13b)
        λ b hb. Returns-ret (IsFull 10 2) _ (ha, (hb, (refl, refl)))

  pub texts_14 : Returns (texts_14_to_18 fuel src 14) (IsFull 10 1)
  unfolding texts_14_to_18
  texts_14 =
      Returns-bind (unif 1 60 14) _ (Returns-unif 1 60 14 (omega arith) (omega arith))
        λ n h. Returns-ret (IsFull 10 1) _ (λ e. cc e, (refl, refl))

  pub texts_15 : Returns (texts_14_to_18 fuel src 15) (IsFull 10 1)
  unfolding texts_14_to_18
  texts_15 =
      Returns-bind (unif 1 58 15) _ (Returns-unif 1 58 15 (omega arith) (omega arith))
        λ n h. Returns-ret (IsFull 10 1) _ (λ e. cc e, (refl, refl))

  pub texts_16 : Returns (texts_14_to_18 fuel src 16) (IsFull 10 10)
  unfolding texts_14_to_18
  texts_16 = Returns-bind (brand 16) _ (Returns-brand 16) λ b hb.
      Returns-bind (pick_str src.p_types_set 16) _ (Returns-p_types src 16 ok) λ kind hk.
        Returns-bind (lift (but_last_word kind.1)) _
          (Returns-lift (λ t. t ≢ []) (but_last_word kind.1) hk.1.front hk.1.front_found
            hk.1.front_some)
          λ words hw.
            Returns-bind (permute_new 50 16) _ (Returns-runs (Runs-permute_new 50 16 (omega arith)))
              λ p hp.
                Returns-bind (lift (permuted 8 50 p)) _ (Returns-permuted 8 50 p (omega arith) hp)
                  λ sizes hs. Returns-ret (IsFull 10 10) _ (hb, (hw, decs-IsFull 8 1 sizes hs.0))

  pub texts_17 : Returns (texts_14_to_18 fuel src 17) (IsFull 10 2)
  unfolding texts_14_to_18
  texts_17 = Returns-bind (brand 17) _ (Returns-brand 17) λ b hb.
      Returns-bind (pick_str src.p_cntr_set 17) _ (Returns-pick_str src.p_cntr_set 17 ok.p_cntr_set)
        λ container hc. Returns-ret (IsFull 10 2) _ (hb, (hc, (refl, refl)))

  pub texts_18 : Returns (texts_14_to_18 fuel src 18) (IsFull 10 1)
  unfolding texts_14_to_18
  texts_18 =
      Returns-bind (unif 312 315 18) _ (Returns-unif 312 315 18 (omega arith) (omega arith))
        λ n h. Returns-ret (IsFull 10 1) _ (dec_not_nil n, (refl, refl))

  pub texts_19 : Returns (texts_19_to_22 fuel src 19) (IsFull 10 6)
  unfolding texts_19_to_22
  texts_19 = Returns-bind (brand 19) _ (Returns-brand 19) λ a ha.
      Returns-bind (brand 19) _ (Returns-brand 19) λ b hb.
        Returns-bind (brand 19) _ (Returns-brand 19) λ c hc.
          Returns-bind (unif 1 10 19) _ (Returns-unif 1 10 19 (omega arith) (omega arith)) λ m hm.
            Returns-bind (unif 10 20 19) _ (Returns-unif 10 20 19 (omega arith) (omega arith))
              λ n hn.
                Returns-bind (unif 20 30 19) _ (Returns-unif 20 30 19 (omega arith) (omega arith))
                  λ o ho. Returns-ret (IsFull 10 6) _ (
                    ha,
                    (hb, (hc, (dec_not_nil m, (dec_not_nil n, (dec_not_nil o, (refl, refl)))))),
                  )

  pub texts_20 : Returns (texts_19_to_22 fuel src 20) (IsFull 10 3)
  unfolding texts_19_to_22
  texts_20 =
      Returns-bind (pick_str src.colors 20) _ (Returns-pick_str src.colors 20 ok.colors) λ color hc.
        Returns-bind (unif 93 97 20) _ (Returns-unif 93 97 20 (omega arith) (omega arith)) λ n h.
          Returns-bind (pick_str src.nations2 20) _ (Returns-pick_str src.nations2 20 ok.nations2)
            λ nation hn. Returns-ret (IsFull 10 3) _ (hc, (λ e. cc e, (hn, (refl, refl))))

  pub texts_21 : Returns (texts_19_to_22 fuel src 21) (IsFull 10 1)
  unfolding texts_19_to_22
  texts_21 =
      Returns-bind (pick_str src.nations2 21) _ (Returns-pick_str src.nations2 21 ok.nations2)
        λ nation hn. Returns-ret (IsFull 10 1) _ (hn, (refl, refl))

  pub texts_22 : Returns (texts_19_to_22 fuel src 22) (IsFull 10 7)
  unfolding texts_19_to_22
  texts_22 =
      Returns-bind (permute_new 25 22) _ (Returns-runs (Runs-permute_new 25 22 (omega arith)))
        λ p hp.
          Returns-bind (lift (permuted 8 25 p)) _ (Returns-permuted 8 25 p (omega arith) hp)
            λ ccodes hs.
              Returns-ret (IsFull 10 7) _ (decs_ended-IsFull 10 7 10 ccodes (omega arith) hs.0)
