-- ===== src/Qgen/Varsub/Early.antt =====
-- The texts of queries 1 to 11 are as many as their defaults.
use structor.Common.{ℕ, ◌+◌, [], get_elem?, ◌≢◌, refl, arith}
use structor.Dist.{lift, pick_str}
use structor.Qgen.Varsub.{Sources, unif, last_word, region_of, texts_1_to_6, texts_7_to_13}
use structor.Qgen.Varsub.Returns.{Returns, Returns-ret, Returns-lift, Returns-bind, Returns-unif}
use structor.Qgen.Varsub.Counts.{
  IsFull, IsReady, dec_not_nil, Returns-pick_str, Returns-p_types, Returns-nation,
}

module _ (fuel : ℕ) (src : Sources) (ok : IsReady src) where
  pub texts_1 : Returns (texts_1_to_6 fuel src 1) (IsFull 10 1)
  unfolding texts_1_to_6
  texts_1 =
      Returns-bind (unif 60 120 1) _ (Returns-unif 60 120 1 (omega arith) (omega arith))
        λ n h. Returns-ret (IsFull 10 1) _ (dec_not_nil n, (refl, refl))

  pub texts_2 : Returns (texts_1_to_6 fuel src 2) (IsFull 10 3)
  unfolding texts_1_to_6
  texts_2 = Returns-bind (unif 1 50 2) _ (Returns-unif 1 50 2 (omega arith) (omega arith)) λ n h.
      Returns-bind (pick_str src.p_types_set 2) _ (Returns-p_types src 2 ok) λ kind is_kind.
        Returns-bind (lift (last_word kind.1)) _
          (Returns-lift (λ b. b ≢ []) (last_word kind.1) is_kind.1.word is_kind.1.word_found
            is_kind.1.word_some)
          λ word hw.
            Returns-bind (pick_str src.regions 2) _ (Returns-pick_str src.regions 2 ok.regions)
              λ region hr. Returns-ret (IsFull 10 3) _ (dec_not_nil n, (hw, (hr, (refl, refl))))

  pub texts_3 : Returns (texts_1_to_6 fuel src 3) (IsFull 10 2)
  unfolding texts_1_to_6
  texts_3 =
      Returns-bind (pick_str src.c_mseg_set 3) _ (Returns-pick_str src.c_mseg_set 3 ok.c_mseg_set)
        λ segment hs.
          Returns-bind (unif 0 30 3) _ (Returns-unif 0 30 3 (omega arith) (omega arith)) λ n h.
            Returns-bind (lift (get_elem? src.asc_date (n + 1155))) _
              (Returns-lift (λ t. t ≢ []) _ (ok.dates n h.1).0 (ok.dates n h.1).1
                (ok.dates n h.1).2)
              λ date hd. Returns-ret (IsFull 10 2) _ (hs, (hd, (refl, refl)))

  pub texts_4 : Returns (texts_1_to_6 fuel src 4) (IsFull 10 1)
  unfolding texts_1_to_6
  texts_4 =
      Returns-bind (unif 1 58 4) _ (Returns-unif 1 58 4 (omega arith) (omega arith))
        λ n h. Returns-ret (IsFull 10 1) _ (λ e. cc e, (refl, refl))

  pub texts_5 : Returns (texts_1_to_6 fuel src 5) (IsFull 10 2)
  unfolding texts_1_to_6
  texts_5 =
      Returns-bind (pick_str src.regions 5) _ (Returns-pick_str src.regions 5 ok.regions)
        λ region hr.
          Returns-bind (unif 93 97 5) _ (Returns-unif 93 97 5 (omega arith) (omega arith))
            λ n h. Returns-ret (IsFull 10 2) _ (hr, (λ e. cc e, (refl, refl)))

  pub texts_6 : Returns (texts_1_to_6 fuel src 6) (IsFull 10 3)
  unfolding texts_1_to_6
  texts_6 = Returns-bind (unif 93 97 6) _ (Returns-unif 93 97 6 (omega arith) (omega arith)) λ n h.
      Returns-bind (unif 2 9 6) _ (Returns-unif 2 9 6 (omega arith) (omega arith)) λ cents hc.
        Returns-bind (unif 24 25 6) _ (Returns-unif 24 25 6 (omega arith) (omega arith)) λ size hs.
          Returns-ret (IsFull 10 3) _ (λ e. cc e, (λ e. cc e, (dec_not_nil size, (refl, refl))))

  pub texts_8 : Returns (texts_7_to_13 fuel src 8) (IsFull 10 3)
  unfolding texts_7_to_13
  texts_8 = Returns-bind (pick_str src.nations2 8) _ (Returns-nation src 8 ok) λ nation hn.
      Returns-bind (lift (region_of src.nations src.regions nation.0)) _
        (Returns-lift (λ t. t ≢ []) _ (ok.placed nation.0 hn.1).0 (ok.placed nation.0 hn.1).1
          (ok.placed nation.0 hn.1).2)
        λ region hr.
          Returns-bind (pick_str src.p_types_set 8) _ (Returns-p_types src 8 ok)
            λ kind hk. Returns-ret (IsFull 10 3) _ (hn.0, (hr, (hk.0, (refl, refl))))

  pub texts_9 : Returns (texts_7_to_13 fuel src 9) (IsFull 10 1)
  unfolding texts_7_to_13
  texts_9 =
      Returns-bind (pick_str src.colors 9) _ (Returns-pick_str src.colors 9 ok.colors)
        λ color hc. Returns-ret (IsFull 10 1) _ (hc, (refl, refl))

  pub texts_10 : Returns (texts_7_to_13 fuel src 10) (IsFull 10 1)
  unfolding texts_7_to_13
  texts_10 =
      Returns-bind (unif 1 24 10) _ (Returns-unif 1 24 10 (omega arith) (omega arith))
        λ n h. Returns-ret (IsFull 10 1) _ (λ e. cc e, (refl, refl))

  pub texts_11 : Returns (texts_7_to_13 fuel src 11) (IsFull 10 2)
  unfolding texts_7_to_13
  texts_11 =
      Returns-bind (pick_str src.nations2 11) _ (Returns-pick_str src.nations2 11 ok.nations2)
        λ nation hn. Returns-ret (IsFull 10 2) _ (hn, (ok.fraction, (refl, refl)))
