-- ===== src/Dist/Strings.antt =====
-- The draws of strings run.
use structor.Common.{
  ℕ, zero, suc, ◌+◌, ◌-◌, ◌/◌, ◌%◌, ◌≤◌, ◌<◌, ◌^◌, [], ◌∷◌, length, get_elem?, get_or, ◌==◌, some,
  ◌≡◌, refl, ap, ◌∙◌, arith,
}
use structor.Text.{Text}
use structor.Dist.{
  ret, lift, random, Distribution, pick_from, last_weight, pick_str, alpha_num, max_long, bits_for,
  a_rnd_loop, a_rnd,
}
use structor.Dist.Noise.{get_elem?-some}
use structor.Dist.Pick.{
  IsDistribution, pick_from-first, last_weight-some, get_elem?-get_or, weight_at, no_member,
}
use structor.Dist.Runs.{Runs, Runs-ret, Runs-lift, Runs-bind, Runs-random, Runs-if, Runs-weaken}

-- A member inside the list.
abbrev pub IsMember : Distribution → ℕ × Text → Type 0
IsMember s p = (p.0 < s.count) × (p.1 ≡ (get_or s.list p.0 no_member).text)

pub Runs-pick_str :
    (s : Distribution) (c : ℕ) → IsDistribution s → Runs 1 (pick_str s c) (IsMember s)
unfolding pick_str
Runs-pick_str s c ok =
    Runs-bind (lift (last_weight s)) _
      (Runs-lift (λ w. w ≡ top) (last_weight s) top
        (last_weight-some s (
          get_elem?-get_or s.list (s.count - 1)
            (omega (arith, ok.count_positive, ok.count_inside))))
        refl)
      (λ w e.
        Runs-weaken 1 (omega arith) (λ p h. h)
          (Runs-bind (random 1 w c) (λ j. lift (pick_from s.list j 0))
            (Runs-random 1 w c (omega (arith, e, ok.total_positive))
              (omega (arith, e, ok.total_small)))
            (λ j within.
              let (i, inside, picked, enough, before) =
                pick_from-first s.list j 0 (s.count - 1)
                  (omega (arith, ok.count_positive, ok.count_inside))
                  (omega (arith, e, within.1)) in
              Runs-lift (IsMember s) (pick_from s.list j 0) (i, (get_or s.list i no_member).text)
                (picked ∙ ap (λ (t : ℕ). some (t, (get_or s.list i no_member).text)) (omega arith))
                (omega (arith, ok.count_positive), refl))))
  where
    top : ℕ
    top = weight_at s.list (s.count - 1)

Runs-bits_for : (i column char_int : ℕ) → Runs 1 (bits_for i column char_int) (λ b. Unit {0})
unfolding bits_for
Runs-bits_for i column char_int =
    Runs-if (i % 5 == 0)
      (Runs-weaken 1 (omega arith) (λ b h. tt)
        (Runs-random 0 max_long column (omega arith) (omega arith)))
      (Runs-weaken 1 (omega arith) (λ b h. h) (Runs-ret (λ b. Unit {0}) char_int tt))

Runs-a_rnd_loop :
    (n i column char_int : ℕ) → Runs n (a_rnd_loop n i column char_int) (λ t. length t ≡ n)
unfolding a_rnd_loop
Runs-a_rnd_loop zero i column char_int = Runs-ret _ [] refl
Runs-a_rnd_loop (suc n) i column char_int =
    Runs-weaken (suc n) (omega arith) (λ t h. h)
      (Runs-bind (bits_for i column char_int) _ (Runs-bits_for i column char_int) (λ bits h.
        let (c, found) = get_elem?-some alpha_num (bits % 64) (omega arith) in
        Runs-bind (lift (get_elem? alpha_num (bits % 64))) _
          (Runs-lift (λ x. Unit {0}) _ c found tt)
          (λ x hx.
            Runs-weaken n (omega arith) (λ t ht. ht)
              (Runs-bind (a_rnd_loop n (i + 1) column (bits / 64)) (λ more. ret (x ∷ more))
                (Runs-a_rnd_loop n (i + 1) column (bits / 64))
                (λ more size. Runs-ret (λ t. length t ≡ suc n) (x ∷ more) (ap suc size))))))

pub Runs-a_rnd :
    (min max column : ℕ)
    → min ≤ max
    → max < 2 ^ 53
    → Runs (1 + max) (a_rnd min max column) (λ t. (min ≤ length t) × (length t ≤ max))
unfolding a_rnd
Runs-a_rnd min max column ordered small =
    Runs-bind (random min max column) (λ len. a_rnd_loop len 0 column 0)
      (Runs-random min max column ordered (omega arith))
      (λ len within.
        Runs-weaken max within.1 (λ t h. (omega (arith, h), omega (arith, h)))
          (Runs-a_rnd_loop len 0 column 0))
