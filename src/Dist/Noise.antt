-- ===== src/Dist/Noise.antt =====
-- The length of the text of `a_rnd`.
use structor.Common.{
  ℕ, zero, suc, ◌+◌, ◌/◌, ◌%◌, ◌≤◌, ◌<◌, ◌^◌, List, [], ◌∷◌, length, get_elem?, ◌==◌, Bool-cases,
  inl, inr, Option, some, ◌≡◌, refl, ap, ◌∙◌, arith,
}
use structor.Seeds.{Streams, dss_random}
use structor.Seeds.Live.{Live, dss_random-Live, dss_random_range}
use structor.Text.{Text}
use structor.Dist.{bits_for, a_rnd_loop, a_rnd, alpha_num, max_long, ◌>>=◌, bind-some, ret, lift}

pub get_elem?-some {ℓ} :
    {A : Type ℓ} (xs : List A) (i : ℕ) → i < length xs → (x : A) × (get_elem? xs i ≡ some x)
get_elem?-some [] i h = absurd (omega arith)
get_elem?-some (x ∷ xs) zero h = (x, refl)
get_elem?-some (x ∷ xs) (suc i) h = get_elem?-some xs i (omega arith)

bits_for-Live :
    (i column char_int : ℕ) (st : Streams)
    → Live st
    → (bits : ℕ) × (st' : Streams) × (bits_for i column char_int st ≡ some (bits, st')) × Live st'
unfolding bits_for
bits_for-Live i column char_int st live = elim (Bool-cases (i % 5 == 0)) [
  | inl fresh ↦ rw fresh (
    (dss_random 0 max_long column st).0,
    (dss_random 0 max_long column st).1,
    refl,
    dss_random-Live 0 max_long column st live,
  )
  | inr kept ↦ rw kept (char_int, st, refl, live)
]

-- The text of a loop of `a_rnd`: n characters, with the streams left live.
a_rnd_loop-length :
    (n i column char_int : ℕ) (st : Streams)
    → Live st
    → (t : Text) × (st' : Streams) × (a_rnd_loop n i column char_int st ≡ some (t, st'))
      × (length t ≡ n)
      × Live st'
unfolding a_rnd_loop ◌>>=◌
a_rnd_loop-length zero i column char_int st live = ([], st, refl, refl, live)
a_rnd_loop-length (suc n) i column char_int st live =
    let (bits, st1, drawn, live1) = bits_for-Live i column char_int st live in
    let (c, found) = get_elem?-some alpha_num (bits % 64) (omega arith) in
    let (rest, st2, looped, size, live2) =
      a_rnd_loop-length n (i + 1) column (bits / 64) st1 live1 in
    (
      c ∷ rest,
      st2,
      bind-some (bits_for i column char_int) _ st drawn
          ∙ bind-some (lift (get_elem? alpha_num (bits % 64)))
              (λ x. a_rnd_loop n (i + 1) column (bits / 64) >>= λ more. ret (x ∷ more)) st1
              (ap (λ (o : Option ℕ). lift o st1) found)
          ∙ bind-some (a_rnd_loop n (i + 1) column (bits / 64)) (λ more. ret (c ∷ more)) st1 looped,
      ap suc size,
      live2,
    )

-- With live streams and min ≤ max < 2^53, `a_rnd` returns a text of a length from min to max, and
-- leaves the streams live.
pub a_rnd-length :
    (min max column : ℕ) (st : Streams)
    → min ≤ max
    → max < 2 ^ 53
    → Live st
    → (t : Text) × (st' : Streams) × (a_rnd min max column st ≡ some (t, st'))
      × ((min ≤ length t) × (length t ≤ max))
      × Live st'
unfolding a_rnd ◌>>=◌
a_rnd-length min max column st ordered small live =
    let (low, high) = dss_random_range min max column st live ordered (omega arith) in
    let (t, st', looped, size, live') =
      a_rnd_loop-length (dss_random min max column st).0 0 column 0 (dss_random min max column st).1
        (dss_random-Live min max column st live) in
    (t, st', looped, (omega arith, omega arith), live')
