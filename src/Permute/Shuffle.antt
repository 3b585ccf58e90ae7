-- ===== src/Permute/Shuffle.antt =====
-- What `permute` returns with a live stream.
use structor.Common.{ℕ, zero, suc, ◌+◌, ◌-◌, ◌≤◌, ◌<◌, ◌^◌, List, some, ◌≡◌, refl, arith}
use structor.Seeds.{Streams, dss_random}
use structor.Seeds.Live.{Live, dss_random-Live, dss_random_range}
use structor.Dist.{◌>>=◌, bind-some, ret}
use structor.Permute.{swap, counted_from, shuffle, permute_new}
use structor.Permute.Swap.{Keeps, swap-Keeps, counted_from-Keeps}

shuffle-Keeps :
    (n i c s : ℕ) (a : List ℕ) (st : Streams)
    → 0 < c
    → c < 2 ^ 53
    → i + n ≤ c
    → Live st
    → Keeps c a
    → (b : List ℕ) × (st' : Streams) × (shuffle n i c s a st ≡ some (b, st')) × Keeps c b × Live st'
unfolding shuffle ◌>>=◌
shuffle-Keeps zero i c s a st hc small inside live keeps = (a, st, refl, keeps, live)
shuffle-Keeps (suc n) i c s a st hc small inside live keeps =
    shuffle-Keeps n (i + 1) c s (swap a i drawn) (dss_random 0 (c - 1) s st).1 hc small
      (omega arith) (dss_random-Live 0 (c - 1) s st live)
      (swap-Keeps c a i drawn (omega arith) below keeps)
  where
    drawn : ℕ
    drawn = (dss_random 0 (c - 1) s st).0

    below : drawn < c
    below =
        let (low, high) = dss_random_range 0 (c - 1) s st live (omega arith) (omega arith) in
        omega arith

-- With live streams, `permute` over c > 0 numbers, c < 2^53, succeeds: its array has c members, every
-- number below c is one of them, the first is handed out, and the streams stay live.
pub permute_new-Keeps :
    (c s : ℕ) (st : Streams)
    → 0 < c
    → c < 2 ^ 53
    → Live st
    → (a : List ℕ) × (st' : Streams) × (permute_new c s st
        ≡ some (record { source = 0; set = a }, st'))
      × Keeps c a
      × Live st'
unfolding permute_new ◌>>=◌
permute_new-Keeps c s st hc small live =
    let (a, st', runs, keeps, live') =
      shuffle-Keeps c 0 c s (counted_from c 0) st hc small (omega arith) live
        (counted_from-Keeps c) in
    (
      a,
      st',
      bind-some (shuffle c 0 c s (counted_from c 0)) (λ b. ret (record { source = 0; set = b })) st
          runs,
      keeps,
      live',
    )
