-- ===== src/Dist/Tests.antt =====
-- The properties of the draws at the initial seeds.
use structor.Common.{[], ◌∷◌, pos, ◌≡◌, refl}
use structor.Seeds.Live.{Live}
use structor.Text.{codes}
use structor.Dist.{Distribution, dsscasecmp}

ignores_case : dsscasecmp (codes "Begin") (codes "BEGIN") ≡ pos 0
unfolding dsscasecmp
ignores_case = refl

abbrev coin : Distribution
coin = record {
  count = 2;
  max = 3;
  list =
      record { weight = 1; text = codes "rare" } ∷ record { weight = 3; text = codes "often" } ∷ [];
}
