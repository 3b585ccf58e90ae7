-- ===== src/Build/Keys/Sparse.antt =====
-- Sparse keys tell their rows and their sequence numbers apart.
use structor.Common.{ℕ, ◌+◌, ◌*◌, ◌/◌, ◌%◌, ◌<◌, ◌≡◌, ltb, true, refl, arith}
use structor.Build.Keys.{ez_sparse, mk_sparse, max_32b_scale}

-- Below the scale of 1000, where the keys are made by `ez_sparse`, distinct pairs of an order's
-- number and a sequence number below 4 have distinct keys.
pub mk_sparse-injective :
    (scale i j seq seq' : ℕ)
    → scale < max_32b_scale
    → seq < 4
    → seq' < 4
    → (mk_sparse scale i seq).low ≡ (mk_sparse scale j seq').low
    → (i ≡ j) × (seq ≡ seq')
unfolding mk_sparse ez_sparse
mk_sparse-injective scale i j seq seq' small h h' same =
    omega (arith, same, easy i seq, easy j seq')
  where
    below : ltb scale max_32b_scale ≡ true
    below = ground arith

    easy : (k s : ℕ) → (mk_sparse scale k s).low ≡ (k / 8 * 4 + s) * 8 + k % 8
    easy k s = rw below refl
