-- ===== src/Build/Config.antt =====
-- The globals that build.c reads: the scale, the base sizes in `tdefs`, and the distributions.
use structor.Common.{ℕ}
use structor.Dist.{Distribution}

pub record Config : Type 0 where
  pub scale : ℕ
  pub refresh : ℕ
  pub cust_base : ℕ
  pub supp_base : ℕ
  -- L_PKEY_MAX, which takes `floor` and `log` of the C library
  pub l_pkey_max : ℕ
  pub nations : Distribution
  pub regions : Distribution
  pub c_mseg_set : Distribution
  pub colors : Distribution
  pub p_types_set : Distribution
  pub p_cntr_set : Distribution
  pub o_priority_set : Distribution
  pub l_smode_set : Distribution
