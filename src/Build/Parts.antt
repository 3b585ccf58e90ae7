-- ===== src/Build/Parts.antt =====
-- `mk_part`.
use structor.Common.{ℕ, ◌++◌, length}
use structor.Text.{Text, codes, dec}
use structor.Dist.{Gen, ◌>>=◌, ret, lift, random, pick_str}
use structor.Permute.{agg_str}
use structor.Build.Config.{Config}
use structor.Build.Fields.{gen_color}

-- The fields of `part_t` that `mk_part` sets; `clen` is the length of the color.
pub record Part : Type 0 where
  pub partkey : ℕ
  pub name : Text
  pub mfgr : Text
  pub category : Text
  pub brand : Text
  pub color : Text
  pub type : Text
  pub tlen : ℕ
  pub size : ℕ
  pub container : Text

-- The category is drawn from stream 97, which no seed has.
unfoldable pub mk_part : Config → ℕ → Gen Part
mk_part cfg index = do
  colors ← agg_str cfg.colors 3 37
  named ← lift (gen_color colors)
  mfgr ← random 1 5 0
  cat ← random 1 5 97
  brnd ← random 1 40 1
  type ← pick_str cfg.p_types_set 2
  size ← random 1 50 3
  container ← pick_str cfg.p_cntr_set 4
  ret (record {
    partkey = index;
    name = named.1;
    mfgr = codes "MFGR#" ++ dec mfgr;
    category = (codes "MFGR#" ++ dec mfgr) ++ dec cat;
    brand = ((codes "MFGR#" ++ dec mfgr) ++ dec cat) ++ dec brnd;
    color = named.0;
    type = type.1;
    tlen = length type.1;
    size = size;
    container = container.1;
  })
