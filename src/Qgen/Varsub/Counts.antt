-- ===== src/Qgen/Varsub/Counts.antt =====
-- Each query gets as many parameters as its row of the defaults has texts.
use structor.Common.{
  ℕ, zero, suc, ◌+◌, ◌≤◌, ◌<◌, List, [], ◌∷◌, length, get_elem?, get_or, set, none, some, ◌≡◌, ◌≢◌,
  refl, sym, ◌∙◌, arith,
}
use mathlib.Core.Path.{subst}
use structor.Text.{Text, dec}
use structor.Dist.{Distribution, pick_str}
use structor.Dist.Pick.{IsDistribution, no_member}
use structor.Dist.Runs.{Runs-weaken}
use structor.Dist.Strings.{Runs-pick_str}
use structor.DistFile.Entries.{dec-cons}
use structor.Qgen.Defaults.{defaults_of}
use structor.Qgen.Varsub.{
  Sources, unif, last_word, but_last_word, brand_text, brand, region_of, decs,
}
use structor.Qgen.Varsub.Returns.{Returns, Returns-ret, Returns-runs, Returns-bind, Returns-unif}

-- A distribution that can be drawn from, with no empty text.
pub record IsNamed (s : Distribution) : Type 0 where
  pub drawn : IsDistribution s
  pub names : (i : ℕ) → i < s.count → (get_or s.list i no_member).text ≢ []

-- A text that is not empty.
abbrev pub IsSome : ℕ × Text → Type 0
IsSome p = p.1 ≢ []

pub Returns-pick_str : (s : Distribution) (q : ℕ) → IsNamed s → Returns (pick_str s q) IsSome
Returns-pick_str s q ok = Returns-runs (
    Runs-weaken 1 (omega arith) (λ p h e. ok.names p.0 h.0 (sym h.1 ∙ e))
      (Runs-pick_str s q ok.drawn))

pub dec_not_nil : (n : ℕ) → dec n ≢ []
dec_not_nil n e = let (d, s, found) = dec-cons n in let both : d ∷ s ≡ [] = sym found ∙ e in cc

-- n texts that are not empty and an empty one behind them, or ten.
abbrev pub IsFull : ℕ → ℕ → List Text → Type 0
IsFull zero n [] = n ≡ 0
IsFull (suc room) n [] = ⊥
IsFull zero n (t ∷ ts) = ⊥
IsFull (suc room) zero (t ∷ ts) = (t ≡ []) × (ts ≡ [])
IsFull (suc room) (suc n) (t ∷ ts) = (t ≢ []) × IsFull room n ts

-- As many texts as the row of the defaults.
abbrev pub row_length : ℕ → ℕ
row_length q = elim (defaults_of q) [ none ↦ 0 | some ds ↦ length ds ]

-- A text with a blank, and something in front of the last one and behind it.
pub record IsKind (t : Text) : Type 0 where
  pub front : Text
  pub front_found : but_last_word t ≡ some front
  pub front_some : front ≢ []
  pub word : Text
  pub word_found : last_word t ≡ some word
  pub word_some : word ≢ []

-- The sources that the queries can draw from.
pub record IsReady (src : Sources) : Type 0 where
  pub p_types_set : IsNamed src.p_types_set
  pub p_cntr_set : IsNamed src.p_cntr_set
  pub l_smode_set : IsNamed src.l_smode_set
  pub c_mseg_set : IsNamed src.c_mseg_set
  pub nations2 : IsNamed src.nations2
  pub regions : IsNamed src.regions
  pub colors : IsNamed src.colors
  pub q13a : IsNamed src.q13a
  pub q13b : IsNamed src.q13b
  pub kinds :
      (i : ℕ) → i < src.p_types_set.count → IsKind (get_or src.p_types_set.list i no_member).text
  pub placed :
      (i : ℕ)
      → i < src.nations2.count
      → (t : Text) × (region_of src.nations src.regions i ≡ some t) × (t ≢ [])
  pub dates :
      (i : ℕ) → i ≤ 30 → (t : Text) × (get_elem? src.asc_date (i + 1155) ≡ some t) × (t ≢ [])
  pub fraction : src.fraction ≢ []

pub Returns-brand : (q : ℕ) → Returns (brand q) (λ t. t ≢ [])
unfolding brand
Returns-brand q =
    Returns-bind (unif 1 5 q) _ (Returns-unif 1 5 q (omega arith) (omega arith)) λ a ha.
      Returns-bind (unif 1 5 q) _ (Returns-unif 1 5 q (omega arith) (omega arith))
        λ b hb. Returns-ret _ (brand_text a b) (λ e. cc e)

pub decs-IsFull : (n base : ℕ) (vs : List ℕ) → length vs ≡ n → IsFull n n (decs base vs)
decs-IsFull zero base [] h = refl
decs-IsFull zero base (v ∷ vs) h = absurd (omega arith)
decs-IsFull (suc n) base [] h = absurd (omega arith)
decs-IsFull (suc n) base (v ∷ vs) h = (dec_not_nil (base + v), decs-IsFull n base vs (omega arith))

pub decs_ended-IsFull :
    (room n base : ℕ) (vs : List ℕ)
    → n < room
    → length vs ≡ suc n
    → IsFull room n (set (decs base vs) n [])
decs_ended-IsFull zero n base vs h e = absurd (omega arith)
decs_ended-IsFull (suc room) n base [] h e = absurd (omega arith)
decs_ended-IsFull (suc room) zero base (v ∷ []) h e = (refl, refl)
decs_ended-IsFull (suc room) zero base (v ∷ v' ∷ vs) h e = absurd (omega arith)
decs_ended-IsFull (suc room) (suc n) base (v ∷ vs) h e =
    (dec_not_nil (base + v), decs_ended-IsFull room n base vs (omega arith) (omega arith))

pub Returns-p_types :
    (src : Sources) (q : ℕ)
    → IsReady src
    → Returns (pick_str src.p_types_set q) (λ p. (p.1 ≢ []) × IsKind p.1)
Returns-p_types src q ok = Returns-runs (
    Runs-weaken 1 (omega arith)
      (λ p h. (
        λ e. ok.p_types_set.names p.0 h.0 (sym h.1 ∙ e),
        subst IsKind (sym h.1) (ok.kinds p.0 h.0),
      ))
      (Runs-pick_str src.p_types_set q ok.p_types_set.drawn))

pub Returns-nation :
    (src : Sources) (q : ℕ)
    → IsReady src
    → Returns (pick_str src.nations2 q) (λ p. (p.1 ≢ []) × (p.0 < src.nations2.count))
Returns-nation src q ok = Returns-runs (
    Runs-weaken 1 (omega arith) (λ p h. (λ e. ok.nations2.names p.0 h.0 (sym h.1 ∙ e), h.0))
      (Runs-pick_str src.nations2 q ok.nations2.drawn))
