-- ===== src/Qgen/Varsub/Tests.antt =====
-- The properties of `varsub` at concrete inputs.
use structor.Common.{
  ℕ, zero, suc, ◌+◌, ◌≤◌, ◌<◌, List, [], ◌∷◌, length, get_or, true, false, some, if◌then◌else◌, ◌≡◌,
  ◌≢◌, refl, arith,
}
use structor.Seeds.{Streams}
use structor.Seeds.Live.{Live}
use structor.Seeds.Start.{initial_streams, initial_streams-Live}
use structor.Text.{Text, codes}
use structor.Dist.{Distribution}
use structor.Dist.Pick.{no_member}
use structor.Calendar.Dates.{mk_ascdate-length}
use structor.Qgen.Varsub.{
  Sources, last_word, but_last_word, region_of, decs, query_texts, until_empty, log_line, Result,
  varsub,
}
use structor.Qgen.Varsub.Permuted.{AreApart}
use structor.Qgen.Varsub.Counts.{IsNamed, IsKind, IsReady}
use structor.Qgen.Varsub.Whole.{varsub-parameters}
use structor.Qgen.Varsub.Apart.{query_texts-sizes}
use structor.Qgen.Varsub.March.{march, asc_date-march, member_text, query_texts-march}

abbrev boxes : Distribution
boxes = record {
  count = 2;
  max = 3;
  list =
      record { weight = 1; text = codes "SM BOX" }
      ∷ record { weight = 3; text = codes "LG STEEL BOX" }
      ∷ [];
}

abbrev places : Distribution
places = record {
  count = 2;
  max = 1;
  list =
      record { weight = 0; text = codes "PERU" }
      ∷ record { weight = 1; text = codes "FRANCE" }
      ∷ [];
}

abbrev sources : Sources
sources = record {
  p_types_set = boxes;
  p_cntr_set = boxes;
  l_smode_set = boxes;
  c_mseg_set = boxes;
  nations = places;
  nations2 = boxes;
  regions = boxes;
  colors = boxes;
  q13a = boxes;
  q13b = boxes;
  asc_date = mk_ascdate-length.0;
  fraction = codes "0.0001000000";
}

two_words : last_word (codes "LG STEEL BOX") ≡ some (codes "BOX")
unfolding last_word
two_words = refl

boxes-IsNamed : IsNamed boxes
boxes-IsNamed = record {
  drawn = record {
    count_positive = omega arith;
    count_inside = omega arith;
    total_positive = omega arith;
    total_small = omega arith;
  };
  names = λ i h. named i h;
}
  where
    named : (i : ℕ) → i < 2 → (get_or boxes.list i no_member).text ≢ []
    named zero h = λ e. cc e
    named (suc zero) h = λ e. cc e
    named (suc (suc i)) h = absurd (omega arith)

boxes-IsKind : (i : ℕ) → i < 2 → IsKind (get_or boxes.list i no_member).text
unfolding last_word but_last_word
boxes-IsKind zero h = record {
  front = codes "SM";
  front_found = refl;
  front_some = λ e. cc e;
  word = codes "BOX";
  word_found = refl;
  word_some = λ e. cc e;
}
boxes-IsKind (suc zero) h = record {
  front = codes "LG STEEL";
  front_found = refl;
  front_some = λ e. cc e;
  word = codes "BOX";
  word_found = refl;
  word_some = λ e. cc e;
}
boxes-IsKind (suc (suc i)) h = absurd (omega arith)

sources-placed : (i : ℕ) → i < 2 → (t : Text) × (region_of places boxes i ≡ some t) × (t ≢ [])
sources-placed zero h = (codes "SM BOX", refl, λ e. cc e)
sources-placed (suc zero) h = (codes "LG STEEL BOX", refl, λ e. cc e)
sources-placed (suc (suc i)) h = absurd (omega arith)

sources-IsReady : IsReady sources
sources-IsReady = record {
  p_types_set = boxes-IsNamed;
  p_cntr_set = boxes-IsNamed;
  l_smode_set = boxes-IsNamed;
  c_mseg_set = boxes-IsNamed;
  nations2 = boxes-IsNamed;
  regions = boxes-IsNamed;
  colors = boxes-IsNamed;
  q13a = boxes-IsNamed;
  q13b = boxes-IsNamed;
  kinds = boxes-IsKind;
  placed = sources-placed;
  dates =
      λ i h. (march (i + 1), asc_date-march mk_ascdate-length.0 i mk_ascdate-length.1 h, λ e. cc e);
  fraction = λ e. cc e;
}

abbrev no_params : List Text
no_params = [] ∷ [] ∷ [] ∷ [] ∷ [] ∷ [] ∷ [] ∷ [] ∷ [] ∷ [] ∷ []

varsub-parameters_example :
    (r : Result) × (st' : Streams) × (varsub 5 sources
        (record { dflt = false; log = true })
        19
        0
        no_params
        initial_streams
      ≡ some (r, st'))
    × (length r.params ≡ 10)
    × (length (until_empty r.params) ≡ 6)
    × (r.logged ≡ (if true then log_line 19 (until_empty r.params) else []))
    × (r.printed ≡ [])
    × Live st'
varsub-parameters_example =
    varsub-parameters 5 sources true 19 no_params initial_streams sources-IsReady (omega arith)
      (omega arith) (λ e. omega (arith, e)) (λ e. omega (arith, e)) refl initial_streams-Live

query_texts-sizes_example :
    (b : Text) × (kind : Text) × (vs : List ℕ) × (st' : Streams) × (query_texts 5 sources 16
        initial_streams
      ≡ some (some (b ∷ (kind ∷ decs 1 vs)), st'))
    × (length vs ≡ 8)
    × AreApart 50 vs
    × Live st'
query_texts-sizes_example =
    query_texts-sizes 5 sources initial_streams sources-IsReady initial_streams-Live

query_texts-march_example :
    (i : ℕ) × (day : ℕ) × (st' : Streams) × (query_texts 5 sources 3 initial_streams
      ≡ some (some (member_text boxes i ∷ (march day ∷ ([] ∷ []))), st'))
    × (i < boxes.count)
    × (1 ≤ day)
    × (day ≤ 31)
    × Live st'
query_texts-march_example =
    query_texts-march 5 sources initial_streams boxes-IsNamed.drawn mk_ascdate-length.1
      initial_streams-Live
