-- ===== src/Qgen/Varsub.antt =====
-- varsub.c: the parameters of the queries. Stream q makes the parameters of query q.
pub mod Returns
pub mod Permuted
pub mod Counts
pub mod Early
pub mod Late
pub mod Whole
pub mod March
pub mod Apart
mod Tests
use structor.Common.{
  ℕ, zero, suc, ◌+◌, ◌-◌, ◌/◌, ◌%◌, List, [], ◌∷◌, ◌++◌, get_elem?, set, Bool, true, false, ◌==◌,
  leb, ltb, ◌&&◌, if◌then◌else◌, Option, none, some,
}
use structor.Seeds.{Streams, unif_int}
use structor.Text.{Text, codes, dec, dec_pad}
use structor.Dist.{Gen, ◌>>=◌, ret, lift, Distribution, dist_member, pick_str}
use structor.Qgen.Defaults.{defaults_of}
use structor.Permute.{Permutation, permute_new, permute_next, current}

-- What the queries draw from; `fraction` is what `%11.10f` writes of Q11_FRACTION / flt_scale.
pub record Sources : Type 0 where
  pub p_types_set : Distribution
  pub p_cntr_set : Distribution
  pub l_smode_set : Distribution
  pub c_mseg_set : Distribution
  pub nations : Distribution
  pub nations2 : Distribution
  pub regions : Distribution
  pub colors : Distribution
  pub q13a : Distribution
  pub q13b : Distribution
  pub asc_date : List Text
  pub fraction : Text

-- `UnifInt`, which does not count the use of the stream.
unfoldable pub unif : ℕ → ℕ → ℕ → Gen ℕ
unif low high stream st =
    let (drawn, seeds) = unif_int low high stream st.seeds in
    some (drawn, record st { seeds = seeds })

-- `while (*(ptr - 1) != ' ') ptr--`: the text behind the last blank; none where the scan leaves the
-- text at its start.
unfoldable pub last_word : Text → Option Text
last_word [] = none
last_word (c ∷ s) = elim (last_word s) [
  | some t ↦ some t
  | none ↦ if c == b' ' then some s else none
]

-- `while (*(--ptr) != ' '); *ptr = '\0'`: the text in front of the last blank.
unfoldable pub but_last_word : Text → Option Text
but_last_word [] = none
but_last_word (c ∷ s) = elim (but_last_word s) [
  | some t ↦ some (c ∷ t)
  | none ↦ if c == b' ' then some [] else none
]

-- "19%02d-%02d-01" of the months since January 1993.
abbrev pub month_text : ℕ → Text
month_text n =
    codes "19" ++ (dec_pad 2 (93 + n / 12) ++ (b'-' ∷ (dec_pad 2 (n % 12 + 1) ++ codes "-01")))

-- "19%d-01-01"
abbrev pub year_text : ℕ → Text
year_text n = codes "19" ++ (dec n ++ codes "-01-01")

-- "Brand#%d%d"
abbrev pub brand_text : ℕ → ℕ → Text
brand_text a b = codes "Brand#" ++ (dec a ++ dec b)

unfoldable pub brand : ℕ → Gen Text
brand q = do tmp1 ← unif 1 5 q; tmp2 ← unif 1 5 q; ret (brand_text tmp1 tmp2)

-- The region of a nation: `regions.list[nations.list[i].weight].text`.
abbrev pub region_of : Distribution → Distribution → ℕ → Option Text
region_of nations regions i = elim (get_elem? nations.list i) [
  | none ↦ none
  | some m ↦ dist_member regions m.weight
]

-- `while (pick_str(set, qnum, param) == tmp_date)`; none where the fuel runs out before another member
-- is drawn.
unfoldable pub pick_other : ℕ → Distribution → ℕ → ℕ → Gen (ℕ × Text)
pick_other zero s c taken st = none
pick_other (suc fuel) s c taken st = elim (pick_str s c st) [
  | none ↦ none
  | some p ↦ elim (p.0.0 == taken) [ true ↦ pick_other fuel s c taken p.1 | false ↦ some p ]
]

abbrev pub put : Option ℕ → Option (List ℕ) → Option (List ℕ)
put none vs = none
put (some v) none = none
put (some v) (some vs) = some (v ∷ vs)

-- The numbers that n calls of `permute` point to, the first of them with the array of c numbers.
unfoldable pub permuted : ℕ → ℕ → Permutation → Option (List ℕ)
permuted zero c p = some []
permuted (suc n) c p = put (current p) (permuted n c (permute_next c p))

-- The numbers of an array from base on, as texts.
abbrev pub decs : ℕ → List ℕ → List Text
decs base [] = []
decs base (v ∷ vs) = dec (base + v) ∷ decs base vs

module _ (fuel : ℕ) (src : Sources) where
  -- The texts that the switch writes to `param[1]` and on; an empty text is `param[i][0] = '\0'`. Query 22 so ends
  -- its eight texts at the eighth.
  unfoldable pub texts_1_to_6 : ℕ → Gen (List Text)
  texts_1_to_6 q =
      if q == 1
      then (do n ← unif 60 120 q; ret (dec n ∷ ([] ∷ [])))
      else if q == 2
      then (do
        n ← unif 1 50 q
        kind ← pick_str src.p_types_set q
        word ← lift (last_word kind.1)
        region ← pick_str src.regions q
        ret (dec n ∷ (word ∷ (region.1 ∷ ([] ∷ [])))))
      else if q == 3
      then (do
        segment ← pick_str src.c_mseg_set q
        n ← unif 0 30 q
        date ← lift (get_elem? src.asc_date (n + 1155))
        ret (segment.1 ∷ (date ∷ ([] ∷ []))))
      else if q == 4
      then (do n ← unif 1 58 q; ret (month_text n ∷ ([] ∷ [])))
      else if q == 5
      then (do
        region ← pick_str src.regions q
        n ← unif 93 97 q
        ret (region.1 ∷ (year_text n ∷ ([] ∷ []))))
      else (do
        n ← unif 93 97 q
        cents ← unif 2 9 q
        size ← unif 24 25 q
        ret (year_text n ∷ ((codes "0.0" ++ dec cents) ∷ (dec size ∷ ([] ∷ [])))))

  unfoldable pub texts_7_to_13 : ℕ → Gen (List Text)
  texts_7_to_13 q =
      if q == 7
      then (do
        first ← pick_str src.nations2 q
        other ← pick_other fuel src.nations2 q first.0
        ret (first.1 ∷ (other.1 ∷ ([] ∷ []))))
      else if q == 8
      then (do
        nation ← pick_str src.nations2 q
        region ← lift (region_of src.nations src.regions nation.0)
        kind ← pick_str src.p_types_set q
        ret (nation.1 ∷ (region ∷ (kind.1 ∷ ([] ∷ [])))))
      else if q == 9
      then (do color ← pick_str src.colors q; ret (color.1 ∷ ([] ∷ [])))
      else if q == 10
      then (do n ← unif 1 24 q; ret (month_text n ∷ ([] ∷ [])))
      else if q == 11
      then (do nation ← pick_str src.nations2 q; ret (nation.1 ∷ (src.fraction ∷ ([] ∷ []))))
      else if q == 12
      then (do
        mode ← pick_str src.l_smode_set q
        other ← pick_other fuel src.l_smode_set q mode.0
        n ← unif 93 97 q
        ret (mode.1 ∷ (other.1 ∷ (year_text n ∷ ([] ∷ [])))))
      else (do a ← pick_str src.q13a q; b ← pick_str src.q13b q; ret (a.1 ∷ (b.1 ∷ ([] ∷ []))))

  unfoldable pub texts_14_to_18 : ℕ → Gen (List Text)
  texts_14_to_18 q =
      if q == 14
      then (do n ← unif 1 60 q; ret (month_text n ∷ ([] ∷ [])))
      else if q == 15
      then (do n ← unif 1 58 q; ret (month_text n ∷ ([] ∷ [])))
      else if q == 16
      then (do
        b ← brand q
        kind ← pick_str src.p_types_set q
        words ← lift (but_last_word kind.1)
        p ← permute_new 50 q
        sizes ← lift (permuted 8 50 p)
        ret (b ∷ (words ∷ decs 1 sizes)))
      else if q == 17
      then (do
        b ← brand q
        container ← pick_str src.p_cntr_set q
        ret (b ∷ (container.1 ∷ ([] ∷ []))))
      else (do n ← unif 312 315 q; ret (dec n ∷ ([] ∷ [])))

  unfoldable pub texts_19_to_22 : ℕ → Gen (List Text)
  texts_19_to_22 q =
      if q == 19
      then (do
        a ← brand q
        b ← brand q
        c ← brand q
        m ← unif 1 10 q
        n ← unif 10 20 q
        o ← unif 20 30 q
        ret (a ∷ (b ∷ (c ∷ (dec m ∷ (dec n ∷ (dec o ∷ ([] ∷ []))))))))
      else if q == 20
      then (do
        color ← pick_str src.colors q
        n ← unif 93 97 q
        nation ← pick_str src.nations2 q
        ret (color.1 ∷ (year_text n ∷ (nation.1 ∷ ([] ∷ [])))))
      else if q == 21
      then (do nation ← pick_str src.nations2 q; ret (nation.1 ∷ ([] ∷ [])))
      else (do
        p ← permute_new 25 q
        ccodes ← lift (permuted 8 25 p)
        ret (set (decs 10 ccodes) 7 []))

  -- The switch of `varsub`: none for its default, which returns with a message; the cases 23 and 24
  -- write nothing.
  unfoldable pub query_texts : ℕ → Gen (Option (List Text))
  query_texts q =
      if q == 0
      then ret none
      else if leb q 6
      then (do ts ← texts_1_to_6 q; ret (some ts))
      else if leb q 13
      then (do ts ← texts_7_to_13 q; ret (some ts))
      else if leb q 18
      then (do ts ← texts_14_to_18 q; ret (some ts))
      else if leb q 22
      then (do ts ← texts_19_to_22 q; ret (some ts))
      else if leb q 24
      then ret (some [])
      else ret none

-- The static `param[1]` to `param[10]` with the first texts written over; a write behind `param[10]`
-- is none.
abbrev pub overlay : List Text → List Text → Option (List Text)
overlay [] ps = some ps
overlay (t ∷ ts) [] = none
overlay (t ∷ ts) (p ∷ ps) = elim (overlay ts ps) [ none ↦ none | some rest ↦ some (t ∷ rest) ]

-- The parameters up to the first empty one, which the log shows.
unfoldable pub until_empty : List Text → List Text
until_empty [] = []
until_empty ([] ∷ ts) = []
until_empty ((c ∷ t) ∷ ts) = (c ∷ t) ∷ until_empty ts

abbrev pub tabbed : List Text → Text
tabbed [] = []
tabbed (t ∷ ts) = b'\t' ∷ (t ++ tabbed ts)

-- The line of the log.
abbrev pub log_line : ℕ → List Text → Text
log_line q ts = dec q ++ (tabbed ts ++ codes "\n")

-- The bits DFLT and LOG of the flags.
pub record Flags : Type 0 where
  pub dflt : Bool
  pub log : Bool

-- `param` after a call, and what it adds to the log and to the output.
pub record Result : Type 0 where
  pub params : List Text
  pub logged : Text
  pub printed : Text

abbrev pub no_text : Option Text → Text
no_text none = []
no_text (some t) = t

-- What is logged: the defaults, or the parameters.
abbrev pub log_texts : Flags → ℕ → List Text → Option Text
log_texts f q params =
    if f.log
    then (if f.dflt
        then elim (defaults_of q) [ none ↦ none | some ds ↦ some (log_line q ds) ]
        else some (log_line q (until_empty params)))
    else some []

-- Behind the switch; its default returns at once.
abbrev pub result_of : Flags → ℕ → List Text → Option (List Text) → Gen Result
result_of f q params none = ret (record { params = params; logged = []; printed = [] })
result_of f q params (some ts) = do
  params' ← lift (overlay ts params)
  line ← lift (log_texts f q params')
  ret (record { params = params'; logged = line; printed = [] })

-- The call with `vnum` 0, which sets the parameters.
unfoldable pub set_parameters : ℕ → Sources → Flags → ℕ → List Text → Gen Result
set_parameters fuel src f q params =
    if f.dflt
    then (do
      line ← lift (log_texts f q params)
      ret (record { params = params; logged = line; printed = [] }))
    else (do written ← query_texts fuel src q; result_of f q params written)

-- `ofp` gets the text of a default; a row has eleven places, those behind its texts are null pointers,
-- of which a message is made.
abbrev pub default_text : Sources → ℕ → ℕ → Option Text
default_text src q vnum = if q == 11 && vnum == 2 then some src.fraction else elim (defaults_of q) [
  | none ↦ none
  | some ds ↦ if ltb 11 vnum then none else some (no_text (get_elem? ds (vnum - 1)))
]

-- The call with another `vnum`, which prints one; a number above 10 gives a message.
unfoldable pub print_parameter : Sources → Flags → ℕ → ℕ → List Text → Option Text
print_parameter src f q vnum params =
    if f.dflt
    then default_text src q vnum
    else some (if ltb 10 vnum then [] else no_text (get_elem? params (vnum - 1)))

unfoldable pub varsub : ℕ → Sources → Flags → ℕ → ℕ → List Text → Gen Result
varsub fuel src f q vnum params = if vnum == 0 then set_parameters fuel src f q params else (do
  t ← lift (print_parameter src f q vnum params)
  ret (record { params = params; logged = []; printed = t }))
