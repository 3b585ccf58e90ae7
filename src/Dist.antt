-- ===== src/Dist.antt =====
-- bm_utils.c: the distributions, and the draws of strings from them. A generator is a function on the
-- streams; it is none where the source reads behind the end of an array.
pub mod Runs
pub mod Pick
pub mod Noise
pub mod Strings
pub mod Agree
mod Tests
use structor.Common.{
  ℕ, zero, suc, ◌+◌, ◌-◌, ◌*◌, ◌/◌, ◌%◌, List, [], ◌∷◌, ◌++◌, length, get_elem?, Bool, ltb, leb,
  ◌==◌, ◌&&◌, if◌then◌else◌, Option, none, some, ◌≡◌, ap, ℤ, pos, negsuc,
}
use structor.Seeds.{Streams, dss_random}
use structor.Text.{Text, codes}

abbrev pub Gen {ℓ} : Type ℓ → Type ℓ
Gen A = Streams → Option (A × Streams)

infixl 5 ◌>>=◌
unfoldable pub ◌>>=◌ {ℓ κ} : {A : Type ℓ} {B : Type κ} → Gen A → (A → Gen B) → Gen B
(g >>= f) st = elim (g st) [ none ↦ none | some p ↦ f p.0 p.1 ]

-- A generator that runs hands its value and streams to the next.
pub bind-some {ℓ κ} :
    {A : Type ℓ} {B : Type κ} (g : Gen A) (f : A → Gen B) (st : Streams) {st' : Streams} {a : A}
    → g st ≡ some (a, st')
    → (g >>= f) st ≡ f a st'
unfolding ◌>>=◌
bind-some g f st e = ap (λ o. elim o [ none ↦ none | some p ↦ f p.0 p.1 ]) e

abbrev pub ret {ℓ} : {A : Type ℓ} → A → Gen A
ret a st = some (a, st)

abbrev pub lift {ℓ} : {A : Type ℓ} → Option A → Gen A
lift none st = none
lift (some a) st = some (a, st)

-- RANDOM
abbrev pub random : ℕ → ℕ → ℕ → Gen ℕ
random lower upper stream st = some (dss_random lower upper stream st)

-- `set_member`
pub record SetMember : Type 0 where
  pub weight : ℕ
  pub text : Text

-- `distribution`; the array `permute` is kept with the state of `permute`.
pub record Distribution : Type 0 where
  pub count : ℕ
  pub max : ℕ
  pub list : List SetMember

-- DIST_MEMBER
abbrev pub dist_member : Distribution → ℕ → Option Text
dist_member d i = elim (get_elem? d.list i) [ none ↦ none | some m ↦ some m.text ]

-- `while (s->list[i].weight < j) i++`, with the text of the member where it stops.
unfoldable pub pick_from : List SetMember → ℕ → ℕ → Option (ℕ × Text)
pick_from [] j i = none
pick_from (m ∷ ms) j i = if ltb m.weight j then pick_from ms j (i + 1) else some (i, m.text)

abbrev pub last_weight : Distribution → Option ℕ
last_weight s = elim (get_elem? s.list (s.count - 1)) [ none ↦ none | some m ↦ some m.weight ]

-- `pick_str`, which returns the index and copies the text.
unfoldable pub pick_str : Distribution → ℕ → Gen (ℕ × Text)
pick_str s c = do top ← lift (last_weight s); j ← random 1 top c; lift (pick_from s.list j 0)

abbrev pub alpha_num : Text
alpha_num = codes "0123456789abcdefghijklmnopqrstuvwxyz ABCDEFGHIJKLMNOPQRSTUVWXYZ,"

abbrev pub max_long : ℕ
max_long = 2147483647

-- The bits that character i of `a_rnd` takes: a new draw for every fifth, and else what is left.
unfoldable pub bits_for : ℕ → ℕ → ℕ → Gen ℕ
bits_for i column char_int = if i % 5 == 0 then random 0 max_long column else ret char_int

-- The loop of `a_rnd`, from character i on, with the bits that are left of the last draw.
unfoldable pub a_rnd_loop : ℕ → ℕ → ℕ → ℕ → Gen Text
a_rnd_loop zero i column char_int = ret []
a_rnd_loop (suc n) i column char_int = do
  bits ← bits_for i column char_int
  c ← lift (get_elem? alpha_num (bits % 64))
  rest ← a_rnd_loop n (i + 1) column (bits / 64)
  ret (c ∷ rest)

-- `a_rnd`; the length that it returns is that of the text.
unfoldable pub a_rnd : ℕ → ℕ → ℕ → Gen Text
a_rnd min max column = do len ← random min max column; a_rnd_loop len 0 column 0

-- V_STR for the average of 15 that C_ADDR_LEN and S_ADDR_LEN are: (int)(15 * 0.4) and (int)(15 * 1.6).
abbrev pub v_str_15 : ℕ → Gen Text
v_str_15 sd = a_rnd 6 24 sd

-- `strncpy` of a whole text into another at an offset.
abbrev pub overwrite : Text → ℕ → Text → Text
overwrite [] loc s = s
overwrite (c ∷ cs) zero [] = c ∷ cs
overwrite (c ∷ cs) zero (x ∷ xs) = x ∷ overwrite cs zero xs
overwrite (c ∷ cs) (suc loc) [] = []
overwrite (c ∷ cs) (suc loc) (x ∷ xs) = x ∷ overwrite (c ∷ cs) loc xs

-- `e_str`, for members shorter than the noise.
unfoldable pub e_str : Distribution → ℕ → ℕ → ℕ → Gen Text
e_str d min max stream = do
  dest ← a_rnd min max stream
  picked ← pick_str d stream
  loc ← random 0 (length dest - 1 - length picked.1) stream
  ret (overwrite dest loc picked.1)

-- `tolower` of the C locale.
abbrev pub tolower : ℕ → ℕ
tolower c = if leb 65 c && leb c 90 then c + 32 else c

abbrev pub order_of : ℕ → ℕ → ℤ
order_of a b = if ltb a b then negsuc 0 else pos 1

-- `dssncasecmp`: the list ends where the string has its zero character.
unfoldable pub dssncasecmp : Text → Text → ℕ → ℤ
dssncasecmp s1 s2 zero = pos 0
dssncasecmp [] [] (suc n) = pos 0
dssncasecmp [] (b ∷ s2) (suc n) = order_of 0 (tolower b)
dssncasecmp (a ∷ s1) [] (suc n) = order_of (tolower a) 0
dssncasecmp (a ∷ s1) (b ∷ s2) (suc n) =
    if tolower a == tolower b then dssncasecmp s1 s2 n else order_of (tolower a) (tolower b)

-- `dsscasecmp`
unfoldable pub dsscasecmp : Text → Text → ℤ
dsscasecmp [] [] = pos 0
dsscasecmp [] (b ∷ s2) = order_of 0 (tolower b)
dsscasecmp (a ∷ s1) [] = order_of (tolower a) 0
dsscasecmp (a ∷ s1) (b ∷ s2) =
    if tolower a == tolower b then dsscasecmp s1 s2 else order_of (tolower a) (tolower b)
