-- ===== src/DistFile/Written.antt =====
-- A file of sections as dists.dss has them, and what `read_dist` makes of one of them.
use structor.Common.{
  ℕ, zero, suc, ◌+◌, ◌-◌, ◌^◌, ◌<◌, List, [], ◌∷◌, ◌++◌, length, map, Bool, true, false, none, some,
  ℤ, pos, negsuc, eqb_ℤ, ◌≡◌, ◌≢◌,
}
use structor.Text.{Text, codes, dec}
use structor.Print.Split.{Lacks}
use structor.Dist.{SetMember, dssncasecmp}
use structor.DistFile.Entries.{dec_signed, size}
use structor.DistFile.{strtok, is_same, Target, replicate}
use structor.DistFile.Lines.{IsPlain}

-- The text and the own weight of a member.
pub record Entry : Type 0 where
  pub text : Text
  pub weight : ℤ

pub record Section : Type 0 where
  pub name : Text
  pub entries : List Entry

abbrev pub begin_line : Text → Text
begin_line name = codes "BEGIN " ++ name

abbrev pub count_line : ℕ → Text
count_line n = codes "COUNT|" ++ dec n

abbrev pub entry_line : Entry → Text
entry_line e = e.text ++ (b'|' ∷ dec_signed e.weight)

abbrev pub end_line : Text → Text
end_line name = codes "END " ++ name

-- The lines of a section whose count says n.
abbrev pub counted_lines : ℕ → Section → List Text
counted_lines n s =
    begin_line s.name ∷ (count_line n ∷ (map entry_line s.entries ++ (end_line s.name ∷ [])))

abbrev pub section_lines : Section → List Text
section_lines s = counted_lines (length s.entries) s

-- The lines that begin a section, and those that have a token at all.
abbrev pub has_token : Text → Bool
has_token line = elim (strtok line) [ none ↦ false | some t ↦ true ]

abbrev pub begins : Text → Bool
begins line = elim (strtok line) [ none ↦ false | some t ↦ is_same t.0 (codes "BEGIN") ]

abbrev pub ends : Text → Bool
ends line = eqb_ℤ (dssncasecmp line (codes "END") 3) (pos 0)

-- A member that is read as one: its text is no keyword of the file and has no character of the format.
pub record IsEntry (e : Entry) : Type 0 where
  pub plain : IsPlain (entry_line e)
  pub text_not_nil : e.text ≢ []
  pub no_bar : Lacks b'|' e.text
  pub tokens : has_token (entry_line e) ≡ true
  pub not_begin : begins (entry_line e) ≡ false
  pub not_end : ends (entry_line e) ≡ false
  pub not_count : is_same e.text (codes "count") ≡ false
  pub small : size e.weight < 2 ^ 63

abbrev pub AllEntries : List Entry → Type 0
AllEntries [] = Unit {0}
AllEntries (e ∷ es) = IsEntry e × AllEntries es

-- The sum with one more weight, where it is an int that is not negative.
abbrev pub added : ℕ → ℤ → ℕ
added sum (pos n) = sum + n
added sum (negsuc n) = sum - (n + 1)

abbrev pub IsAdded : ℕ → ℤ → Type 0
IsAdded sum (pos n) = sum + n < 2 ^ 31
IsAdded sum (negsuc n) = n < sum

-- Each sum of the first weights is an int that is not negative.
abbrev pub AllAdded : ℕ → List Entry → Type 0
AllAdded sum [] = Unit {0}
AllAdded sum (e ∷ es) = IsAdded sum e.weight × AllAdded (added sum e.weight) es

-- A name of one token.
pub record IsName (name : Text) : Type 0 where
  pub one_token : strtok name ≡ some (name, [])
  pub begin_plain : IsPlain (begin_line name)
  pub end_plain : IsPlain (end_line name)

pub record IsSection (s : Section) : Type 0 where
  pub named : IsName s.name
  pub all : AllEntries s.entries
  pub sums : AllAdded 0 s.entries
  pub count_plain : IsPlain (count_line (length s.entries))
  pub count_small : length s.entries < 2 ^ 31

-- The members with their cumulative weights.
abbrev pub cumulative : ℕ → List Entry → List SetMember
cumulative sum [] = []
cumulative sum (e ∷ es) =
    record { weight = added sum e.weight; text = e.text } ∷ cumulative (added sum e.weight) es

abbrev pub total : ℕ → List Entry → ℕ
total sum [] = sum
total sum (e ∷ es) = total (added sum e.weight) es

-- The elements that stay unwritten when n are allocated.
abbrev pub left : ℕ → List Entry → ℕ
left n [] = n
left zero (e ∷ es) = 0
left (suc n) (e ∷ es) = left n es

abbrev pub counted_target : ℕ → List Entry → Target
counted_target n es = record {
  count = n;
  max = total 0 es;
  list = some (map some (cumulative 0 es) ++ replicate (left n es) none);
}

abbrev pub target_of : List Entry → Target
target_of es = record {
  count = length es;
  max = total 0 es;
  list = some (map some (cumulative 0 es));
}
