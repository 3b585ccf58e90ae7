-- ===== src/Qgen/Qsub/Tags.antt =====
-- Templates as texts and tags, and what `qsub` should make of them.
use structor.Common.{
  ℕ, ◌-◌, ◌^◌, ◌≤◌, ◌<◌, List, [], ◌∷◌, ◌++◌, Bool, true, false, ◌==◌, ◌&&◌, ◌||◌, if◌then◌else◌,
  Option, some, ◌≡◌,
}
use structor.Text.{Text, codes, dec}
use structor.Print.Split.{Lacks}
use structor.DistFile.{is_digit}
use structor.Qgen.Qsub.{Query, stream_number, joined_text}

-- The tags that have a letter.
pub data Name : Type 0 where
  begin_work connect end_work output query_name stream explain : Name

-- A tag by its name, in capitals or not, or a letter that names none, or the number of a parameter.
pub data Tag : Type 0 where
  named : Name → Bool → Tag
  letter parameter : ℕ → Tag

abbrev pub small_letter : Name → ℕ
small_letter begin_work = b'b'
small_letter connect = b'c'
small_letter end_work = b'e'
small_letter output = b'o'
small_letter query_name = b'q'
small_letter stream = b's'
small_letter explain = b'x'

abbrev pub letter_of : Name → Bool → ℕ
letter_of name capital = if capital then small_letter name - 32 else small_letter name

-- What a tag stands for, by its name.
abbrev pub name_value : Query → Name → Text
name_value q begin_work = if q.ansi then [] else codes "\n"
name_value q connect = if q.dbase then codes "CONNECT TO " ++ (q.db_name ++ codes " ;\n") else []
name_value q end_work = if q.ansi then [] else codes "COMMIT WORK;\n"
name_value q output =
    if q.output
    then codes " '"
      ++ (q.osuff ++ (b'/' ∷ (q.qtag ++ (b'.' ∷ (stream_number q.snum ++ codes "'")))))
    else []
name_value q query_name = q.qtag
name_value q stream = stream_number q.snum
name_value q explain = if q.explain then codes "SET CURRENT EXPLAIN SNAPSHOT ON;\n" else []

-- The letters that name a tag.
abbrev pub names_tag : List ℕ → ℕ → Bool
names_tag [] c = false
names_tag (k ∷ ks) c = c == k || names_tag ks c

abbrev pub tag_letters : List ℕ
tag_letters =
    b'b' ∷ b'B' ∷ b'c' ∷ b'C' ∷ b'e' ∷ b'E' ∷ b'n' ∷ b'N' ∷ b'o' ∷ b'O' ∷ b'q' ∷ b'Q' ∷ b's' ∷ b'S'
    ∷ b'x' ∷ b'X' ∷ []

pub record Part : Type 0 where
  pub front : Text
  pub tag : Tag

abbrev pub tag_text : Tag → Text
tag_text (named name capital) = letter_of name capital ∷ []
tag_text (letter c) = c ∷ []
tag_text (parameter k) = dec k

-- The line of some parts and the text behind them.
abbrev pub render : List Part → Text → Text
render [] last = last
render (p ∷ ps) last = p.front ++ (b':' ∷ (tag_text p.tag ++ render ps last))

abbrev pub value_of : Query → Tag → Option Text
value_of q (named name capital) = some (name_value q name)
value_of q (letter c) = some []
value_of q (parameter k) = q.param k

-- The same with the value of each tag in its place.
abbrev pub expand : Query → List Part → Text → Option Text
expand q [] last = some last
expand q (p ∷ ps) last =
    joined_text (some p.front) (joined_text (value_of q p.tag) (expand q ps last))

-- A letter that names no tag is no digit from 1 to 9; a number has no digit behind it.
abbrev pub no_digit : Text → Bool
no_digit [] = true
no_digit (c ∷ s) = if is_digit c then false else true

abbrev pub IsTag : Tag → Text → Type 0
IsTag (named name capital) rest = Unit {0}
IsTag (letter c) rest =
    (names_tag tag_letters c ≡ false)
    × ((is_digit c && (if c == b'0' then false else true)) ≡ false)
IsTag (parameter k) rest = (1 ≤ k) × (k < 2 ^ 31) × (no_digit rest ≡ true)

abbrev pub AreParts : List Part → Text → Type 0
AreParts [] last = Lacks b':' last
AreParts (p ∷ ps) last = Lacks b':' p.front × IsTag p.tag (render ps last) × AreParts ps last
