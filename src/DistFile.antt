-- ===== src/DistFile.antt =====
-- bm_utils.c: `read_dist`, which reads one distribution of the flat file dists.dss. The file is the text
-- that `fopen` opens; a file that does not open ends the program before.
pub mod Lines
pub mod Entries
pub mod Written
pub mod Reads
pub mod Sections
pub mod Whole
pub mod Weights
mod Tests
use structor.Common.{
  ℕ, zero, suc, ◌+◌, ◌-◌, ◌*◌, ◌^◌, List, [], ◌∷◌, length, set, Bool, true, false, ◌||◌, ◌&&◌, ltb,
  leb, ◌==◌, if◌then◌else◌, Option, none, some, ℤ, pos, negsuc, eqb_ℤ,
}
use structor.Text.{Text, codes}
use structor.Dist.{SetMember, dsscasecmp, dssncasecmp}

-- A character in front of the line that is read.
abbrev pub push : ℕ → List Text → List Text
push c [] = (c ∷ []) ∷ []
push c (line ∷ lines) = (c ∷ line) ∷ lines

-- The lines that `fgets(line, 256, fp)` returns: each ends behind a newline or after 255 characters.
-- `room` is what the first line still takes.
unfoldable pub fgets_lines : ℕ → Text → List Text
fgets_lines room [] = []
fgets_lines room (c ∷ cs) =
    let fresh = (c ∷ []) ∷ fgets_lines 255 cs in
    let more = push c (fgets_lines (room - 1) cs) in
    if c == b'\n' || leb room 1 then fresh else more

-- A string up to a character, which `*strchr(line, c) = '\0'` leaves.
unfoldable pub until : ℕ → Text → Text
until c [] = []
until c (x ∷ s) = if x == c then [] else x ∷ until c s

-- A line without its newline and its comment; a zero byte of the file ends the string.
unfoldable pub line_text : Text → Text
line_text raw = until b'#' (until b'\n' (until 0 raw))

-- The delimiters "\n\t " of `strtok`.
abbrev pub is_delimiter : ℕ → Bool
is_delimiter c = c == b'\n' || c == b'\t' || c == b' '

unfoldable pub skip_delimiters : Text → Text
skip_delimiters [] = []
skip_delimiters (c ∷ s) = if is_delimiter c then skip_delimiters s else c ∷ s

unfoldable pub token_of : Text → Text
token_of [] = []
token_of (c ∷ s) = if is_delimiter c then [] else c ∷ token_of s

unfoldable pub behind_token : Text → Text
behind_token [] = []
behind_token (c ∷ s) = if is_delimiter c then s else behind_token s

-- `strtok`: the next token, and the string from which the next call goes on.
unfoldable pub strtok : Text → Option (Text × Text)
strtok s = elim (skip_delimiters s) [
  | [] ↦ none
  | c ∷ t ↦ some (token_of (c ∷ t), behind_token (c ∷ t))
]

-- `isspace` of the C locale.
abbrev pub is_space : ℕ → Bool
is_space c = c == b' ' || (leb 9 c && leb c 13)

abbrev pub is_digit : ℕ → Bool
is_digit c = leb b'0' c && leb c b'9'

-- The digits at the start of a text, behind a number; none where there is no digit.
unfoldable pub scan_digits : Option ℕ → Text → Option ℕ
scan_digits acc [] = acc
scan_digits acc (c ∷ s) =
    if is_digit c
    then scan_digits (some (elim acc [ none ↦ 0 | some n ↦ n * 10 ] + (c - b'0'))) s
    else acc

abbrev pub negated : ℕ → ℤ
negated zero = pos 0
negated (suc n) = negsuc n

-- `%ld`, for a number that a long holds; the theorems are about those only.
unfoldable pub scan_long : Text → Option ℤ
scan_long [] = none
scan_long (c ∷ s) =
    if is_space c
    then scan_long s
    else if c == b'-'
    then elim (scan_digits none s) [ none ↦ none | some n ↦ some (negated n) ]
    else elim (scan_digits none (if c == b'+' then s else c ∷ s)) [
      | none ↦ none
      | some n ↦ some (pos n)
    ]

-- What stands behind the first '|'.
unfoldable pub behind_bar : Text → Option Text
behind_bar [] = none
behind_bar (c ∷ s) = if c == b'|' then some s else behind_bar s

abbrev pub scan_number : Option Text → Option ℤ
scan_number none = none
scan_number (some s) = scan_long s

-- The two conversions, none where one fails; `%[^|]` takes one character at least.
abbrev pub converted : Text → Option ℤ → Option (Text × ℤ)
converted [] w = none
converted (c ∷ token) none = none
converted (c ∷ token) (some w) = some (c ∷ token, w)

-- `sscanf(line, "%[^|]|%ld", token, &weight) == 2`
unfoldable pub scan_entry : Text → Option (Text × ℤ)
scan_entry line = converted (until b'|' line) (scan_number (behind_bar line))

-- `!dsscasecmp(a, b)`
abbrev pub is_same : Text → Text → Bool
is_same a b = eqb_ℤ (dsscasecmp a b) (pos 0)

-- `distribution` while it is read: `list` is none before the array is allocated, and an element of
-- it is none before it is written.
pub record Target : Type 0 where
  pub count : ℕ
  pub max : ℕ
  pub list : Option (List (Option SetMember))

-- The globals start with zeros.
abbrev pub empty_target : Target
empty_target = record { count = 0; max = 0; list = none }

-- The variables of the loop; `next` is the local `count`.
pub record Reader : Type 0 where
  pub target : Target
  pub next : ℕ
  pub name_set : Bool

-- How it ends: with the target, with `exit(1)`, or with an access outside of what the source
-- allocates. `count` and `max` are ints; the model stops at `outside` where they would be negative or
-- 2^31 and more, which in dists.dss they never are, although some of its weights are negative.
pub data Outcome : Type 0 where
  ended : Target → Outcome
  refused fault outside : Outcome

pub data Step : Type 0 where
  more : Reader → Step
  stop : Outcome → Step

-- The second token of a line that begins a section, compared with the name.
unfoldable pub take_name : Text → Reader → Option (Text × Text) → Step
take_name name r none = stop fault
take_name name r (some second) =
    if is_same second.0 name then more (record r { name_set = true }) else more r

-- The first token of a line: `strtok` returns a null pointer where there is none, and `dsscasecmp`
-- reads through it.
unfoldable pub take_first : Text → Reader → Option (Text × Text) → Step
take_first name r none = stop fault
take_first name r (some first) =
    if is_same first.0 (codes "BEGIN") then take_name name r (strtok first.1) else more r

-- The lines before the section.
unfoldable pub find_section : Text → Reader → Text → Step
find_section name r line = take_first name r (strtok line)

abbrev pub replicate {ℓ} : {A : Type ℓ} → ℕ → A → List A
replicate zero x = []
replicate (suc n) x = x ∷ replicate n x

-- The entry "count"; `malloc` does not give the room for a negative one.
unfoldable pub set_count : ℤ → Reader → Step
set_count (negsuc n) r = stop refused
set_count (pos n) r =
    if ltb n (2 ^ 31)
    then more (record r { target = record { count = n; max = 0; list = some (replicate n none) } })
    else stop outside

-- `target->max += weight`, none where the sum is negative or no int.
abbrev pub add_weight : ℕ → ℤ → Option ℕ
add_weight max (pos n) = if ltb (max + n) (2 ^ 31) then some (max + n) else none
add_weight max (negsuc n) = if ltb n max then some (max - (n + 1)) else none

-- `target->list[count] = …; count += 1`, with the new sum.
unfoldable pub store_member : Text → Reader → Option ℕ → Option (List (Option SetMember)) → Step
store_member token r sum none = stop fault
store_member token r none (some members) =
    if ltb r.next (length members) then stop outside else stop fault
store_member token r (some sum) (some members) =
    if ltb r.next (length members)
    then more (record r {
      target = record {
        count = r.target.count;
        max = sum;
        list = some (set members r.next (some (record { weight = sum; text = token })));
      };
      next = r.next + 1;
    })
    else stop fault

unfoldable pub add_member : Text → ℤ → Reader → Step
add_member token w r = store_member token r (add_weight r.target.max w) r.target.list

unfoldable pub take_entry : Reader → Option (Text × ℤ) → Step
take_entry r none = more r
take_entry r (some e) =
    if is_same e.0 (codes "count") then set_count e.1 r else add_member e.0 e.1 r

-- The lines of the section.
unfoldable pub in_section : Reader → Text → Step
in_section r line =
    if eqb_ℤ (dssncasecmp line (codes "END") 3) (pos 0)
    then stop (ended r.target)
    else take_entry r (scan_entry line)

-- One round of the loop, on a line without newline and comment.
unfoldable pub read_line : Text → Reader → Text → Step
read_line name r [] = more r
read_line name r (c ∷ line) =
    if r.name_set then in_section r (c ∷ line) else find_section name r (c ∷ line)

-- The test behind the loop.
unfoldable pub at_end : Reader → Outcome
at_end r = if r.next == r.target.count then ended r.target else refused

unfoldable pub read_lines : Text → Reader → List Text → Outcome
read_lines name r [] = at_end r
read_lines name r (raw ∷ raws) = elim (read_line name r (line_text raw)) [
  | more r' ↦ read_lines name r' raws
  | stop o ↦ o
]

-- `read_dist` of a file
unfoldable pub read_dist : Text → Text → Target → Outcome
read_dist file name target =
    read_lines name (record { target = target; next = 0; name_set = false }) (fgets_lines 255 file)

-- What the comment texts are made of.
abbrev pub text_names : List Text
text_names =
    codes "nouns"
    ∷ (codes "verbs"
        ∷ (codes "adjectives"
            ∷ (codes "adverbs"
                ∷ (codes "auxillaries"
                    ∷ (codes "terminators"
                        ∷ (codes "articles"
                            ∷ (codes "prepositions"
                                ∷ (codes "grammar" ∷ (codes "np" ∷ (codes "vp" ∷ []))))))))))

-- The distributions that `load_dists` reads, in its order; each has a target of its own.
abbrev pub dist_names : List Text
dist_names =
    codes "p_cntr"
    ∷ (codes "colors"
        ∷ (codes "p_types"
            ∷ (codes "nations"
                ∷ (codes "regions"
                    ∷ (codes "o_oprio"
                        ∷ (codes "instruct"
                            ∷ (codes "smode"
                                ∷ (codes "category"
                                    ∷ (codes "rflag" ∷ (codes "msegmnt" ∷ text_names))))))))))

-- One `read_dist` after the other; none where one of them does not return.
abbrev pub joined : Outcome → Option (List Target) → Option (List Target)
joined (ended t) none = none
joined (ended t) (some ts) = some (t ∷ ts)
joined _ ts = none

unfoldable pub read_dists : Text → List Text → Option (List Target)
read_dists file [] = some []
read_dists file (name ∷ names) = joined (read_dist file name empty_target) (read_dists file names)

unfoldable pub load_dists : Text → Option (List Target)
load_dists file = read_dists file dist_names
