-- ===== src/Qgen/Qsub.antt =====
-- qgen.c: `qsub`, which fills one template of a query, built for DB2.
pub mod Tags
pub mod Expands
pub mod Template
mod Tests
use structor.Common.{
  ℕ, zero, suc, ◌+◌, ◌*◌, ◌^◌, List, [], ◌∷◌, ◌++◌, length, get_or, Bool, true, false, ◌==◌, ◌||◌,
  ◌&&◌, ltb, if◌then◌else◌, Option, none, some, ℤ, pos, negsuc,
}
use structor.Text.{Text, codes, dec}
use structor.DistFile.{until, is_digit, scan_digits, scan_long}
use structor.DistFile.Entries.{dec_signed}
use structor.Qgen.Strip.{behind, Line, strip_comments}

-- The flags, names and numbers that `qsub` reads; `param` is what `varsub` prints for a number.
pub record Query : Type 0 where
  pub qtag : Text
  pub snum : ℤ
  pub db_name : Text
  pub osuff : Text
  pub comment : Bool
  pub ansi : Bool
  pub dbase : Bool
  pub explain : Bool
  pub output : Bool
  pub dflt_num : Bool
  pub param : ℕ → Option Text

-- SET_ROWCOUNT
abbrev pub set_rowcount : ℤ → Text
set_rowcount n = codes "--#SET ROWS_FETCH " ++ (dec_signed n ++ codes "\n")

-- (snum < 0) ? 0 : snum
abbrev pub stream_number : ℤ → Text
stream_number (pos n) = dec n
stream_number (negsuc n) = dec 0

abbrev pub is_tag : ℕ → ℕ → Bool
is_tag lower c = c == lower || c + 32 == lower

-- What a tag of one letter prints, none for a letter that is no tag. START_TRAN and SET_OUTPUT are
-- empty.
unfoldable pub letter_text : Query → ℕ → Option Text
letter_text q c =
    if is_tag b'b' c
    then some (if q.ansi then [] else codes "\n")
    else if is_tag b'c' c
    then some (if q.dbase then codes "CONNECT TO " ++ (q.db_name ++ codes " ;\n") else [])
    else if is_tag b'e' c
    then some (if q.ansi then [] else codes "COMMIT WORK;\n")
    else if is_tag b'o' c
    then some (
        if q.output
        then codes " '"
          ++ (q.osuff ++ (b'/' ∷ (q.qtag ++ (b'.' ∷ (stream_number q.snum ++ codes "'")))))
        else [])
    else if is_tag b'q' c
    then some q.qtag
    else if is_tag b's' c
    then some (stream_number q.snum)
    else if is_tag b'x' c
    then some (if q.explain then codes "SET CURRENT EXPLAIN SNAPSHOT ON;\n" else [])
    else none

-- A number that an int holds, on which alone `atoi` is defined.
abbrev pub held : ℤ → Option ℤ
held (pos n) = if ltb n (2 ^ 31) then some (pos n) else none
held (negsuc n) = if ltb n (2 ^ 31) then some (negsuc n) else none

-- `atoi`
abbrev pub atoi : Text → Option ℤ
atoi s = elim (scan_long s) [ none ↦ some (pos 0) | some w ↦ held w ]

unfoldable pub skip_digits : Text → Text
skip_digits [] = []
skip_digits (c ∷ s) = if is_digit c then skip_digits s else c ∷ s

-- What a tag prints, and where the scan goes on; none in that place for the tag n, behind which the
-- scan starts again at the text in front of the tag, now cut off there.
pub record Printed : Type 0 where
  pub text : Text
  pub next : Option Text

abbrev pub number_of : Option ℕ → ℕ
number_of none = 0
number_of (some n) = n

-- What `varsub` prints for the number that `atoi` reads; none beyond the ints.
abbrev pub parameter_text : Query → ℕ → Option Text
parameter_text q n = if ltb n (2 ^ 31) then q.param n else none

-- The tag n, with the text in front of it printed again.
abbrev pub printed_rows : Bool → Option ℤ → Option Printed
printed_rows true n = some (record { text = []; next = none })
printed_rows false none = none
printed_rows false (some n) = some (record { text = set_rowcount n; next = none })

abbrev pub printed_parameter : Option Text → Text → Option Printed
printed_parameter none s = none
printed_parameter (some t) s = some (record { text = t; next = some s })

-- A letter that is no tag is left out, with a message.
abbrev pub printed_letter : Option Text → Text → Printed
printed_letter none s = record { text = []; next = some s }
printed_letter (some t) s = record { text = t; next = some s }

-- The switch on the character behind the ':'. At the end of the line the scan leaves the string.
unfoldable pub directive : Query → Text → Option Printed
directive q [] = none
directive q (c ∷ s) =
    if is_tag b'n' c
    then printed_rows q.dflt_num (atoi s)
    else if is_digit c && (if c == b'0' then false else true)
    then printed_parameter (parameter_text q (number_of (scan_digits none (c ∷ s)))) (skip_digits s)
    else some (printed_letter (letter_text q c) s)

abbrev pub then_rest : Text → Printed → Option Text → Option Text
then_rest front p none = none
then_rest front p (some rest) = some (front ++ (p.text ++ rest))

-- Behind a tag, with the text in front of it and the loop over what follows.
unfoldable pub after_printed : (Text → Option Text) → Text → Printed → Option Text → Option Text
after_printed go front p none = some (front ++ (p.text ++ front))
after_printed go front p (some next) = then_rest front p (go next)

unfoldable pub after_tag : (Text → Option Text) → Text → Option Printed → Option Text
after_tag go front none = none
after_tag go front (some p) = after_printed go front p p.next

-- A round of the inner loop, by the text behind the first ':'.
unfoldable pub after_search : (Text → Option Text) → Query → Text → Option Text → Option Text
after_search go q s none = some s
after_search go q s (some tag) = after_tag go (until b':' s) (directive q tag)

-- The inner loop on one line; none where it leaves the line, where `varsub` has no text to print, where
-- a number is no int, and where the fuel runs out.
unfoldable pub substitute : ℕ → Query → Text → Option Text
substitute zero q s = none
substitute (suc fuel) q s = after_search (substitute fuel q) q s (behind b':' s)

-- A line of n characters has at most n tags.
unfoldable pub substitute_line : Query → Text → Option Text
substitute_line q s = substitute (suc (length s)) q s

abbrev pub joined_text : Option Text → Option Text → Option Text
joined_text none t = none
joined_text (some s) none = none
joined_text (some s) (some t) = some (s ++ t)

-- `if (!(flags & COMMENT)) strip_comments(line)`
unfoldable pub stripped : Bool → Line → Option Line
stripped true l = some l
stripped false l = strip_comments l

-- The lines of the template, each without its comments unless they are kept.
unfoldable pub qsub_lines : Query → Bool → List Text → Option Text
qsub_lines q inside [] = some []
qsub_lines q inside (line ∷ lines) =
    elim (stripped q.comment (record { text = line; in_comment = inside })) [
      | none ↦ none
      | some l ↦ joined_text (substitute_line q l.text) (qsub_lines q l.in_comment lines)
    ]

-- `qsub` of the lines of a template, behind the default row count of the query.
unfoldable pub qsub : Query → ℤ → Bool → List Text → Option Text
qsub q rowcnt inside lines =
    joined_text (some (if q.dflt_num then set_rowcount rowcnt else [])) (qsub_lines q inside lines)
