-- ===== src/Qgen/Strip.antt =====
-- qgen.c: `strip_comments`, which takes the comments out of one line of a template. The static
-- `in_comment` is carried from line to line.
pub mod Ends
pub mod Comments
mod Tests
use structor.Common.{
  ℕ, zero, suc, ◌+◌, ◌*◌, List, [], ◌∷◌, length, Bool, true, false, ◌==◌, if◌then◌else◌, Option,
  none, some,
}
use structor.Text.{Text}
use structor.DistFile.{until}

-- `strchr(line, c)`, as the text behind the character; none where it is not in the line.
unfoldable pub behind : ℕ → Text → Option Text
behind c [] = none
behind c (x ∷ s) = if x == c then some s else behind c s

-- `*cp2 = ' '` at the first c
unfoldable pub blank_first : ℕ → Text → Text
blank_first c [] = []
blank_first c (x ∷ s) = if x == c then b' ' ∷ s else x ∷ blank_first c s

-- The line, and `in_comment`.
pub record Line : Type 0 where
  pub text : Text
  pub in_comment : Bool

pub data Round : Type 0 where
  continue break : Line → Round

-- `cp1` stays at the start of the line, so that the copy drops all that stands before the '}'.
unfoldable pub close_comment : Option Text → Round
close_comment none = break (record { text = []; in_comment = true })
close_comment (some rest) = continue (record { text = rest; in_comment = false })

-- Whether a '-' follows the first one.
abbrev pub dash_next : Option Text → Bool
dash_next none = false
dash_next (some []) = false
dash_next (some (c ∷ s)) = c == b'-'

abbrev pub found : Option Text → Bool
found none = false
found (some s) = true

unfoldable pub open_comment : Text → Round
open_comment s =
    if dash_next (behind b'-' s)
    then break (record { text = until b'-' s; in_comment = false })
    else if found (behind b'{' s)
    then continue (record { text = blank_first b'{' s; in_comment = true })
    else break (record { text = s; in_comment = false })

-- The body of the loop.
unfoldable pub strip_round : Line → Round
strip_round l = if l.in_comment then close_comment (behind b'}' l.text) else open_comment l.text

-- The loop, none where the fuel runs out.
unfoldable pub strip_loop : ℕ → Line → Option Line
strip_loop zero l = none
strip_loop (suc fuel) l = elim (strip_round l) [
  | continue l' ↦ strip_loop fuel l'
  | break l' ↦ some l'
]

-- Each comment takes two rounds and a character at least.
unfoldable pub strip_comments : Line → Option Line
strip_comments l = strip_loop (suc (suc (2 * length l.text))) l

abbrev pub put_first : Text → Option (List Text × Bool) → Option (List Text × Bool)
put_first s none = none
put_first s (some rest) = some (s ∷ rest.0, rest.1)

-- The lines of a template, one after the other, and `in_comment` behind them.
unfoldable pub strip_lines : Bool → List Text → Option (List Text × Bool)
strip_lines b [] = some ([], b)
strip_lines b (line ∷ lines) = elim (strip_comments (record { text = line; in_comment = b })) [
  | none ↦ none
  | some l ↦ put_first l.text (strip_lines l.in_comment lines)
]
