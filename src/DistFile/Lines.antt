-- ===== src/DistFile/Lines.antt =====
-- The lines of a file of whole lines, as `read_dist` sees them.
use structor.Common.{
  ℕ, ◌-◌, ◌<◌, List, [], ◌∷◌, ◌++◌, length, map, false, ◌==◌, ◌||◌, leb, ◌≡◌, refl, ap, ◌∙◌, arith,
}
use mathlib.Core.List.{append_assoc}
use structor.Text.{Text}
use structor.Print.Split.{Lacks}
use structor.DistFile.{
  push, fgets_lines, until, line_text, Reader, Outcome, Step, more, stop, read_line, read_lines,
}

-- The file of some lines.
abbrev pub file_of : List Text → Text
file_of [] = []
file_of (line ∷ lines) = line ++ (b'\n' ∷ file_of lines)

-- A line that `fgets` reads in one piece and that has neither a comment nor a zero byte.
pub record IsPlain (line : Text) : Type 0 where
  pub no_newline : Lacks b'\n' line
  pub no_comment : Lacks b'#' line
  pub no_zero : Lacks 0 line
  pub short : length line < 255

abbrev pub AllPlain : List Text → Type 0
AllPlain [] = Unit {0}
AllPlain (line ∷ lines) = IsPlain line × AllPlain lines

abbrev pub ended_line : Text → Text
ended_line line = line ++ (b'\n' ∷ [])

fgets_line :
    (line rest : Text) (room : ℕ)
    → Lacks b'\n' line
    → length line < room
    → fgets_lines room (line ++ (b'\n' ∷ rest)) ≡ ended_line line ∷ fgets_lines 255 rest
unfolding fgets_lines
fgets_line [] rest room clean h = refl
fgets_line (c ∷ line) rest room clean h =
    let stays : (c == b'\n' || leb room 1) ≡ false = ground arith in
    rw stays (ap (push c) (fgets_line line rest (room - 1) clean.1 (omega arith)))

pub fgets_lines-file_of :
    (lines : List Text) (rest : Text)
    → AllPlain lines
    → fgets_lines 255 (file_of lines ++ rest) ≡ map ended_line lines ++ fgets_lines 255 rest
fgets_lines-file_of [] rest h = refl
fgets_lines-file_of (line ∷ lines) rest h =
    ap (fgets_lines 255) (append_assoc line (b'\n' ∷ file_of lines) rest)
    ∙ fgets_line line (file_of lines ++ rest) 255 h.0.no_newline h.0.short
    ∙ ap (λ (ls : List Text). ended_line line ∷ ls) (fgets_lines-file_of lines rest h.1)

pub until-Lacks : (c : ℕ) (s rest : Text) → Lacks c s → until c (s ++ (c ∷ rest)) ≡ s
unfolding until
until-Lacks c [] rest h = ground arith
until-Lacks c (x ∷ s) rest h =
    let other : (x == c) ≡ false = h.0 in rw other (ap (◌∷◌ x) (until-Lacks c s rest h.1))

until_all : (c : ℕ) (s : Text) → Lacks c s → until c s ≡ s
unfolding until
until_all c [] h = refl
until_all c (x ∷ s) h =
    let other : (x == c) ≡ false = h.0 in rw other (ap (◌∷◌ x) (until_all c s h.1))

ended-Lacks : (s : Text) → Lacks 0 s → Lacks 0 (ended_line s)
ended-Lacks [] h = (refl, tt)
ended-Lacks (x ∷ s) h = (h.0, ended-Lacks s h.1)

pub line_text-plain : (line : Text) → IsPlain line → line_text (ended_line line) ≡ line
unfolding line_text
line_text-plain line h =
    ap (λ (t : Text). until b'#' (until b'\n' t)) (until_all 0 _ (ended-Lacks line h.no_zero))
    ∙ ap (until b'#') (until-Lacks b'\n' line [] h.no_newline)
    ∙ until_all b'#' line h.no_comment

read_line-plain :
    (name : Text) (r : Reader) (s : Step) (line : Text) (rest : List Text)
    → IsPlain line
    → read_line name r line ≡ s
    → read_lines name r (ended_line line ∷ rest)
      ≡ elim s [ more r' ↦ read_lines name r' rest | stop o ↦ o ]
unfolding read_lines
read_line-plain name r s line rest plain e =
    ap (λ (t : Step). elim t [ more r' ↦ read_lines name r' rest | stop o ↦ o ])
      (ap (read_line name r) (line_text-plain line plain) ∙ e)

-- A line on which the loop goes on.
pub read_lines-more :
    (name : Text) (r r' : Reader) (line : Text) (rest : List Text)
    → IsPlain line
    → read_line name r line ≡ more r'
    → read_lines name r (ended_line line ∷ rest) ≡ read_lines name r' rest
read_lines-more name r r' line rest = read_line-plain name r (more r') line rest

-- A line on which it ends.
pub read_lines-stop :
    (name : Text) (r : Reader) (o : Outcome) (line : Text) (rest : List Text)
    → IsPlain line
    → read_line name r line ≡ stop o
    → read_lines name r (ended_line line ∷ rest) ≡ o
read_lines-stop name r o line rest = read_line-plain name r (stop o) line rest
