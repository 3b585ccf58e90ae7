-- ===== src/Options/Refused.antt =====
-- Which options end the program.
use structor.Common.{
  ℕ, List, [], ◌∷◌, Bool, true, false, ◌&&◌, ◌||◌, ◌==◌, if◌then◌else◌, Option, none, some, ◌≡◌,
}
use structor.Double.{Double}
use structor.Text.{Text}
use structor.Dist.{tolower}
use structor.Options.{
  Settings, Parsed, parsed, refused, crashed, no_memory, Opt, pids_size, needs_pids, first,
}

-- The letters that a switch has a case for.
abbrev pub one_of : List ℕ → ℕ → Bool
one_of [] c = false
one_of (k ∷ ks) c = c == k || one_of ks c

abbrev pub tables : List ℕ
tables = b'c' ∷ b'p' ∷ b's' ∷ b'd' ∷ b'l' ∷ b'a' ∷ []

abbrev pub actions : List ℕ
actions = b'd' ∷ b'f' ∷ b'h' ∷ b'm' ∷ b'r' ∷ b's' ∷ b'v' ∷ []

abbrev pub plain : List ℕ
plain =
    b'b' ∷ b'q' ∷ b'i' ∷ b'd' ∷ b'S' ∷ b'v' ∷ b'f' ∷ b's' ∷ b'P' ∷ b'D' ∷ b'F' ∷ b'U' ∷ b'r' ∷ b'C'
    ∷ b'n' ∷ []

-- An option of the program: a table of the benchmark for -T, a known action for -O.
abbrev pub is_known : Opt → Bool
is_known o =
    if o.letter == b'T'
    then one_of tables (first o.optarg)
    else if o.letter == b'O'
    then one_of actions (tolower (first o.optarg))
    else one_of plain o.letter

abbrev pub first_unknown : List Opt → Option Opt
first_unknown [] = none
first_unknown (o ∷ os) = if is_known o then first_unknown os else some o

-- An unknown option whose message reads no further argument, or has one to read.
abbrev pub is_reported : Opt → Bool
is_reported o = o.letter == b'T' || (o.letter == b'O' || (o.letter == b'h' || o.followed))

-- How a switch ends, as a number.
abbrev class_of : Parsed → ℕ
class_of (parsed s) = 0
class_of refused = 1
class_of crashed = 2
class_of no_memory = 3

-- What the options must lead to, by the first that is unknown.
abbrev pub EndsAs : (ℕ → Bool) → Option Opt → Parsed → Type 0
EndsAs malloc none p =
    (s : Settings) × (p ≡ (
      if needs_pids s && (if malloc (pids_size s.children) then false else true)
      then no_memory
      else parsed s))
EndsAs malloc (some o) p = p ≡ (if is_reported o then refused else crashed)
