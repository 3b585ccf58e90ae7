-- ===== src/DistFile/Whole.antt =====
-- `read_dist` of a file of several sections.
use structor.Common.{
  ℕ, ◌^◌, ◌<◌, List, [], ◌∷◌, ◌++◌, length, map, true, if◌then◌else◌, ltb, ◌==◌, Bool-cases, inl,
  inr, some, ◌≡◌, refl, sym, ap, ◌∙◌, arith,
}
use mathlib.Core.List.{append-nil}
use structor.Text.{Text}
use structor.DistFile.{
  fgets_lines, is_same, Target, empty_target, Outcome, ended, refused, fault, at_end, read_lines,
  read_dist, joined, read_dists, load_dists, dist_names,
}
use structor.DistFile.Lines.{IsPlain, AllPlain, file_of, ended_line, fgets_lines-file_of}
use structor.DistFile.Written.{
  Section, count_line, section_lines, AllEntries, AllAdded, IsName, IsSection, target_of,
  counted_lines, counted_target,
}
use structor.DistFile.Reads.{looking, read_counted, read_over, counted_target-length}
use structor.DistFile.Sections.{
  AllOthers, sections_lines, AllPlain-append, section-AllPlain, skip_section, skip_sections-cons,
  skip_sections, sections-AllPlain, counted-AllPlain,
}

module _ (before : List Section) (s : Section) (rest name : Text) (target : Target) (n : ℕ)
    (others : AllOthers name before) (named : IsName s.name) (all : AllEntries s.entries)
    (plain : IsPlain (count_line n)) where
  -- The lines of a file are those of the sections before, of the section and of the rest.
  lines_of_file :
      fgets_lines 255 (file_of (sections_lines before) ++ (file_of (counted_lines n s) ++ rest))
      ≡ map ended_line (sections_lines before)
        ++ (map ended_line (counted_lines n s) ++ fgets_lines 255 rest)
  lines_of_file =
      fgets_lines-file_of (sections_lines before) (file_of (counted_lines n s) ++ rest)
        (sections-AllPlain name before others)
      ∙ ap (λ (ls : List Text). map ended_line (sections_lines before) ++ ls)
          (fgets_lines-file_of (counted_lines n s) rest (counted-AllPlain n s named all plain))

  -- `read_dist` comes to the section with the target untouched.
  pub read_dist-skip :
      read_dist
        (file_of (sections_lines before) ++ (file_of (counted_lines n s) ++ rest))
        name
        target
      ≡ read_lines name
          (looking target)
          (map ended_line (counted_lines n s) ++ fgets_lines 255 rest)
  unfolding read_dist
  read_dist-skip =
      ap (read_lines name (looking target)) lines_of_file
      ∙ skip_sections name target before _ others

-- A section is written as its BEGIN line, its COUNT line, a line for each entry and its END line; it is
-- well formed only if its count and each sum of its first weights are ints that are not negative. If
-- the sections before are well formed and have other names, and the section is well formed and has the
-- name in any case, `read_dist` ends with the target of its entries, whatever the target held before
-- and whatever text stands behind the section: count and max are the number and the sum of the entries,
-- and the list has each text with the sum of the weights up to it.
pub read_dist-section :
    (before : List Section) (s : Section) (rest name : Text) (target : Target)
    → AllOthers name before
    → IsSection s
    → is_same s.name name ≡ true
    → read_dist (file_of (sections_lines before) ++ (file_of (section_lines s) ++ rest)) name target
      ≡ ended (target_of s.entries)
read_dist-section before s rest name target others ok same =
    read_dist-skip before s rest name target _ others ok.named ok.all ok.count_plain
    ∙ read_counted name s target _ _ ok.named ok.all ok.sums ok.count_plain ok.count_small same
        (omega arith)
    ∙ ap ended (counted_target-length s.entries)

-- The same file with a section whose count line says n, below 2^31. If n is at least the number of its entries,
-- `read_dist` ends with a count of n in which the elements behind the entries are never written: the
-- END line returns before the test of the count. If n is less, it writes behind the array.
pub read_dist-counted :
    (before : List Section) (s : Section) (rest name : Text) (target : Target) (n : ℕ)
    → AllOthers name before
    → IsName s.name
    → AllEntries s.entries
    → AllAdded 0 s.entries
    → IsPlain (count_line n)
    → n < 2 ^ 31
    → is_same s.name name ≡ true
    → read_dist
        (file_of (sections_lines before) ++ (file_of (counted_lines n s) ++ rest))
        name
        target
      ≡ (if ltb n (length s.entries) then fault else ended (counted_target n s.entries))
read_dist-counted before s rest name target n others named all sums plain small same =
    read_dist-skip before s rest name target n others named all plain
    ∙ elim (Bool-cases (ltb n (length s.entries))) [
      | inl over ↦
          rw over (read_over name s target _ n named all sums plain small same (ground arith))
      | inr fits ↦
          rw fits (read_counted name s target _ n named all sums plain small same (ground arith))
    ]

read_nothing :
    (name : Text) (target : Target)
    → read_lines name (looking target) (fgets_lines 255 [])
      ≡ (if target.count == 0 then ended target else refused)
unfolding read_lines at_end fgets_lines
read_nothing name target = ground arith

-- Well-formed sections.
abbrev pub AllSections : List Section → Type 0
AllSections [] = Unit {0}
AllSections (s ∷ ss) = IsSection s × AllSections ss

-- The target of the first section with a name, whatever the case of its letters, and else the one given.
abbrev pub target_in : Text → List Section → Target → Target
target_in name [] target = target
target_in name (s ∷ ss) target =
    if is_same s.name name then target_of s.entries else target_in name ss target

read_lines-find :
    (ss : List Section) (name : Text)
    → AllSections ss
    → read_lines name
        (looking empty_target)
        (map ended_line (sections_lines ss) ++ fgets_lines 255 [])
      ≡ ended (target_in name ss empty_target)
read_lines-find [] name ok = read_nothing name empty_target
read_lines-find (s ∷ ss) name ok = elim (Bool-cases (is_same s.name name)) [
  | inl same ↦
      skip_sections-cons name s ss _
      ∙ rw same (
          read_counted name s empty_target _ _ ok.0.named ok.0.all ok.0.sums ok.0.count_plain
            ok.0.count_small same (omega arith)
          ∙ ap ended (counted_target-length s.entries))
  | inr other ↦
      skip_sections-cons name s ss _
      ∙ rw other (skip_section name empty_target s _ ok.0 other ∙ read_lines-find ss name ok.1)
]

AllSections-AllPlain : (ss : List Section) → AllSections ss → AllPlain (sections_lines ss)
AllSections-AllPlain [] ok = tt
AllSections-AllPlain (s ∷ ss) ok =
    AllPlain-append (section_lines s) (sections_lines ss) (section-AllPlain s ok.0)
      (AllSections-AllPlain ss ok.1)

-- On a file of well-formed sections `read_dist`, given a target of zeros, ends with the target of the
-- first section that has the name in any case, and with the target of zeros where no section has it:
-- a missing distribution is not reported.
pub read_dist-find :
    (ss : List Section) (name : Text)
    → AllSections ss
    → read_dist (file_of (sections_lines ss)) name empty_target
      ≡ ended (target_in name ss empty_target)
unfolding read_dist
read_dist-find ss name ok =
    ap (λ (t : Text). read_lines name (looking empty_target) (fgets_lines 255 t))
      (sym (append-nil _))
    ∙ ap (read_lines name (looking empty_target))
        (fgets_lines-file_of (sections_lines ss) [] (AllSections-AllPlain ss ok))
    ∙ read_lines-find ss name ok

read_dists-find :
    (ss : List Section) (names : List Text)
    → AllSections ss
    → read_dists (file_of (sections_lines ss)) names
      ≡ some (map (λ name. target_in name ss empty_target) names)
unfolding read_dists
read_dists-find ss [] ok = refl
read_dists-find ss (name ∷ names) ok =
    ap (λ (o : Outcome). joined o (read_dists (file_of (sections_lines ss)) names))
      (read_dist-find ss name ok)
    ∙ ap (joined (ended (target_in name ss empty_target))) (read_dists-find ss names ok)

-- `load_dists` on a file of well-formed sections, whose counts and sums of weights are ints that are not
-- negative, in whatever order they stand, returns, and gives each
-- of its distributions the first section of the file with its name.
pub load_dists-find :
    (ss : List Section)
    → AllSections ss
    → load_dists (file_of (sections_lines ss))
      ≡ some (map (λ name. target_in name ss empty_target) dist_names)
unfolding load_dists
load_dists-find ss ok = read_dists-find ss dist_names ok
