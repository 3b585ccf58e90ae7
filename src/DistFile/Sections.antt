-- ===== src/DistFile/Sections.antt =====
-- One section of a file of several.
use structor.Common.{
  ℕ, List, [], ◌∷◌, ◌++◌, length, map, true, false, if◌then◌else◌, Option, none, some, ◌≡◌, ◌≢◌,
  refl, ap, ◌∙◌,
}
use mathlib.Core.List.{append_assoc, map-append}
use structor.Text.{Text, codes}
use structor.Dist.{dsscasecmp}
use structor.DistFile.{
  token_of, skip_delimiters, strtok, is_same, Target, empty_target, more, take_first, find_section,
  read_line, read_lines,
}
use structor.DistFile.Lines.{IsPlain, AllPlain, ended_line, read_lines-more}
use structor.DistFile.Written.{
  Entry, Section, begin_line, count_line, entry_line, end_line, section_lines, has_token, begins,
  AllEntries, IsName, IsSection, counted_lines,
}
use structor.DistFile.Reads.{looking, read_line-begin, strtok-end, entry_line_not_nil}

-- A file of the sections, as lines.
abbrev pub sections_lines : List Section → List Text
sections_lines [] = []
sections_lines (s ∷ ss) = section_lines s ++ sections_lines ss

-- Sections that are well formed and have other names than the one that is looked for.
abbrev pub AllOthers : Text → List Section → Type 0
AllOthers name [] = Unit {0}
AllOthers name (s ∷ ss) = (IsSection s × (is_same s.name name ≡ false)) × AllOthers name ss

read_line-out :
    (name : Text) (target : Target) (line : Text)
    → line ≢ []
    → has_token line ≡ true
    → begins line ≡ false
    → read_line name (looking target) line ≡ more (looking target)
unfolding read_line find_section take_first
read_line-out name target [] some_text tokens other = absurd (some_text refl)
read_line-out name target (c ∷ line) some_text tokens other = pass (strtok (c ∷ line)) tokens other
  where
    pass :
        (o : Option (Text × Text))
        → elim o [ none ↦ false | some t ↦ true ] ≡ true
        → elim o [ none ↦ false | some t ↦ is_same t.0 (codes "BEGIN") ] ≡ false
        → take_first name (looking target) o ≡ more (looking target)
    pass none t b = cc t
    pass (some first) t b = rw b refl

skip_entries :
    (name : Text) (target : Target) (es : List Entry) (rest : List Text)
    → AllEntries es
    → read_lines name (looking target) (map ended_line (map entry_line es) ++ rest)
      ≡ read_lines name (looking target) rest
skip_entries name target [] rest h = refl
skip_entries name target (e ∷ es) rest h =
    read_lines-more name _ _ (entry_line e) _ h.0.plain (
      read_line-out name target (entry_line e) (entry_line_not_nil e.text e.weight) h.0.tokens
        h.0.not_begin)
    ∙ skip_entries name target es rest h.1

read_line-count :
    (name : Text) (target : Target) (n : ℕ)
    → read_line name (looking target) (count_line n) ≡ more (looking target)
unfolding read_line find_section take_first strtok skip_delimiters token_of dsscasecmp
read_line-count name target n = refl

read_line-end :
    (own name : Text) (target : Target)
    → read_line name (looking target) (end_line own) ≡ more (looking target)
unfolding read_line find_section take_first dsscasecmp
read_line-end own name target = ap (take_first name (looking target)) (strtok-end own)

pub skip_section :
    (name : Text) (target : Target) (s : Section) (rest : List Text)
    → IsSection s
    → is_same s.name name ≡ false
    → read_lines name (looking target) (map ended_line (section_lines s) ++ rest)
      ≡ read_lines name (looking target) rest
skip_section name target s rest ok other =
    read_lines-more name _ _ (begin_line s.name) _ ok.named.begin_plain (
      read_line-begin s.name name target ok.named.one_token
      ∙ ap
          (λ b.
            if b
            then more (record { target = target; next = 0; name_set = true })
            else more (looking target))
          other)
    ∙ read_lines-more name _ _ (count_line (length s.entries)) _ ok.count_plain
        (read_line-count name target (length s.entries))
    ∙ ap (λ (ls : List Text). read_lines name (looking target) (ls ++ rest))
        (map-append ended_line (map entry_line s.entries) (end_line s.name ∷ []))
    ∙ ap (read_lines name (looking target)) (
        append_assoc (map ended_line (map entry_line s.entries)) (ended_line (end_line s.name) ∷ [])
          rest)
    ∙ skip_entries name target s.entries _ ok.all
    ∙ read_lines-more name _ _ (end_line s.name) rest ok.named.end_plain
        (read_line-end s.name name target)

pub skip_sections-cons :
    (name : Text) (s : Section) (ss : List Section) (rest : List Text)
    → read_lines name (looking empty_target) (map ended_line (sections_lines (s ∷ ss)) ++ rest)
      ≡ read_lines name
          (looking empty_target)
          (map ended_line (section_lines s) ++ (map ended_line (sections_lines ss) ++ rest))
skip_sections-cons name s ss rest =
    ap (λ (ls : List Text). read_lines name (looking empty_target) (ls ++ rest))
      (map-append ended_line (section_lines s) (sections_lines ss))
    ∙ ap (read_lines name (looking empty_target))
        (append_assoc (map ended_line (section_lines s)) (map ended_line (sections_lines ss)) rest)

pub skip_sections :
    (name : Text) (target : Target) (ss : List Section) (rest : List Text)
    → AllOthers name ss
    → read_lines name (looking target) (map ended_line (sections_lines ss) ++ rest)
      ≡ read_lines name (looking target) rest
skip_sections name target [] rest h = refl
skip_sections name target (s ∷ ss) rest h =
    ap (λ (ls : List Text). read_lines name (looking target) (ls ++ rest))
      (map-append ended_line (section_lines s) (sections_lines ss))
    ∙ ap (read_lines name (looking target))
        (append_assoc (map ended_line (section_lines s)) (map ended_line (sections_lines ss)) rest)
    ∙ skip_section name target s _ h.0.0 h.0.1
    ∙ skip_sections name target ss rest h.1

pub AllPlain-append : (ls ms : List Text) → AllPlain ls → AllPlain ms → AllPlain (ls ++ ms)
AllPlain-append [] ms h k = k
AllPlain-append (l ∷ ls) ms h k = (h.0, AllPlain-append ls ms h.1 k)

entries-AllPlain : (es : List Entry) → AllEntries es → AllPlain (map entry_line es)
entries-AllPlain [] h = tt
entries-AllPlain (e ∷ es) h = (h.0.plain, entries-AllPlain es h.1)

pub counted-AllPlain :
    (n : ℕ) (s : Section)
    → IsName s.name
    → AllEntries s.entries
    → IsPlain (count_line n)
    → AllPlain (counted_lines n s)
counted-AllPlain n s named all plain = (
  named.begin_plain,
  (
    plain,
    AllPlain-append (map entry_line s.entries) (end_line s.name ∷ [])
        (entries-AllPlain s.entries all) (named.end_plain, tt),
  ),
)

pub section-AllPlain : (s : Section) → IsSection s → AllPlain (section_lines s)
section-AllPlain s ok = counted-AllPlain _ s ok.named ok.all ok.count_plain

pub sections-AllPlain :
    (name : Text) (ss : List Section) → AllOthers name ss → AllPlain (sections_lines ss)
sections-AllPlain name [] h = tt
sections-AllPlain name (s ∷ ss) h =
    AllPlain-append (section_lines s) (sections_lines ss) (section-AllPlain s h.0.0)
      (sections-AllPlain name ss h.1)
