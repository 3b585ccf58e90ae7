-- ===== src/DistFile/Tests.antt =====
-- The properties of `read_dist` at concrete inputs.
use structor.Common.{ℕ, ◌<◌, List, [], ◌∷◌, ◌++◌, map, some, pos, negsuc, ◌≡◌, refl, arith}
use structor.Text.{codes, dec, dec_digits}
use structor.Seeds.Live.{Live}
use structor.Dist.{dsscasecmp, dssncasecmp}
use structor.DistFile.{
  fgets_lines, until, line_text, skip_delimiters, token_of, behind_token, strtok, scan_digits,
  scan_long, behind_bar, scan_entry, empty_target, ended, fault, take_name, take_first,
  find_section, set_count, store_member, add_member, take_entry, in_section, read_line, read_lines,
  read_dist, load_dists, dist_names,
}
use structor.DistFile.Lines.{IsPlain, file_of}
use structor.DistFile.Written.{
  Entry, Section, count_line, section_lines, counted_lines, IsSection, target_of,
}
use structor.DistFile.Sections.{sections_lines, AllOthers}
use structor.DistFile.Whole.{
  read_dist-section, read_dist-counted, load_dists-find, AllSections, target_in,
}

-- Comments, empty lines, a line with no bar and a number behind blanks.
reads_format :
    read_dist
      (codes
        "# x\n\nBEGIN a\nCOUNT|1\nq|1\nEND a\nbegin  flag # y\ncount|2\nnot one\nR| +3\nA|-1#z\nend flag\n")
      (codes "FLAG")
      empty_target
    ≡ ended (
        target_of (
          record { text = codes "R"; weight = pos 3 }
          ∷ record { text = codes "A"; weight = negsuc 0 }
          ∷ []))
unfolding read_dist read_lines fgets_lines line_text until read_line find_section take_first
    take_name strtok skip_delimiters token_of behind_token dsscasecmp in_section dssncasecmp
    take_entry scan_entry behind_bar scan_long scan_digits set_count add_member store_member
reads_format = refl

abbrev flags : List Entry
flags =
    record { text = codes "R"; weight = pos 3 }
    ∷ record { text = codes "A"; weight = negsuc 0 }
    ∷ []

abbrev rflag : Section
rflag = record { name = codes "rflag"; entries = flags }

abbrev regions : Section
regions = record {
  name = codes "regions";
  entries = record { text = codes "MIDDLE EAST"; weight = pos 1 } ∷ [];
}

rflag-IsSection : IsSection rflag
unfolding dec dec_digits strtok skip_delimiters token_of behind_token dsscasecmp dssncasecmp
rflag-IsSection = ground arith

regions-IsSection : IsSection regions
unfolding dec dec_digits strtok skip_delimiters token_of behind_token dsscasecmp dssncasecmp
regions-IsSection = ground arith

others_than_rflag : AllOthers (codes "RFLAG") (regions ∷ [])
unfolding dsscasecmp
others_than_rflag = ((regions-IsSection, refl), tt)

read_dist-section_example :
    read_dist
      (file_of (sections_lines (regions ∷ [])) ++ (file_of (section_lines rflag) ++ codes "begin"))
      (codes "RFLAG")
      empty_target
    ≡ ended (target_of flags)
unfolding dsscasecmp
read_dist-section_example =
    read_dist-section (regions ∷ []) rflag (codes "begin") (codes "RFLAG") empty_target
      others_than_rflag rflag-IsSection refl

counted_plain : (n : ℕ) → n < 10 → IsPlain (count_line n)
unfolding dec dec_digits
counted_plain n h = ground arith

read_dist-counted_example :
    read_dist
      (file_of (sections_lines (regions ∷ [])) ++ (file_of (counted_lines 1 rflag) ++ []))
      (codes "RFLAG")
      empty_target
    ≡ fault
unfolding dsscasecmp
read_dist-counted_example =
    read_dist-counted (regions ∷ []) rflag [] (codes "RFLAG") empty_target 1 others_than_rflag
      rflag-IsSection.named rflag-IsSection.all rflag-IsSection.sums (counted_plain 1 (omega arith))
      (omega arith) refl

both-AllSections : AllSections (regions ∷ rflag ∷ [])
both-AllSections = (regions-IsSection, (rflag-IsSection, tt))

load_dists-find_example :
    load_dists (file_of (sections_lines (regions ∷ rflag ∷ [])))
    ≡ some (map (λ name. target_in name (regions ∷ rflag ∷ []) empty_target) dist_names)
load_dists-find_example = load_dists-find (regions ∷ rflag ∷ []) both-AllSections
