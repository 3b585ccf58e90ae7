-- ===== src/DistFile/Reads.antt =====
-- The lines of sections read one after the other.
use structor.Common.{
  ℕ, zero, suc, ◌+◌, ◌^◌, ◌≤◌, ◌<◌, List, [], ◌∷◌, ◌++◌, length, length-append, map, set, true,
  false, ltb, if◌then◌else◌, Option, none, some, ℤ, pos, negsuc, ◌≡◌, ◌≢◌, refl, sym, ap, ◌∙◌,
  arith,
}
use mathlib.Core.List.{append_assoc, append-nil, map-append}
use structor.Text.{Text, codes}
use structor.Print.Split.{Lacks}
use structor.Dist.{SetMember, dsscasecmp, dssncasecmp}
use structor.DistFile.{
  skip_delimiters, token_of, behind_token, strtok, scan_entry, is_same, Target, Reader, ended,
  fault, more, stop, replicate, set_count, add_member, add_weight, store_member, take_entry,
  in_section, take_first, take_name, find_section, read_line, read_lines,
}
use structor.DistFile.Lines.{IsPlain, ended_line, read_lines-more, read_lines-stop}
use structor.DistFile.Entries.{scan_entry_lem, dec_signed, size}
use structor.DistFile.Written.{
  Entry, Section, begin_line, count_line, entry_line, end_line, IsEntry, AllEntries, added, IsAdded,
  AllAdded, IsName, cumulative, total, target_of, counted_lines, counted_target, left,
}

module _ {A : Type 0} where
  length-somes : (xs : List A) (n : ℕ) → length (map some xs ++ replicate n none) ≡ length xs + n
  length-somes [] zero = refl
  length-somes [] (suc n) = omega (arith, length-somes [] n)
  length-somes (x ∷ xs) n = omega (arith, length-somes xs n)

  -- The write of the next element.
  set_next :
      (xs : List A) (n : ℕ) (v : A)
      → set (map some xs ++ replicate (suc n) none) (length xs) (some v)
        ≡ map some (xs ++ (v ∷ [])) ++ replicate n none
  set_next [] n v = refl
  set_next (x ∷ xs) n v = ap (◌∷◌ (some x)) (set_next xs n v)

-- The reader behind the members `done`, with room for n more.
abbrev reading : ℕ → ℕ → List SetMember → ℕ → Reader
reading count max done n = record {
  target = record { count = count; max = max; list = some (map some done ++ replicate n none) };
  next = length done;
  name_set = true;
}

scan_entry-entry_line :
    (text : Text) (w : ℤ)
    → text ≢ []
    → Lacks b'|' text
    → size w < 2 ^ 63
    → scan_entry (text ++ (b'|' ∷ dec_signed w)) ≡ some (text, w)
scan_entry-entry_line [] w some_text h small = absurd (some_text refl)
scan_entry-entry_line (c ∷ t) w some_text h small = scan_entry_lem c t w h small

add_weight-added : (max : ℕ) (w : ℤ) → IsAdded max w → add_weight max w ≡ some (added max w)
add_weight-added max (pos n) h =
    let less : ltb (max + n) (2 ^ 31) ≡ true = ground arith in rw less refl
add_weight-added max (negsuc n) h = let less : ltb n max ≡ true = ground arith in rw less refl

store_next :
    (count max : ℕ) (done : List SetMember) (n : ℕ) (text : Text) (w : ℤ)
    → IsAdded max w
    → add_member text w (reading count max done (suc n))
      ≡ more (
          reading count
            (added max w)
            (done ++ (record { weight = added max w; text = text } ∷ []))
            n)
unfolding add_member store_member
store_next count max done n text w sum =
    let members = map some done ++ replicate (suc n) none in
    let room : ltb (length done) (length members) ≡ true =
      ground (arith, length-somes done (suc n)) in
    let v : SetMember = record { weight = added max w; text = text } in
    ap (λ o. store_member text (reading count max done (suc n)) o (some members))
      (add_weight-added max w sum)
    ∙ rw room (
        ap
          (λ (p : List (Option SetMember) × ℕ). more (record {
            target = record { count = count; max = added max w; list = some p.0 };
            next = p.1;
            name_set = true;
          }))
          (λ i. (set_next done n v i, sym (length-append done (v ∷ [])) i)))

in_section_entry :
    (count max : ℕ) (done : List SetMember) (n : ℕ) (e : Entry)
    → IsEntry e
    → IsAdded max e.weight
    → in_section (reading count max done (suc n)) (entry_line e)
      ≡ more (
          reading count
            (added max e.weight)
            (done ++ (record { weight = added max e.weight; text = e.text } ∷ []))
            n)
unfolding in_section take_entry
in_section_entry count max done n e ok sum = rw ok.not_end (
    ap (take_entry (reading count max done (suc n)))
      (scan_entry-entry_line e.text e.weight ok.text_not_nil ok.no_bar ok.small)
    ∙ rw ok.not_count (store_next count max done n e.text e.weight sum))

-- A line that is not empty goes to the section.
read_line-in :
    (name : Text) (r : Reader) (line : Text)
    → r.name_set ≡ true
    → line ≢ []
    → read_line name r line ≡ in_section r line
unfolding read_line
read_line-in name r [] inside h = absurd (h refl)
read_line-in name r (c ∷ line) inside h = rw inside refl

pub entry_line_not_nil : (text : Text) (w : ℤ) → text ++ (b'|' ∷ dec_signed w) ≢ []
entry_line_not_nil [] w = λ e. cc e
entry_line_not_nil (c ∷ t) w = λ e. cc e

read_entries :
    (name : Text) (count max : ℕ) (done : List SetMember) (n : ℕ) (es : List Entry)
    (rest : List Text)
    → AllEntries es
    → AllAdded max es
    → length es ≤ n
    → read_lines name (reading count max done n) (map ended_line (map entry_line es) ++ rest)
      ≡ read_lines name (reading count (total max es) (done ++ cumulative max es) (left n es)) rest
read_entries name count max done n [] rest h sums fits =
    ap (λ (d : List SetMember). read_lines name (reading count max d n) rest)
      (sym (append-nil done))
read_entries name count max done zero (e ∷ es) rest h sums fits = absurd (omega arith)
read_entries name count max done (suc n) (e ∷ es) rest h sums fits =
    read_lines-more name _ _ (entry_line e) _ h.0.plain (
      read_line-in name _ (entry_line e) refl (entry_line_not_nil e.text e.weight)
      ∙ in_section_entry count max done n e h.0 sums.0)
    ∙ read_entries name count (added max e.weight) _ n es rest h.1 sums.1 (omega arith)
    ∙ ap
        (λ (d : List SetMember).
          read_lines name (reading count (total (added max e.weight) es) d (left n es)) rest)
        (append_assoc done (record { weight = added max e.weight; text = e.text } ∷ [])
          (cumulative (added max e.weight) es))

store_full :
    (token : Text) (r : Reader) (o : Option ℕ) (members : List (Option SetMember))
    → ltb r.next (length members) ≡ false
    → store_member token r o (some members) ≡ stop fault
unfolding store_member
store_full token r none members full = rw full refl
store_full token r (some sum) members full = rw full refl

store_over :
    (count max : ℕ) (done : List SetMember) (text : Text) (w : ℤ)
    → add_member text w (reading count max done 0) ≡ stop fault
unfolding add_member
store_over count max done text w =
    store_full text (reading count max done 0) (add_weight max w) _
      (ground (arith, length-somes done 0))

in_section_over :
    (count max : ℕ) (done : List SetMember) (e : Entry)
    → IsEntry e
    → in_section (reading count max done 0) (entry_line e) ≡ stop fault
unfolding in_section take_entry
in_section_over count max done e ok = rw ok.not_end (
    ap (take_entry (reading count max done 0))
      (scan_entry-entry_line e.text e.weight ok.text_not_nil ok.no_bar ok.small)
    ∙ rw ok.not_count (store_over count max done e.text e.weight))

read_entries_over :
    (name : Text) (count max : ℕ) (done : List SetMember) (n : ℕ) (es : List Entry)
    (rest : List Text)
    → AllEntries es
    → AllAdded max es
    → n < length es
    → read_lines name (reading count max done n) (map ended_line (map entry_line es) ++ rest)
      ≡ fault
read_entries_over name count max done n [] rest h sums over = absurd (omega arith)
read_entries_over name count max done zero (e ∷ es) rest h sums over =
    read_lines-stop name _ _ (entry_line e) _ h.0.plain (
      read_line-in name _ (entry_line e) refl (entry_line_not_nil e.text e.weight)
      ∙ in_section_over count max done e h.0)
read_entries_over name count max done (suc n) (e ∷ es) rest h sums over =
    read_lines-more name _ _ (entry_line e) _ h.0.plain (
      read_line-in name _ (entry_line e) refl (entry_line_not_nil e.text e.weight)
      ∙ in_section_entry count max done n e h.0 sums.0)
    ∙ read_entries_over name count (added max e.weight) _ n es rest h.1 sums.1 (omega arith)

strtok-begin : (own : Text) → strtok (begin_line own) ≡ some (codes "BEGIN", own)
unfolding strtok skip_delimiters token_of behind_token
strtok-begin own = refl

pub strtok-end : (own : Text) → strtok (end_line own) ≡ some (codes "END", own)
unfolding strtok skip_delimiters token_of behind_token
strtok-end own = refl

-- A reader that looks for the section called `name`.
abbrev pub looking : Target → Reader
looking target = record { target = target; next = 0; name_set = false }

pub read_line-begin :
    (own name : Text) (target : Target)
    → strtok own ≡ some (own, [])
    → read_line name (looking target) (begin_line own) ≡ (
        if is_same own name
        then more (record { target = target; next = 0; name_set = true })
        else more (looking target))
unfolding read_line find_section take_first take_name dsscasecmp
read_line-begin own name target one =
    ap (take_first name (looking target)) (strtok-begin own)
    ∙ ap (take_name name (looking target)) one

in_section_count :
    (r : Reader) (n : ℕ)
    → n < 2 ^ 31
    → in_section r (count_line n)
      ≡ more (record r { target = record { count = n; max = 0; list = some (replicate n none) } })
unfolding in_section dssncasecmp set_count take_entry dsscasecmp
in_section_count r n small =
    let held : ltb n (2 ^ 31) ≡ true = ground arith in
    ap (take_entry r) (
      scan_entry_lem b'C' (codes "OUNT") (pos n) (refl, (refl, (refl, (refl, (refl, tt)))))
        (omega arith))
    ∙ rw held refl

in_section_end : (r : Reader) (name : Text) → in_section r (end_line name) ≡ stop (ended r.target)
unfolding in_section dssncasecmp
in_section_end r name = refl

module _ (name : Text) (s : Section) (target : Target) (rest : List Text) (n : ℕ)
    (named : IsName s.name) (all : AllEntries s.entries) (sums : AllAdded 0 s.entries)
    (plain : IsPlain (count_line n)) (small : n < 2 ^ 31) (same : is_same s.name name ≡ true) where
  -- The first two lines of a section, and what is left.
  read_head :
      read_lines name (looking target) (map ended_line (counted_lines n s) ++ rest)
      ≡ read_lines name
          (reading n 0 [] n)
          (map ended_line (map entry_line s.entries) ++ (ended_line (end_line s.name) ∷ rest))
  read_head =
      let inside : Reader = record { target = target; next = 0; name_set = true } in
      read_lines-more name _ inside (begin_line s.name) _ named.begin_plain (
        read_line-begin s.name name target named.one_token
        ∙ ap (λ b. if b then more inside else more (looking target)) same)
      ∙ read_lines-more name inside (reading n 0 [] n) (count_line n) _ plain (
          read_line-in name inside (count_line n) refl (λ e. cc e)
          ∙ in_section_count inside n small)
      ∙ ap (λ (ls : List Text). read_lines name (reading n 0 [] n) (ls ++ rest))
          (map-append ended_line (map entry_line s.entries) (end_line s.name ∷ []))
      ∙ ap (read_lines name (reading n 0 [] n)) (
          append_assoc (map ended_line (map entry_line s.entries))
            (ended_line (end_line s.name) ∷ []) rest)

  -- A section is read to its end when its entries are not more than its count.
  pub read_counted :
      length s.entries ≤ n
      → read_lines name (looking target) (map ended_line (counted_lines n s) ++ rest)
        ≡ ended (counted_target n s.entries)
  read_counted fits =
      read_head
      ∙ read_entries name n 0 [] n s.entries _ all sums fits
      ∙ read_lines-stop name _ _ (end_line s.name) rest named.end_plain (
          read_line-in name _ (end_line s.name) refl (λ e. cc e)
          ∙ in_section_end
              (reading n (total 0 s.entries) (cumulative 0 s.entries) (left n s.entries)) s.name)

  -- Else it is written behind the array.
  pub read_over :
      n < length s.entries
      → read_lines name (looking target) (map ended_line (counted_lines n s) ++ rest) ≡ fault
  read_over over = read_head ∙ read_entries_over name n 0 [] n s.entries _ all sums over

left-length : (es : List Entry) → left (length es) es ≡ 0
left-length [] = refl
left-length (e ∷ es) = left-length es

pub counted_target-length : (es : List Entry) → counted_target (length es) es ≡ target_of es
counted_target-length es =
    ap
      (λ k. record {
        count = length es;
        max = total 0 es;
        list = some (map some (cumulative 0 es) ++ replicate k none);
      })
      (left-length es)
    ∙ ap (λ ms. record { count = length es; max = total 0 es; list = some ms }) (append-nil _)
