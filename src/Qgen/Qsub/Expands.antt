-- ===== src/Qgen/Qsub/Expands.antt =====
-- What `qsub` makes of a template that is put together from texts and tags.
use structor.Common.{
  ℕ, zero, suc, ◌+◌, ◌/◌, ◌%◌, ◌^◌, ◌≤◌, ◌<◌, List, [], ◌∷◌, ◌++◌, length, length-append, Bool,
  true, false, ◌==◌, ◌&&◌, ltb, Bool-cases, if◌then◌else◌, inl, inr, Option, none, some, ◌≡◌, refl,
  sym, ap, ◌∙◌, arith,
}
use mathlib.Core.Path.{subst}
use structor.Text.{Text, dec, dec_digits}
use structor.Print.Split.{Lacks}
use structor.DistFile.{is_digit, scan_digits}
use structor.DistFile.Lines.{until-Lacks}
use structor.DistFile.Entries.{AllDigits, dec_digits-AllDigits, scan_digits-dec}
use structor.Qgen.Strip.Comments.{behind-append, behind-Lacks}
use structor.Qgen.Qsub.{
  Query, is_tag, letter_text, skip_digits, number_of, parameter_text, printed_parameter,
  printed_letter, directive, then_rest, after_printed, after_tag, after_search, substitute,
  substitute_line, joined_text,
}
use structor.Qgen.Qsub.Tags.{
  Name, begin_work, connect, end_work, output, query_name, stream, explain, Tag, named, letter,
  parameter, Part, letter_of, name_value, names_tag, tag_letters, tag_text, render, value_of,
  expand, no_digit, IsTag, AreParts,
}

first_digit :
    (fuel n : ℕ) (rest : Text)
    → 1 ≤ n
    → n < 10 ^ fuel
    → (d : ℕ) × (s : Text) × (dec_digits fuel n rest ≡ d ∷ s) × (b'1' ≤ d) × (d ≤ b'9')
unfolding dec_digits
first_digit zero n rest low high = absurd (omega arith)
first_digit (suc fuel) n rest low high = elim (Bool-cases (ltb n 10)) [
  | inl last ↦ (b'0' + n, rest, rw last refl, omega arith, ground arith)
  | inr more ↦
      let (d, s, e, le, ge) =
        first_digit fuel (n / 10) ((b'0' + n % 10) ∷ rest) (ground arith) (omega arith) in
      (d, s, rw more e, le, ge)
]

dec-number :
    (k : ℕ)
    → 1 ≤ k
    → k < 10 ^ 20
    → (d : ℕ) × (s : Text) × (dec k ≡ d ∷ s) × AllDigits (d ∷ s) × (b'1' ≤ d)
unfolding dec
dec-number k low high =
    let (d, s, e, first, last) = first_digit 20 k [] low high in
    (d, s, e, subst AllDigits e (dec_digits-AllDigits 20 k [] tt), first)

skip_digits-append :
    (s rest : Text) → AllDigits s → no_digit rest ≡ true → skip_digits (s ++ rest) ≡ rest
unfolding skip_digits
skip_digits-append [] [] h free = refl
skip_digits-append [] (c ∷ rest) h free = ground arith
skip_digits-append (d ∷ s) rest h free = rw h.0 (skip_digits-append s rest h.1 free)

scan_digits-append :
    (s : Text) (acc : Option ℕ) (rest : Text)
    → AllDigits s
    → no_digit rest ≡ true
    → scan_digits acc (s ++ rest) ≡ scan_digits acc s
unfolding scan_digits
scan_digits-append [] acc [] h free = refl
scan_digits-append [] acc (c ∷ rest) h free = ground arith
scan_digits-append (d ∷ s) acc rest h free = rw h.0 (scan_digits-append s _ rest h.1 free)

directive-digits :
    (q : Query) (d : ℕ) (s rest : Text)
    → AllDigits (d ∷ s)
    → b'1' ≤ d
    → no_digit rest ≡ true
    → directive q (d ∷ (s ++ rest))
      ≡ printed_parameter (parameter_text q (number_of (scan_digits none (d ∷ s)))) rest
unfolding directive
directive-digits q d s rest h low free =
    let digit : is_digit d ≡ true = h.0 in
    let no_letter : is_tag b'n' d ≡ false = ground arith in
    let first : (is_digit d && (if d == b'0' then false else true)) ≡ true = ground arith in
    rw no_letter (
      rw first (λ i.
        printed_parameter
          (parameter_text q (number_of (scan_digits-append (d ∷ s) none rest h free i)))
          (skip_digits-append s rest h.1 free i)))

directive-parameter :
    (q : Query) (k : ℕ) (rest : Text)
    → 1 ≤ k
    → k < 2 ^ 31
    → no_digit rest ≡ true
    → directive q (dec k ++ rest) ≡ printed_parameter (q.param k) rest
directive-parameter q k rest low high free =
    let (d, s, e, digits, first) = dec-number k low (omega arith) in
    let int : ltb k (2 ^ 31) ≡ true = ground arith in
    ap (λ (t : Text). directive q (t ++ rest)) e
    ∙ directive-digits q d s rest digits first free
    ∙ ap (λ (t : Text). printed_parameter (parameter_text q (number_of (scan_digits none t))) rest)
        (sym e)
    ∙ ap (λ o. printed_parameter (parameter_text q (number_of o)) rest)
        (scan_digits-dec k (omega arith))
    ∙ rw int refl

directive-letter :
    (q : Query) (c : ℕ) (rest : Text)
    → is_tag b'n' c ≡ false
    → (is_digit c && (if c == b'0' then false else true)) ≡ false
    → directive q (c ∷ rest) ≡ some (printed_letter (letter_text q c) rest)
unfolding directive
directive-letter q c rest no_n no_number = rw no_n (rw no_number refl)

letter_text-other : (q : Query) (c : ℕ) → names_tag tag_letters c ≡ false → letter_text q c ≡ none
unfolding letter_text
letter_text-other q c h = ground arith

directive-other :
    (q : Query) (c : ℕ) (rest : Text)
    → names_tag tag_letters c ≡ false
    → (is_digit c && (if c == b'0' then false else true)) ≡ false
    → directive q (c ∷ rest) ≡ some (printed_letter none rest)
directive-other q c rest other no_number =
    let no_n : is_tag b'n' c ≡ false = ground arith in
    directive-letter q c rest no_n no_number
    ∙ ap (λ o. some (printed_letter o rest)) (letter_text-other q c other)

-- Each tag has the value of its name, whichever the case of its letter.
directive-named :
    (q : Query) (name : Name) (capital : Bool) (rest : Text)
    → directive q (letter_of name capital ∷ rest)
      ≡ some (printed_letter (some (name_value q name)) rest)
unfolding directive letter_text
directive-named q begin_work true rest = refl
directive-named q begin_work false rest = refl
directive-named q connect true rest = refl
directive-named q connect false rest = refl
directive-named q end_work true rest = refl
directive-named q end_work false rest = refl
directive-named q output true rest = refl
directive-named q output false rest = refl
directive-named q query_name true rest = refl
directive-named q query_name false rest = refl
directive-named q stream true rest = refl
directive-named q stream false rest = refl
directive-named q explain true rest = refl
directive-named q explain false rest = refl

-- One tag with the text in front of it.
pub substitute-tag :
    (fuel : ℕ) (q : Query) (front tag : Text)
    → Lacks b':' front
    → substitute (suc fuel) q (front ++ (b':' ∷ tag))
      ≡ after_tag (substitute fuel q) front (directive q tag)
unfolding substitute after_search
substitute-tag fuel q front tag h =
    ap (after_search (substitute fuel q) q (front ++ (b':' ∷ tag))) (behind-append b':' front tag h)
    ∙ ap (λ (t : Text). after_tag (substitute fuel q) t (directive q tag))
        (until-Lacks b':' front tag h)

after_tag-letter :
    (go : Text → Option Text) (front next : Text) (o : Option Text)
    → after_tag go front (some (printed_letter o next))
      ≡ joined_text (some front) (joined_text (some (printed_letter o []).text) (go next))
unfolding after_tag after_printed
after_tag-letter go front next none = rest (go next)
  where
    rest :
        (r : Option Text)
        → then_rest front (printed_letter none next) r
          ≡ joined_text (some front) (joined_text (some []) r)
    rest none = refl
    rest (some t) = refl
after_tag-letter go front next (some text) = rest (go next)
  where
    rest :
        (r : Option Text)
        → then_rest front (printed_letter (some text) next) r
          ≡ joined_text (some front) (joined_text (some text) r)
    rest none = refl
    rest (some t) = refl

after_tag-parameter :
    (go : Text → Option Text) (front next : Text) (o : Option Text)
    → after_tag go front (printed_parameter o next)
      ≡ joined_text (some front) (joined_text o (go next))
unfolding after_tag after_printed
after_tag-parameter go front next none = refl
after_tag-parameter go front next (some text) = rest (go next)
  where
    rest :
        (r : Option Text)
        → then_rest front (record { text = text; next = some next }) r
          ≡ joined_text (some front) (joined_text (some text) r)
    rest none = refl
    rest (some t) = refl

after_part :
    (fuel : ℕ) (q : Query) (front : Text) (t : Tag) (next : Text)
    → Lacks b':' front
    → IsTag t next
    → substitute (suc fuel) q (front ++ (b':' ∷ (tag_text t ++ next)))
      ≡ joined_text (some front) (joined_text (value_of q t) (substitute fuel q next))
after_part fuel q front (named name capital) next h ok =
    substitute-tag fuel q front (letter_of name capital ∷ next) h
    ∙ ap (after_tag (substitute fuel q) front) (directive-named q name capital next)
    ∙ after_tag-letter (substitute fuel q) front next (some (name_value q name))
after_part fuel q front (letter c) next h ok =
    substitute-tag fuel q front (c ∷ next) h
    ∙ ap (after_tag (substitute fuel q) front) (directive-other q c next ok.0 ok.1)
    ∙ after_tag-letter (substitute fuel q) front next none
after_part fuel q front (parameter k) next h ok =
    substitute-tag fuel q front (dec k ++ next) h
    ∙ ap (after_tag (substitute fuel q) front) (directive-parameter q k next ok.0 ok.1 ok.2)
    ∙ after_tag-parameter (substitute fuel q) front next (q.param k)

substitute_plain :
    (fuel : ℕ) (q : Query) (s : Text) → Lacks b':' s → substitute (suc fuel) q s ≡ some s
unfolding substitute after_search
substitute_plain fuel q s h = ap (after_search (substitute fuel q) q s) (behind-Lacks b':' s h)

substitute-render :
    (fuel : ℕ) (q : Query) (ps : List Part) (last : Text)
    → AreParts ps last
    → length (render ps last) < fuel
    → substitute fuel q (render ps last) ≡ expand q ps last
substitute-render zero q ps last ok h = absurd (omega arith)
substitute-render (suc fuel) q [] last ok h = substitute_plain fuel q last ok
substitute-render (suc fuel) q (p ∷ ps) last ok h =
    let rest = render ps last in
    after_part fuel q p.front p.tag rest ok.0 ok.1
    ∙ ap (λ o. joined_text (some p.front) (joined_text (value_of q p.tag) o))
        (substitute-render fuel q ps last ok.2 (
          omega (
            arith,
            length-append p.front (b':' ∷ (tag_text p.tag ++ rest)),
            length-append (tag_text p.tag) rest,
          )))

-- A line of texts without ':' and tags, where a tag is a letter other than n, or the number of a
-- parameter from 1 to 2^31 - 1 with no digit behind it: `qsub` prints the line with the value of each
-- tag in its place, nothing for a letter that is no tag, and fails exactly where `varsub` has no text
-- for a number.
pub substitute_line-render :
    (q : Query) (ps : List Part) (last : Text)
    → AreParts ps last
    → substitute_line q (render ps last) ≡ expand q ps last
unfolding substitute_line
substitute_line-render q ps last ok =
    substitute-render (suc (length (render ps last))) q ps last ok (omega arith)
