-- ===== src/Qgen/Strip/Comments.antt =====
-- What `strip_comments` takes out of lines without dashes.
use structor.Common.{
  ℕ, zero, suc, List, [], ◌∷◌, ◌++◌, length, length-append, Bool, true, false, Option, none, some,
  ◌≡◌, refl, sym, ap, ◌∙◌, arith,
}
use mathlib.Core.List.{append_assoc}
use structor.Text.{Text}
use structor.Print.Split.{Lacks, Lacks-append}
use structor.Qgen.Strip.{
  behind, blank_first, Line, continue, break, close_comment, open_comment, strip_round,
  strip_comments, put_first, strip_lines,
}
use structor.Qgen.Strip.Ends.{strip_comments-break, strip_comments-continue}

pub behind-Lacks : (c : ℕ) (s : Text) → Lacks c s → behind c s ≡ none
unfolding behind
behind-Lacks c [] h = refl
behind-Lacks c (x ∷ s) h = rw h.0 (behind-Lacks c s h.1)

pub behind-append : (c : ℕ) (s t : Text) → Lacks c s → behind c (s ++ (c ∷ t)) ≡ some t
unfolding behind
behind-append c [] t h = ground arith
behind-append c (x ∷ s) t h = rw h.0 (behind-append c s t h.1)

blank_first-append :
    (c : ℕ) (s t : Text) → Lacks c s → blank_first c (s ++ (c ∷ t)) ≡ s ++ (b' ' ∷ t)
unfolding blank_first
blank_first-append c [] t h = ground arith
blank_first-append c (x ∷ s) t h = rw h.0 (ap (◌∷◌ x) (blank_first-append c s t h.1))

abbrev pub outside : Text → Line
outside s = record { text = s; in_comment = false }

abbrev pub inside : Text → Line
inside s = record { text = s; in_comment = true }

strip_round-inside : (s : Text) → Lacks b'}' s → strip_round (inside s) ≡ break (inside [])
unfolding strip_round close_comment
strip_round-inside s h = ap close_comment (behind-Lacks b'}' s h)

strip_round-close :
    (s t : Text) → Lacks b'}' s → strip_round (inside (s ++ (b'}' ∷ t))) ≡ continue (outside t)
unfolding strip_round close_comment
strip_round-close s t h = ap close_comment (behind-append b'}' s t h)

strip_round-open :
    (s t : Text)
    → Lacks b'{' s
    → Lacks b'-' (s ++ (b'{' ∷ t))
    → strip_round (outside (s ++ (b'{' ∷ t))) ≡ continue (inside (s ++ (b' ' ∷ t)))
unfolding strip_round open_comment
strip_round-open s t h dashes = rw (behind-Lacks b'-' (s ++ (b'{' ∷ t)) dashes) (
    rw (behind-append b'{' s t h)
      (ap (λ (u : Text). continue (inside u)) (blank_first-append b'{' s t h)))

strip_round-plain :
    (s : Text) → Lacks b'{' s → Lacks b'-' s → strip_round (outside s) ≡ break (outside s)
unfolding strip_round open_comment
strip_round-plain s h dashes = rw (behind-Lacks b'-' s dashes) (rw (behind-Lacks b'{' s h) refl)

-- A line outside of a comment without dashes and '{' stays as it is.
pub strip_comments-plain :
    (s : Text) → Lacks b'{' s → Lacks b'-' s → strip_comments (outside s) ≡ some (outside s)
strip_comments-plain s h dashes =
    strip_comments-break (outside s) (outside s) (strip_round-plain s h dashes)

strip_comments-inside : (s : Text) → Lacks b'}' s → strip_comments (inside s) ≡ some (inside [])
strip_comments-inside s h = strip_comments-break (inside s) (inside []) (strip_round-inside s h)

strip_comments-close :
    (s t : Text)
    → Lacks b'}' s
    → strip_comments (inside (s ++ (b'}' ∷ t))) ≡ strip_comments (outside t)
strip_comments-close s t h =
    strip_comments-continue (inside (s ++ (b'}' ∷ t))) (outside t) (strip_round-close s t h)
      (omega (arith, length-append s (b'}' ∷ t)))

strip_comments-open :
    (s t : Text)
    → Lacks b'{' s
    → Lacks b'-' (s ++ (b'{' ∷ t))
    → strip_comments (outside (s ++ (b'{' ∷ t))) ≡ strip_comments (inside (s ++ (b' ' ∷ t)))
strip_comments-open s t h dashes =
    strip_comments-continue (outside (s ++ (b'{' ∷ t))) (inside (s ++ (b' ' ∷ t)))
      (strip_round-open s t h dashes)
      (omega (arith, length-append s (b'{' ∷ t), length-append s (b' ' ∷ t)))

-- A comment within one line without dashes: the line gives what the text behind the comment gives. The
-- text in front of the comment is taken out with it.
pub strip_comments-within :
    (s comment t : Text)
    → Lacks b'-' (s ++ (b'{' ∷ (comment ++ (b'}' ∷ t))))
    → Lacks b'{' s
    → Lacks b'}' s
    → Lacks b'}' comment
    → strip_comments (outside (s ++ (b'{' ∷ (comment ++ (b'}' ∷ t))))) ≡ strip_comments (outside t)
strip_comments-within s comment t dashes h closes closes' =
    strip_comments-open s (comment ++ (b'}' ∷ t)) h dashes
    ∙ ap (λ (u : Text). strip_comments (inside u))
        (sym (append_assoc s (b' ' ∷ comment) (b'}' ∷ t)))
    ∙ strip_comments-close (s ++ (b' ' ∷ comment)) t
        (Lacks-append b'}' s (b' ' ∷ comment) closes (refl, closes'))

strip_lines-cons :
    (b : Bool) (line : Text) (lines : List Text) (l : Line)
    → strip_comments (record { text = line; in_comment = b }) ≡ some l
    → strip_lines b (line ∷ lines) ≡ put_first l.text (strip_lines l.in_comment lines)
unfolding strip_lines
strip_lines-cons b line lines l e =
    ap
      (λ (o : Option Line). elim o [
        | none ↦ none
        | some l' ↦ put_first l'.text (strip_lines l'.in_comment lines)
      ])
      e

-- The lines of a text none of which closes a comment.
abbrev pub NoneCloses : List Text → Type 0
NoneCloses [] = Unit {0}
NoneCloses (line ∷ lines) = Lacks b'}' line × NoneCloses lines

-- Empty lines in front of a result.
abbrev pub put_blanks : ℕ → Option (List Text × Bool) → Option (List Text × Bool)
put_blanks zero o = o
put_blanks (suc n) o = put_first [] (put_blanks n o)

strip_lines-inside :
    (lines : List Text) (last t : Text) (rest : List Text)
    → NoneCloses lines
    → Lacks b'}' last
    → strip_lines true (lines ++ ((last ++ (b'}' ∷ t)) ∷ rest))
      ≡ put_blanks (length lines) (strip_lines false (t ∷ rest))
unfolding strip_lines
strip_lines-inside [] last t rest h closes =
    ap
      (λ (o : Option Line). elim o [
        | none ↦ none
        | some l ↦ put_first l.text (strip_lines l.in_comment rest)
      ])
      (strip_comments-close last t closes)
strip_lines-inside (line ∷ lines) last t rest h closes =
    strip_lines-cons true line _ (inside []) (strip_comments-inside line h.0)
    ∙ ap (put_first []) (strip_lines-inside lines last t rest h.1 closes)

-- A comment over several lines, the first without dashes: the line where it begins and those within
-- become empty, and the lines from the '}' on give what they would give if they began behind it. The
-- text in front of the '{' is lost.
pub strip_lines-comment :
    (s comment : Text) (lines : List Text) (last t : Text) (rest : List Text)
    → Lacks b'-' (s ++ (b'{' ∷ comment))
    → Lacks b'{' s
    → Lacks b'}' s
    → Lacks b'}' comment
    → NoneCloses lines
    → Lacks b'}' last
    → strip_lines false ((s ++ (b'{' ∷ comment)) ∷ (lines ++ ((last ++ (b'}' ∷ t)) ∷ rest)))
      ≡ put_blanks (suc (length lines)) (strip_lines false (t ∷ rest))
strip_lines-comment s comment lines last t rest dashes h closes closes' within closes'' =
    strip_lines-cons false (s ++ (b'{' ∷ comment)) _ (inside []) (
      strip_comments-open s comment h dashes
      ∙ strip_comments-inside (s ++ (b' ' ∷ comment))
          (Lacks-append b'}' s (b' ' ∷ comment) closes (refl, closes')))
    ∙ ap (put_first []) (strip_lines-inside lines last t rest within closes'')
