-- ===== src/Qgen/Qsub/Template.antt =====
-- `qsub` of whole templates, and of the tag n.
use structor.Common.{
  List, [], ◌∷◌, ◌++◌, length, Bool, true, false, if◌then◌else◌, Option, some, ℤ, ◌≡◌, refl, ap,
  ◌∙◌,
}
use structor.Text.{Text}
use structor.Print.Split.{Lacks}
use structor.Qgen.Qsub.{
  Query, set_rowcount, atoi, printed_rows, directive, after_printed, after_tag, substitute,
  substitute_line, joined_text,
}
use structor.Qgen.Qsub.Tags.{Part, render, expand, AreParts}
use structor.Qgen.Qsub.Expands.{substitute-tag}

-- A line of a template.
pub record Pieces : Type 0 where
  pub parts : List Part
  pub last : Text

abbrev pub line_of : Pieces → Text
line_of l = render l.parts l.last

-- Lines of texts and tags, with no '{' and no dash.
abbrev pub AllPieces : List Pieces → Type 0
AllPieces [] = Unit {0}
AllPieces (l ∷ ls) =
    (AreParts l.parts l.last × Lacks b'{' (line_of l) × Lacks b'-' (line_of l)) × AllPieces ls

abbrev pub expand_all : Query → List Pieces → Option Text
expand_all q [] = some []
expand_all q (l ∷ ls) = joined_text (expand q l.parts l.last) (expand_all q ls)

-- The tag n behind a text without ':' and in front of a number of an int: `qsub` prints the text, the row count that is asked for unless
-- the default one is, and the text once more, and never what stands behind the tag.
pub substitute_line-rows :
    (q : Query) (front rest : Text) (n : ℤ)
    → Lacks b':' front
    → atoi rest ≡ some n
    → substitute_line q (front ++ (b':' ∷ (b'n' ∷ rest)))
      ≡ some (front ++ ((if q.dflt_num then [] else set_rowcount n) ++ front))
unfolding substitute_line directive after_tag after_printed
substitute_line-rows q front rest n h e =
    substitute-tag (length (front ++ (b':' ∷ (b'n' ∷ rest)))) q front (b'n' ∷ rest) h
    ∙ ap
        (λ o.
          after_tag (substitute (length (front ++ (b':' ∷ (b'n' ∷ rest)))) q) front
            (printed_rows q.dflt_num o))
        e
    ∙ by_flag q.dflt_num
  where
    by_flag :
        (b : Bool)
        → after_tag
            (substitute (length (front ++ (b':' ∷ (b'n' ∷ rest)))) q)
            front
            (printed_rows b (some n))
          ≡ some (front ++ ((if b then [] else set_rowcount n) ++ front))
    by_flag true = refl
    by_flag false = refl
