-- ===== src/Qgen/Strip/Tests.antt =====
-- The properties of `strip_comments` at concrete inputs.
use structor.Common.{[], ◌∷◌, ◌++◌, false, some, ◌≡◌, refl, arith}
use structor.Text.{codes}
use structor.DistFile.{until}
use structor.Qgen.Strip.{
  behind, blank_first, Line, close_comment, open_comment, strip_round, strip_loop, strip_comments,
  strip_lines,
}
use structor.Qgen.Strip.Ends.{strip_comments-some}
use structor.Qgen.Strip.Comments.{outside, inside, put_blanks, strip_lines-comment}

-- A pair of dashes behind a single dash is no comment.
single_dash_first :
    strip_comments (outside (codes "a - b -- c")) ≡ some (outside (codes "a - b -- c"))
unfolding strip_comments strip_loop strip_round open_comment close_comment behind blank_first until
single_dash_first = refl

-- A pair of dashes within a comment ends the line before the comment is seen.
dashes_within : strip_comments (outside (codes "a { b -- c } d")) ≡ some (outside (codes "a { b "))
unfolding strip_comments strip_loop strip_round open_comment close_comment behind blank_first until
dashes_within = refl

strip_comments-some_example : (l : Line) × (strip_comments (inside (codes "x } { y")) ≡ some l)
strip_comments-some_example = strip_comments-some (inside (codes "x } { y"))

strip_lines-comment_example :
    strip_lines false (
      (codes "a " ++ (b'{' ∷ codes "b"))
      ∷ ((codes "c" ∷ []) ++ ((codes "d" ++ (b'}' ∷ codes "e")) ∷ [])))
    ≡ put_blanks 2 (strip_lines false (codes "e" ∷ []))
strip_lines-comment_example =
    strip_lines-comment (codes "a ") (codes "b") (codes "c" ∷ []) (codes "d") (codes "e") []
      (ground arith) (ground arith) (ground arith) (ground arith) (ground arith) (ground arith)
