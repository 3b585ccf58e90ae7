-- ===== src/Qgen/Strip/Ends.antt =====
-- `strip_comments` ends.
use structor.Common.{
  ℕ, zero, suc, ◌+◌, ◌*◌, ◌≤◌, ◌<◌, [], ◌∷◌, length, Bool, true, false, ◌==◌, if◌then◌else◌,
  Bool-cases, inl, inr, Option, none, some, ◌≡◌, refl, sym, ap, ◌∙◌, arith,
}
use structor.Text.{Text}
use structor.Qgen.Strip.{
  behind, blank_first, Line, Round, continue, break, close_comment, open_comment, dash_next, found,
  strip_round, strip_loop, strip_comments,
}

-- What a line still costs.
abbrev pub cost : Line → ℕ
cost l = 2 * length l.text + (if l.in_comment then 0 else 1)

length-behind : (c : ℕ) (s t : Text) → behind c s ≡ some t → length t < length s
unfolding behind
length-behind c [] t e = cc e
length-behind c (x ∷ s) t e = elim (Bool-cases (x == c)) [
  | inl own ↦ let same : s ≡ t = ground arith in omega (arith, ap (λ (u : Text). length u) same)
  | inr other ↦ omega (arith, length-behind c s t (ground arith))
]

length-blank_first : (c : ℕ) (s : Text) → length (blank_first c s) ≡ length s
unfolding blank_first
length-blank_first c [] = refl
length-blank_first c (x ∷ s) = elim (Bool-cases (x == c)) [
  | inl own ↦ rw own refl
  | inr other ↦ rw other (ap suc (length-blank_first c s))
]

-- A round ends the loop or makes the line cheaper.
abbrev Cheaper : Line → Round → Type 0
Cheaper l (break l') = Unit {0}
Cheaper l (continue l') = cost l' < cost l

close_comment-Cheaper :
    (s : Text) (o : Option Text)
    → behind b'}' s ≡ o
    → Cheaper (record { text = s; in_comment = true }) (close_comment o)
unfolding close_comment
close_comment-Cheaper s none e = tt
close_comment-Cheaper s (some t) e = omega (arith, length-behind b'}' s t e)

open_comment-Cheaper :
    (s : Text) → Cheaper (record { text = s; in_comment = false }) (open_comment s)
unfolding open_comment
open_comment-Cheaper s = elim (Bool-cases (dash_next (behind b'-' s))) [
  | inl dashes ↦ rw dashes tt
  | inr single ↦ rw single (elim (Bool-cases (found (behind b'{' s))) [
    | inl opened ↦ rw opened (omega (arith, length-blank_first b'{' s))
    | inr plain ↦ rw plain tt
  ])
]

strip_round-Cheaper : (l : Line) → Cheaper l (strip_round l)
unfolding strip_round
strip_round-Cheaper l = split l.text l.in_comment
  where
    split :
        (s : Text) (b : Bool)
        → Cheaper
            (record { text = s; in_comment = b })
            (if b then close_comment (behind b'}' s) else open_comment s)
    split s true = close_comment-Cheaper s (behind b'}' s) refl
    split s false = open_comment-Cheaper s

-- The loop with its first round done.
strip_loop-round :
    (fuel : ℕ) (l : Line) (r : Round)
    → strip_round l ≡ r
    → strip_loop (suc fuel) l ≡ elim r [ continue l' ↦ strip_loop fuel l' | break l' ↦ some l' ]
unfolding strip_loop
strip_loop-round fuel l r e =
    ap (λ (t : Round). elim t [ continue l' ↦ strip_loop fuel l' | break l' ↦ some l' ]) e

strip_loop-some :
    (fuel : ℕ) (l : Line) → cost l < fuel → (l' : Line) × (strip_loop fuel l ≡ some l')
strip_loop-some zero l h = absurd (omega arith)
strip_loop-some (suc fuel) l h =
    go (strip_round l) refl (strip_round-Cheaper l) (λ l' h'. strip_loop-some fuel l' h')
  where
    go :
        (r : Round)
        → strip_round l ≡ r
        → Cheaper l r
        → ((l' : Line) → cost l' < fuel → (l'' : Line) × (strip_loop fuel l' ≡ some l''))
        → (l' : Line) × (strip_loop (suc fuel) l ≡ some l')
    go (break l') e less rest = (l', strip_loop-round fuel l (break l') e)
    go (continue l') e less rest =
        let (l'', runs) = rest l' (omega arith) in
        (l'', strip_loop-round fuel l (continue l') e ∙ runs)

-- More fuel does not change the result.
strip_loop-more :
    (fuel more : ℕ) (l r : Line)
    → strip_loop fuel l ≡ some r
    → fuel ≤ more
    → strip_loop more l ≡ some r
unfolding strip_loop
strip_loop-more zero more l r e h = cc e
strip_loop-more (suc fuel) zero l r e h = absurd (omega arith)
strip_loop-more (suc fuel) (suc more) l r e h =
    go (strip_round l) refl (λ l' e'. strip_loop-more fuel more l' r e' (omega arith))
  where
    go :
        (s : Round)
        → strip_round l ≡ s
        → ((l' : Line) → strip_loop fuel l' ≡ some r → strip_loop more l' ≡ some r)
        → strip_loop (suc more) l ≡ some r
    go (break l') q rest =
        strip_loop-round more l (break l') q ∙ sym (strip_loop-round fuel l (break l') q) ∙ e
    go (continue l') q rest =
        strip_loop-round more l (continue l') q
        ∙ rest l' (sym (strip_loop-round fuel l (continue l') q) ∙ e)

strip_loop-enough :
    (fuel fuel' : ℕ) (l : Line)
    → cost l < fuel
    → cost l < fuel'
    → strip_loop fuel l ≡ strip_loop fuel' l
strip_loop-enough fuel fuel' l h h' =
    let (r, runs) = strip_loop-some fuel l h in
    let (r', runs') = strip_loop-some fuel' l h' in
    runs
    ∙ sym (strip_loop-more fuel (fuel + fuel') l r runs (omega arith))
    ∙ strip_loop-more fuel' (fuel + fuel') l r' runs' (omega arith)
    ∙ sym runs'

-- `strip_comments` ends on every line, inside a comment or not.
pub strip_comments-some : (l : Line) → (l' : Line) × (strip_comments l ≡ some l')
unfolding strip_comments
strip_comments-some l = strip_loop-some (suc (suc (2 * length l.text))) l (ground arith)

pub strip_comments-break : (l l' : Line) → strip_round l ≡ break l' → strip_comments l ≡ some l'
unfolding strip_comments
strip_comments-break l l' e = strip_loop-round (suc (2 * length l.text)) l (break l') e

pub strip_comments-continue :
    (l l' : Line)
    → strip_round l ≡ continue l'
    → cost l' < cost l
    → strip_comments l ≡ strip_comments l'
unfolding strip_comments
strip_comments-continue l l' e less =
    strip_loop-round (suc (2 * length l.text)) l (continue l') e
    ∙ strip_loop-enough (suc (2 * length l.text)) (suc (suc (2 * length l'.text))) l' (ground arith)
        (ground arith)
