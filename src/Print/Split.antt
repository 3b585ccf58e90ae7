-- ===== src/Print/Split.antt =====
-- Texts that end in a separator, taken apart again.
use structor.Common.{
  ℕ, List, [], ◌∷◌, ◌++◌, true, false, ◌==◌, if◌then◌else◌, ◌≡◌, refl, ap, ◌∙◌, arith,
}
use structor.Text.{Text}

-- Every text with the separator behind it.
abbrev pub join : ℕ → List Text → Text
join sep [] = []
join sep (t ∷ ts) = t ++ (sep ∷ join sep ts)

-- The texts up to each separator; a last text without one is left away.
unfoldable pub split : ℕ → Text → List Text
split sep [] = []
split sep (c ∷ s) =
    let rest = split sep s in
    if c == sep then [] ∷ rest else elim rest [ [] ↦ [] | t ∷ ts ↦ (c ∷ t) ∷ ts ]

-- The separator is not in the text.
abbrev pub Lacks : ℕ → Text → Type 0
Lacks sep [] = Unit
Lacks sep (c ∷ t) = ((c == sep) ≡ false) × Lacks sep t

pub Lacks-append : (sep : ℕ) (s t : Text) → Lacks sep s → Lacks sep t → Lacks sep (s ++ t)
Lacks-append sep [] t hs ht = ht
Lacks-append sep (c ∷ s) t (h, hs) ht = (h, Lacks-append sep s t hs ht)

split-append :
    (sep : ℕ) (t rest : Text) → Lacks sep t → split sep (t ++ (sep ∷ rest)) ≡ t ∷ split sep rest
unfolding split
split-append sep [] rest h = let own : (sep == sep) ≡ true = ground arith in rw own refl
split-append sep (c ∷ t) rest (other, h) = rw other (rw (split-append sep t rest h) refl)

abbrev pub AllLack : ℕ → List Text → Type 0
AllLack sep [] = Unit
AllLack sep (t ∷ ts) = Lacks sep t × AllLack sep ts

pub split-join : (sep : ℕ) (ts : List Text) → AllLack sep ts → split sep (join sep ts) ≡ ts
unfolding split
split-join sep [] h = refl
split-join sep (t ∷ ts) (h, hs) =
    split-append sep t (join sep ts) h ∙ ap (λ (us : List Text). t ∷ us) (split-join sep ts hs)

pub Lacks-join :
    (c sep : ℕ) (ts : List Text) → (sep == c) ≡ false → AllLack c ts → Lacks c (join sep ts)
Lacks-join c sep [] other h = tt
Lacks-join c sep (t ∷ ts) other (h, hs) =
    Lacks-append c t (sep ∷ join sep ts) h (other, Lacks-join c sep ts other hs)
