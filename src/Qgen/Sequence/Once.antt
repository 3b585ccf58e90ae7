-- ===== src/Qgen/Sequence/Once.antt =====
-- Every stream runs every query once.
use structor.Common.{
  ℕ, suc, ◌+◌, ◌-◌, ◌%◌, ◌≤◌, List, [], ◌∷◌, get_elem?, length, Bool, true, false, ◌==◌, ◌&&◌,
  and_left, and_right, ==_iff, all_below, all_below-at, if◌then◌else◌, Option, none, some, pos, ◌≡◌,
  refl, sym, ap, ◌∙◌, arith,
}
use structor.Qgen.Permutation.{permutation}
use structor.Qgen.Sequence.{sequence, numbered, put_name, sequenced, names, main_queries}

abbrev pub count : ℕ → List ℕ → ℕ
count v [] = 0
count v (x ∷ xs) = (if x == v then 1 else 0) + count v xs

-- A row of the table that has 22 numbers, and each of 1 to 22 once.
abbrev is_order : Option (List ℕ) → Bool
is_order none = false
is_order (some row) = length row == 22 && all_below (λ v. count (v + 1) row == 1) 22

table_checked : all_below (λ s. is_order (get_elem? permutation s)) 41 ≡ true
unfolding all_below
table_checked = refl

row_order :
    (o : Option (List ℕ))
    → is_order o ≡ true
    → (row : List ℕ) × (o ≡ some row)
      × (length row ≡ 22)
      × ((v : ℕ) → 1 ≤ v → v ≤ 22 → count v row ≡ 1)
row_order none h = cc h
row_order (some row) h = (
  row,
  refl,
  (==_iff (length row) 22).0 (and_left (length row == 22) _ h),
  λ v low high.
      let once =
        all_below-at (λ k. count (k + 1) row == 1) 22 (v - 1) (and_right (length row == 22) _ h)
          (omega arith) in
      let same : v - 1 + 1 ≡ v = omega arith in
      ap (λ (k : ℕ). count k row) (sym same) ∙ (==_iff _ 1).0 once,
)

sequence-row :
    (s i : ℕ) (row : List ℕ)
    → get_elem? permutation (s % 41) ≡ some row
    → sequence s (suc i) ≡ get_elem? row i
unfolding sequence
sequence-row s i row e =
    ap (λ (o : Option (List ℕ)). elim o [ none ↦ none | some r ↦ get_elem? r i ]) e

sequenced-names :
    (s i : ℕ) (row t : List ℕ)
    → get_elem? permutation (s % 41) ≡ some row
    → ((k : ℕ) → get_elem? row (i + k) ≡ get_elem? t k)
    → sequenced s (numbered (length t) (suc i)) ≡ some (names t)
unfolding sequenced
sequenced-names s i row [] e same = refl
sequenced-names s i row (x ∷ xs) e same =
    let here : i ≡ i + 0 = omega arith in
    let next : suc i + 1 ≡ suc (suc i) = omega arith in
    ap (λ o. put_name o (sequenced s (numbered (length xs) (suc i + 1))))
      (sequence-row s i row e ∙ ap (get_elem? row) here ∙ same 0)
    ∙ ap (λ (k : ℕ). put_name (some x) (sequenced s (numbered (length xs) k))) next
    ∙ ap (put_name (some x)) (
        sequenced-names s (suc i) row xs e (λ k.
          let along : suc i + k ≡ i + suc k = omega arith in
          ap (get_elem? row) along ∙ same (suc k)))

-- With a stream number from 0 on and no query among the arguments, the program fills 22 templates: their
-- names are the numbers of a list in which any number v from 1 to 22 stands exactly once.
pub main_queries-once :
    (snum v : ℕ)
    → 1 ≤ v
    → v ≤ 22
    → (row : List ℕ) × (main_queries (pos snum) [] ≡ some (names row))
      × (length row ≡ 22)
      × (count v row ≡ 1)
unfolding main_queries
main_queries-once snum v low high =
    let (row, found, size, once) = row_order (get_elem? permutation (snum % 41)) (
      all_below-at (λ s. is_order (get_elem? permutation s)) 41 (snum % 41) table_checked
        (omega arith)) in
    let first : (k : ℕ) → get_elem? row (0 + k) ≡ get_elem? row k =
      λ k. let none_before : 0 + k ≡ k = omega arith in ap (get_elem? row) none_before in
    (
      row,
      ap (λ (n : ℕ). sequenced snum (numbered n 1)) (sym size)
          ∙ sequenced-names snum 0 row row found first,
      size,
      once v low high,
    )
