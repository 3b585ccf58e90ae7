-- ===== src/Qgen/Varsub/Permuted.antt =====
-- The numbers that calls of `permute` hand out.
use structor.Common.{
  ℕ, zero, suc, ◌+◌, ◌-◌, ◌≤◌, ◌<◌, ◌^◌, List, [], ◌∷◌, length, get_elem?, get_or, leb, ◌==◌,
  Bool-cases, if◌then◌else◌, false, inl, inr, some, ◌≡◌, refl, sym, ap, ◌∙◌, arith,
}
use structor.Dist.{lift, random}
use structor.Dist.Runs.{Runs, Runs-ret, Runs-bind, Runs-random, Runs-weaken}
use structor.Qgen.Varsub.Returns.{Returns, Returns-lift}
use structor.Permute.Swap.{length-swap, get_or-swap_left, get_or-swap_right, get_or-swap_other}
use structor.Permute.{swap, counted_from, shuffle, Permutation, permute_new, permute_next}
use structor.Qgen.Varsub.{put, permuted}

get_elem?-at : (a : List ℕ) (i : ℕ) → i < length a → get_elem? a i ≡ some (get_or a i 0)
get_elem?-at [] i h = absurd (omega arith)
get_elem?-at (x ∷ xs) zero h = refl
get_elem?-at (x ∷ xs) (suc i) h = get_elem?-at xs i (omega arith)

-- The members of an array from a place on.
abbrev pub numbers_from : ℕ → ℕ → List ℕ → List ℕ
numbers_from zero s a = []
numbers_from (suc n) s a = get_or a s 0 ∷ numbers_from n (s + 1) a

pub length-numbers_from : (n s : ℕ) (a : List ℕ) → length (numbers_from n s a) ≡ n
length-numbers_from zero s a = refl
length-numbers_from (suc n) s a = ap suc (length-numbers_from n (s + 1) a)

-- Calls of `permute` hand out the array in order while they stay in it.
pub permuted-numbers_from :
    (n c s : ℕ) (a : List ℕ)
    → length a ≡ c
    → s + n ≤ c
    → permuted n c (record { source = s; set = a }) ≡ some (numbers_from n s a)
unfolding permuted permute_next
permuted-numbers_from zero c s a size h = refl
permuted-numbers_from (suc n) c s a size h =
    ap (λ o. put o (permuted n c (permute_next c (record { source = s; set = a }))))
      (get_elem?-at a s (omega arith))
    ∙ ap (put (some (get_or a s 0))) (later n h (permuted-numbers_from n c (s + 1) a size))
  where
    later :
        (n : ℕ)
        → s + suc n ≤ c
        → (s + 1 + n ≤ c
            → permuted n c (record { source = s + 1; set = a }) ≡ some (numbers_from n (s + 1) a))
        → permuted n c (permute_next c (record { source = s; set = a }))
          ≡ some (numbers_from n (s + 1) a)
    later zero h rest = refl
    later (suc n) h rest =
        let stays : leb c (s + 1) ≡ false = ground arith in
        ap (λ b. permuted (suc n) c (record { source = if b then s + 1 - c else s + 1; set = a }))
          stays
        ∙ rest (omega arith)

-- No number stands at two places, and each is below c.
pub record IsPermutation (c : ℕ) (a : List ℕ) : Type 0 where
  pub size : length a ≡ c
  pub below : (i : ℕ) → i < c → get_or a i 0 < c
  pub apart : (i j : ℕ) → i < c → j < c → get_or a i 0 ≡ get_or a j 0 → i ≡ j

get_or-counted_from : (n i k : ℕ) → k < n → get_or (counted_from n i) k 0 ≡ i + k
get_or-counted_from zero i k h = absurd (omega arith)
get_or-counted_from (suc n) i zero h = omega arith
get_or-counted_from (suc n) i (suc k) h =
    get_or-counted_from n (i + 1) k (omega arith) ∙ omega arith

length-counted_from : (n i : ℕ) → length (counted_from n i) ≡ n
length-counted_from zero i = refl
length-counted_from (suc n) i = ap suc (length-counted_from n (i + 1))

counted_from-IsPermutation : (c : ℕ) → IsPermutation c (counted_from c 0)
counted_from-IsPermutation c = record {
  size = length-counted_from c 0;
  below = λ i h. omega (arith, get_or-counted_from c 0 i h);
  apart = λ i j hi hj e. omega (arith, get_or-counted_from c 0 i hi, get_or-counted_from c 0 j hj);
}

-- Where a place of the exchanged array comes from.
abbrev origin : ℕ → ℕ → ℕ → ℕ
origin i j k = if k == i then j else if k == j then i else k

get_or-swap :
    (a : List ℕ) (i j k : ℕ)
    → i < length a
    → j < length a
    → get_or (swap a i j) k 0 ≡ get_or a (origin i j k) 0
get_or-swap a i j k hi hj = elim (Bool-cases (k == i)) [
  | inl e ↦
      let same : k ≡ i = ground arith in
      rw e (ap (λ (t : ℕ). get_or (swap a i j) t 0) same ∙ get_or-swap_left a i j hi)
  | inr other ↦ rw other (elim (Bool-cases (k == j)) [
    | inl e ↦
        let same : k ≡ j = ground arith in
        rw e (ap (λ (t : ℕ). get_or (swap a i j) t 0) same ∙ get_or-swap_right a i j hi hj)
    | inr third ↦ rw third (get_or-swap_other a i j k (ground arith) (ground arith))
  ])
]

swap-IsPermutation :
    (c : ℕ) (a : List ℕ) (i j : ℕ)
    → i < c
    → j < c
    → IsPermutation c a
    → IsPermutation c (swap a i j)
swap-IsPermutation c a i j hi hj ok = record {
  size = length-swap a i j ∙ ok.size;
  below = λ k h.
      rw (get_or-swap a i j k (omega (arith, ok.size)) (omega (arith, ok.size)))
        (ok.below (origin i j k) (ground arith));
  apart = λ k l hk hl e.
      let same : origin i j k ≡ origin i j l =
        ok.apart (origin i j k) (origin i j l) (ground arith) (ground arith) (
          sym (get_or-swap a i j k (omega (arith, ok.size)) (omega (arith, ok.size)))
          ∙ e
          ∙ get_or-swap a i j l (omega (arith, ok.size)) (omega (arith, ok.size))) in
      ground arith;
}

Runs-shuffle :
    (n i c s : ℕ) (a : List ℕ)
    → c < 2 ^ 53
    → i + n ≤ c
    → IsPermutation c a
    → Runs n (shuffle n i c s a) (IsPermutation c)
unfolding shuffle
Runs-shuffle zero i c s a small h ok = Runs-ret (IsPermutation c) a ok
Runs-shuffle (suc n) i c s a small h ok =
    Runs-weaken (suc n) (omega arith) (λ b x. x)
      (Runs-bind (random 0 (c - 1) s) (λ source. shuffle n (i + 1) c s (swap a i source))
        (Runs-random 0 (c - 1) s (omega arith) (omega arith))
        λ source within.
          Runs-shuffle n (i + 1) c s (swap a i source) small (omega arith)
            (swap-IsPermutation c a i source (omega arith) (omega arith) ok))

-- What `permute` hands out first, and the array behind it.
pub Runs-permute_new :
    (c s : ℕ) → c < 2 ^ 53 → Runs c (permute_new c s) (λ p. (p.source ≡ 0) × IsPermutation c p.set)
unfolding permute_new
Runs-permute_new c s small =
    Runs-weaken c (omega arith) (λ p h. h)
      (Runs-bind (shuffle c 0 c s (counted_from c 0)) _
        (Runs-shuffle c 0 c s (counted_from c 0) small (omega arith) (counted_from-IsPermutation c))
        λ a ok. Runs-ret (λ p. (p.source ≡ 0) × IsPermutation c p.set) _ (refl, ok))

-- Numbers below c, no two of them the same.
pub record AreApart (c : ℕ) (vs : List ℕ) : Type 0 where
  pub below : (i : ℕ) → i < length vs → get_or vs i 0 < c
  pub apart : (i j : ℕ) → i < length vs → j < length vs → get_or vs i 0 ≡ get_or vs j 0 → i ≡ j

get_or-numbers_from :
    (n s i : ℕ) (a : List ℕ) → i < n → get_or (numbers_from n s a) i 0 ≡ get_or a (s + i) 0
get_or-numbers_from zero s i a h = absurd (omega arith)
get_or-numbers_from (suc n) s zero a h = ap (λ (k : ℕ). get_or a k 0) (omega arith)
get_or-numbers_from (suc n) s (suc i) a h =
    get_or-numbers_from n (s + 1) i a (omega arith) ∙ ap (λ (k : ℕ). get_or a k 0) (omega arith)

pub numbers_from-AreApart :
    (n c s : ℕ) (a : List ℕ) → IsPermutation c a → s + n ≤ c → AreApart c (numbers_from n s a)
numbers_from-AreApart n c s a ok h = record {
  below = λ i hi.
      let small : i < n = omega (arith, length-numbers_from n s a) in
      rw (get_or-numbers_from n s i a small) (ok.below (s + i) (omega arith));
  apart = λ i j hi hj e.
      let small : i < n = omega (arith, length-numbers_from n s a) in
      let small' : j < n = omega (arith, length-numbers_from n s a) in
      let same : s + i ≡ s + j =
        ok.apart (s + i) (s + j) (omega arith) (omega arith)
          (sym (get_or-numbers_from n s i a small) ∙ e ∙ get_or-numbers_from n s j a small') in
      omega arith;
}

-- n calls of `permute` over c numbers hand out n of them, no two the same.
pub Returns-permuted :
    (n c : ℕ) (p : Permutation)
    → n ≤ c
    → (p.source ≡ 0) × IsPermutation c p.set
    → Returns (lift (permuted n c p)) (λ vs. (length vs ≡ n) × AreApart c vs)
Returns-permuted n c p h (first, ok) =
    Returns-lift _ (permuted n c p) (numbers_from n 0 p.set)
      (ap (λ (k : ℕ). permuted n c (record { source = k; set = p.set })) first
        ∙ permuted-numbers_from n c 0 p.set ok.size (omega arith))
      (length-numbers_from n 0 p.set, numbers_from-AreApart n c 0 p.set ok (omega arith))
