-- ===== src/Permute/Swap.antt =====
-- `permute` keeps every member of its array.
use structor.Common.{
  ℕ, zero, suc, ◌+◌, ◌<◌, List, length, get_or, set, length-set, get_or-set_self, get_or-set_ne,
  ◌==◌, Bool-cases, ◌⊎◌, inl, inr, ◌≡◌, ◌≢◌, refl, sym, ap, ◌∙◌, arith,
}
use structor.Permute.{swap, counted_from}

-- Every number below c stands at some place below the length.
abbrev pub Keeps : ℕ → List ℕ → Type 0
Keeps c a = (length a ≡ c) × ((v : ℕ) → v < c → (i : ℕ) × (i < c) × (get_or a i 0 ≡ v))

eq-cases : (i j : ℕ) → (i ≡ j) ⊎ (i ≢ j)
eq-cases i j = elim (Bool-cases (i == j)) [
  | inl e ↦ inl (ground arith)
  | inr e ↦ inr (λ h. ground arith)
]

pub length-swap : (a : List ℕ) (i j : ℕ) → length (swap a i j) ≡ length a
unfolding swap
length-swap a i j =
    length-set (set a j (get_or a i 0)) i (get_or a j 0) ∙ length-set a j (get_or a i 0)

-- An exchange puts each member at the other's place.
pub get_or-swap_left :
    (a : List ℕ) (i j : ℕ) → i < length a → get_or (swap a i j) i 0 ≡ get_or a j 0
unfolding swap
get_or-swap_left a i j h =
    get_or-set_self (set a j (get_or a i 0)) i (get_or a j 0) 0
      (omega (arith, length-set a j (get_or a i 0)))

pub get_or-swap_right :
    (a : List ℕ) (i j : ℕ) → i < length a → j < length a → get_or (swap a i j) j 0 ≡ get_or a i 0
unfolding swap
get_or-swap_right a i j hi hj = elim (eq-cases i j) [
  | inl e ↦ ap (λ (t : ℕ). get_or (swap a i t) t 0) (sym e) ∙ get_or-swap_left a i i hi
  | inr n ↦
      get_or-set_ne (set a j (get_or a i 0)) i j (get_or a j 0) 0 n
      ∙ get_or-set_self a j (get_or a i 0) 0 hj
]

pub get_or-swap_other :
    (a : List ℕ) (i j k : ℕ) → i ≢ k → j ≢ k → get_or (swap a i j) k 0 ≡ get_or a k 0
unfolding swap
get_or-swap_other a i j k hi hj =
    get_or-set_ne (set a j (get_or a i 0)) i k (get_or a j 0) 0 hi
    ∙ get_or-set_ne a j k (get_or a i 0) 0 hj

pub swap-Keeps : (c : ℕ) (a : List ℕ) (i j : ℕ) → i < c → j < c → Keeps c a → Keeps c (swap a i j)
swap-Keeps c a i j hi hj (size, at) = (length-swap a i j ∙ size, place)
  where
    place : (v : ℕ) → v < c → (k : ℕ) × (k < c) × (get_or (swap a i j) k 0 ≡ v)
    place v h =
        let (k, hk, e) = at v h in
        elim (eq-cases i k) [
          | inl ik ↦ (
            j,
            hj,
            get_or-swap_right a i j (omega arith) (omega arith)
                ∙ ap (λ (t : ℕ). get_or a t 0) ik
                ∙ e,
          )
          | inr ik ↦ elim (eq-cases j k) [
            | inl jk ↦
                (i, hi, get_or-swap_left a i j (omega arith) ∙ ap (λ (t : ℕ). get_or a t 0) jk ∙ e)
            | inr jk ↦ (k, hk, get_or-swap_other a i j k ik jk ∙ e)
          ]
        ]

length-counted_from : (n i : ℕ) → length (counted_from n i) ≡ n
length-counted_from zero i = refl
length-counted_from (suc n) i = ap suc (length-counted_from n (i + 1))

get_or-counted_from : (n i k : ℕ) → k < n → get_or (counted_from n i) k 0 ≡ i + k
get_or-counted_from zero i k h = absurd (omega arith)
get_or-counted_from (suc n) i zero h = omega arith
get_or-counted_from (suc n) i (suc k) h =
    get_or-counted_from n (i + 1) k (omega arith) ∙ omega arith

pub counted_from-Keeps : (c : ℕ) → Keeps c (counted_from c 0)
counted_from-Keeps c =
    (length-counted_from c 0, λ v h. (v, h, get_or-counted_from c 0 v h ∙ omega arith))
