-- ===== src/Main/Updates.antt =====
-- The updates of a run cut their rows into parts.
use native.Mathlib.Nat.{div-add-mod, mod-lt, mul-le-mul_right}
use structor.Common.{
  ℕ, zero, suc, ◌+◌, ◌-◌, ◌*◌, ◌/◌, ◌%◌, ◌^◌, ◌≤◌, ◌<◌, ltb, true, refl, List, get_elem?, pos_part,
  some, ◌≡◌, sym, ap, ◌∙◌, arith, ◌⊎◌, inl, inr,
}
use mathlib.Core.Option.{none-ne-some, some-injective}
use structor.Options.{Settings}
use structor.Main.{Update, update_rows, first_update, updates_from, main_updates}

lt_or_le : (a b : ℕ) → (a < b) ⊎ (b ≤ a)
lt_or_le a b = omega arith

abbrev update_at : ℕ → ℕ → Update
update_at rowcnt k = record { minrow = k * rowcnt + 1; rowcnt = rowcnt; number = k + 1 }

get_elem?-updates :
    (n rowcnt k j : ℕ)
    → j < n
    → get_elem? (updates_from n rowcnt k) j ≡ some (update_at rowcnt (k + j))
unfolding updates_from
get_elem?-updates zero rowcnt k j h = absurd (omega arith)
get_elem?-updates (suc n) rowcnt k zero h =
    let e : k ≡ k + 0 = omega arith in ap (λ (i : ℕ). some (update_at rowcnt i)) e
get_elem?-updates (suc n) rowcnt k (suc j) h =
    let e : k + 1 + j ≡ k + suc j = omega arith in
    get_elem?-updates n rowcnt (k + 1) j (omega arith) ∙ ap (λ (i : ℕ). some (update_at rowcnt i)) e

get_elem?-updates_inside :
    (n rowcnt k j : ℕ) (u : Update) → get_elem? (updates_from n rowcnt k) j ≡ some u → j < n
unfolding updates_from
get_elem?-updates_inside zero rowcnt k j u e = absurd (none-ne-some _ e)
get_elem?-updates_inside (suc n) rowcnt k zero u e = omega arith
get_elem?-updates_inside (suc n) rowcnt k (suc j) u e =
    omega (arith, get_elem?-updates_inside n rowcnt (k + 1) j u e)

-- Row r belongs to update j of a list.
abbrev pub Inserts : List Update → ℕ → ℕ → Type 0
Inserts us r j =
    (u : Update) × (get_elem? us j ≡ some u) × (u.minrow ≤ r) × (r < u.minrow + u.rowcnt)

Inserts-bounds :
    (n rowcnt k r j : ℕ)
    → Inserts (updates_from n rowcnt k) r j
    → ((k + j) * rowcnt < r) × (r ≤ (k + j) * rowcnt + rowcnt)
Inserts-bounds n rowcnt k r j (u, at, low, high) =
    let e : u ≡ update_at rowcnt (k + j) =
      some-injective _ _
        (sym at ∙ get_elem?-updates n rowcnt k j (get_elem?-updates_inside n rowcnt k j u at)) in
    let first = ap (λ (v : Update). v.minrow) e in
    let count = ap (λ (v : Update). v.rowcnt) e in (omega arith, omega arith)

-- Two updates of the same row are one.
same_update :
    (n rowcnt k r j i : ℕ)
    → Inserts (updates_from n rowcnt k) r j
    → Inserts (updates_from n rowcnt k) r i
    → i ≡ j
same_update n rowcnt k r j i a b =
    let (low, high) = Inserts-bounds n rowcnt k r j a in
    let (low', high') = Inserts-bounds n rowcnt k r i b in
    elim (trichotomy i j) [
      | inl less ↦
          let le : k + i + 1 ≤ k + j = omega arith in
          absurd (omega (arith, mul-le-mul_right rowcnt le))
      | inr (inl e) ↦ e
      | inr (inr more) ↦
          let le : k + j + 1 ≤ k + i = omega arith in
          absurd (omega (arith, mul-le-mul_right rowcnt le))
    ]
  where
    trichotomy : (a b : ℕ) → (a < b) ⊎ ((a ≡ b) ⊎ (b < a))
    trichotomy a b = omega arith

updates_from-tiles :
    (n rowcnt k r : ℕ)
    → 0 < rowcnt
    → k * rowcnt < r
    → r ≤ (k + n) * rowcnt
    → (j : ℕ) × Inserts (updates_from n rowcnt k) r j
      × ((i : ℕ) → Inserts (updates_from n rowcnt k) r i → i ≡ j)
updates_from-tiles n rowcnt k r p low high =
    (q - k, found, λ i other. same_update n rowcnt k r (q - k) i found other)
  where
    q : ℕ
    q = (r - 1) / rowcnt

    split : q * rowcnt + (r - 1) % rowcnt ≡ r - 1
    split = omega (arith, div-add-mod (r - 1) rowcnt)

    small : (r - 1) % rowcnt < rowcnt
    small = mod-lt (r - 1) p

    after : k ≤ q
    after = elim (lt_or_le k (suc q)) [
      | inl less ↦ omega arith
      | inr more ↦ absurd (omega (arith, mul-le-mul_right rowcnt more, split, small))
    ]

    before : q < k + n
    before = elim (lt_or_le q (k + n)) [
      | inl less ↦ less
      | inr more ↦ absurd (omega (arith, mul-le-mul_right rowcnt more, split, small))
    ]

    same : k + (q - k) ≡ q
    same = omega (arith, after)

    found : Inserts (updates_from n rowcnt k) r (q - k)
    found = (
      update_at rowcnt q,
      get_elem?-updates n rowcnt k (q - k) (omega (arith, before, after))
          ∙ ap (λ (h : ℕ). some (update_at rowcnt h)) same,
      omega (arith, split),
      omega (arith, split, small),
    )

-- If refresh is from 1 to 10000, beyond which `mk_order` divides by zero, and the rows of an update are
-- at least one and below 2^31, the run has updates, and every row from behind those of the updates before
-- the step's to the last row of update number `updates` is inserted by exactly one of them.
pub main_updates-tiles :
    (s : Settings) (r : ℕ)
    → 0 < pos_part s.refresh
    → pos_part s.refresh ≤ 10000
    → 0 < update_rows s
    → update_rows s < 2 ^ 31
    → first_update s * update_rows s < r
    → r ≤ pos_part s.updates * update_rows s
    → (us : List Update) × (main_updates s ≡ some us)
      × (j : ℕ) × Inserts us r j
      × ((i : ℕ) → Inserts us r i → i ≡ j)
unfolding main_updates
main_updates-tiles s r divides divided some_rows small low high =
    let held : ltb (update_rows s) (2 ^ 31) ≡ true = ground arith in
    let found =
      updates_from-tiles (pos_part s.updates - first_update s) (update_rows s) (first_update s) r
        some_rows low (rw whole high) in
    (
      updates_from (pos_part s.updates - first_update s) (update_rows s) (first_update s),
      rw held refl,
      found.0,
      found.1,
      found.2,
    )
  where
    whole : first_update s + (pos_part s.updates - first_update s) ≡ pos_part s.updates
    whole = elim (lt_or_le (pos_part s.updates) (first_update s)) [
      | inl less ↦
          let le : pos_part s.updates ≤ first_update s = omega arith in
          absurd (omega (arith, mul-le-mul_right (update_rows s) le))
      | inr more ↦ omega arith
    ]
