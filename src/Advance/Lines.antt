-- ===== src/Advance/Lines.antt =====
-- `sd_line`: the lineitem streams, and the order streams that `mk_order` draws from as well.
use structor.Common.{
  ℕ, zero, suc, ◌+◌, ◌*◌, ◌≤◌, ◌<◌, List, pos, ◌==◌, Bool-cases, inl, inr, get_or, length,
  length-modify, get_or-modify_self, get_or-modify_ne, ◌≡◌, ◌≢◌, refl, sym, ap, ◌∙◌, arith,
}
use structor.Rng.{n_m}
use structor.Skip.{nth_element}
use structor.Skip.Steps.{iterate, iterate-add, iterate_range}
use structor.Skip.Words.{nth_element-iterate}
use structor.Seeds.{Seed, no_seed}
use structor.Seeds.Table.{layout}
use structor.Advance.{advance_stream, advance_range, repeat, sd_line}

abbrev value_at : ℕ → List Seed → ℕ
value_at i seeds = (get_or seeds i no_seed).value

value_at-advance_self :
    (i k : ℕ) (seeds : List Seed)
    → i < length seeds
    → value_at i (advance_stream i k seeds) ≡ nth_element (pos k) (value_at i seeds)
value_at-advance_self i k seeds h =
    ap (λ (s : Seed). s.value) (get_or-modify_self seeds i _ no_seed h)

value_at-advance_ne :
    (j i k : ℕ) (seeds : List Seed)
    → j ≢ i
    → value_at i (advance_stream j k seeds) ≡ value_at i seeds
value_at-advance_ne j i k seeds h =
    ap (λ (s : Seed). s.value) (get_or-modify_ne seeds j i _ no_seed h)

length-advance_range :
    (first n k : ℕ) (seeds : List Seed) → length (advance_range first n k seeds) ≡ length seeds
length-advance_range first zero k seeds = refl
length-advance_range first (suc n) k seeds =
    length-advance_range (first + 1) n k (advance_stream first k seeds)
    ∙ length-modify seeds first _

value_at-range_below :
    (n first i k : ℕ) (seeds : List Seed)
    → i < first
    → value_at i (advance_range first n k seeds) ≡ value_at i seeds
value_at-range_below zero first i k seeds h = refl
value_at-range_below (suc n) first i k seeds h =
    value_at-range_below n (first + 1) i k (advance_stream first k seeds) (omega arith)
    ∙ value_at-advance_ne first i k seeds (omega arith)

value_at-range_in :
    (n first i k : ℕ) (seeds : List Seed)
    → first ≤ i
    → i < first + n
    → i < length seeds
    → value_at i (advance_range first n k seeds) ≡ nth_element (pos k) (value_at i seeds)
value_at-range_in zero first i k seeds lo hi h = absurd (omega arith)
value_at-range_in (suc n) first i k seeds lo hi h = elim (Bool-cases (first == i)) [
  | inl here ↦
      let e : first ≡ i = ground arith in
      value_at-range_below n (first + 1) i k (advance_stream first k seeds) (omega arith)
      ∙ rw e (value_at-advance_self i k seeds h)
  | inr later ↦
      let ne : first ≢ i = ground arith in
      value_at-range_in n (first + 1) i k (advance_stream first k seeds) (omega arith) (omega arith)
        (rw (length-modify seeds first) h)
      ∙ ap (nth_element (pos k)) (value_at-advance_ne first i k seeds ne)
]

-- n rounds of the loop over the lineitem streams move each by k steps a round.
value_at-repeat :
    (n i k : ℕ) (seeds : List Seed)
    → 14 ≤ i
    → i ≤ 24
    → i < length seeds
    → k < n_m
    → 0 < value_at i seeds
    → value_at i seeds < n_m
    → value_at i (repeat n (advance_range 14 11 k) seeds) ≡ iterate (n * k) (value_at i seeds)
value_at-repeat zero i k seeds lo hi h hk p m = let e : zero * k ≡ 0 = omega arith in rw e
value_at-repeat (suc n) i k seeds lo hi h hk p m =
    let one : value_at i (advance_range 14 11 k seeds) ≡ iterate k (value_at i seeds) =
      value_at-range_in 11 14 i k seeds lo (omega arith) h
      ∙ nth_element-iterate k (value_at i seeds) hk p m in
    let (p', m') = iterate_range k (value_at i seeds) p m in
    let e : k + n * k ≡ suc n * k = omega arith in
    value_at-repeat n i k (advance_range 14 11 k seeds) lo hi
      (rw (length-advance_range 14 11 k seeds) h) hk (rw one p') (rw one m')
    ∙ ap (iterate (n * k)) one
    ∙ sym (iterate-add k (n * k) (value_at i seeds))
    ∙ ap (λ (c : ℕ). iterate c (value_at i seeds)) e

-- `sd_line` moves each of the streams 14 to 24 of the lineitem table by the seven steps for each
-- skipped row that are its boundary, for fewer than 2^31 - 1 rows and seeds in range.
pub sd_line-streams :
    (child k i : ℕ) (seeds : List Seed)
    → 14 ≤ i
    → i ≤ 24
    → i < length seeds
    → k < n_m
    → 0 < (get_or seeds i no_seed).value
    → (get_or seeds i no_seed).value < n_m
    → (get_or (sd_line child k seeds) i no_seed).value
      ≡ iterate (7 * k) (get_or seeds i no_seed).value
unfolding sd_line
sd_line-streams child k i seeds lo hi h hk p m = elim (Bool-cases (child == 1)) [
  | inl linked ↦ rw linked (
      value_at-advance_ne 43 i k _ (omega arith)
      ∙ value_at-advance_ne 13 i k _ (omega arith)
      ∙ value_at-advance_ne 25 i _ _ (omega arith)
      ∙ value_at-repeat 7 i k seeds lo hi h hk p m)
  | inr single ↦
      rw single
        (value_at-advance_ne 25 i _ _ (omega arith) ∙ value_at-repeat 7 i k seeds lo hi h hk p m)
]

-- Of the order streams, `sd_line` called for a chunk of the lineorder table moves those of the order
-- date (13) and of the line count (43), and leaves those of the clerk (11), the priority (38)
-- and the customer key (40) where they were.
pub sd_line-order_streams :
    (k : ℕ) (value : ℕ → ℕ)
    → let after = sd_line 1 k (layout value) in
      ((get_or after 13 no_seed).value ≡ nth_element (pos k) (value 13))
      × ((get_or after 43 no_seed).value ≡ nth_element (pos k) (value 43))
      × ((get_or after 11 no_seed).value ≡ value 11)
      × ((get_or after 38 no_seed).value ≡ value 38)
      × ((get_or after 40 no_seed).value ≡ value 40)
unfolding sd_line
sd_line-order_streams k value = (refl, refl, refl, refl, refl)
