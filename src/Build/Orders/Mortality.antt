-- ===== src/Build/Orders/Mortality.antt =====
-- The loop of `mk_order` that skips the customers without orders.
use Prim.Native.Nat.{min}
use structor.Common.{
  ℕ, ◌+◌, ◌-◌, ◌%◌, ◌≤◌, ◌<◌, ◌==◌, Bool-cases, inl, inr, true, false, some, ◌≡◌, refl, arith,
}
use structor.Build.Orders.{living_customer, cust_mortality}

-- For every key from 1 to the last one, three rounds are enough: the loop ends at a key from 1 to
-- the last one that CUST_MORTALITY does not divide, at most one away from the key drawn.
pub living_customer-ends :
    (ckey_max drawn : ℕ)
    → 1 ≤ drawn
    → drawn ≤ ckey_max
    → (key : ℕ) × (living_customer 3 ckey_max true drawn ≡ some key)
      × (1 ≤ key)
      × (key ≤ ckey_max)
      × (0 < key % cust_mortality)
      × (key ≤ drawn + 1)
      × (drawn ≤ key + 1)
unfolding living_customer
living_customer-ends ckey_max drawn low high = elim (Bool-cases (drawn % 3 == 0)) [
  | inr lives ↦ rw lives (drawn, refl, low, high, ground arith, omega arith, omega arith)
  | inl dead ↦ elim (Bool-cases (drawn == ckey_max)) [
    | inr inside ↦
        let up : (min (drawn + 1) ckey_max % 3 == 0) ≡ false = ground arith in
        rw dead (
          rw up (
            min (drawn + 1) ckey_max,
            refl,
            ground arith,
            ground arith,
            ground arith,
            ground arith,
            ground arith,
          ))
    | inl last ↦
        let at_end : (min (drawn + 1) ckey_max % 3 == 0) ≡ true = ground arith in
        let down : (min (min (drawn + 1) ckey_max - 1) ckey_max % 3 == 0) ≡ false = ground arith in
        rw dead (
          rw at_end (
            rw down (
              min (min (drawn + 1) ckey_max - 1) ckey_max,
              refl,
              ground arith,
              ground arith,
              ground arith,
              ground arith,
              ground arith,
            )))
  ]
]
