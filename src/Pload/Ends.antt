-- ===== src/Pload/Ends.antt =====
-- `pload` ends, whatever the order of the steps.
use structor.Common.{
  ℕ, zero, suc, ◌+◌, ◌*◌, ◌-◌, ◌<◌, List, [], ◌∷◌, length, length-append, length-set, get_elem?,
  set, Bool, true, false, some, ◌≡◌, ◌⊎◌, inl, inr, refl, arith, ltb, Bool-cases,
}
use structor.Pload.{
  Phase, launching, returned, aborted, waiting, State, ended, Quiet, spawns, fails, all_started,
  exits, reaps, returns, Step, quiet, misses, Reach,
}
use structor.Pload.Waits.{
  ended-append, ended-set, ended-le, IsState, IsDone-phase, Step-IsState, Reach-IsState,
}

-- `pload` is over.
abbrev pub IsOver : State → Type 0
IsOver st = (st.phase ≡ returned) ⊎ (st.phase ≡ aborted)

-- Every run from the state comes to an end of `pload`: until then some step can be made without a
-- wait that misses, and whatever step is made, the runs behind it come to an end.
pub data EndsFrom (children : ℕ) : State → Type 0 where
  over : {st : State} → IsOver st → EndsFrom children st
  after :
      {st : State}
      → (st' : State) × Quiet children st st'
      → ((st' : State) → Step children st st' → EndsFrom children st')
      → EndsFrom children st

-- A child still runs if not all have ended.
running : (ks : List Bool) → ended ks < length ks → (i : ℕ) × (get_elem? ks i ≡ some false)
running [] h = absurd (omega arith)
running (false ∷ ks) h = (0, refl)
running (true ∷ ks) h = let (i, e) = running ks (omega arith) in (suc i, e)

abbrev steps_of : ℕ → Phase → ℕ
steps_of children launching = children + 2
steps_of children (waiting n) = n + 1
steps_of children returned = 0
steps_of children aborted = 0

-- The steps that are left at most.
measure : ℕ → State → ℕ
measure children st =
    2 * (children - length st.kids) + (length st.kids - ended st.kids) + steps_of children st.phase

-- A state in which `pload` is not over has a step.
next_step :
    (children : ℕ) (st : State) (p : Phase)
    → st.phase ≡ p
    → IsState children st
    → IsOver st ⊎ ((st' : State) × Quiet children st st')
next_step children st returned e ok = inl (inl e)
next_step children st aborted e ok = inl (inr e)
next_step children st launching e ok =
    let (fewer, no_reaped, none_missed) = IsDone-phase ok e in
    elim (Bool-cases (ltb (length st.kids) children)) [
      | inl more ↦ inr (_, spawns e (ground arith))
      | inr all ↦ inr (_, all_started e (ground arith))
    ]
next_step children st (waiting zero) e ok = inr (_, returns e)
next_step children st (waiting (suc n)) e ok =
    let (all, count) = IsDone-phase ok e in
    elim (Bool-cases (ltb (ended st.kids) (length st.kids))) [
      | inl some_run ↦ let (i, at) = running st.kids (ground arith) in inr (_, exits i at)
      | inr none ↦
          let le = ended-le st.kids in
          let more : st.reaped < ended st.kids = ground arith in inr (_, reaps n e more)
    ]

-- Every step is one of those that are left.
measure-Quiet :
    (children : ℕ) (st st' : State)
    → IsState children st
    → Quiet children st st'
    → measure children st' < measure children st
unfolding measure
measure-Quiet children st _ ok (spawns e more) = rw e (
    omega (
      arith,
      length-append st.kids (false ∷ []),
      ended-append st.kids (false ∷ []),
      ended-le st.kids,
    ))
measure-Quiet children st _ ok (fails e more) = rw e (omega arith)
measure-Quiet children st _ ok (all_started e size) = rw e (omega arith)
measure-Quiet children st _ ok (exits i e) =
    omega (arith, length-set st.kids i true, ended-set st.kids i e, ended-le (set st.kids i true))
measure-Quiet children st _ ok (reaps n e more) = rw e (omega arith)
measure-Quiet children st _ ok (returns e) = rw e (omega arith)

measure-Step :
    (children : ℕ) (st st' : State)
    → IsState children st
    → Step children st st'
    → measure children st' < measure children st
unfolding measure
measure-Step children st st' ok (quiet q) = measure-Quiet children st st' ok q
measure-Step children st _ ok (misses n e) = rw e (omega arith)

ends_within :
    (n children : ℕ) (st : State)
    → measure children st < n
    → IsState children st
    → EndsFrom children st
ends_within zero children st h ok = absurd (omega arith)
ends_within (suc n) children st h ok = elim (next_step children st st.phase refl ok) [
  | inl end ↦ over end
  | inr next ↦ after next λ st' s.
      ends_within n children st' (omega (arith, measure-Step children st st' ok s))
        (Step-IsState children st st' ok s)
]

-- From every reachable state `pload` comes to its end, by its return or by the exit after a SPAWN that
-- fails, in every order of the steps of parent and children, if every child that was started
-- ends: as long as it is not over a step can be made, and there is no endless sequence of steps.
pub Reach-EndsFrom : (children : ℕ) (st : State) → Reach children st → EndsFrom children st
Reach-EndsFrom children st r =
    ends_within (suc (measure children st)) children st (omega arith) (Reach-IsState children st r)
