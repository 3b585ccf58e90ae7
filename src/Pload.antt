-- ===== src/Pload.antt =====
-- `pload` of driver.c: the parent starts a child for every chunk, then waits as often as there are
-- children. A child runs `partial` and exits. The order of the steps is that of the operating system.
pub mod Waits
pub mod Ends
mod Tests
use structor.Common.{
  ℕ, zero, suc, ◌+◌, ◌<◌, List, [], ◌∷◌, ◌++◌, length, get_elem?, set, Bool, true, false,
  if◌then◌else◌, some, ◌≡◌,
}

-- `aborted` is `exit (-1)` after a call of SPAWN that fails, and `waiting n` the loop `while (c)`
-- with c = n.
pub data Phase : Type 0 where
  launching returned aborted : Phase
  waiting : ℕ → Phase

-- Whether each child that was started has ended, in the order of the starts, the children that a WAIT
-- returned, and the calls of WAIT that missed: a signal interrupted them, or they returned a child that
-- an earlier call of `pload` in the same run had left behind.
pub record State : Type 0 where
  pub kids : List Bool
  pub reaped : ℕ
  pub missed : ℕ
  pub phase : Phase

abbrev pub ended : List Bool → ℕ
ended [] = 0
ended (k ∷ ks) = (if k then 1 else 0) + ended ks

abbrev pub initial_state : State
initial_state = record { kids = []; reaped = 0; missed = 0; phase = launching }

-- The steps of parent and children.
pub data Quiet (children : ℕ) (st : State) : State → Type 0 where
  spawns :
      st.phase ≡ launching
      → length st.kids < children
      → Quiet children st (record st { kids = st.kids ++ (false ∷ []) })
  fails :
      st.phase ≡ launching
      → length st.kids < children
      → Quiet children st (record st { phase = aborted })
  all_started :
      st.phase ≡ launching
      → length st.kids ≡ children
      → Quiet children st (record st { phase = waiting children })
  exits :
      (i : ℕ)
      → get_elem? st.kids i ≡ some false
      → Quiet children st (record st { kids = set st.kids i true })
  reaps :
      (n : ℕ)
      → st.phase ≡ waiting (suc n)
      → st.reaped < ended st.kids
      → Quiet children st (record st { reaped = st.reaped + 1; phase = waiting n })
  returns : st.phase ≡ waiting 0 → Quiet children st (record st { phase = returned })

-- WAIT returns -1, or a child of an earlier `pload`; `c--` is made too.
pub data Step (children : ℕ) (st : State) : State → Type 0 where
  quiet : {st' : State} → Quiet children st st' → Step children st st'
  misses :
      (n : ℕ)
      → st.phase ≡ waiting (suc n)
      → Step children st (record st { missed = st.missed + 1; phase = waiting n })

pub data Reach (children : ℕ) : State → Type 0 where
  start : Reach children initial_state
  later : {st st' : State} → Reach children st → Step children st st' → Reach children st'
