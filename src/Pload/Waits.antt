-- ===== src/Pload/Waits.antt =====
-- Which children may still run when `pload` returns.
use structor.Common.{
  ℕ, zero, suc, ◌+◌, ◌≤◌, List, [], ◌∷◌, ◌++◌, length, length-append, length-set, get_elem?, set,
  Bool, true, false, some, ◌≡◌, refl, ◌∙◌, arith,
}
use mathlib.Core.Path.{subst}
use mathlib.Core.Option.{none-ne-some, some-injective}
use structor.Pload.{
  Phase, launching, returned, aborted, waiting, State, ended, Quiet, spawns, fails, all_started,
  exits, reaps, returns, Step, quiet, misses, Reach, start, later,
}

pub ended-append : (ks ls : List Bool) → ended (ks ++ ls) ≡ ended ks + ended ls
ended-append [] ls = omega arith
ended-append (k ∷ ks) ls = omega (arith, ended-append ks ls)

pub ended-set :
    (ks : List Bool) (i : ℕ) → get_elem? ks i ≡ some false → ended (set ks i true) ≡ ended ks + 1
ended-set [] i e = absurd (none-ne-some _ e)
ended-set (k ∷ ks) zero e = let f : k ≡ false = some-injective _ _ e in rw f (omega arith)
ended-set (k ∷ ks) (suc i) e = omega (arith, ended-set ks i e)

pub ended-le : (ks : List Bool) → ended ks ≤ length ks
ended-le [] = omega arith
ended-le (true ∷ ks) = omega (arith, ended-le ks)
ended-le (false ∷ ks) = omega (arith, ended-le ks)

-- What the parent has done in each phase.
abbrev pub IsDone : ℕ → State → Phase → Type 0
IsDone children st launching = (length st.kids ≤ children) × (st.reaped ≡ 0) × (st.missed ≡ 0)
IsDone children st (waiting n) =
    (length st.kids ≡ children) × (st.reaped + st.missed + n ≡ children)
IsDone children st returned = (length st.kids ≡ children) × (st.reaped + st.missed ≡ children)
IsDone children st aborted = Unit

-- The invariant: only children that have ended are reaped.
pub record IsState (children : ℕ) (st : State) : Type 0 where
  pub reaped : st.reaped ≤ ended st.kids
  pub done : IsDone children st st.phase

pub IsDone-phase :
    {children : ℕ} {st : State} {p : Phase}
    → IsState children st
    → st.phase ≡ p
    → IsDone children st p
IsDone-phase {children} {st} ok e = subst (IsDone children st) e ok.done

-- Another child that ends or starts.
kids_changed :
    (children : ℕ) (st : State) (ks : List Bool)
    → length ks ≡ length st.kids
    → (p : Phase) → IsDone children st p
    → IsDone children (record st { kids = ks }) p
kids_changed children st ks same launching (fewer, no_reaped, none_missed) =
    (omega arith, no_reaped, none_missed)
kids_changed children st ks same (waiting n) d = (same ∙ d.0, d.1)
kids_changed children st ks same returned d = (same ∙ d.0, d.1)
kids_changed children st ks same aborted d = tt

Quiet-IsState :
    (children : ℕ) (st st' : State)
    → IsState children st
    → Quiet children st st'
    → IsState children st'
Quiet-IsState children st _ ok (spawns e more) = record {
  reaped = omega (arith, ok.reaped, ended-append st.kids (false ∷ []));
  done =
      let (fewer, no_reaped, none_missed) = IsDone-phase ok e in
      rw e (omega (arith, length-append st.kids (false ∷ [])), no_reaped, none_missed);
}
Quiet-IsState children st _ ok (fails e more) = record { reaped = ok.reaped; done = tt }
Quiet-IsState children st _ ok (all_started e size) =
    let (fewer, no_reaped, none_missed) = IsDone-phase ok e in
    record { reaped = ok.reaped; done = (size, omega arith) }
Quiet-IsState children st _ ok (exits i e) = record {
  reaped = omega (arith, ok.reaped, ended-set st.kids i e);
  done = kids_changed children st (set st.kids i true) (length-set st.kids i true) st.phase ok.done;
}
Quiet-IsState children st _ ok (reaps n e more) =
    let d = IsDone-phase ok e in record { reaped = omega arith; done = (d.0, omega (arith, d.1)) }
Quiet-IsState children st _ ok (returns e) =
    let d = IsDone-phase ok e in record { reaped = ok.reaped; done = (d.0, omega (arith, d.1)) }

pub Step-IsState :
    (children : ℕ) (st st' : State)
    → IsState children st
    → Step children st st'
    → IsState children st'
Step-IsState children st st' ok (quiet q) = Quiet-IsState children st st' ok q
Step-IsState children st _ ok (misses n e) =
    let d = IsDone-phase ok e in record { reaped = ok.reaped; done = (d.0, omega (arith, d.1)) }

pub Reach-IsState : (children : ℕ) (st : State) → Reach children st → IsState children st
Reach-IsState children _ start = record { reaped = omega arith; done = (omega arith, refl, refl) }
Reach-IsState children st' (later {st} r s) =
    Step-IsState children st st' (Reach-IsState children st r) s

-- In every reachable state in which `pload` has returned, it has started all children, and at most as
-- many of them still run as its waits missed: were interrupted, or returned a child that an earlier call
-- of `pload` had left behind.
pub returned-ended :
    (children : ℕ) (st : State)
    → Reach children st
    → st.phase ≡ returned
    → (length st.kids ≡ children) × (children ≤ ended st.kids + st.missed)
returned-ended children st r e =
    let ok = Reach-IsState children st r in
    let d = IsDone-phase ok e in (d.0, omega (arith, d.1, ok.reaped))
