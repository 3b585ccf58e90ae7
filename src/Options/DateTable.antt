-- ===== src/Options/DateTable.antt =====
-- When the options ask for the date table.
use structor.Common.{
  ℕ, ◌^◌, ltb, and_left, and_right, List, [], ◌∷◌, ℤ, pos, Bool, true, false, ◌&&◌, ◌||◌, ◌==◌,
  if◌then◌else◌, eqb_ℤ, Bool-cases, inl, inr, ◌≡◌, refl, arith,
}
use mathlib.Core.Path.{subst}
use structor.Double.{Double}
use structor.Text.{Text}
use structor.Dist.{tolower}
use structor.Options.{
  Settings, Parsed, parsed, refused, crashed, no_memory, Opt, pids_size, needs_pids, first,
  above_one, set_table, set_action, set_scale, set_step, set_option, process_options,
}

-- The options that may ask for dates: -T d, and -S with 1, after which -T a does.
abbrev pub is_dateless : (Text → ℤ) → Opt → Bool
is_dateless atoi o =
    if o.letter == b'T'
    then (if first o.optarg == b'd' then false else true)
    else if o.letter == b'S'
    then (if eqb_ℤ (atoi o.optarg) (pos 1) then false else true)
    else true

abbrev pub all_dateless : (Text → ℤ) → List Opt → Bool
all_dateless atoi [] = true
all_dateless atoi (o ∷ os) = is_dateless atoi o && all_dateless atoi os

-- No dates are asked for, and the step is not 1.
record Dateless (s : Settings) : Type 0 where
  no_dates : s.table 4 ≡ false
  other_step : eqb_ℤ s.step (pos 1) ≡ false

abbrev KeepsDateless : Parsed → Type 0
KeepsDateless (parsed s) = Dateless s
KeepsDateless refused = Unit
KeepsDateless crashed = Unit
KeepsDateless no_memory = Unit

branch :
    (p q : Parsed) (b : Bool)
    → (b ≡ true → KeepsDateless p)
    → (b ≡ false → KeepsDateless q)
    → KeepsDateless (if b then p else q)
branch p q true on off = on refl
branch p q false on off = off refl

set_table-Dateless :
    (s : Settings) (c : ℕ) → (c == b'd') ≡ false → Dateless s → KeepsDateless (set_table s c)
unfolding set_table
set_table-Dateless s c other d =
    branch _ _ (c == b'c') (λ e. record { no_dates = refl; other_step = d.other_step })
      λ n1.
        branch _ _ (c == b'p') (λ e. record { no_dates = refl; other_step = d.other_step })
          λ n2.
            branch _ _ (c == b's') (λ e. record { no_dates = refl; other_step = d.other_step })
              λ n3.
                branch _ _ (c == b'd') (λ e. absurd (ground arith))
                  λ n4.
                    branch _ _ (c == b'l')
                      (λ e. record { no_dates = refl; other_step = d.other_step })
                      λ n5.
                        branch _ _ (c == b'a')
                          (λ e. record {
                            no_dates = rw d.other_step refl;
                            other_step = d.other_step;
                          })
                          λ n6. tt

set_action-Dateless : (s : Settings) (c : ℕ) → Dateless s → KeepsDateless (set_action s c)
unfolding set_action
set_action-Dateless s c d =
    branch _ _ (c == b'd') (λ e. record { no_dates = d.no_dates; other_step = d.other_step })
      λ n1.
        branch _ _ (c == b'f') (λ e. record { no_dates = d.no_dates; other_step = d.other_step })
          λ n2.
            branch _ _ (c == b'h')
              (λ e. record { no_dates = d.no_dates; other_step = d.other_step })
              λ n3.
                branch _ _ (c == b'm')
                  (λ e. record { no_dates = d.no_dates; other_step = d.other_step })
                  λ n4.
                    branch _ _ (c == b'r')
                      (λ e. record { no_dates = d.no_dates; other_step = d.other_step })
                      λ n5.
                        branch _ _ (c == b's')
                          (λ e. record { no_dates = d.no_dates; other_step = d.other_step })
                          λ n6.
                            branch _ _ (c == b'v')
                              (λ e. record { no_dates = d.no_dates; other_step = d.other_step })
                              λ n7. tt

set_scale-Dateless : (s : Settings) (v : Double) → Dateless s → Dateless (set_scale s v)
unfolding set_scale
set_scale-Dateless s v d = elim (Bool-cases (ltb v.man (2 ^ v.exp))) [
  | inl small ↦ rw small (record { no_dates = d.no_dates; other_step = d.other_step })
  | inr large ↦ rw large (record { no_dates = d.no_dates; other_step = d.other_step })
]

set_step-Dateless :
    (s : Settings) (n : ℤ) → eqb_ℤ n (pos 1) ≡ false → Dateless s → Dateless (set_step s n)
unfolding set_step
set_step-Dateless s n other d = elim (Bool-cases (above_one n)) [
  | inl more ↦ rw more (record { no_dates = refl; other_step = other })
  | inr less ↦ rw less (record { no_dates = d.no_dates; other_step = other })
]

set_option-Dateless :
    (atoi : Text → ℤ) (atof : Text → Double) (s : Settings) (c : ℕ) (arg : Text) (followed : Bool)
    → is_dateless atoi (record { letter = c; optarg = arg; followed = followed }) ≡ true
    → Dateless s
    → KeepsDateless (set_option atoi atof s c arg followed)
unfolding set_option
set_option-Dateless atoi atof s c arg followed free d =
    branch _ _ (c == b'b') (λ e. record { no_dates = d.no_dates; other_step = d.other_step })
      λ n1.
        branch _ _ (c == b'q') (λ e. record { no_dates = d.no_dates; other_step = d.other_step })
          λ n2.
            branch _ _ (c == b'i')
              (λ e. record { no_dates = d.no_dates; other_step = d.other_step })
              λ n3.
                branch _ _ (c == b'd')
                  (λ e. record { no_dates = d.no_dates; other_step = d.other_step })
                  λ n4.
                    branch _ _ (c == b'S') (λ e. set_step-Dateless s (atoi arg) (step_free e) d)
                      λ n5.
                        branch _ _ (c == b'v')
                          (λ e. record { no_dates = d.no_dates; other_step = d.other_step })
                          λ n6.
                            branch _ _ (c == b'f')
                              (λ e. record { no_dates = d.no_dates; other_step = d.other_step })
                              λ n7.
                                branch _ _ (c == b'T')
                                  (λ e. set_table-Dateless s (first arg) (table_free e) d)
                                  λ n8.
                                    branch _ _ (c == b's' || c == b'P')
                                      (λ e. set_scale-Dateless s (atof arg) d)
                                      λ n9.
                                        branch _ _ (c == b'O')
                                          (λ e. set_action-Dateless s (tolower (first arg)) d)
                                          λ n10.
                                            branch _ _ (c == b'D')
                                              (λ e. record {
                                                no_dates = d.no_dates;
                                                other_step = d.other_step;
                                              })
                                              λ n11.
                                                branch _ _ (c == b'F')
                                                  (λ e. record {
                                                    no_dates = d.no_dates;
                                                    other_step = d.other_step;
                                                  })
                                                  λ n12.
                                                    branch _ _ (c == b'U')
                                                      (λ e. record {
                                                        no_dates = d.no_dates;
                                                        other_step = d.other_step;
                                                      })
                                                      λ n13.
                                                        branch _ _ (c == b'r')
                                                          (λ e. record {
                                                            no_dates = d.no_dates;
                                                            other_step = d.other_step;
                                                          })
                                                          λ n14.
                                                            branch _ _ (c == b'C')
                                                            (λ e. record {
                                                            no_dates = d.no_dates;
                                                            other_step = d.other_step;
                                                            })
                                                            λ n15.
                                                            branch _ _ (c == b'n')
                                                            (λ e. record {
                                                            no_dates = d.no_dates;
                                                            other_step = d.other_step;
                                                            })
                                                            λ n16.
                                                            branch _ _ (c == b'h' || followed)
                                                            (λ e. tt) (λ n17. tt)
  where
    step_free : (c == b'S') ≡ true → eqb_ℤ (atoi arg) (pos 1) ≡ false
    step_free e = ground arith

    table_free : (c == b'T') ≡ true → (first arg == b'd') ≡ false
    table_free e = ground arith

-- Without -T d and without an -S of 1 the options never ask for the date table: when `process_options`
-- returns, from settings without the table and with another step, bit DATE of `table` is off, even
-- after -T a.
pub process_options-dateless :
    (atoi : Text → ℤ) (atof : Text → Double) (malloc : ℕ → Bool) (os : List Opt) (s s' : Settings)
    → all_dateless atoi os ≡ true
    → s.table 4 ≡ false
    → eqb_ℤ s.step (pos 1) ≡ false
    → process_options atoi atof malloc os s ≡ parsed s'
    → s'.table 4 ≡ false
unfolding process_options
process_options-dateless atoi atof malloc os s s' free none other e =
    (subst KeepsDateless e
      (kept os s free (record { no_dates = none; other_step = other }))).no_dates
  where
    kept :
        (os : List Opt) (s : Settings)
        → all_dateless atoi os ≡ true
        → Dateless s
        → KeepsDateless (process_options atoi atof malloc os s)
    kept [] s free d =
        branch _ _ (needs_pids s && (if malloc (pids_size s.children) then false else true))
          (λ e. tt) (λ e. d)
    kept (o ∷ os) s free d =
        next (set_option atoi atof s o.letter o.optarg o.followed)
          (set_option-Dateless atoi atof s o.letter o.optarg o.followed
            (and_left (is_dateless atoi o) _ free) d)
          (λ t. kept os t (and_right (is_dateless atoi o) _ free))
      where
        next :
            (p : Parsed)
            → KeepsDateless p
            → ((t : Settings) → Dateless t → KeepsDateless (process_options atoi atof malloc os t))
            → KeepsDateless (elim p [
              | parsed t ↦ process_options atoi atof malloc os t
              | refused ↦ refused
              | crashed ↦ crashed
              | no_memory ↦ no_memory
            ])
        next refused h rest = tt
        next crashed h rest = tt
        next no_memory h rest = tt
        next (parsed t) h rest = rest t h
