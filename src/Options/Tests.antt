-- ===== src/Options/Tests.antt =====
-- Options of the README.
use structor.Common.{
  ℕ, ◌-◌, ◌^◌, [], ◌∷◌, ℤ, pos, negsuc, Bool, true, false, ltb, ◌&&◌, ◌||◌, ◌==◌, ◌≡◌, refl,
}
use structor.Double.{Double, of_long}
use structor.Text.{Text, codes}
use structor.Options.{
  Settings, parsed, no_memory, Opt, set_option, set_table, process_options, start_settings,
}
use structor.Options.DateTable.{process_options-dateless}

-- `atoi` and `atof` of one digit.
abbrev digit : Text → ℕ
digit [] = 0
digit (c ∷ t) = c - b'0'

abbrev atoi : Text → ℤ
atoi t = pos (digit t)

abbrev atof : Text → Double
atof t = of_long (digit t)

-- `malloc` with enough memory.
abbrev has_all : ℕ → Bool
has_all n = true

abbrev table_a : Opt
table_a = record { letter = b'T'; optarg = codes "a"; followed = false }

abbrev minus_one : Opt
minus_one = record { letter = b'C'; optarg = codes "-1"; followed = false }

-- What `-T a` leaves: no table of dates.
abbrev left : Settings
left = record (start_settings (λ i. 1)) {
  bases = λ i. 1;
  table = λ i. 3 == i || (0 == i || (2 == i || ((false && 4 == i) || 5 == i)));
}

left-parsed :
    process_options atoi atof has_all (table_a ∷ []) (start_settings (λ i. 1)) ≡ parsed left
unfolding process_options set_option set_table
left-parsed = refl

process_options-dateless_example : left.table 4 ≡ false
process_options-dateless_example =
    process_options-dateless atoi atof has_all (table_a ∷ []) (start_settings (λ i. 1)) left refl
      refl refl left-parsed

-- A letter that is unknown, as the last argument.
abbrev letter_z : Opt
letter_z = record { letter = b'?'; optarg = []; followed = false }

-- -C -1 asks for 2^64 - 4 bytes.
process_options-children :
    process_options
      (λ t. negsuc 0)
      atof
      (λ n. ltb n (2 ^ 63))
      (minus_one ∷ [])
      (start_settings (λ i. 1))
    ≡ no_memory
unfolding process_options set_option
process_options-children = refl
