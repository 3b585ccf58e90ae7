-- ===== src/Options.antt =====
-- `process_options` of driver.c. `getopt` of the C library yields the letters of the options with their
-- arguments, the letter `?` for one that it does not know or that lacks its argument; `atoi`, `atof` for
-- numbers that are not negative, and `malloc`, whether it has so many bytes, are the C library's too. The
-- copies of the arguments of -b and -n are taken to get their few bytes.
pub mod Refused
pub mod DateTable
mod Tests
use structor.Common.{
  ℕ, ◌+◌, ◌-◌, ◌*◌, ◌^◌, List, [], ◌∷◌, ℤ, pos, negsuc, Bool, true, false, ◌&&◌, ◌||◌, ltb, leb,
  ◌==◌, if◌then◌else◌, eqb_ℤ, Option, none, some,
}
use structor.Double.{Double, of_long, mul, to_long}
use structor.Text.{Text}
use structor.Dist.{tolower}

-- The globals that the options set. `table` is the bit mask of the tables.
pub record Settings : Type 0 where
  pub table : ℕ → Bool
  pub d_path : Option Text
  pub db_name : Option Text
  pub verbose : ℤ
  pub insert_segments : ℤ
  pub delete_segments : ℤ
  pub step : ℤ
  pub updates : ℤ
  pub refresh : ℤ
  pub children : ℤ
  pub scale : ℕ
  pub bases : ℕ → ℕ
  pub force : Bool
  pub gen_sql : Bool
  pub fnames : Bool
  pub header : Bool
  pub columnar : Bool
  pub gen_rng : Bool
  pub set_seeds : Bool
  pub validate : Bool
  pub direct : Bool

-- What the options lead to: the settings, `usage` and `exit (1)`, a read through the null pointer behind
-- the last argument, or the `exit (1)` of MALLOC_CHECK.
pub data Parsed : Type 0 where
  parsed : Settings → Parsed
  refused crashed no_memory : Parsed

-- What `getopt` yields; `followed` says that `vector[optind]` is an argument and not the null pointer.
pub record Opt : Type 0 where
  pub letter : ℕ
  pub optarg : Text
  pub followed : Bool

-- `children * sizeof(pid_t)` as a size_t, for children of an int.
abbrev pub pids_size : ℤ → ℕ
pids_size (pos n) = 4 * n
pids_size (negsuc n) = 2 ^ 64 - 4 * (n + 1)

-- Whether `pids` is allocated behind the loop.
abbrev pub needs_pids : Settings → Bool
needs_pids s = (if eqb_ℤ s.children (pos 1) then false else true) && eqb_ℤ s.step (negsuc 0)

-- `*optarg`
abbrev pub first : Text → ℕ
first [] = 0
first (c ∷ t) = c

-- `1 << t`
abbrev pub only : ℕ → ℕ → Bool
only t i = t == i

-- `atoi (optarg) > 1`
abbrev pub above_one : ℤ → Bool
above_one (pos n) = ltb 1 n
above_one (negsuc n) = false

-- The mask of the tables of `-T a`.
abbrev pub all_tables : ℤ → ℕ → Bool
all_tables step i =
    only 3 i || (only 0 i || (only 2 i || ((eqb_ℤ step (pos 1) && only 4 i) || only 5 i)))

-- The switch on the argument of -T.
unfoldable pub set_table : Settings → ℕ → Parsed
set_table s c =
    if c == b'c'
    then parsed (record s { table = only 3 })
    else if c == b'p'
    then parsed (record s { table = only 0 })
    else if c == b's'
    then parsed (record s { table = only 2 })
    else if c == b'd'
    then parsed (record s { table = only 4 })
    else if c == b'l'
    then parsed (record s { table = only 5 })
    else if c == b'a'
    then parsed (record s { table = all_tables s.step })
    else refused

-- The switch on the argument of -O.
unfoldable pub set_action : Settings → ℕ → Parsed
set_action s c =
    if c == b'd'
    then parsed (record s { gen_sql = true })
    else if c == b'f'
    then parsed (record s { fnames = true })
    else if c == b'h'
    then parsed (record s { header = true })
    else if c == b'm'
    then parsed (record s { columnar = true })
    else if c == b'r'
    then parsed (record s { gen_rng = true })
    else if c == b's'
    then parsed (record s { set_seeds = true })
    else if c == b'v'
    then parsed (record s { validate = true })
    else refused

-- `flt_scale < MIN_SCALE`
abbrev pub below_one : Double → Bool
below_one d = ltb d.man (2 ^ d.exp)

-- `tdefs[i].base *= flt_scale`, and at least 1, for PART to NATION.
abbrev pub scaled_base : Double → (ℕ → ℕ) → ℕ → ℕ
scaled_base d bases i =
    let base = to_long (mul (of_long (bases i)) d) in
    if ltb i 9 then (if ltb base 1 then 1 else base) else bases i

-- The case of -s and -P, with the value of `atof`.
unfoldable pub set_scale : Settings → Double → Settings
set_scale s d =
    if below_one d
    then record s { scale = 1; bases = scaled_base d s.bases }
    else record s { scale = to_long d }

-- The case of -S.
unfoldable pub set_step : Settings → ℤ → Settings
set_step s n =
    if above_one n
    then record s { step = n; table = λ i. if i == 4 then false else s.table i }
    else record s { step = n }

module _ (atoi : Text → ℤ) (atof : Text → Double) where
  -- The switch on the letter of an option; the default case prints a character of `vector[optind]`.
  unfoldable pub set_option : Settings → ℕ → Text → Bool → Parsed
  set_option s c optarg followed =
      if c == b'b'
      then parsed (record s { d_path = some optarg })
      else if c == b'q'
      then parsed (record s { verbose = negsuc 0 })
      else if c == b'i'
      then parsed (record s { insert_segments = atoi optarg })
      else if c == b'd'
      then parsed (record s { delete_segments = atoi optarg })
      else if c == b'S'
      then parsed (set_step s (atoi optarg))
      else if c == b'v'
      then parsed (record s { verbose = pos 1 })
      else if c == b'f'
      then parsed (record s { force = true })
      else if c == b'T'
      then set_table s (first optarg)
      else if c == b's' || c == b'P'
      then parsed (set_scale s (atof optarg))
      else if c == b'O'
      then set_action s (tolower (first optarg))
      else if c == b'D'
      then parsed (record s { direct = true })
      else if c == b'F'
      then parsed (record s { direct = false })
      else if c == b'U'
      then parsed (record s { updates = atoi optarg })
      else if c == b'r'
      then parsed (record s { refresh = atoi optarg })
      else if c == b'C'
      then parsed (record s { children = atoi optarg })
      else if c == b'n'
      then parsed (record s { db_name = some optarg })
      else if c == b'h' || followed
      then refused
      else crashed

  -- The loop over the options, and the allocation behind it.
  unfoldable pub process_options : (ℕ → Bool) → List Opt → Settings → Parsed
  process_options malloc [] s =
      if needs_pids s && (if malloc (pids_size s.children) then false else true)
      then no_memory
      else parsed s
  process_options malloc (o ∷ os) s = elim (set_option s o.letter o.optarg o.followed) [
    | parsed s' ↦ process_options malloc os s'
    | refused ↦ refused
    | crashed ↦ crashed
    | no_memory ↦ no_memory
  ]

-- What `main` sets before it reads the options: the bases are those of `tdefs`.
abbrev pub start_settings : (ℕ → ℕ) → Settings
start_settings bases = record {
  table = λ i. only 3 i || (only 2 i || (only 8 i || (only 9 i || (only 7 i || only 6 i))));
  d_path = none;
  db_name = none;
  verbose = pos 0;
  insert_segments = pos 0;
  delete_segments = pos 0;
  step = negsuc 0;
  updates = pos 0;
  refresh = pos 10;
  children = pos 1;
  scale = 1;
  bases = bases;
  force = false;
  gen_sql = false;
  fnames = false;
  header = false;
  columnar = false;
  gen_rng = false;
  set_seeds = false;
  validate = false;
  direct = false;
}
