-- ===== src/Print/Read.antt =====
-- The fields of a flat file read back.
use structor.Common.{
  ℕ, ◌+◌, ◌*◌, ◌^◌, ◌<◌, ◌⊎◌, inl, inr, List, [], ◌∷◌, map, false, ◌==◌, Bool-cases, ◌≡◌, refl, ap,
  ◌∙◌, arith,
}
use structor.Text.{Text, dec, dec_pad}
use structor.Print.{
  Field, dt_str, dt_int, dt_huge, dt_key, dt_chr, dt_money, separator, newline, field_text,
}
use structor.Print.Split.{split, Lacks, Lacks-append}
use structor.Print.Decimal.{read, read-dec, dec-Lacks, dec_pad-Lacks, read-long_pair}

-- The fields of the rows of a file.
abbrev pub read_file : Text → List (List Text)
read_file s = map (split separator) (split newline s)

-- What of a field the file shows: a text, or a number, in which the words of a huge one are one.
pub data Value : Type 0 where
  text_value : Text → Value
  number_value : ℕ → Value

abbrev pub value_of : Field → Value
value_of (dt_str s len) = text_value s
value_of (dt_int n) = number_value n
value_of (dt_huge w) = number_value (w.high * 10 ^ 7 + w.low)
value_of (dt_key n) = number_value n
value_of (dt_money n) = text_value (field_text false (dt_money n))
value_of (dt_chr c) = text_value (c ∷ [])

-- The kinds of a table's columns, and a field of that kind read.
pub data Kind : Type 0 where
  text_kind number_kind : Kind

abbrev pub read_as : Kind → Text → Value
read_as text_kind s = text_value s
read_as number_kind s = number_value (read 0 s)

abbrev pub kind_of : Field → Kind
kind_of (dt_str s len) = text_kind
kind_of (dt_int n) = number_kind
kind_of (dt_huge w) = number_kind
kind_of (dt_key n) = number_kind
kind_of (dt_money n) = text_kind
kind_of (dt_chr c) = text_kind

abbrev pub read_all : List Kind → List Text → List Value
read_all [] ts = []
read_all (k ∷ ks) [] = []
read_all (k ∷ ks) (t ∷ ts) = read_as k t ∷ read_all ks ts

-- A text without separators and newlines, a number of a long, and a low word of seven digits below
-- a high one.
abbrev pub IsClean : Field → Type 0
IsClean (dt_str s len) = Lacks separator s × Lacks newline s
IsClean (dt_int n) = n < 2 ^ 63
IsClean (dt_huge w) = (w.high < 2 ^ 63) × (w.low < 2 ^ 63) × ((w.high ≡ 0) ⊎ (w.low < 10 ^ 7))
IsClean (dt_key n) = n < 2 ^ 63
IsClean (dt_money n) =
    Lacks separator (field_text false (dt_money n)) × Lacks newline (field_text false (dt_money n))
IsClean (dt_chr c) = ((c == separator) ≡ false) × ((c == newline) ≡ false)

abbrev pub AllClean : List Field → Type 0
AllClean [] = Unit
AllClean (f ∷ fs) = IsClean f × AllClean fs

pub field_text-Lacks :
    (f : Field)
    → IsClean f
    → Lacks separator (field_text false f) × Lacks newline (field_text false f)
unfolding field_text
field_text-Lacks (dt_str s len) clean = clean
field_text-Lacks (dt_int n) clean =
    (dec-Lacks separator n (omega arith), dec-Lacks newline n (omega arith))
field_text-Lacks (dt_huge w) clean = elim (Bool-cases (w.high == 0)) [
  | inl small ↦
      rw small (dec-Lacks separator w.low (omega arith), dec-Lacks newline w.low (omega arith))
  | inr large ↦ rw large (
    Lacks-append separator (dec w.high) (dec_pad 7 w.low) (dec-Lacks separator w.high (omega arith))
        (dec_pad-Lacks separator 7 w.low (omega arith)),
    Lacks-append newline (dec w.high) (dec_pad 7 w.low) (dec-Lacks newline w.high (omega arith))
        (dec_pad-Lacks newline 7 w.low (omega arith)),
  )
]
field_text-Lacks (dt_key n) clean =
    (dec-Lacks separator n (omega arith), dec-Lacks newline n (omega arith))
field_text-Lacks (dt_money n) clean = clean
field_text-Lacks (dt_chr c) clean = ((clean.0, tt), (clean.1, tt))

pub read-field_text :
    (f : Field) → IsClean f → read_as (kind_of f) (field_text false f) ≡ value_of f
unfolding field_text
read-field_text (dt_str s len) clean = refl
read-field_text (dt_int n) clean = ap number_value (read-dec n (omega arith))
read-field_text (dt_huge w) clean = elim (Bool-cases (w.high == 0)) [
  | inl small ↦ rw small (ap number_value (read-dec w.low (omega arith) ∙ ground arith))
  | inr large ↦
      rw large (ap number_value (read-long_pair w.high w.low (omega arith) (ground arith)))
]
read-field_text (dt_key n) clean = ap number_value (read-dec n (omega arith))
read-field_text (dt_money n) clean = refl
read-field_text (dt_chr c) clean = refl
