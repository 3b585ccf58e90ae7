-- ===== src/Print/Tests.antt =====
-- Printed rows.
use structor.Common.{
  ℕ, [], ◌∷◌, ◌++◌, map, Bool, true, false, inl, inr, ◌≡◌, refl, arith, ◌==◌, if◌then◌else◌,
  Bool-cases,
}
use structor.Text.{Text, codes, dec, dec_digits}
use structor.Build.Parties.{Customer}
use structor.Table.{customer_row}
use structor.Print.{
  pr_cust, pr_record, pr_fields, dbg_print, field_text, loader, separator, newline,
}
use structor.Print.Split.{Lacks}
use structor.Print.Read.{read_file, read_all}
use structor.Print.Loader.{rows_of, columns_of, kinds_of, AllRowsClean, loader-read_file}

abbrev peru : Customer
peru = record {
  custkey = 7;
  name = codes "Customer#000000007";
  address = codes "a,b";
  city = codes "PERU     3";
  nation_name = codes "PERU";
  region_name = codes "AMERICA";
  phone = codes "27-100-200-3000";
  mktsegment = codes "MACHINERY";
}

printed :
    pr_cust false peru
    ≡ codes "7|Customer#000000007|a,b|PERU     3|PERU|AMERICA|27-100-200-3000|MACHINERY|"
      ++ (newline ∷ [])
unfolding pr_cust pr_record pr_fields dbg_print field_text dec dec_digits
printed = refl

-- The test of Lacks.
abbrev lacking : ℕ → Text → Bool
lacking sep [] = true
lacking sep (c ∷ t) = if c == sep then false else lacking sep t

lacks : (sep : ℕ) (t : Text) → lacking sep t ≡ true → Lacks sep t
lacks sep [] e = tt
lacks sep (c ∷ t) e = elim (Bool-cases (c == sep)) [
  | inl own ↦ absurd (ground arith)
  | inr other ↦ (other, lacks sep t (ground arith))
]

clean :
    (t : Text)
    → lacking separator t ≡ true
    → lacking newline t ≡ true
    → Lacks separator t × Lacks newline t
clean t e h = (lacks separator t e, lacks newline t h)

peru-clean : AllRowsClean (rows_of (customer_row peru))
peru-clean = (
  (
    omega arith,
    (
      clean peru.name refl refl,
      (
        clean peru.address refl refl,
        (
          clean peru.city refl refl,
          (
            clean peru.nation_name refl refl,
            (
              clean peru.region_name refl refl,
              (clean peru.phone refl refl, (clean peru.mktsegment refl refl, tt)),
            ),
          ),
        ),
      ),
    ),
  ),
  tt,
)

loader-read_file_example :
    map (read_all (kinds_of (customer_row peru))) (read_file (loader false (customer_row peru)))
    ≡ columns_of (customer_row peru)
loader-read_file_example = loader-read_file (customer_row peru) peru-clean
