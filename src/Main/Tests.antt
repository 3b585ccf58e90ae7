-- ===== src/Main/Tests.antt =====
-- Runs of `main` with few options.
use structor.Common.{ℕ, List, some, pos, ◌≡◌, refl, arith}
use structor.Double.{to_long, mul, round, round_even, div, of_long, scale_up, scale_down}
use structor.Options.{Settings, start_settings}
use structor.Main.{Update, main_updates, update_rows}
use structor.Main.Updates.{Inserts, main_updates-tiles}

-- Four updates of 5 by 10000 of 1500000 rows: 750 rows each.
abbrev four_updates : Settings
four_updates = record (start_settings (λ i. 1500000)) { updates = pos 4; refresh = pos 5 }

update_rows_750 : update_rows four_updates ≡ 750
unfolding to_long mul round round_even div of_long scale_up scale_down
update_rows_750 = refl

main_updates-tiles_example :
    (us : List Update) × (main_updates four_updates ≡ some us)
    × (j : ℕ) × Inserts us 751 j
    × ((i : ℕ) → Inserts us 751 i → i ≡ j)
main_updates-tiles_example =
    main_updates-tiles four_updates 751 (omega arith) (omega arith) (omega (arith, update_rows_750))
      (omega (arith, update_rows_750)) (omega (arith, update_rows_750))
      (omega (arith, update_rows_750))
