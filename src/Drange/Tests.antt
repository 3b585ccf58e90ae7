-- ===== src/Drange/Tests.antt =====
-- The delete files of a small update.
use structor.Common.{◌-◌, [], ◌∷◌, true, false, some, ◌≡◌, refl, arith}
use structor.Drange.{range_line, delete_sql, drange_loop, pr_drange}
use structor.Drange.Covers.{NamesKeys, delete_seq, pr_drange-names}

-- Rows 6 to 9: the keys 6 and 7 end one block, and 32 and 33 start the next.
two_ranges : pr_drange true false 10 6 4 1 ≡ some (range_line 6 7 ∷ range_line 32 33 ∷ [])
unfolding pr_drange drange_loop
two_ranges = refl

-- The last key, 33, is not deleted.
three_deletes :
    pr_drange false true 10 6 4 1
    ≡ some (delete_sql 6 5 ∷ delete_sql 6 6 ∷ delete_sql 7 7 ∷ delete_sql 32 32 ∷ [])
unfolding pr_drange drange_loop
three_deletes = refl

pr_drange-names_example :
    NamesKeys (delete_seq 10 1) 4 6 33 (pr_drange false false 10 6 4 1)
    × NamesKeys (delete_seq 10 1) 4 6 33 (pr_drange true false 10 6 4 1)
    × NamesKeys (delete_seq 10 1) (4 - 1) 6 33 (pr_drange false true 10 6 4 1)
pr_drange-names_example =
    pr_drange-names 10 6 4 1 33 (omega arith) (omega arith) (omega arith) (omega arith)
      (omega arith) (omega arith)
