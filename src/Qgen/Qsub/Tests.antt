-- ===== src/Qgen/Qsub/Tests.antt =====
-- The properties of `qsub` at concrete inputs.
use structor.Common.{
  List, [], ◌∷◌, ◌++◌, true, false, some, none, pos, negsuc, if◌then◌else◌, ◌==◌, ◌≡◌, refl, arith,
}
use structor.Text.{codes, dec, dec_digits}
use structor.DistFile.{scan_long, scan_digits}
use structor.Qgen.Qsub.{Query, substitute_line}
use structor.Qgen.Qsub.Tags.{named, query_name, parameter, Part}
use structor.Qgen.Qsub.Template.{Pieces, substitute_line-rows}

abbrev query_5 : Query
query_5 = record {
  qtag = codes "5";
  snum = negsuc 0;
  db_name = codes "ssb";
  osuff = codes ".";
  comment = false;
  ansi = false;
  dbase = true;
  explain = true;
  output = false;
  dflt_num = false;
  param = λ k. if k == 12 then some (codes "ASIA") else none;
}

abbrev parts : List Part
parts =
    record { front = codes "r = "; tag = parameter 12 }
    ∷ record { front = codes " /*"; tag = named query_name true }
    ∷ []

abbrev lines : List Pieces
lines = record { parts = parts; last = codes "\n" } ∷ record { parts = []; last = codes ";\n" } ∷ []

substitute_line-rows_example :
    substitute_line query_5 (codes "a " ++ (b':' ∷ (b'n' ∷ codes " 7 b\n")))
    ≡ some (codes "a --#SET ROWS_FETCH 7\na ")
unfolding dec dec_digits scan_long scan_digits
substitute_line-rows_example =
    substitute_line-rows query_5 (codes "a ") (codes " 7 b\n") (pos 7) (ground arith) refl
