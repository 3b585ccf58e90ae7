-- ===== src/Qgen/Sequence.antt =====
-- The main program of qgen.c: the seeds of the streams and the queries that it fills, in order.
pub mod Once
pub mod Perturbed
mod Tests
use structor.Common.{
  ℕ, zero, suc, ◌+◌, ◌-◌, ◌%◌, List, [], ◌∷◌, get_elem?, modify, Option, none, some, ℤ, pos, negsuc,
}
use structor.Rng.{next_rand}
use structor.Seeds.{Seed}
use structor.Text.{Text, dec}
use structor.Qgen.Permutation.{permutation}
use structor.Qgen.Qsub.{atoi}

-- SEQUENCE(stream, query); none outside of the table.
unfoldable pub sequence : ℕ → ℕ → Option ℕ
sequence stream zero = none
sequence stream (suc query) = elim (get_elem? permutation (stream % 41)) [
  | none ↦ none
  | some row ↦ get_elem? row query
]

-- The numbers from i on, n of them.
abbrev pub numbered : ℕ → ℕ → List ℕ
numbered zero i = []
numbered (suc n) i = i ∷ numbered n (i + 1)

abbrev pub put_name : Option ℕ → Option (List Text) → Option (List Text)
put_name none ts = none
put_name (some n) none = none
put_name (some n) (some ts) = some (dec n ∷ ts)

-- `sprintf(qname, "%d", SEQUENCE(snum, i))` for each number.
unfoldable pub sequenced : ℕ → List ℕ → Option (List Text)
sequenced stream [] = some []
sequenced stream (i ∷ is) = put_name (sequence stream i) (sequenced stream is)

-- The same for the arguments; a negative number is no place of the table, nor is one beyond the ints.
abbrev pub place_of : Option ℤ → ℕ
place_of none = 0
place_of (some (pos n)) = n
place_of (some (negsuc n)) = 0

abbrev pub places : List Text → List ℕ
places [] = []
places (a ∷ as_text) = place_of (atoi a) ∷ places as_text

abbrev pub names : List ℕ → List Text
names [] = []
names (n ∷ ns) = dec n ∷ names ns

-- QUERIES_PER_SET
abbrev pub queries_per_set : ℕ
queries_per_set = 22

-- The names that `qsub` is called with, for the stream number of -p and the arguments behind the options.
unfoldable pub main_queries : ℤ → List Text → Option (List Text)
main_queries (pos snum) [] = sequenced snum (numbered queries_per_set 1)
main_queries (pos snum) (a ∷ rest) = sequenced snum (places (a ∷ rest))
main_queries (negsuc n) [] = some (names (numbered queries_per_set 1))
main_queries (negsuc n) (a ∷ rest) = some (a ∷ rest)

abbrev pub set_value : ℕ → Seed → Seed
set_value v s = record s { value = v }

-- `for (i=1; i <= QUERIES_PER_SET; i++)` from i on, with the value of stream 0.
unfoldable pub perturb_loop : ℕ → ℕ → ℕ → List Seed → List Seed
perturb_loop zero i v seeds = seeds
perturb_loop (suc n) i v seeds =
    perturb_loop n (i + 1) (next_rand v)
      (modify (modify seeds 0 (set_value (next_rand v))) i (set_value (next_rand v)))

-- The streams of the queries from the number of -r.
unfoldable pub perturb : ℕ → List Seed → List Seed
perturb rndm seeds = perturb_loop queries_per_set 1 rndm (modify seeds 0 (set_value rndm))
