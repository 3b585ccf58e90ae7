-- ===== src/Permute.antt =====
-- permute.c: a random permutation, handed out one member a call, and `agg_str` of bm_utils.c.
pub mod Swap
pub mod Shuffle
mod Tests
use structor.Common.{
  ℕ, zero, suc, ◌+◌, ◌-◌, List, [], ◌∷◌, ◌++◌, length, get_elem?, get_or, set, leb, if◌then◌else◌,
  Option, none, some,
}
use structor.Dist.{Gen, ◌>>=◌, ret, lift, random, Distribution, dist_member}
use structor.Text.{Text}

-- The static variables of `permute` and `permute_dist`: the position, the array and its length.
pub record Permutation : Type 0 where
  pub source : ℕ
  pub set : List ℕ

-- The numbers from i on, n of them.
abbrev pub counted_from : ℕ → ℕ → List ℕ
counted_from zero i = []
counted_from (suc n) i = i ∷ counted_from n (i + 1)

-- The exchange of two members of the array.
unfoldable pub swap : List ℕ → ℕ → ℕ → List ℕ
swap a i j = set (set a j (get_or a i 0)) i (get_or a j 0)

-- The second loop of `permute`, from i on.
unfoldable pub shuffle : ℕ → ℕ → ℕ → ℕ → List ℕ → Gen (List ℕ)
shuffle zero i c s a = ret a
shuffle (suc n) i c s a = do source ← random 0 (c - 1) s; shuffle n (i + 1) c s (swap a i source)

-- `permute` with an array of c numbers: the new permutation.
unfoldable pub permute_new : ℕ → ℕ → Gen Permutation
permute_new c s = do a ← shuffle c 0 c s (counted_from c 0); ret (record { source = 0; set = a })

-- `permute` without an array: the next position, from the start again behind the end.
unfoldable pub permute_next : ℕ → Permutation → Permutation
permute_next c p = record p {
  source = if leb c (p.source + 1) then p.source + 1 - c else p.source + 1;
}

-- The member that a call of `permute` points to.
abbrev pub current : Permutation → Option ℕ
current p = get_elem? p.set p.source

-- The rounds of the loop of `agg_str` after the first, which call `permute_dist` with NULL.
unfoldable pub agg_rest : ℕ → Distribution → Permutation → Gen (Text × Permutation)
agg_rest zero d p = ret ([], p)
agg_rest (suc n) d p = do
  i ← lift (current (permute_next d.count p))
  t ← lift (dist_member d i)
  rest ← agg_rest n d (permute_next d.count p)
  ret (t ++ (b' ' ∷ rest.0), rest.1)

-- The text without its last character.
abbrev pub without_last : Text → Text
without_last [] = []
without_last (c ∷ []) = []
without_last (c ∷ (x ∷ xs)) = c ∷ without_last (x ∷ xs)

-- `agg_str`, with the `permute_dist` that it calls, for a count that is not 0.
unfoldable pub agg_str : Distribution → ℕ → ℕ → Gen Text
agg_str d count col = do
  p ← permute_new d.count col
  i ← lift (current p)
  t ← lift (dist_member d i)
  rest ← agg_rest (count - 1) d p
  ret (without_last (t ++ (b' ' ∷ rest.0)))
