-- ===== src/Table/Agree.antt =====
-- Two runs of the loop of `gen_tbl` from states that agree on the streams of the table.
use structor.Common.{
  ℕ, zero, suc, ◌+◌, ◌<◌, List, [], ◌∷◌, map, pos, length, get_elem?, length-map, get_or-map, Bool,
  Option, some, ◌≡◌, refl, sym, ap, ◌∙◌, arith,
}
use mathlib.Core.Path.{subst}
use structor.Seeds.{Seed, Streams, no_seed, clear_usage, row_start, row_stop, stop_seed, stop_table}
use mathlib.Core.Option.{some-injective}
use structor.Dist.Agree.{Sim, Agree, Agree-ret, Agree-bind}
use structor.Table.{Run, Row, Call, Segment, make_row, child_of, start_row, stop_row, gen_rows}
use structor.Table.Runs.{Source, call}

-- The same function on every seed.
map-Sim :
    (S : ℕ → Bool) (f : Seed → Seed) (st st' : Streams) (xs ys : List ℕ)
    → Sim S st st'
    → Sim S
        (record { seeds = map f st.seeds; stray = xs })
        (record { seeds = map f st'.seeds; stray = ys })
map-Sim S f st st' xs ys sim = record {
  size = length-map st.seeds f ∙ sim.size;
  size' = length-map st'.seeds f ∙ sim.size';
  same = λ i h on.
      get_or-map st.seeds i f no_seed no_seed (omega (arith, sim.size))
      ∙ ap f (sim.same i h on)
      ∙ sym (get_or-map st'.seeds i f no_seed no_seed (omega (arith, sim.size')));
}

Agree-start_row : {S : ℕ → Bool} → Agree S (λ a b. Unit {0}) start_row start_row
unfolding row_start
Agree-start_row {S} = record {
  at = λ st st' t t' a b sim e e'. (
    tt,
    subst (λ v. Sim S v t') (ap (λ (v : ℕ × Streams). v.1) (some-injective _ _ e))
        (subst (λ v. Sim S (row_start st) v) (ap (λ (v : ℕ × Streams). v.1) (some-injective _ _ e'))
          (map-Sim S clear_usage st st' st.stray st'.stray sim)),
  );
}

Agree-stop_row :
    {S : ℕ → Bool} (set_seeds : Bool) (t : ℕ)
    → Agree S (λ a b. Unit {0}) (stop_row set_seeds t) (stop_row set_seeds t)
unfolding row_stop
Agree-stop_row {S} set_seeds t = record {
  at = λ st st' u u' a b sim e e'. (
    tt,
    subst (λ v. Sim S v u') (ap (λ (v : ℕ × Streams). v.1) (some-injective _ _ e))
        (subst (λ v. Sim S (row_stop set_seeds child_of t st) v)
          (ap (λ (v : ℕ × Streams). v.1) (some-injective _ _ e'))
          (map-Sim S (stop_seed set_seeds (pos (stop_table t)) (child_of (stop_table t))) st st'
            st.stray st'.stray sim)),
  );
}

module _ {run : Run} {t : ℕ} {A : Type 0} (src : Source run t A) (S : ℕ → Bool) (R : A → A → Type 0)
    (same : (i : ℕ) → Agree S R (src.mk i) (src.mk i)) where
  -- The calls load related rows, one by one, with the same update number.
  abbrev pub AllSame : Segment → List Call → List Call → Type 0
  AllSame s [] [] = Unit
  AllSame s [] (d ∷ ds) = ⊥
  AllSame s (c ∷ cs) [] = ⊥
  AllSame s (c ∷ cs) (d ∷ ds) =
      ((a b : A) × (c ≡ call src s a) × (d ≡ call src s b) × R a b) × AllSame s cs ds

  -- Calls j of both.
  pub AllSame-at :
      (s : Segment) (j : ℕ) (cs ds : List Call)
      → AllSame s cs ds
      → j < length cs
      → (a b : A) × (get_elem? cs j ≡ some (call src s a))
        × (get_elem? ds j ≡ some (call src s b))
        × R a b
  AllSame-at s j [] ds all h = absurd (omega arith)
  AllSame-at s j (c ∷ cs) [] all h = absurd all
  AllSame-at s zero (c ∷ cs) (d ∷ ds) ((a, b, ea, eb, r), all) h = (a, b, ap some ea, ap some eb, r)
  AllSame-at s (suc j) (c ∷ cs) (d ∷ ds) (first, all) h = AllSame-at s j cs ds all (omega arith)

  abbrev Related : Segment → Option Row × Segment → Option Row × Segment → Type 0
  Related s p q = (a b : A) × (p ≡ (some (src.into a), s)) × (q ≡ (some (src.into b), s)) × R a b

  Agree-make_row :
      (total total' i : ℕ) (s : Segment)
      → Agree S (Related s) (make_row run t total i s) (make_row run t total' i s)
  Agree-make_row total total' i s =
      rw (src.made total i s, src.made total' i s)
        (Agree-bind (src.mk i) (src.mk i) _ _ (same i) λ a b r. Agree-ret _ _ (a, b, refl, refl, r))

  pub Agree-gen_rows :
      (total total' n i : ℕ) (s : Segment)
      → Agree S (AllSame s) (gen_rows run t total n i s) (gen_rows run t total' n i s)
  unfolding gen_rows
  Agree-gen_rows total total' zero i s = Agree-ret [] [] tt
  Agree-gen_rows total total' (suc n) i s =
      Agree-bind start_row start_row _ _ Agree-start_row λ x y h.
        Agree-bind (make_row run t total i s) (make_row run t total' i s) _ _
          (Agree-make_row total total' i s)
          λ p q rel.
            let (a, b, ep, eq, r) = rel in
            Agree-bind (stop_row run.set_seeds t) (stop_row run.set_seeds t) _ _
              (Agree-stop_row run.set_seeds t)
              λ x' y' h'.
                Agree-bind (gen_rows run t total n (i + 1) p.1)
                  (gen_rows run t total' n (i + 1) q.1) _ _
                  (rw
                    (
                      ap (λ (v : Option Row × Segment). v.1) ep,
                      ap (λ (v : Option Row × Segment). v.1) eq,
                    )
                    (Agree-gen_rows total total' n (i + 1) s))
                  λ cs ds all. Agree-ret _ _ (rw (ep, eq, src.loads) ((a, b, refl, refl, r), all))
