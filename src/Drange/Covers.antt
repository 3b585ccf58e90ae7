-- ===== src/Drange/Covers.antt =====
-- The keys that a delete file names.
use structor.Common.{
  ℕ, zero, suc, ◌+◌, ◌-◌, ◌/◌, ◌^◌, ◌≤◌, ◌<◌, List, [], ◌∷◌, Bool, true, false, ◌==◌, ◌&&◌, ltb,
  leb, Option, some, refl, Bool-cases, inl, inr, ◌⊎◌, ◌↔◌, ◌≡◌, sym, ap, ◌∙◌, arith,
}
use mathlib.Core.Path.{subst}
use structor.Drange.{
  mk_sparse_long, Entry, key_line, range_line, delete_sql, drange_loop, pr_drange,
}

-- A key that a line of the file stands for.
abbrev pub Names : ℕ → Entry → Type 0
Names x (key_line k) = x ≡ k
Names x (range_line a b) = (a ≤ x) × (x ≤ b)
Names x (delete_sql a b) = (a ≤ x) × (x ≤ b)

abbrev pub NamedBy : ℕ → List Entry → Type 0
NamedBy x [] = ⊥
NamedBy x (e ∷ es) = Names x e ⊎ NamedBy x es

-- x is the key of one of the n rows from `child` on.
abbrev pub IsKey : ℕ → ℕ → ℕ → ℕ → Type 0
IsKey seq n child x = (j : ℕ) × (j < n) × (x ≡ mk_sparse_long (child + j) seq)

IsKey-first : (seq n child x : ℕ) → x ≡ mk_sparse_long child seq → IsKey seq (suc n) child x
IsKey-first seq n child x e =
    let same : child + 0 ≡ child = omega arith in
    (0, omega arith, e ∙ ap (λ (k : ℕ). mk_sparse_long k seq) (sym same))

IsKey-later : (seq n child x : ℕ) → IsKey seq n (child + 1) x → IsKey seq (suc n) child x
IsKey-later seq n child x (j, below, e) =
    let same : child + 1 + j ≡ child + suc j = omega arith in
    (suc j, omega arith, e ∙ ap (λ (k : ℕ). mk_sparse_long k seq) same)

IsKey-cases :
    (seq n child x : ℕ)
    → IsKey seq (suc n) child x
    → (x ≡ mk_sparse_long child seq) ⊎ IsKey seq n (child + 1) x
IsKey-cases seq n child x (zero, below, e) =
    let same : child + 0 ≡ child = omega arith in
    inl (e ∙ ap (λ (k : ℕ). mk_sparse_long k seq) same)
IsKey-cases seq n child x (suc j, below, e) =
    let same : child + suc j ≡ child + 1 + j = omega arith in
    inr (j, omega arith, e ∙ ap (λ (k : ℕ). mk_sparse_long k seq) same)

-- The file of ranges names the range that is open and the keys that follow.
ranges-name :
    (seq n child start last x : ℕ)
    → start ≤ last + 1
    → NamedBy x (drange_loop true false seq n child start last)
      ↔ (((start ≤ x) × (x ≤ last)) ⊎ IsKey seq n child x)
unfolding drange_loop
ranges-name seq zero child start last x h = (
  λ named. elim named [ inl here ↦ inl here | inr nothing ↦ absurd nothing ],
  λ own. elim own [ inl here ↦ inl here | inr (j, below, e) ↦ absurd (omega arith) ],
)
ranges-name seq (suc n) child start last x h =
    elim (Bool-cases (mk_sparse_long child seq == last + 1)) [
      | inl next ↦ rw next (
          let e : mk_sparse_long child seq ≡ last + 1 = ground arith in
          let (from, to) =
            ranges-name seq n (child + 1) start (mk_sparse_long child seq) x (omega arith) in
          (
            λ named. elim (from named) [
              | inl within ↦ elim (Bool-cases (x == last + 1)) [
                | inl new ↦
                    let same : x ≡ mk_sparse_long child seq = ground arith in
                    inr (IsKey-first seq n child x same)
                | inr old ↦ inl (ground arith)
              ]
              | inr later ↦ inr (IsKey-later seq n child x later)
            ],
            λ own. elim own [
              | inl (low, high) ↦ to (inl (low, omega arith))
              | inr key ↦ elim (IsKey-cases seq n child x key) [
                | inl new ↦ to (inl (omega arith))
                | inr later ↦ to (inr later)
              ]
            ],
          ))
      | inr gap ↦ rw gap (
          let new = mk_sparse_long child seq in
          let (from, to) = ranges-name seq n (child + 1) new new x (omega arith) in
          (
            λ named. elim named [
              | inl here ↦ inl here
              | inr rest ↦ elim (from rest) [
                | inl (low, high) ↦
                    let same : x ≡ mk_sparse_long child seq = omega arith in
                    inr (IsKey-first seq n child x same)
                | inr later ↦ inr (IsKey-later seq n child x later)
              ]
            ],
            λ own. elim own [
              | inl here ↦ inl here
              | inr key ↦ elim (IsKey-cases seq n child x key) [
                | inl e ↦ inr (to (inl (omega arith)))
                | inr later ↦ inr (to (inr later))
              ]
            ],
          ))
    ]

-- The file of keys names the keys.
keys-name :
    (seq n child start last x : ℕ)
    → NamedBy x (drange_loop false false seq n child start last) ↔ IsKey seq n child x
unfolding drange_loop
keys-name seq zero child start last x =
    (λ named. absurd named, λ (j, below, e). absurd (omega arith))
keys-name seq (suc n) child start last x =
    let new = mk_sparse_long child seq in
    let (from, to) = keys-name seq n (child + 1) new new x in
    (
      λ named. elim named [
        | inl here ↦ inr_first here
        | inr rest ↦ IsKey-later seq n child x (from rest)
      ],
      λ key. elim (IsKey-cases seq n child x key) [ inl e ↦ inl e | inr later ↦ inr (to later) ],
    )
  where
    inr_first : x ≡ mk_sparse_long child seq → IsKey seq (suc n) child x
    inr_first e = IsKey-first seq n child x e

-- The file of SQL names the range that is open, and the keys that follow but for the last.
sql-name :
    (seq n child start last x : ℕ)
    → NamedBy x (drange_loop false true seq (suc n) child start last)
      ↔ (((start ≤ x) × (x ≤ last)) ⊎ IsKey seq n child x)
unfolding drange_loop
sql-name seq zero child start last x = (
  λ named. elim named [ inl here ↦ inl here | inr nothing ↦ absurd nothing ],
  λ own. elim own [ inl here ↦ inl here | inr (j, below, e) ↦ absurd (omega arith) ],
)
sql-name seq (suc n) child start last x =
    let new = mk_sparse_long child seq in
    let (from, to) = sql-name seq n (child + 1) new new x in
    (
      λ named. elim named [
        | inl here ↦ inl here
        | inr rest ↦ elim (from rest) [
          | inl (low, high) ↦
              let same : x ≡ mk_sparse_long child seq = omega arith in
              inr (IsKey-first seq n child x same)
          | inr later ↦ inr (IsKey-later seq n child x later)
        ]
      ],
      λ own. elim own [
        | inl here ↦ inl here
        | inr key ↦ elim (IsKey-cases seq n child x key) [
          | inl e ↦ inr (to (inl (omega arith)))
          | inr later ↦ inr (to (inr later))
        ]
      ],
    )

-- The sequence number of an update's deletes.
abbrev pub delete_seq : ℕ → ℕ → ℕ
delete_seq refresh num = (num - 1) / (10000 / refresh)

-- A delete file is written, and its lines stand for the keys of n rows from min on.
abbrev pub NamesKeys : ℕ → ℕ → ℕ → ℕ → Option (List Entry) → Type 0
NamesKeys seq n min x file =
    (es : List Entry) × (file ≡ some es) × (NamedBy x es ↔ IsKey seq n min x)

pr_drange-loop :
    (gen_rng gen_sql : Bool) (refresh min cnt num : ℕ)
    → 0 < refresh
    → refresh ≤ 10000
    → min + cnt ≤ 2 ^ 30
    → pr_drange gen_rng gen_sql refresh min cnt num
      ≡ some (
          drange_loop gen_rng gen_sql
            (delete_seq refresh num)
            cnt
            min
            (mk_sparse_long min (delete_seq refresh num))
            (mk_sparse_long min (delete_seq refresh num) - 1))
unfolding pr_drange
pr_drange-loop gen_rng gen_sql refresh min cnt num divides divided fits =
    let defined : ((ltb 0 refresh && leb refresh 10000) && ltb (min + cnt) (2 ^ 31)) ≡ true =
      ground arith in
    rw defined refl

-- For refresh from 1 to 10000, min, cnt and num from 1 on, and rows up to 2^30 - 1, whose keys have at
-- most 32 bits, the delete file of an update is written. Of keys or of ranges with `gen_rng`, it names
-- exactly the keys of the `cnt` rows from `min` on. With `gen_sql` alone it names those of the first
-- cnt - 1 rows only.
pub pr_drange-names :
    (refresh min cnt num x : ℕ)
    → 0 < refresh
    → refresh ≤ 10000
    → 0 < min
    → 0 < cnt
    → 0 < num
    → min + cnt ≤ 2 ^ 30
    → NamesKeys (delete_seq refresh num) cnt min x (pr_drange false false refresh min cnt num)
      × NamesKeys (delete_seq refresh num) cnt min x (pr_drange true false refresh min cnt num)
      × NamesKeys
          (delete_seq refresh num)
          (cnt - 1)
          min
          x
          (pr_drange false true refresh min cnt num)
pr_drange-names refresh min cnt num x divides divided hmin hcnt hnum fits =
    let seq = delete_seq refresh num in
    let start = mk_sparse_long min seq in
    let positive : 1 ≤ start = omega arith in
    let (from, to) = ranges-name seq cnt min start (start - 1) x (omega arith) in
    let one : cnt ≡ suc (cnt - 1) = omega arith in
    let (sql_from, sql_to) = sql-name seq (cnt - 1) min start (start - 1) x in
    (
      (
        _,
        pr_drange-loop false false refresh min cnt num divides divided fits,
        keys-name seq cnt min start (start - 1) x,
      ),
      (
        _,
        pr_drange-loop true false refresh min cnt num divides divided fits,
        (
          λ named. elim (from named) [ inl (low, high) ↦ absurd (omega arith) | inr key ↦ key ],
          λ key. to (inr key),
        ),
      ),
      (
        _,
        pr_drange-loop false true refresh min cnt num divides divided fits,
        (
          λ named.
              elim (sql_from (
                subst (λ (c : ℕ). NamedBy x (drange_loop false true seq c min start (start - 1)))
                  one named)) [ inl (low, high) ↦ absurd (omega arith) | inr key ↦ key ],
          λ key.
              subst (λ (c : ℕ). NamedBy x (drange_loop false true seq c min start (start - 1)))
                (sym one) (sql_to (inr key)),
        ),
      ),
    )
