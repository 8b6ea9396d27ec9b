-- ===== src/Charts/Shape/Matrix/Keeping.antt =====
-- Which names a matrix shows: every row of the data has exactly one row of the matrix, and one
-- column (`keepNames` of frontend/src/charts/shape.ts).
use simply_se.Base.{
  ℕ, ◌+◌, ◌≤◌, ◌≡◌, ◌≢◌, ◌⊎◌, refl, ◌∙◌, ap, sym, subst, Bool, true, false, List, [], ◌∷◌, String,
  str_eq, includes, if◌then◌else◌, ltb, length, take, filter, map, All, All-apply, All-zip,
  All-take, All-filter, Bool-cases, inl, inr, arith, str_eq_refl,
}
use simply_se.Base.Sort.{sum_by, sum_by-take-drop, sum_by-sort_by, All-sort_by}
use simply_se.Charts.Number.{Arithmetic, IsExact, max_safe}
use simply_se.Charts.Types.{Row, other}
use simply_se.Charts.Shape.Aggregate.{slice_end, Group, group_rows, to_group, rank_by, rank_before}
use simply_se.Charts.Shape.Aggregate.Groups.{
  keys, group_rows-Partitions, group_rows-AreKeyed, names-group_rows,
}
use simply_se.Charts.Shape.Aggregate.Exact.{Counts, sum_ranked}
use simply_se.Charts.Shape.Hierarchy.{dim_of}
use simply_se.Charts.Shape.Matrix.{head_names, keep_names, kept_name}
use simply_se.Charts.Shape.Matrix.Occurs.{
  mark, occurs, occurs-distinct, sum_by-map-le, differs, placed,
}

module _ (N : Arithmetic) where
  abbrev name_count : String → List (Group N) → ℕ
  name_count k gs = sum_by (λ g. mark k g.name) gs

  occurs-map-name :
      (k : String) (gs : List (Group N)) → occurs k (map (λ g. g.name) gs) ≡ name_count k gs
  unfolding sum_by
  occurs-map-name k [] = refl
  occurs-map-name k (g ∷ gs) = ap (λ n. mark k g.name + n) (occurs-map-name k gs)

  occurs-keys :
      (k : String) (out : List (String × List (Row N)))
      → sum_by (λ g. mark k g.0) out ≡ occurs k (keys out)
  unfolding sum_by
  occurs-keys k [] = refl
  occurs-keys k ((j, rs) ∷ out) = ap (λ n. mark k j + n) (occurs-keys k out)

  -- A name heads the matrix no more often than it is a key.
  occurs-head_names :
      (k : String) (limit : ℕ) (gs : List (Group N))
      → occurs k (head_names N limit gs) ≤ name_count k gs
  unfolding head_names
  occurs-head_names k limit gs =
      let split = sum_by-take-drop (λ g. mark k g.name) (slice_end limit (length gs)) gs in
      elim (Bool-cases (ltb limit (length gs))) [
        | inl e ↦
            rw e (omega (arith, occurs-map-name k (take (slice_end limit (length gs)) gs), split))
        | inr e ↦ rw e (omega (arith, occurs-map-name k gs))
      ]

  module _ (locale_le : String → String → Bool) (dim : String) (rows : List (Row N)) where
    abbrev ranked : List (Group N)
    ranked = rank_by N locale_le true (group_rows (dim_of N dim) rows)

    name_count-ranked :
        (k : String) → name_count k ranked ≤ occurs k (keys (group_rows (dim_of N dim) rows))
    unfolding rank_by to_group
    name_count-ranked k =
        let out = group_rows (dim_of N dim) rows in
        let kept = filter (λ g. N.lt (N.of_ℕ 0) g.weight) (map (to_group N true) out) in
        omega (
          arith,
          sum_by-sort_by (rank_before N locale_le) (λ g. mark k g.name) kept,
          sum_by-map-le (λ g. mark k g.0) (λ g. mark k g.name) (to_group N true)
              (λ g. N.lt (N.of_ℕ 0) g.weight) out (λ x. refl),
          occurs-keys k out,
        )

    to_group-All {κ} :
        (P : String → List (Row N) → Type κ) (out : List (String × List (Row N)))
        → All (λ g. P g.0 g.1) out
        → All (λ g. P g.name g.rows) (map (to_group N true) out)
    unfolding to_group
    to_group-All P [] h = tt
    to_group-All P (g ∷ out) (p, h) = (p, to_group-All P out h)

    -- What holds of the groups holds of the ranked ones.
    ranked-All {κ} :
        (P : String → List (Row N) → Type κ)
        → All (λ g. P g.0 g.1) (group_rows (dim_of N dim) rows)
        → All (λ g. P g.name g.rows) ranked
    unfolding rank_by
    ranked-All P h =
        let out = group_rows (dim_of N dim) rows in
        All-sort_by (rank_before N locale_le) (λ g. P g.name g.rows) _
          (All-filter (λ g. P g.name g.rows) (λ g. N.lt (N.of_ℕ 0) g.weight)
            (map (to_group N true) out) (to_group-All P out h))

    map-names {κ} :
        (P : String → Type κ) (gs : List (Group N))
        → All (λ g. P g.name) gs
        → All P (map (λ g. g.name) gs)
    map-names P [] h = tt
    map-names P (g ∷ gs) (p, h) = (p, map-names P gs h)

    pub head_names-names {κ} :
        (P : String → Type κ) (limit : ℕ)
        → All (λ r. P (dim_of N dim r)) rows
        → All P (head_names N limit ranked)
    unfolding head_names
    head_names-names P limit h =
        let all = ranked-All (λ n rs. P n) (names-group_rows (dim_of N dim) P rows h) in
        elim (Bool-cases (ltb limit (length ranked))) [
          | inl e ↦ rw e (
              map-names P (take (slice_end limit (length ranked)) ranked)
                (All-take (λ g. P g.name) (slice_end limit (length ranked)) ranked all))
          | inr e ↦ rw e (map-names P ranked all)
        ]

    occurs-head-le_one : (k : String) (limit : ℕ) → occurs k (head_names N limit ranked) ≤ 1
    occurs-head-le_one k limit =
        let parts = group_rows-Partitions (dim_of N dim) rows in
        omega (
          arith,
          occurs-head_names k limit ranked,
          name_count-ranked k,
          occurs-distinct k (keys (group_rows (dim_of N dim) rows)) parts.once,
        )

    absent_of_all :
        (k : String) (names : List String)
        → All (λ n. str_eq n k ≡ false) names
        → occurs k names ≡ 0
    unfolding sum_by
    absent_of_all k [] h = refl
    absent_of_all k (n ∷ names) (p, h) = ground (arith, absent_of_all k names h, p)

    -- A row of positive weight is counted under one of the ranked names.
    module _ (exact : IsExact N) (c : Row N → ℕ) (counts : Counts N c rows)
        (safe : sum_by c rows ≤ max_safe) where
      abbrev at_name : String → Row N → ℕ
      at_name k r = if str_eq (dim_of N dim r) k then c r else 0

      none_named :
          (k n : String) (rs : List (Row N))
          → All (λ r. dim_of N dim r ≡ n) rs
          → str_eq n k ≡ false
          → sum_by (at_name k) rs ≡ 0
      unfolding sum_by
      none_named k n [] h e = refl
      none_named k n (r ∷ rs) (p, h) e =
          let apart : str_eq (dim_of N dim r) k ≡ false = rw p e in
          rw apart (ground (arith, none_named k n rs h e))

      group_none :
          (k : String) (gs : List (Group N))
          → All (λ g. All (λ r. dim_of N dim r ≡ g.name) g.rows) gs
          → includes (map (λ g. g.name) gs) k ≡ false
          → sum_by (λ g. sum_by (at_name k) g.rows) gs ≡ 0
      unfolding sum_by
      group_none k [] h e = refl
      group_none k (g ∷ gs) (p, h) e =
          omega
            (arith, none_named k g.name g.rows p (ground arith), group_none k gs h (ground arith))

      zero-All : (f : Row N → ℕ) (rs : List (Row N)) → sum_by f rs ≡ 0 → All (λ r. f r ≡ 0) rs
      unfolding sum_by
      zero-All f [] h = tt
      zero-All f (r ∷ rs) h = (omega arith, zero-All f rs (omega arith))

      -- A name that is not ranked has no weight.
      weightless :
          (k : String)
          → includes (map (λ g. g.name) ranked) k ≡ false
          → All (λ r. at_name k r ≡ 0) rows
      weightless k e =
          let keyed =
            ranked-All (λ n rs. All (λ r. dim_of N dim r ≡ n) rs)
              (group_rows-AreKeyed (dim_of N dim) rows) in
          zero-All (at_name k) rows (
            sym (
              sum_ranked N exact c (at_name k) (λ r. ground arith) locale_le (dim_of N dim) rows
                counts safe)
            ∙ group_none k ranked keyed e)

      abbrev IsRanked : Row N → Type 0
      IsRanked r = (c r ≡ 0) ⊎ (includes (map (λ g. g.name) ranked) (dim_of N dim r) ≡ true)

      each_ranked :
          (rs : List (Row N))
          → ((k : String)
              → includes (map (λ g. g.name) ranked) k ≡ false
              → All (λ r. at_name k r ≡ 0) rs)
          → All IsRanked rs
      each_ranked [] h = tt
      each_ranked (r ∷ rs) h = (
        elim (Bool-cases (includes (map (λ g. g.name) ranked) (dim_of N dim r))) [
          | inl e ↦ inr e
          | inr e ↦
              let zero_here = (h (dim_of N dim r) e).0 in
              let same = str_eq_refl (dim_of N dim r) in inl (ground arith)
        ],
        each_ranked rs λ k e. (h k e).1,
      )

      all-AreRanked : All IsRanked rows
      all-AreRanked = each_ranked rows weightless

      head_all :
          (limit : ℕ)
          → ltb limit (length ranked) ≡ false
          → head_names N limit ranked ≡ map (λ g. g.name) ranked
      unfolding head_names
      head_all limit e = rw e refl

      -- A row with a weight has exactly one place among the names that are shown.
      kept_once :
          (limit : ℕ) (r : Row N)
          → All (λ s. dim_of N dim s ≢ other) rows
          → dim_of N dim r ≢ other
          → IsRanked r
          → (c r ≡ 0)
            ⊎ (occurs
                  (kept_name N (keep_names N ranked limit).kept dim r)
                  (keep_names N ranked limit).names
                ≡ 1)
      unfolding keep_names kept_name
      kept_once limit r h p (inl e) = inl e
      kept_once limit r h p (inr e) =
          let k = dim_of N dim r in
          let one = occurs-head-le_one k limit in
          let heads =
            head_names-names (λ n. str_eq n other ≡ false) limit
              (All-apply _ _ (λ s q. differs (dim_of N dim s) other q) rows h) in
          inr (
            placed (ltb limit (length ranked)) k (head_names N limit ranked) one
              (absent_of_all other (head_names N limit ranked) heads) p
              (λ few. subst (λ names. includes names k ≡ true) (sym (head_all limit few)) e))

      -- So does every row of the data that has a weight.
      pub kept_once_all :
          (limit : ℕ)
          → All (λ s. dim_of N dim s ≢ other) rows
          → All
              (λ r.
                (c r ≡ 0)
                ⊎ (occurs
                      (kept_name N (keep_names N ranked limit).kept dim r)
                      (keep_names N ranked limit).names
                    ≡ 1))
              rows
      kept_once_all limit h =
          All-apply _ _ (λ r p. kept_once limit r h p.0 p.1) rows (All-zip _ _ rows h all-AreRanked)
