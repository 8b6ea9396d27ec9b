-- ===== src/Charts/Shape/Aggregate/Exact.antt =====
-- Sums of whole numbers: for an additive measure `combine` and `rankBy` of
-- frontend/src/charts/shape.ts add up exactly, as long as the total is a safe integer.
use simply_se.Base.{
  ℕ, ◌+◌, ◌≤◌, ◌≡◌, refl, ◌∙◌, ap, ap₂, Bool, true, List, [], ◌∷◌, String, filter, map, All, arith,
  Bool-cases, inl, inr, ltb, All-filter,
}
use simply_se.Base.Sort.{sum_by, sum_by-sort_by, All-sort_by}
use simply_se.Charts.Number.{Arithmetic, IsExact, max_safe}
use simply_se.Charts.Types.{Row}
use simply_se.Charts.Shape.Aggregate.{
  Combined, Group, combine_from, combine, group_rows, to_group, rank_before, rank_by,
}
use simply_se.Charts.Shape.Aggregate.Groups.{sum_by-group_rows, All-group_rows}

-- Every row carries a whole number, as its value and as its weight.
abbrev pub Counts : (N : Arithmetic) → (Row N → ℕ) → List (Row N) → Type 0
Counts N c rows = All (λ r. (r.value ≡ N.of_ℕ (c r)) × (r.weight ≡ N.of_ℕ (c r))) rows

-- The sum of a list of numbers, for statements.
unfoldable pub sum_num : (N : Arithmetic) → List N.Num → N.Num
sum_num N [] = N.of_ℕ 0
sum_num N (x ∷ xs) = N.add x (sum_num N xs)

module _ (N : Arithmetic) (exact : IsExact N) (c : Row N → ℕ) where
  abbrev whole : ℕ → Combined N
  whole n = record { value = N.of_ℕ n; weight = N.of_ℕ n }

  combine_from_exact :
      (n : ℕ) (rows : List (Row N))
      → Counts N c rows
      → n + sum_by c rows ≤ max_safe
      → combine_from N true (N.of_ℕ n) (N.of_ℕ n) rows ≡ whole (n + sum_by c rows)
  unfolding combine_from sum_by
  combine_from_exact n [] h b = let same : n + 0 ≡ n = omega arith in rw same
  combine_from_exact n (r ∷ rows) ((v, w), h) b =
      let next : N.add (N.of_ℕ n) (N.of_ℕ (c r)) ≡ N.of_ℕ (n + c r) =
        exact.add-of_ℕ n (c r) (omega arith) in
      let assoc : n + c r + sum_by c rows ≡ n + (c r + sum_by c rows) = omega arith in
      ap₂ (λ a b. combine_from N true a b rows) (ap (N.add (N.of_ℕ n)) w ∙ next)
        (ap (N.add (N.of_ℕ n)) v ∙ next)
      ∙ combine_from_exact (n + c r) rows h (omega arith)
      ∙ ap whole assoc

  pub combine_exact :
      (rows : List (Row N))
      → Counts N c rows
      → sum_by c rows ≤ max_safe
      → combine N true rows ≡ whole (sum_by c rows)
  unfolding combine
  combine_exact rows h b =
      let start : 0 + sum_by c rows ≡ sum_by c rows = omega arith in
      combine_from_exact 0 rows h (omega arith) ∙ ap whole start

  -- What a function of the rows adds up to over groups.
  abbrev pub group_sum : (Row N → ℕ) → List (Group N) → ℕ
  group_sum f gs = sum_by (λ g. sum_by f g.rows) gs

  module _ (f : Row N → ℕ) (small : (r : Row N) → f r ≤ c r) where
    pub sum_small : (rows : List (Row N)) → sum_by f rows ≤ sum_by c rows
    unfolding sum_by
    sum_small [] = omega arith
    sum_small (r ∷ rows) = omega (arith, small r, sum_small rows)

    -- A group that is left out carries no weight, so it does not count.
    sum_kept :
        (out : List (String × List (Row N)))
        → All (λ g. Counts N c g.1) out
        → sum_by (λ g. sum_by c g.1) out ≤ max_safe
        → group_sum f (filter (λ g. N.lt (N.of_ℕ 0) g.weight) (map (to_group N true) out))
          ≡ sum_by (λ g. sum_by f g.1) out
    unfolding to_group sum_by
    sum_kept [] h b = refl
    sum_kept ((k, rows) ∷ out) (h, hs) b =
        let total = combine_exact rows h (omega arith) in
        let weighs : (to_group N true (k, rows)).weight ≡ N.of_ℕ (sum_by c rows) =
          ap (λ t. t.weight) total in
        let test : N.lt (N.of_ℕ 0) (to_group N true (k, rows)).weight ≡ ltb 0 (sum_by c rows) =
          ap (N.lt (N.of_ℕ 0)) weighs
          ∙ exact.lt-of_ℕ 0 (sum_by c rows) (omega arith) (omega arith) in
        let ih = sum_kept out hs (omega arith) in
        let bound = sum_small rows in
        elim (Bool-cases (ltb 0 (sum_by c rows))) [
          | inl e ↦ rw (test ∙ e) (ap (λ n. sum_by f rows + n) ih)
          | inr e ↦ rw (test ∙ e) (ground (arith, ih))
        ]

    -- Ranking the groups of the rows loses nothing.
    pub sum_ranked :
        (locale_le : String → String → Bool) (key : Row N → String) (rows : List (Row N))
        → Counts N c rows
        → sum_by c rows ≤ max_safe
        → group_sum f (rank_by N locale_le true (group_rows key rows)) ≡ sum_by f rows
    unfolding rank_by
    sum_ranked locale_le key rows h b =
        let out = group_rows key rows in
        let kept = filter (λ g. N.lt (N.of_ℕ 0) g.weight) (map (to_group N true) out) in
        sum_by-sort_by (rank_before N locale_le) (λ g. sum_by f g.rows) kept
        ∙ sum_kept out (All-group_rows _ key rows h) (omega (arith, sum_by-group_rows c key rows))
        ∙ sum_by-group_rows f key rows

  -- A group with the whole number that its rows add up to.
  pub record IsCounted (g : Group N) : Type 0 where
    pub counts : Counts N c g.rows
    pub safe : sum_by c g.rows ≤ max_safe
    pub value : g.value ≡ N.of_ℕ (sum_by c g.rows)
    pub weight : g.weight ≡ N.of_ℕ (sum_by c g.rows)

  to_group-IsCounted :
      (out : List (String × List (Row N)))
      → All (λ g. Counts N c g.1) out
      → sum_by (λ g. sum_by c g.1) out ≤ max_safe
      → All IsCounted (map (to_group N true) out)
  unfolding to_group sum_by
  to_group-IsCounted [] h b = tt
  to_group-IsCounted ((k, rows) ∷ out) (h, hs) b =
      let total = combine_exact rows h (omega arith) in
      (
        record {
          counts = h;
          safe = omega arith;
          value = ap (λ t. t.value) total;
          weight = ap (λ t. t.weight) total;
        },
        to_group-IsCounted out hs (omega arith),
      )

  pub rank_by-IsCounted :
      (locale_le : String → String → Bool) (key : Row N → String) (rows : List (Row N))
      → Counts N c rows
      → sum_by c rows ≤ max_safe
      → All IsCounted (rank_by N locale_le true (group_rows key rows))
  unfolding rank_by
  rank_by-IsCounted locale_le key rows h b = All-sort_by (rank_before N locale_le) IsCounted _ (
      All-filter IsCounted (λ g. N.lt (N.of_ℕ 0) g.weight) _
        (to_group-IsCounted (group_rows key rows) (All-group_rows _ key rows h)
          (omega (arith, sum_by-group_rows c key rows))))
