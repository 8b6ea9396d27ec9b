-- ===== src/Charts/Shape/Series/Columns.antt =====
-- The series of a chart together: in each bucket they add up to the total
-- (`seriesRows`, `perBucket` and `total` of frontend/src/charts/shape.ts).
use simply_se.Base.{
  ℕ, ◌+◌, ◌≤◌, ◌≡◌, refl, ◌∙◌, ap, ap₂, sym, true, List, [], ◌∷◌, String, map, get_or, take, drop,
  All, All-append, All-take, All-drop, arith, Bool,
}
use simply_se.Base.Int.{ℤ}
use simply_se.Base.Sort.{sum_by, sum_by-append, sum_by-take-drop}
use simply_se.Charts.Number.{Arithmetic, IsExact, max_safe}
use simply_se.Charts.Types.{Row, Bucket}
use simply_se.Charts.Shape.Aggregate.{Group, group_rows, rank_by}
use simply_se.Charts.Shape.Aggregate.Exact.{
  Counts, sum_num, IsCounted, sum_ranked, rank_by-IsCounted, sum_small,
}
use simply_se.Charts.Shape.Hierarchy.{dim_of}
use simply_se.Charts.Shape.Series.{
  per_bucket, SeriesRows, Series, all_rows, merged_tail, series_rows, series, to_series,
}
use simply_se.Charts.Shape.Series.Placing.{at_cell, at_cell-le}
use simply_se.Charts.Shape.Series.Totals.{per_bucket_at}

-- The sum of the values of all series in bucket `i`.
unfoldable pub column_sum : (N : Arithmetic) → ℕ → List (Series N) → N.Num
unfolding sum_num
column_sum N i parts = sum_num N (map (λ s. get_or s.values i (N.of_ℕ 0)) parts)

-- What a function of the rows adds up to over series.
abbrev parts_sum : (N : Arithmetic) → (Row N → ℕ) → List (SeriesRows N) → ℕ
parts_sum N f parts = sum_by (λ p. sum_by f p.rows) parts

abbrev groups_sum : (N : Arithmetic) → (Row N → ℕ) → List (Group N) → ℕ
groups_sum N f gs = sum_by (λ g. sum_by f g.rows) gs

module _ (N : Arithmetic) (f : Row N → ℕ) where
  sum_by-all_rows : (gs : List (Group N)) → sum_by f (all_rows N gs) ≡ groups_sum N f gs
  unfolding all_rows sum_by
  sum_by-all_rows [] = refl
  sum_by-all_rows (g ∷ gs) =
      omega (arith, sum_by-append f g.rows (all_rows N gs), sum_by-all_rows gs)

  parts_sum-to_series :
      (gs : List (Group N)) → parts_sum N f (map (to_series N) gs) ≡ groups_sum N f gs
  unfolding sum_by to_series
  parts_sum-to_series [] = refl
  parts_sum-to_series (g ∷ gs) = ap (λ n. sum_by f g.rows + n) (parts_sum-to_series gs)

  parts_sum-merged_tail :
      (gs : List (Group N)) → parts_sum N f (merged_tail N gs) ≡ groups_sum N f gs
  unfolding sum_by merged_tail
  parts_sum-merged_tail [] = refl
  parts_sum-merged_tail (g ∷ gs) = omega (arith, sum_by-all_rows (g ∷ gs))

  -- Merging the tail into one series loses no row.
  parts_sum-series_rows :
      (keep : ℕ) (gs : List (Group N)) → parts_sum N f (series_rows N keep gs) ≡ groups_sum N f gs
  unfolding series_rows
  parts_sum-series_rows keep gs =
      sum_by-append (λ p. sum_by f p.rows) (map (to_series N) (take keep gs))
        (merged_tail N (drop keep gs))
      ∙ ap₂ (λ a b. a + b) (parts_sum-to_series (take keep gs))
          (parts_sum-merged_tail (drop keep gs))
      ∙ sum_by-take-drop (λ g. sum_by f g.rows) keep gs

module _ (N : Arithmetic) (exact : IsExact N) (c : Row N → ℕ) where
  abbrev AllCounts : List (SeriesRows N) → Type 0
  AllCounts parts = All (λ p. Counts N c p.rows) parts

  Counts-all_rows :
      (gs : List (Group N)) → All (IsCounted N exact c) gs → Counts N c (all_rows N gs)
  unfolding all_rows
  Counts-all_rows [] h = tt
  Counts-all_rows (g ∷ gs) (p, h) =
      All-append _ g.rows (all_rows N gs) p.counts (Counts-all_rows gs h)

  Counts-to_series :
      (gs : List (Group N)) → All (IsCounted N exact c) gs → AllCounts (map (to_series N) gs)
  unfolding to_series
  Counts-to_series [] h = tt
  Counts-to_series (g ∷ gs) (p, h) = (p.counts, Counts-to_series gs h)

  Counts-merged_tail :
      (gs : List (Group N)) → All (IsCounted N exact c) gs → AllCounts (merged_tail N gs)
  unfolding merged_tail
  Counts-merged_tail [] h = tt
  Counts-merged_tail (g ∷ gs) h = (Counts-all_rows (g ∷ gs) h, tt)

  Counts-series_rows :
      (keep : ℕ) (gs : List (Group N))
      → All (IsCounted N exact c) gs
      → AllCounts (series_rows N keep gs)
  unfolding series_rows
  Counts-series_rows keep gs h =
      All-append _ (map (to_series N) (take keep gs)) (merged_tail N (drop keep gs))
        (Counts-to_series (take keep gs) (All-take _ keep gs h))
        (Counts-merged_tail (drop keep gs) (All-drop _ keep gs h))

module _ (N : Arithmetic) (exact : IsExact N) (c : Row N → ℕ) (ts : List ℤ) (b : Bucket)
    (i : ℕ) where
  abbrev share : Row N → ℕ
  share r = at_cell N c ts b i r

  share_small : (rows : List (Row N)) → sum_by share rows ≤ sum_by c rows
  share_small = sum_small N exact c share (at_cell-le N c ts b i)

  parts_small : (parts : List (SeriesRows N)) → parts_sum N share parts ≤ parts_sum N c parts
  unfolding sum_by
  parts_small [] = omega arith
  parts_small (p ∷ parts) = omega (arith, parts_small parts, share_small p.rows)

  column_sum-series :
      (parts : List (SeriesRows N))
      → AllCounts N exact c parts
      → parts_sum N c parts ≤ max_safe
      → column_sum N i (series N true ts b parts) ≡ N.of_ℕ (parts_sum N share parts)
  unfolding column_sum sum_num series sum_by
  column_sum-series [] h s = refl
  column_sum-series (p ∷ parts) (q, h) s =
      ap₂ N.add (per_bucket_at N exact c ts b i p.rows q (omega arith))
        (column_sum-series parts h (omega arith))
      ∙ exact.add-of_ℕ (sum_by share p.rows) (parts_sum N share parts)
          (omega (arith, share_small p.rows, parts_small parts))

  -- For an additive measure of whole numbers whose total is a safe integer the series of a chart,
  -- the merged tail among them, add up in every bucket to the value of that bucket in the total,
  -- whatever number of categories is kept.
  pub column_sum-series_rows :
      (locale_le : String → String → Bool) (dim : String) (keep : ℕ) (rows : List (Row N))
      → Counts N c rows
      → sum_by c rows ≤ max_safe
      → column_sum N i (
          series N true ts b
            (series_rows N keep (rank_by N locale_le true (group_rows (dim_of N dim) rows))))
        ≡ get_or (per_bucket N true ts b rows) i (N.of_ℕ 0)
  column_sum-series_rows locale_le dim keep rows h s =
      let gs = rank_by N locale_le true (group_rows (dim_of N dim) rows) in
      let parts = series_rows N keep gs in
      let ranked =
        sum_ranked N exact c share (at_cell-le N c ts b i) locale_le (dim_of N dim) rows h s in
      let all : parts_sum N c parts ≡ sum_by c rows =
        parts_sum-series_rows N c keep gs
        ∙ sum_ranked N exact c c (λ r. omega arith) locale_le (dim_of N dim) rows h s in
      column_sum-series parts
        (Counts-series_rows N exact c keep gs
          (rank_by-IsCounted N exact c locale_le (dim_of N dim) rows h s))
        (omega (arith, all))
      ∙ ap N.of_ℕ (parts_sum-series_rows N share keep gs ∙ ranked)
      ∙ sym (per_bucket_at N exact c ts b i rows h s)
