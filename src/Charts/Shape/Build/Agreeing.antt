-- ===== src/Charts/Shape/Build/Agreeing.antt =====
-- The parts of a chart's input agree: `buildChartInput` of frontend/src/charts/shape.ts.
use simply_se.Base.{
  ℕ, ◌≤◌, ◌≡◌, refl, sym, ap, ap₂, subst, ◌∙◌, Bool, true, List, [], ◌∷◌, String, map, All, arith,
  get_or,
}
use simply_se.Base.Int.{ℤ}
use simply_se.Base.Sort.{sum_by, sum_by-sort_by, All-sort_by, map-sort_by, sort_by}
use simply_se.Base.Objects.{or_else}
use simply_se.Charts.Number.{Arithmetic, IsExact, max_safe}
use simply_se.Charts.Types.{Row}
use simply_se.Charts.Shape.Time.{Window, window_for, bucket_range}
use simply_se.Charts.Shape.Aggregate.{Group, combine, group_rows, rank_by}
use simply_se.Charts.Shape.Aggregate.Exact.{
  Counts, sum_num, group_sum, sum_ranked, combine_exact, IsCounted, rank_by-IsCounted,
}
use simply_se.Charts.Shape.Hierarchy.{dim_of, tree}
use simply_se.Charts.Shape.Hierarchy.Totals.{AddsUp, nodes_sum, tree-AddsUp}
use simply_se.Charts.Shape.Series.{current_rows, per_bucket, series, series_rows}
use simply_se.Charts.Shape.Series.Columns.{column_sum, column_sum-series_rows}
use simply_se.Charts.Shape.Series.OverTime.{IsPast, sum_num-per_bucket_eq}
use simply_se.Charts.Shape.Headline.{kpi_of}
use simply_se.Charts.Shape.Matrix.{matrix_of}
use simply_se.Charts.Shape.Matrix.Totals.{matrix_sum}
use simply_se.Charts.Shape.Matrix.Whole.{IsNamed, matrix_sum-matrix_of}
use simply_se.Charts.Shape.Build.{
  BuildArgs, ChartInput, to_category, category_before, categories_of, build_chart_input,
}

module _ (N : Arithmetic) (exact : IsExact N) (c : Row N → ℕ)
    (locale_le : String → String → Bool) where
  -- The categories, the time series, the two matrices and the hierarchy of an input add up to its
  -- headline number.
  pub record Agrees (input : ChartInput N) : Type 0 where
    pub categories_sum : sum_num N (map (λ k. k.value) input.categories) ≡ input.kpi.value
    pub series_sum :
        (i : ℕ) → column_sum N i input.time.series ≡ get_or input.time.total i (N.of_ℕ 0)
    pub total_sum : sum_num N input.time.total ≡ input.kpi.value
    pub matrix_total : matrix_sum N input.matrix.values ≡ input.kpi.value
    pub heat_total : matrix_sum N input.heat.values ≡ input.kpi.value
    pub levels_sum : AddsUp N input.hierarchy
    pub hierarchy_sum : nodes_sum N input.hierarchy ≡ input.kpi.value

  sum_counted :
      (gs : List (Group N))
      → All (IsCounted N exact c) gs
      → group_sum N exact c c gs ≤ max_safe
      → sum_num N (map (λ g. g.value) gs) ≡ N.of_ℕ (group_sum N exact c c gs)
  unfolding sum_num sum_by
  sum_counted [] h b = refl
  sum_counted (g ∷ gs) (k, h) b =
      ap₂ N.add k.value (sum_counted gs h (omega arith))
      ∙ exact.add-of_ℕ (sum_by c g.rows) (group_sum N exact c c gs) b

  values_of :
      (gs : List (Group N)) → map (λ k. k.value) (map (to_category N) gs) ≡ map (λ g. g.value) gs
  values_of [] = refl
  values_of (g ∷ gs) = ap (λ vs. g.value ∷ vs) (values_of gs)

  sum_num-categories_of :
      (dim : String) (rows : List (Row N))
      → Counts N c rows
      → sum_by c rows ≤ max_safe
      → sum_num N (
          map
            (λ k. k.value)
            (categories_of N (rank_by N locale_le true (group_rows (dim_of N dim) rows))))
        ≡ (combine N true rows).value
  unfolding categories_of
  sum_num-categories_of dim rows h b =
      let gs = rank_by N locale_le true (group_rows (dim_of N dim) rows) in
      let before =
        λ (x : Group N) (y : Group N). category_before N (to_category N x) (to_category N y) in
      let whole : group_sum N exact c c gs ≡ sum_by c rows =
        sum_ranked N exact c c (λ r. omega arith) locale_le (dim_of N dim) rows h b in
      let moved : group_sum N exact c c (sort_by before gs) ≡ group_sum N exact c c gs =
        sum_by-sort_by before (λ g. sum_by c g.rows) gs in
      ap (λ ks. sum_num N (map (λ k. k.value) ks))
        (sym (map-sort_by (category_before N) (to_category N) gs))
      ∙ ap (sum_num N) (values_of (sort_by before gs))
      ∙ sum_counted (sort_by before gs)
          (All-sort_by before (IsCounted N exact c) gs
            (rank_by-IsCounted N exact c locale_le (dim_of N dim) rows h b))
          (omega (arith, whole, moved))
      ∙ ap N.of_ℕ (moved ∙ whole)
      ∙ sym (ap (λ t. t.value) (combine_exact N exact c rows h b))

  -- What the rows of a request are: whole numbers with a safe total, none in the future, named so
  -- that a matrix can tell them apart; and the rows of the hierarchy, which another request brings,
  -- have the same total.
  pub record IsSound (a : BuildArgs N) : Type 0 where
    pub additive : a.measure.additive ≡ true
    pub some_days : 1 ≤ a.days
    pub window : a.win ≡ window_for a.days a.now_sec
    pub past : All (IsPast N a.now_sec) a.time_rows
    pub counts : Counts N c (current_rows N a.win.period_start a.time_rows)
    pub safe : sum_by c (current_rows N a.win.period_start a.time_rows) ≤ max_safe
    pub named : All (IsNamed N a.dim a.dim2) (current_rows N a.win.period_start a.time_rows)
    pub tree_counts : Counts N c a.tree_rows
    pub same_total : sum_by c a.tree_rows ≡ sum_by c (current_rows N a.win.period_start a.time_rows)

  abbrev levels : BuildArgs N → List (String × ℕ)
  levels a = (a.dim2, 6) ∷ (a.dim3, 5) ∷ []

  total_agrees :
      (days : ℕ) (now : ℤ) (rows : List (Row N)) (w : Window)
      → 1 ≤ days
      → window_for days now ≡ w
      → All (IsPast N now) rows
      → Counts N c (current_rows N w.period_start rows)
      → sum_by c (current_rows N w.period_start rows) ≤ max_safe
      → sum_num N (
          per_bucket N true
            (bucket_range w.period_start now w.bucket)
            w.bucket
            (current_rows N w.period_start rows))
        ≡ (combine N true (current_rows N w.period_start rows)).value
  total_agrees days now rows w h e past =
      subst
        (λ w.
          Counts N c (current_rows N w.period_start rows)
          → sum_by c (current_rows N w.period_start rows) ≤ max_safe
          → sum_num N (
              per_bucket N true (bucket_range w.period_start now w.bucket) w.bucket
                (current_rows N w.period_start rows))
            ≡ (combine N true (current_rows N w.period_start rows)).value)
        e (sum_num-per_bucket_eq N exact c days now rows h past)

  -- For an additive measure of whole numbers whose total is a safe integer, over rows of which none
  -- is in the future, whose names a matrix can tell apart, and over rows of the hierarchy with the same
  -- total: the categories, the total over time, the matrix, its larger form and the hierarchy add up
  -- to the headline number, and the series add up to the total in each bucket, whatever the
  -- dimensions, the days and the number of series.
  pub build_chart_input-Agrees :
      (show_time : ℤ → String) (read : String → N.Num) (a : BuildArgs N)
      → IsSound a
      → Agrees (build_chart_input N locale_le show_time read a)
  unfolding build_chart_input kpi_of
  build_chart_input-Agrees show_time read a sound =
      let rows = current_rows N a.win.period_start a.time_rows in
      let ts = bucket_range a.win.period_start a.now_sec a.win.bucket in
      let yes = sym sound.additive in
      let by =
        λ (b : Bool) (dim : String). rank_by N locale_le b (group_rows (dim_of N dim) rows) in
      let keep = or_else a.top_series 5 in
      record {
        categories_sum =
            subst
              (λ b.
                sum_num N (map (λ k. k.value) (categories_of N (by b a.dim)))
                ≡ (combine N b rows).value)
              yes (sum_num-categories_of a.dim rows sound.counts sound.safe);
        series_sum = λ i.
            subst
              (λ b.
                column_sum N i (series N b ts a.win.bucket (series_rows N keep (by b a.dim)))
                ≡ get_or (per_bucket N b ts a.win.bucket rows) i (N.of_ℕ 0))
              yes
              (column_sum-series_rows N exact c ts a.win.bucket i locale_le a.dim keep rows
                sound.counts sound.safe);
        total_sum =
            subst (λ b. sum_num N (per_bucket N b ts a.win.bucket rows) ≡ (combine N b rows).value)
              yes
              (total_agrees a.days a.now_sec a.time_rows a.win sound.some_days (sym sound.window)
                sound.past sound.counts sound.safe);
        matrix_total =
            subst
              (λ b.
                matrix_sum N (matrix_of N b a.dim a.dim2 (by b a.dim) (by b a.dim2) rows 8 5).values
                ≡ (combine N b rows).value)
              yes
              (matrix_sum-matrix_of N exact c locale_le a.dim a.dim2 8 5 rows sound.counts
                sound.safe sound.named);
        heat_total =
            subst
              (λ b.
                matrix_sum N
                  (matrix_of N b a.dim a.dim2 (by b a.dim) (by b a.dim2) rows 10 8).values
                ≡ (combine N b rows).value)
              yes
              (matrix_sum-matrix_of N exact c locale_le a.dim a.dim2 10 8 rows sound.counts
                sound.safe sound.named);
        levels_sum =
            subst (λ b. AddsUp N (tree N locale_le b ((a.dim, 8) ∷ levels a) a.tree_rows)) yes
              (tree-AddsUp N exact c locale_le a.dim 8 (levels a) a.tree_rows sound.tree_counts
                (omega (arith, sound.same_total, sound.safe))).0;
        hierarchy_sum =
            subst
              (λ b.
                nodes_sum N (tree N locale_le b ((a.dim, 8) ∷ levels a) a.tree_rows)
                ≡ (combine N b rows).value)
              yes
              ((tree-AddsUp N exact c locale_le a.dim 8 (levels a) a.tree_rows sound.tree_counts
                  (omega (arith, sound.same_total, sound.safe))).1
                ∙ ap N.of_ℕ sound.same_total
                ∙ sym (ap (λ t. t.value) (combine_exact N exact c rows sound.counts sound.safe)));
      }
