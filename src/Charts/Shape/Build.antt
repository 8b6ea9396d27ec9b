-- ===== src/Charts/Shape/Build.antt =====
-- The input that every chart type draws: `buildChartInput` of frontend/src/charts/shape.ts, put
-- together from its parts. Texts made of instants and numbers read from texts are parameters.
pub mod Agreeing
use text.Mathlib.Text.{starts_with}
use simply_se.Base.{
  ℕ, ◌+◌, ◌-◌, zero, suc, Bool, true, false, not, ◌&&◌, Option, none, some, List, [], ◌∷◌, ◌++◌,
  String, str_eq, if◌then◌else◌, filter, map, take, drop, any, get_elem?,
}
use simply_se.Base.Int.{ℤ, pos}
use simply_se.Base.Sort.{sort_by}
use simply_se.Base.Objects.{or_else}
use simply_se.Base.Separator.{joined}
use simply_se.I18n.Text.{onto_first}
use simply_se.Charts.Number.{Arithmetic}
use simply_se.Charts.Types.{Row, Bucket, DatasetId, DatasetDef, MeasureDef, TreeNodes, other}
use simply_se.Charts.Datasets.Resolve.{first}
use simply_se.Charts.Shape.Time.{Window, bucket_range}
use simply_se.Charts.Shape.Aggregate.{Group, group_rows, rank_by}
use simply_se.Charts.Shape.Hierarchy.{dim_of, tree}
use simply_se.Charts.Shape.Series.{
  Series, current_rows, before_rows, per_bucket, series_rows, series,
}
use simply_se.Charts.Shape.Headline.{Kpi, kpi_of, previous_covered}
use simply_se.Charts.Shape.Matrix.{Matrix, matrix_of}

abbrev pub sample_categories : ℕ
sample_categories = 8

-- `key.split(SEP)`; `skip` characters belong to a separator that has been found.
unfoldable pub split_from : ℕ → String → List String
split_from skip String.[] = String.[] ∷ []
split_from zero (String.◌∷◌ c s) =
    let found = starts_with (String.◌∷◌ c s) "|~|" in
    let rest = split_from (if found then 2 else 0) s in
    if found then String.[] ∷ rest else onto_first c rest
split_from (suc skip) (String.◌∷◌ c s) = split_from skip s

module _ (N : Arithmetic) where
  open N use {Num, of_ℕ, nan, is_nan, lt}

  pub record BuildArgs : Type 0 where
    pub def : DatasetDef N
    pub measure : MeasureDef
    pub dim : String
    pub dim2 : String
    pub dim3 : String
    pub days : ℕ
    pub win : Window
    pub time_rows : List (Row N)
    pub tree_rows : List (Row N)
    pub var_rows : List (Row N)
    pub hourly_rows : Option (List (Row N))
    pub now_sec : ℤ
    pub since_sec : Option ℤ
    pub truncated : Bool
    pub top_series : Option ℕ

  pub record Meta : Type 0 where
    pub dataset : DatasetId
    pub measure : MeasureDef
    pub dim : String
    pub dim2 : String
    pub dim3 : String
    pub days : ℕ
    pub bucket : Bucket
    pub variable_names : List String
    pub truncated : Bool

  pub record Category : Type 0 where
    pub name : String
    pub value : Num
    pub weight : Num

  pub record OverTime : Type 0 where
    pub ts : List ℤ
    pub series : List (Series N)
    pub total : List Num

  pub record Hour : Type 0 where
    pub t : ℤ
    pub value : Num
    pub weight : Num

  pub record Point : Type 0 where
    pub group : String
    pub t : Num
    pub x : Num
    pub y : Num
    pub size : Num

  pub record VariableRows : Type 0 where
    pub names : List String
    pub rows : List (List Num)

  pub record ChartInput : Type 0 where
    pub meta : Meta
    pub empty : Bool
    pub categories : List Category
    pub time : OverTime
    pub matrix : Matrix N
    pub heat : Matrix N
    pub hourly : List Hour
    pub hierarchy : TreeNodes N
    pub samples : List (Series N)
    pub points : List Point
    pub variables : VariableRows
    pub kpi : Kpi N

  abbrev pub to_category : Group N → Category
  to_category c = record { name = c.name; value = c.value; weight = c.weight }

  -- Bigger values first, then bigger weights.
  abbrev pub category_before : Category → Category → Bool
  category_before a b =
      if lt a.value b.value
      then false
      else if lt b.value a.value
      then true
      else not (lt a.weight b.weight)

  unfoldable pub categories_of : List (Group N) → List Category
  categories_of by_cat = sort_by category_before (map to_category by_cat)

  abbrev finite : List Num → List Num
  finite values = filter (λ v. not (is_nan v)) values

  abbrev sample_of : Series N → Series N
  sample_of s = record { name = s.name; values = finite s.values }

  -- The values of the top categories: those of the series, then of the categories that have none.
  unfoldable pub samples_of :
      ℕ → List (Group N) → List (Series N) → (List (Row N) → List Num) → List (Series N)
  samples_of keep by_cat parts values =
      map sample_of (take sample_categories (filter (λ s. not (str_eq s.name other)) parts))
      ++ map (λ c. record { name = c.name; values = finite (values c.rows) })
          (take (sample_categories - keep) (drop keep by_cat))

  unfoldable pub hours_of : List (Row N) → List Hour
  hours_of [] = []
  hours_of (r ∷ rows) =
      let rest = hours_of rows in
      elim r.t [
        | none ↦ rest
        | some t ↦ record { t = t; value = r.value; weight = r.weight } ∷ rest
      ]

  abbrev nth : List Num → ℕ → Num
  nth v i = or_else (get_elem? v i) (of_ℕ 0)

  module _ (locale_le : String → String → Bool) (show_time : ℤ → String) (read : String → Num) where
    -- The key of a row among the variables: its agent and its day.
    unfoldable pub day_key : String → Row N → String
    unfolding dim_of
    day_key group_dim r = joined (dim_of N group_dim r) (show_time (or_else r.t (pos 0)))

    unfoldable pub point_of : String → List Num → Point
    unfolding split_from
    point_of key v =
        let parts = split_from 0 key in
        record {
          group = or_else (get_elem? parts 0) "";
          t = elim (get_elem? parts 1) [ none ↦ nan | some s ↦ read s ];
          x = nth v 0;
          y = nth v 1;
          size = nth v 2;
        }

    abbrev by_agent_day : BuildArgs → List (String × List (Row N))
    by_agent_day a =
        group_rows (day_key (or_else (first a.def.variable_group) "undefined")) a.var_rows

    unfoldable pub build_chart_input : BuildArgs → ChartInput
    unfolding current_rows before_rows bucket_range group_rows rank_by per_bucket series_rows series
        matrix_of tree kpi_of previous_covered categories_of samples_of hours_of day_key point_of
        dim_of
    build_chart_input a =
        let additive = a.measure.additive in
        let bucket = a.win.bucket in
        let current = current_rows N a.win.period_start a.time_rows in
        let before = before_rows N a.win.previous_start a.win.period_start a.time_rows in
        let ts = bucket_range a.win.period_start a.now_sec bucket in
        let by_cat = rank_by N locale_le additive (group_rows (dim_of N a.dim) current) in
        let by_col = rank_by N locale_le additive (group_rows (dim_of N a.dim2) current) in
        let keep = or_else a.top_series 5 in
        let parts = series N additive ts bucket (series_rows N keep by_cat) in
        let total = per_bucket N additive ts bucket current in
        let names = map (λ v. v.label_key) a.def.variables in
        let covered = previous_covered a.since_sec a.win.previous_start a.now_sec in
        record {
          meta = record {
            dataset = a.def.id;
            measure = a.measure;
            dim = a.dim;
            dim2 = a.dim2;
            dim3 = a.dim3;
            days = a.days;
            bucket = bucket;
            variable_names = names;
            truncated = a.truncated;
          };
          empty = not (any (λ r. lt (of_ℕ 0) r.weight) current);
          categories = categories_of by_cat;
          time = record { ts = ts; series = parts; total = total };
          matrix = matrix_of N additive a.dim a.dim2 by_cat by_col current 8 5;
          heat = matrix_of N additive a.dim a.dim2 by_cat by_col current 10 8;
          hourly = hours_of (or_else a.hourly_rows []);
          hierarchy =
              tree N locale_le additive ((a.dim, 8) ∷ (a.dim2, 6) ∷ (a.dim3, 5) ∷ []) a.tree_rows;
          samples = samples_of keep by_cat parts (λ rows. per_bucket N additive ts bucket rows);
          points = map (λ g. point_of g.0 (a.def.variable_from g.1)) (by_agent_day a);
          variables = record {
            names = names;
            rows = map (λ g. a.def.variable_from g.1) (by_agent_day a);
          };
          kpi = kpi_of N additive a.dim covered current before total;
        }
