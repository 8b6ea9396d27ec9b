-- ===== src/Charts/Shape/Series.antt =====
-- The time series and the headline number of a chart, from `buildChartInput` of
-- frontend/src/charts/shape.ts. The arguments are those of `BuildArgs` that each part reads.
pub mod Placing
pub mod Totals
pub mod Columns
pub mod OverTime
use simply_se.Base.{
  ℕ, zero, suc, Bool, true, false, ◌&&◌, List, [], ◌∷◌, ◌++◌, String, if◌then◌else◌, filter, map,
  length, take, drop, Option, none, some,
}
use simply_se.Base.Int.{ℤ, pos, leb_ℤ, ltb_ℤ, eqb_ℤ, ◌-ℤ◌}
use simply_se.Base.Sort.{sort_by}
use simply_se.Charts.Number.{Arithmetic}
use simply_se.Charts.Types.{Row, Bucket, other}
use simply_se.Base.Objects.{or_else}
use simply_se.Charts.Shape.Time.{bucket_start, day_seconds}
use simply_se.Charts.Shape.Aggregate.{Combined, Group, combine, group_rows, rank_by}
use simply_se.Charts.Shape.Hierarchy.{dim_of}

-- `new Map(ts.map((t, i) => [t, i])).get(t)`, for instants that are all different.
pub index_of : ℤ → List ℤ → Option ℕ
index_of t [] = none
index_of t (s ∷ ts) =
    if eqb_ℤ s t then some 0 else elim (index_of t ts) [ none ↦ none | some i ↦ some (suc i) ]

-- `cells[i].push(r)`.
pub push_at {ℓ} : {A : Type ℓ} → ℕ → A → List (List A) → List (List A)
push_at i a [] = []
push_at zero a (c ∷ cells) = (c ++ a ∷ []) ∷ cells
push_at (suc i) a (c ∷ cells) = c ∷ push_at i a cells

module _ (N : Arithmetic) where
  open N use {Num, of_ℕ, nan, is_nan, lt, add, mul, div}

  -- `r.t !== null && r.t >= periodStart`.
  unfoldable pub since : ℤ → Row N → Bool
  since start r = elim r.t [ none ↦ false | some t ↦ leb_ℤ start t ]

  unfoldable pub current_rows : ℤ → List (Row N) → List (Row N)
  unfolding since
  current_rows period_start rows = filter (since period_start) rows

  before : ℤ → Row N → Bool
  before end r = elim r.t [ none ↦ false | some t ↦ ltb_ℤ t end ]

  unfoldable pub before_rows : ℤ → ℤ → List (Row N) → List (Row N)
  unfolding since before
  before_rows previous_start period_start rows =
      filter (λ r. since previous_start r && before period_start r) rows

  -- `null` counts as 0 in an arithmetic operation.
  abbrev pub row_bucket : Bucket → Row N → ℤ
  row_bucket bucket r = bucket_start (or_else r.t (pos 0)) bucket

  pub place : List ℤ → Bucket → Row N → List (List (Row N)) → List (List (Row N))
  unfolding index_of push_at
  place ts bucket r cells = elim (index_of (row_bucket bucket r) ts) [
    | none ↦ cells
    | some i ↦ push_at i r cells
  ]

  pub place_rows : List ℤ → Bucket → List (List (Row N)) → List (Row N) → List (List (Row N))
  unfolding place
  place_rows ts bucket cells [] = cells
  place_rows ts bucket cells (r ∷ rows) = place_rows ts bucket (place ts bucket r cells) rows

  abbrev pub empty_cells : List ℤ → List (List (Row N))
  empty_cells ts = map (λ t. []) ts

  -- A bucket with nothing in it is 0 for a sum, and a gap for an average.
  abbrev pub gap : Bool → Num
  gap additive = if additive then of_ℕ 0 else nan

  pub cell_value : Bool → List (Row N) → Num
  unfolding combine
  cell_value additive [] = gap additive
  cell_value additive (r ∷ rows) =
      let merged = combine N additive (r ∷ rows) in
      if additive then merged.value else if lt (of_ℕ 0) merged.weight then merged.value else nan

  unfoldable pub per_bucket : Bool → List ℤ → Bucket → List (Row N) → List Num
  unfolding place_rows cell_value
  per_bucket additive ts bucket rows =
      map (cell_value additive) (place_rows ts bucket (empty_cells ts) rows)

  -- The rows of a series with its name.
  pub record SeriesRows : Type 0 where
    pub name : String
    pub rows : List (Row N)

  pub record Series : Type 0 where
    pub name : String
    pub values : List Num

  pub all_rows : List (Group N) → List (Row N)
  all_rows [] = []
  all_rows (g ∷ gs) = g.rows ++ all_rows gs

  pub to_series : Group N → SeriesRows
  to_series g = record { name = g.name; rows = g.rows }

  pub merged_tail : List (Group N) → List SeriesRows
  unfolding all_rows
  merged_tail [] = []
  merged_tail (g ∷ gs) = record { name = other; rows = all_rows (g ∷ gs) } ∷ []

  -- The biggest categories, and the tail merged into one series.
  unfoldable pub series_rows : ℕ → List (Group N) → List SeriesRows
  unfolding to_series merged_tail
  series_rows keep by_cat = map to_series (take keep by_cat) ++ merged_tail (drop keep by_cat)

  unfoldable pub series : Bool → List ℤ → Bucket → List SeriesRows → List Series
  unfolding per_bucket
  series additive ts bucket parts =
      map (λ s. record { name = s.name; values = per_bucket additive ts bucket s.rows }) parts
