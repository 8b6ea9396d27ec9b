-- ===== src/Charts/Shape/Matrix.antt =====
-- The matrix of a chart: the closures `keepNames` and `matrixOf` of `buildChartInput` in
-- frontend/src/charts/shape.ts. What does not fit becomes one row and one column.
pub mod Occurs
pub mod Keeping
pub mod Cells
pub mod Totals
pub mod Whole
use simply_se.Base.{
  ℕ, ◌-◌, Bool, Option, none, some, List, [], ◌∷◌, ◌++◌, String, str_eq, includes, if◌then◌else◌,
  ltb, length, take, map,
}
use simply_se.Base.Separator.{joined}
use simply_se.Charts.Number.{Arithmetic}
use simply_se.Charts.Types.{Row, other}
use simply_se.Charts.Shape.Aggregate.{slice_end, Combined, Group, combine, group_rows, rank_by}
use simply_se.Charts.Shape.Hierarchy.{dim_of}

pub record KeepNames : Type 0 where
  pub kept : List String
  pub names : List String

-- `out.get(k)`.
pub rows_at {ℓ} : {A : Type ℓ} → String → List (String × List A) → Option (List A)
rows_at k [] = none
rows_at k ((j, rs) ∷ out) = if str_eq j k then some rs else rows_at k out

module _ (N : Arithmetic) where
  pub record Matrix : Type 0 where
    pub rows : List String
    pub cols : List String
    pub values : List (List N.Num)
    pub weights : List (List N.Num)

  unfoldable pub head_names : ℕ → List (Group N) → List String
  head_names limit ranked =
      map (λ c. c.name)
        (if ltb limit (length ranked)
          then take (slice_end limit (length ranked)) ranked
          else ranked)

  unfoldable pub keep_names : List (Group N) → ℕ → KeepNames
  unfolding head_names
  keep_names ranked limit =
      let names = head_names limit ranked in
      record {
        kept = names;
        names = if ltb limit (length ranked) then names ++ other ∷ [] else names;
      }

  -- The name under which a row is counted.
  unfoldable pub kept_name : List String → String → Row N → String
  kept_name kept dim r = if includes kept (dim_of N dim r) then dim_of N dim r else other

  unfoldable pub cell_key : KeepNames → KeepNames → String → String → Row N → String
  unfolding kept_name
  cell_key row_keep col_keep dim dim2 r =
      joined (kept_name row_keep.kept dim r) (kept_name col_keep.kept dim2 r)

  -- A cell with no rows keeps the 0 that it began with.
  unfoldable pub cell_of : Bool → Option (List (Row N)) → Combined N
  unfolding combine
  cell_of additive none = record { value = N.of_ℕ 0; weight = N.of_ℕ 0 }
  cell_of additive (some rows) = combine N additive rows

  unfoldable pub cells_of :
      Bool → List (String × List (Row N)) → List String → List String → List (List (Combined N))
  unfolding cell_of rows_at
  cells_of additive groups rows cols =
      map (λ rc. map (λ cc. cell_of additive (rows_at (joined rc cc) groups)) cols) rows

  -- `by_cat` and `by_col` are the ranked groups of the two dimensions.
  unfoldable pub matrix_of :
      Bool → String → String → List (Group N) → List (Group N) → List (Row N) → ℕ → ℕ → Matrix
  unfolding keep_names cell_key cells_of
  matrix_of additive dim dim2 by_cat by_col current row_limit col_limit =
      let row_keep = keep_names by_cat row_limit in
      let col_keep = keep_names by_col col_limit in
      let groups = group_rows (cell_key row_keep col_keep dim dim2) current in
      let cells = cells_of additive groups row_keep.names col_keep.names in
      record {
        rows = row_keep.names;
        cols = col_keep.names;
        values = map (map (λ c. c.value)) cells;
        weights = map (map (λ c. c.weight)) cells;
      }
