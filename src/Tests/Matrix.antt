-- ===== src/Tests/Matrix.antt =====
-- Runs and instances for the matrix of a chart.
use simply_se.Base.{
  ◌≤◌, ◌≡◌, refl, ◌≢◌, All, true, false, str_eq, List, [], ◌∷◌, String, arith, eq_iff,
}
use simply_se.Base.Sort.{sum_by, sort_by}
use simply_se.Charts.Number.{max_safe}
use simply_se.Charts.Types.{Row, other}
use simply_se.Charts.Shape.Aggregate.{combine, group_rows, rank_by}
use simply_se.Charts.Shape.Aggregate.Exact.{Counts}
use simply_se.Charts.Shape.Hierarchy.{dim_of}
use simply_se.Charts.Shape.Matrix.{matrix_of}
use simply_se.Charts.Shape.Matrix.Totals.{matrix_sum}
use simply_se.Charts.Shape.Matrix.Whole.{IsNamed, matrix_sum-matrix_of}
use simply_se.Tests.Charts.{whole, whole-IsExact, day_row, weight_of, text_le}

abbrev pub rows : List (Row whole)
rows =
    day_row 1699950000 "web" "targeted" 3
    ∷ day_row 1699990000 "db" "mls" 4
    ∷ day_row 1700000000 "mail" "mls" 5
    ∷ []

pub rows-Counts : Counts whole weight_of rows
rows-Counts = ((refl, refl), ((refl, refl), ((refl, refl), tt)))

pub rows_safe : sum_by weight_of rows ≤ max_safe
unfolding sum_by
rows_safe = omega arith

not_rest : (name : String) → str_eq name other ≡ false → name ≢ other
not_rest name h e = ground (arith, eq_iff name other)

pub rows-AreNamed : All (IsNamed whole "agent" "policy") rows
unfolding dim_of
rows-AreNamed = (
  record { no_bar = refl; no_rest = not_rest "web" refl; no_rest2 = not_rest "targeted" refl },
  (
    record { no_bar = refl; no_rest = not_rest "db" refl; no_rest2 = not_rest "mls" refl },
    (record { no_bar = refl; no_rest = not_rest "mail" refl; no_rest2 = not_rest "mls" refl }, tt),
  ),
)

merged :
    (matrix_of whole true "agent" "policy"
      (rank_by whole text_le true (group_rows (dim_of whole "agent") rows))
      (rank_by whole text_le true (group_rows (dim_of whole "policy") rows))
      rows
      2
      1).values
    ≡ (5 ∷ []) ∷ (7 ∷ []) ∷ []
unfolding matrix_of rank_by dim_of sort_by group_rows
merged = refl

matrix_sum-matrix_of_example :
    matrix_sum whole
      (matrix_of whole true "agent" "policy"
        (rank_by whole text_le true (group_rows (dim_of whole "agent") rows))
        (rank_by whole text_le true (group_rows (dim_of whole "policy") rows))
        rows
        2
        1).values
    ≡ (combine whole true rows).value
matrix_sum-matrix_of_example =
    matrix_sum-matrix_of whole whole-IsExact weight_of text_le "agent" "policy" 2 1 rows rows-Counts
      rows_safe rows-AreNamed
