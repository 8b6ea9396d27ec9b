-- ===== src/Tests/Random.antt =====
-- A random layout with its widgets.
use simply_se.Base.{ℕ, ◌^◌, false, none, some, List, [], ◌≡◌, map, All, arith}
use simply_se.Dashboard.Area.{Tiles}
use simply_se.Dashboard.Grid.{grid_cols}
use simply_se.Dashboard.Layout.{Page, with_ids, replace_layout}
use simply_se.Dashboard.Templates.{PlacedWidget}
use simply_se.Dashboard.Random.{random_rows}
use simply_se.Dashboard.Random.Choice.{randomize_layout}
use simply_se.Dashboard.Random.Fitting.{IsPlaced, cell_of, randomize_layout-Fills}
use simply_se.Tests.Charts.{whole}

abbrev middle_draw : ℕ → ℕ
middle_draw n = 2 ^ 52

abbrev blank : Page
blank = record {
  widgets = [];
  show_catalog = false;
  configuring_id = none;
  show_templates = false;
  previous_layout = none;
}

randomize_layout-Fills_example :
    (ws : List PlacedWidget) × (randomize_layout whole middle_draw middle_draw (λ n. "id") 20 blank
      ≡ some (replace_layout (with_ids (λ n. "id") 0 ws) blank))
    × Tiles grid_cols (random_rows 20) (map cell_of ws)
    × All IsPlaced ws
randomize_layout-Fills_example =
    randomize_layout-Fills whole middle_draw (λ n. omega arith) middle_draw (λ n. omega arith)
      (λ n. "id") 20 blank
