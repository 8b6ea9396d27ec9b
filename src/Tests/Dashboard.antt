-- ===== src/Tests/Dashboard.antt =====
-- Runs and instances for the dashboard grid and its templates.
use simply_se.Base.{◌≡◌, refl, map, All, some, max}
use simply_se.Base.Int.{pos, ◌-ℤ◌, ◌*ℤ◌, floor_div}
use simply_se.Dashboard.Area.{Tiles}
use simply_se.Dashboard.Grid.{grid_cols, top_signatures, agents_vignettes, fit_limit}
use simply_se.Dashboard.Grid.Limits.{LimitFits, vignettes, fit_limit_fits}
use simply_se.Dashboard.Templates.{base_rows, place_template, rows_for_viewport}
use simply_se.Dashboard.Templates.Catalog.{dashboard_templates}
use simply_se.Dashboard.Templates.Tiling.{placed_area, dashboard_templates-Tiles}
use simply_se.Dashboard.Templates.Contents.{IsComplete, dashboard_templates-IsComplete}

fit_limit_run : fit_limit agents_vignettes 8 6 ≡ some (pos 10)
unfolding fit_limit ◌-ℤ◌ ◌*ℤ◌ floor_div
fit_limit_run = refl

fit_limit_small : fit_limit top_signatures 1 1 ≡ some (pos 2)
unfolding fit_limit ◌-ℤ◌ ◌*ℤ◌ floor_div
fit_limit_small = refl

short_window : rows_for_viewport 9 ≡ 15
unfolding rows_for_viewport
short_window = refl

dashboard_templates-Tiles_example :
    All
      (λ t. Tiles grid_cols (max base_rows 22) (map placed_area (place_template t 22)))
      dashboard_templates
dashboard_templates-Tiles_example = dashboard_templates-Tiles 22

dashboard_templates-IsComplete_example : All (IsComplete 22) dashboard_templates
dashboard_templates-IsComplete_example = dashboard_templates-IsComplete 22

fit_limit_fits_example : LimitFits vignettes 8 6 (fit_limit agents_vignettes 8 6)
fit_limit_fits_example = fit_limit_fits agents_vignettes 8 6
