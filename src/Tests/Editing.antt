-- ===== src/Tests/Editing.antt =====
-- Runs and instances for the widgets of the dashboard and for the chart types.
use simply_se.Base.{
  ◌^◌, ◌⊎◌, length, arith, ℕ, ◌≤◌, ◌≡◌, refl, max, true, false, none, [], ◌∷◌, String, map, any,
  str_eq, ◌&&◌, All, List, some, get_elem?,
}
use simply_se.Charts.Registry.{is_tile_sized, charts}
use simply_se.Charts.Registry.Sync.{shows_number, is_tile_sized_iff}
use simply_se.Base.Sort.{sort_by}
use simply_se.Dashboard.Area.{Tiles}
use simply_se.Dashboard.Grid.{WidgetType, grid_cols}
use simply_se.Dashboard.Random.{random_cells, random_rows, candidates, min_side}
use simply_se.Dashboard.Random.Filling.{random_cells-Tiles}
use simply_se.Dashboard.Templates.Catalog.{dashboard_templates}
use simply_se.Dashboard.Widgets.{WidgetInstance, widget_defs, default_widgets}
use simply_se.Dashboard.Widgets.Defaults.{Describes, widget_defs-Describes}
use simply_se.Dashboard.Layout.{
  Page, LayoutItem, add_widget, remove_widget, handle_layout_change, undo_layout, apply_template,
}
use simply_se.Dashboard.Layout.Editing.{
  covering, kept, FillsScreen, add_widget_free, apply_template-Tiles, handle_layout_change_keeps,
  Moves, IsAround,
}

is_tile_sized_iff_example :
    is_tile_sized "gauge" ≡ any (λ c. str_eq c.id "gauge" && shows_number c) charts
is_tile_sized_iff_example = is_tile_sized_iff "gauge"

widget_defs-Describes_example :
    Describes WidgetType.open_alerts (widget_defs WidgetType.open_alerts)
widget_defs-Describes_example = widget_defs-Describes WidgetType.open_alerts

abbrev start : Page
start = record {
  widgets = default_widgets;
  show_catalog = true;
  configuring_id = none;
  show_templates = false;
  previous_layout = none;
}

add_widget_free_example :
    ((x y : ℕ)
      → covering x y (add_widget "new" WidgetType.chart start).widgets
        ≤ max 1 (covering x y default_widgets))
    × ((remove_widget "new" (add_widget "new" WidgetType.chart start)).widgets ≡ default_widgets)
add_widget_free_example = add_widget_free "new" WidgetType.chart start refl

abbrev one_id : ℕ → String
one_id n = "id"

apply_template-Tiles_example :
    All
      (λ t.
        FillsScreen 20 (apply_template one_id 20 t start)
        × ((undo_layout (apply_template one_id 20 t start)).widgets ≡ default_widgets))
      dashboard_templates
apply_template-Tiles_example = apply_template-Tiles one_id 20 start

abbrev report : List LayoutItem
report = record { i = "default-open-alerts"; x = 0; y = 40; w = 5; h = 9 } ∷ []

handle_layout_change_keeps_example :
    (map kept (handle_layout_change report start).widgets ≡ map kept default_widgets)
    × (((i : ℕ) (w : WidgetInstance)
          → get_elem? default_widgets i ≡ some w
          → (w' : WidgetInstance) × (get_elem? (handle_layout_change report start).widgets i
              ≡ some w')
            × Moves report w w')
        × IsAround start (handle_layout_change report start))
handle_layout_change_keeps_example = handle_layout_change_keeps report start

abbrev half : ℕ → ℕ
half n = 2 ^ 52

middle_draws : length (random_cells half 20) ≡ 8
unfolding random_cells sort_by
middle_draws = refl

random_cells-Tiles_example :
    Tiles grid_cols (random_rows 20) (random_cells half 20)
    × (All (λ c. (min_side ≤ c.w) × (min_side ≤ c.h)) (random_cells half 20)
        × ((length (random_cells half 20) ≤ 9)
            × ((6 ≤ length (random_cells half 20))
                ⊎ (length (candidates (random_cells half 20)) ≡ 0))))
random_cells-Tiles_example = random_cells-Tiles half (λ n. omega arith) 20
