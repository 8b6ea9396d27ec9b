-- ===== src/Dashboard/Random/Fitting.antt =====
-- The random layout puts a widget that fits into each of its cells.
use simply_se.Base.{
  ℕ, ◌+◌, ◌-◌, ◌*◌, ◌^◌, ◌≤◌, ◌<◌, ◌≡◌, ◌⊎◌, refl, ap, ap₂, sym, subst, ◌∙◌, Bool, true, false, not,
  Option, none, some, List, [], ◌∷◌, String, if◌then◌else◌, ltb, leb→le, length, find, any, All,
  All-apply, arith, Bool-cases, inl, inr, map,
}
use simply_se.Base.Sort.{sort_by, All-sort_by, any-sort_by}
use simply_se.Charts.Number.{Arithmetic}
use simply_se.Charts.Types.{ChartConfig}
use simply_se.Charts.Datasets.Resolve.{or_first}
use simply_se.Charts.Registry.{all_chart_ids, is_tile_sized}
use simply_se.Dashboard.Area.{Rect, Tiles}
use simply_se.Dashboard.Grid.{WidgetType, fit_limit, grid_cols}
use simply_se.Dashboard.Templates.{PlacedWidget}
use simply_se.Dashboard.Widgets.{widget_catalog, widget_defs}
use simply_se.Dashboard.Random.{random_int, random_cells, random_rows, min_side, bigger, same_cell}
use simply_se.Dashboard.Random.Searching.{
  All-member, find_holds, or_else_holds, or_first_holds, filter_holds, get_or_all, either,
}
use simply_se.Dashboard.Random.Filling.{random_int-bounds, random_cells-Tiles}
use simply_se.Dashboard.Layout.{Page, with_ids, replace_layout}
use simply_se.Dashboard.Random.Choice.{
  randomize_layout, shown, fits, charts_for, is_small, Chosen, random_chart_config, is_free, or_any,
  pick, choose_chart, prefers_tile, choose_panel, choose_tile, choose_widget, assign, assigned,
  placed, cons_placed, place_cells, random_widgets, stat_types, panel_types, shuffle,
}

-- A cell of the smallest size or more.
abbrev IsWide : Rect → Type 0
IsWide c = (min_side ≤ c.w) × (min_side ≤ c.h)

-- A widget or a chart that suits its cell.
pub record Suits (c : Rect) (chosen : Chosen) : Type 0 where
  pub wide_enough : (widget_defs chosen.0).min_size.w ≤ c.w
  pub high_enough : (widget_defs chosen.0).min_size.h ≤ c.h
  pub configured :
      (chosen.1 ≡ none)
      ⊎ ((chosen.0 ≡ WidgetType.chart)
          × (config : ChartConfig) × (chosen.1 ≡ some config)
          × (is_tile_sized config.chart ≡ is_small c))

-- A widget in its place.
abbrev pub cell_of : PlacedWidget → Rect
cell_of p = record { x = p.x; y = p.y; w = p.w; h = p.h }

pub record IsPlaced (p : PlacedWidget) : Type 0 where
  pub suits : Suits (cell_of p) (p.type, p.config)
  pub limited : p.limit ≡ fit_limit p.type p.w p.h

-- The charts of either list.
charts_for_sized : (b : Bool) → All (λ id. is_tile_sized id ≡ b) (charts_for b)
unfolding charts_for
charts_for_sized true =
    filter_holds (λ id. is_tile_sized id) true (λ id. is_tile_sized id) all_chart_ids (λ id h. h)
charts_for_sized false =
    filter_holds (λ id. is_tile_sized id) false (λ id. not (is_tile_sized id)) all_chart_ids
      (λ id h. ground arith)

charts_for_any : (b : Bool) → 1 ≤ length (charts_for b)
unfolding charts_for is_tile_sized all_chart_ids
charts_for_any true = omega arith
charts_for_any false = omega arith

rect_eq :
    (x x' y y' w w' h h' : ℕ)
    → x ≡ x'
    → y ≡ y'
    → w ≡ w'
    → h ≡ h'
    → ◌≡◌ {A = Rect}
        (record { x = x; y = y; w = w; h = h })
        (record { x = x'; y = y'; w = w'; h = h' })
rect_eq x x' y y' w w' h h' a b c d = cc

same_cell_eq : (c d : Rect) → same_cell c d ≡ true → c ≡ d
same_cell_eq c d h =
    rect_eq c.x d.x c.y d.y c.w d.w c.h d.h (ground arith) (ground arith) (ground arith)
      (ground arith)

fits_wide :
    (type : WidgetType) (c : Rect) → fits type c ≡ true → (widget_defs type).min_size.w ≤ c.w
unfolding fits
fits_wide type c h = leb→le (widget_defs type).min_size.w c.w (ground arith)

fits_high :
    (type : WidgetType) (c : Rect) → fits type c ≡ true → (widget_defs type).min_size.h ≤ c.h
unfolding fits
fits_high type c h = leb→le (widget_defs type).min_size.h c.h (ground arith)

stat_fits : (c : Rect) → IsWide c → fits WidgetType.stat_agents c ≡ true
unfolding fits
stat_fits c (w, h) = ground arith

chart_fits : (c : Rect) → IsWide c → fits WidgetType.chart c ≡ true
unfolding fits
chart_fits c (w, h) = ground arith

module _ (N : Arithmetic) (random : ℕ → ℕ) (fair : (n : ℕ) → random n < 2 ^ 53) where
  is_tile_sized-choose_chart :
      (n : ℕ) (c : Rect) → is_tile_sized (choose_chart N random n c) ≡ is_small c
  unfolding choose_chart
  is_tile_sized-choose_chart n c =
      let pool = charts_for (is_small c) in
      let (low, high) = random_int-bounds random fair n 0 (length pool - 1) (omega arith) in
      get_or_all (λ id. is_tile_sized id) (is_small c) pool
        (random_int random n 0 (length pool - 1)) "" (omega (arith, charts_for_any (is_small c)))
        (charts_for_sized (is_small c))

  picked_fits :
      (n : ℕ) (c : Rect) (o : Option WidgetType)
      → IsWide c
      → ((t : WidgetType) → o ≡ some t → fits t c ≡ true)
      → fits (or_any N random n c o).0 c ≡ true
  picked_fits n c (some t) wide h = h t refl
  picked_fits n c none wide h =
      or_else_holds (λ t. fits t c) (find (λ t. fits t c) (shuffle N random n widget_catalog))
        WidgetType.stat_agents (find_holds (λ t. fits t c) (shuffle N random n widget_catalog))
        (stat_fits c wide)

  -- Each way to find a type finds one that fits.
  pick_fits :
      (n : ℕ) (used pool pool2 : List WidgetType) (c : Rect)
      → IsWide c
      → fits (pick N random n used pool pool2 c).0 c ≡ true
  unfolding pick
  pick_fits n used pool pool2 c wide =
      let free = is_free N random used c in
      picked_fits n c (or_first (find free pool) (find free pool2)) wide (
        or_first_holds (λ t. fits t c) (find free pool) (find free pool2)
          (λ t e. let h = find_holds free pool t e in ground arith)
          (λ t e. let h = find_holds free pool2 t e in ground arith))

  choose_tile-Suits :
      (n : ℕ) (used : List WidgetType) (c : Rect)
      → IsWide c
      → Suits c (choose_tile N random n used c).chosen
  unfolding choose_tile random_chart_config
  choose_tile-Suits n used c wide = record {
    wide_enough = fits_wide WidgetType.chart c (chart_fits c wide);
    high_enough = fits_high WidgetType.chart c (chart_fits c wide);
    configured = inr (refl, _, refl, is_tile_sized-choose_chart n c);
  }

  choose_panel-Suits :
      (stats panels : List WidgetType) (n : ℕ) (used : List WidgetType) (c : Rect)
      → IsWide c
      → Suits c (choose_panel N random stats panels n used c).chosen
  unfolding choose_panel
  choose_panel-Suits stats panels n used c wide =
      let (tile, k) = prefers_tile N random n c in
      let pool = if tile then stats else panels in
      let pool2 = if tile then panels else stats in
      let found = pick_fits k used pool pool2 c wide in
      let type = (pick N random k used pool pool2 c).0 in
      record {
        wide_enough = fits_wide type c found;
        high_enough = fits_high type c found;
        configured = inl refl;
      }

  choose_widget-Suits :
      (stats panels : List WidgetType) (n : ℕ) (used : List WidgetType) (c : Rect)
      → IsWide c
      → Suits c (choose_widget N random stats panels n used c).chosen
  unfolding choose_widget
  choose_widget-Suits stats panels n used c wide =
      either (λ r. Suits c r.chosen) (ltb (2 * random n) 9007199254740992)
        (choose_tile N random (n + 1) used c) (choose_panel N random stats panels (n + 1) used c)
        (choose_tile-Suits (n + 1) used c wide)
        (choose_panel-Suits stats panels (n + 1) used c wide)

  -- The table has an entry that suits for each of its cells.
  assigned-assign :
      (stats panels : List WidgetType) (n : ℕ) (used : List WidgetType) (cells : List Rect)
      (c : Rect)
      → All IsWide cells
      → any (same_cell c) cells ≡ true
      → (chosen : Chosen) × (assigned N random c (assign N random stats panels n used cells)
          ≡ some chosen)
        × Suits c chosen
  unfolding assign assigned
  assigned-assign stats panels n used [] c h m = cc
  assigned-assign stats panels n used (d ∷ cells) c (w, h) m =
      let round = choose_widget N random stats panels n used d in
      elim (Bool-cases (same_cell c d)) [
        | inl here ↦ (
          round.chosen,
          rw here refl,
          subst (λ x. Suits x round.chosen) (sym (same_cell_eq c d here))
              (choose_widget-Suits stats panels n used d w),
        )
        | inr later ↦
            let (chosen, e, suits) =
              assigned-assign stats panels round.next round.used cells c h (ground arith) in
            (chosen, rw later e, suits)
      ]

  place_cells-ArePlaced :
      (table : List (Rect × Chosen)) (cells : List Rect)
      → All
          (λ c. (chosen : Chosen) × (assigned N random c table ≡ some chosen) × Suits c chosen)
          cells
      → (ws : List PlacedWidget) × (place_cells N random table cells ≡ some ws)
        × (map cell_of ws ≡ cells)
        × All IsPlaced ws
  unfolding place_cells
  place_cells-ArePlaced table [] h = ([], refl, refl, tt)
  place_cells-ArePlaced table (c ∷ cells) ((chosen, e, suits), h) =
      let (ws, f, areas, all_placed) = place_cells-ArePlaced table cells h in
      (
        placed N random c chosen ∷ ws,
        ap₂ (cons_placed N random c) e f,
        ap (λ cs. c ∷ cs) areas,
        (record { suits = suits; limited = refl }, all_placed),
      )

  random_widgets-ArePlaced :
      (cells : List Rect)
      → All IsWide cells
      → (ws : List PlacedWidget) × (random_widgets N random cells ≡ some ws)
        × (map cell_of ws ≡ cells)
        × All IsPlaced ws
  unfolding random_widgets
  random_widgets-ArePlaced cells wide =
      let table =
        assign N random (stat_types N random) (panel_types N random) 14 [] (sort_by bigger cells) in
      place_cells-ArePlaced table cells (
        All-apply _ _
          (λ c m.
            assigned-assign (stat_types N random) (panel_types N random) 14 []
              (sort_by bigger cells) c (All-sort_by bigger IsWide cells wide)
              (any-sort_by bigger (same_cell c) cells ∙ m))
          cells (All-member cells cells (λ c m. m)))

  -- For any draws, any height of the window and any page, the random layout takes the place of the
  -- page's widgets with widgets that tile the screen exactly. Each is at least of the smallest size of
  -- its type and has the number of rows that fits its cell; where it was drawn as a chart, the chart
  -- is one of the tile-sized ones exactly if the cell is low or narrow.
  pub randomize_layout-Fills :
      (draws : ℕ → ℕ)
      → ((n : ℕ) → draws n < 2 ^ 53)
      → (ids : ℕ → String) (raw_rows : ℕ) (p : Page)
      → (ws : List PlacedWidget) × (randomize_layout N random draws ids raw_rows p
          ≡ some (replace_layout (with_ids ids 0 ws) p))
        × Tiles grid_cols (random_rows raw_rows) (map cell_of ws)
        × All IsPlaced ws
  unfolding randomize_layout
  randomize_layout-Fills draws fair_draws ids raw_rows p =
      let cells = random_cells draws raw_rows in
      let (tiles, (wide, sizes)) = random_cells-Tiles draws fair_draws raw_rows in
      let (ws, e, areas, all_placed) = random_widgets-ArePlaced cells wide in
      (
        ws,
        ap (shown N random ids p) e,
        subst (λ cs. Tiles grid_cols (random_rows raw_rows) cs) (sym areas) tiles,
        all_placed,
      )
