-- ===== src/Dashboard/Random/Choice.antt =====
-- The widgets of a random layout: the second half of `randomizeLayout` in
-- frontend/src/pages/Dashboard.tsx, and `randomChartConfig` of frontend/src/charts/datasets.ts. The
-- draws are those that follow the draws of the cells; `random n / 2 ^ 53` is the n-th of them.
use simply_se.Base.{
  ℕ, zero, suc, ◌+◌, ◌-◌, ◌*◌, Bool, true, false, not, ◌&&◌, ◌||◌, Option, none, some, List, [],
  ◌∷◌, String, if◌then◌else◌, ltb, leb, length, filter, find, any, get_or,
}
use simply_se.Base.Sort.{sort_by}
use simply_se.Base.Objects.{or_else}
use simply_se.Charts.Number.{Arithmetic}
use simply_se.Charts.Types.{ChartConfig, DatasetId}
use simply_se.Charts.Datasets.Catalog.{datasets}
use simply_se.Charts.Datasets.Resolve.{first, or_first}
use simply_se.Charts.Registry.{all_chart_ids, is_tile_sized}
use simply_se.Dashboard.Area.{Rect}
use simply_se.Dashboard.Grid.{WidgetType, same_type, fit_limit}
use simply_se.Dashboard.Layout.{Page, with_ids, replace_layout}
use simply_se.Dashboard.Templates.{PlacedWidget}
use simply_se.Dashboard.Widgets.{widget_catalog, widget_defs}
use simply_se.Dashboard.Random.{random_int, random_cells, bigger, same_cell}

abbrev pub set_at {ℓ} : {A : Type ℓ} → ℕ → A → List A → List A
set_at i y [] = []
set_at zero y (x ∷ xs) = y ∷ xs
set_at (suc i) y (x ∷ xs) = x ∷ set_at i y xs

-- `[a[i], a[j]] = [a[j], a[i]]`, for two places of the list.
abbrev pub swap {ℓ} : {A : Type ℓ} → ℕ → ℕ → A → List A → List A
swap i j d xs = set_at j (get_or xs i d) (set_at i (get_or xs j d) xs)

-- The widgets whose type begins with `stat-`.
abbrev pub is_stat : WidgetType → Bool
is_stat WidgetType.stat_agents = true
is_stat WidgetType.stat_enforcing = true
is_stat WidgetType.stat_denials = true
is_stat WidgetType.stat_commands = true
is_stat WidgetType.stat_alerts = true
is_stat WidgetType.stat_compliance = true
is_stat _ = false

abbrev pub is_panel : WidgetType → Bool
is_panel type = not (is_stat type) && not (same_type type WidgetType.chart)

unfoldable pub fits : WidgetType → Rect → Bool
fits type c = leb (widget_defs type).min_size.w c.w && leb (widget_defs type).min_size.h c.h

-- The two lists that a chart is chosen from.
unfoldable pub kpi_charts : List String
unfolding is_tile_sized all_chart_ids
kpi_charts = filter (λ id. is_tile_sized id) all_chart_ids

unfoldable pub big_charts : List String
unfolding is_tile_sized all_chart_ids
big_charts = filter (λ id. not (is_tile_sized id)) all_chart_ids

-- `small ? kpiCharts : bigCharts`.
unfoldable pub charts_for : Bool → List String
unfolding kpi_charts big_charts
charts_for true = kpi_charts
charts_for false = big_charts

abbrev pub is_small : Rect → Bool
is_small c = leb c.h 4 || leb c.w 3

abbrev dataset_ids : List DatasetId
dataset_ids =
    DatasetId.denials ∷ DatasetId.commands ∷ DatasetId.alerts ∷ DatasetId.signatures
    ∷ DatasetId.fleet ∷ []

abbrev pub Chosen : Type 0
Chosen = WidgetType × Option ChartConfig

-- What the loop over the cells has used: the draws and the types.
pub record Choosing : Type 0 where
  pub chosen : Chosen
  pub used : List WidgetType
  pub next : ℕ

module _ (N : Arithmetic) (random : ℕ → ℕ) where
  -- The loop of `shuffle` from place `i` down; a shuffle of `k` items takes `k - 1` draws.
  unfoldable pub shuffle_from {ℓ} : {A : Type ℓ} → ℕ → ℕ → A → List A → List A
  unfolding random_int
  shuffle_from zero n d xs = xs
  shuffle_from (suc i) n d xs =
      shuffle_from i (n + 1) d (swap (suc i) (random_int random n 0 (suc i)) d xs)

  abbrev pub shuffle : ℕ → List WidgetType → List WidgetType
  shuffle n xs = shuffle_from (length xs - 1) n WidgetType.stat_agents xs

  -- Two draws: the dataset and the days.
  unfoldable pub random_chart_config : ℕ → String → ChartConfig
  unfolding random_int
  random_chart_config n chart =
      let dataset = get_or dataset_ids (random_int random n 0 4) DatasetId.fleet in
      let def = datasets N dataset in
      record {
        dataset = dataset;
        chart = chart;
        dim = def.default_dim;
        dim2 = none;
        days = get_or (7 ∷ 30 ∷ 90 ∷ []) (random_int random (n + 1) 0 2) 90;
        measure = elim (first def.measures) [ none ↦ none | some m ↦ some m.id ];
        target = none;
      }

  abbrev pub is_free : List WidgetType → Rect → WidgetType → Bool
  is_free used c t = not (any (same_type t) used) && fits t c

  -- The last line of `pick`, where neither pool has a type.
  abbrev pub or_any : ℕ → Rect → Option WidgetType → WidgetType × ℕ
  or_any n c (some t) = (t, n)
  or_any n c none =
      (or_else (find (λ t. fits t c) (shuffle n widget_catalog)) WidgetType.stat_agents, n + 16)

  -- `pick` for two pools, and the number of the next draw.
  unfoldable pub pick :
      ℕ → List WidgetType → List WidgetType → List WidgetType → Rect → WidgetType × ℕ
  unfolding fits shuffle_from
  pick n used pool pool2 c =
      or_any n c (or_first (find (is_free used c) pool) (find (is_free used c) pool2))

  unfoldable pub choose_chart : ℕ → Rect → String
  unfolding random_int charts_for
  choose_chart n c =
      let pool = charts_for (is_small c) in get_or pool (random_int random n 0 (length pool - 1)) ""

  -- `preferTile`, whose last test draws, and the number of the next draw.
  abbrev pub prefers_tile : ℕ → Rect → Bool × ℕ
  prefers_tile n c =
      if leb c.h 4 || leb (c.w * c.h) 18
      then (true, n)
      else (ltb (4 * random n) 5404319552844595, n + 1)

  unfoldable pub choose_panel :
      List WidgetType → List WidgetType → ℕ → List WidgetType → Rect → Choosing
  unfolding pick
  choose_panel stats panels n used c =
      let (tile, k) = prefers_tile n c in
      let (type, next) =
        pick k used (if tile then stats else panels) (if tile then panels else stats) c in
      record { chosen = (type, none); used = type ∷ used; next = next }

  unfoldable pub choose_tile : ℕ → List WidgetType → Rect → Choosing
  unfolding choose_chart random_chart_config
  choose_tile n used c = record {
    chosen = (WidgetType.chart, some (random_chart_config (n + 1) (choose_chart n c)));
    used = used;
    next = n + 3;
  }

  -- One round of the loop: a chart in about half of the cells, else a widget that fits.
  unfoldable pub choose_widget :
      List WidgetType → List WidgetType → ℕ → List WidgetType → Rect → Choosing
  unfolding choose_tile choose_panel
  choose_widget stats panels n used c =
      if ltb (2 * random n) 9007199254740992
      then choose_tile (n + 1) used c
      else choose_panel stats panels (n + 1) used c

  unfoldable pub assign :
      List WidgetType → List WidgetType → ℕ → List WidgetType → List Rect → List (Rect × Chosen)
  unfolding choose_widget
  assign stats panels n used [] = []
  assign stats panels n used (c ∷ cells) =
      let round = choose_widget stats panels n used c in
      (c, round.chosen) ∷ assign stats panels round.next round.used cells

  -- `assigned.get(cell)` and `chartConfigs.get(cell)`.
  unfoldable pub assigned : Rect → List (Rect × Chosen) → Option Chosen
  assigned c [] = none
  assigned c ((d, chosen) ∷ rest) = if same_cell c d then some chosen else assigned c rest

  abbrev pub placed : Rect → Chosen → PlacedWidget
  placed c chosen = record {
    type = chosen.0;
    x = c.x;
    y = c.y;
    w = c.w;
    h = c.h;
    limit = fit_limit chosen.0 c.w c.h;
    config = chosen.1;
  }

  abbrev pub cons_placed :
      Rect → Option Chosen → Option (List PlacedWidget) → Option (List PlacedWidget)
  cons_placed c none rest = none
  cons_placed c (some chosen) none = none
  cons_placed c (some chosen) (some rest) = some (placed c chosen ∷ rest)

  -- The widgets of the cells; `none` is a cell without an entry.
  unfoldable pub place_cells : List (Rect × Chosen) → List Rect → Option (List PlacedWidget)
  unfolding assigned fit_limit
  place_cells table [] = some []
  place_cells table (c ∷ cells) = cons_placed c (assigned c table) (place_cells table cells)

  abbrev pub stat_types : List WidgetType
  stat_types = shuffle 0 (filter is_stat widget_catalog)

  abbrev pub panel_types : List WidgetType
  panel_types = shuffle 5 (filter is_panel widget_catalog)

  unfoldable pub random_widgets : List Rect → Option (List PlacedWidget)
  unfolding assign place_cells shuffle_from
  random_widgets cells =
      place_cells (assign stat_types panel_types 14 [] (sort_by bigger cells)) cells

  abbrev pub shown : (ℕ → String) → Page → Option (List PlacedWidget) → Option Page
  shown ids p none = none
  shown ids p (some ws) = some (replace_layout (with_ids ids 0 ws) p)

  -- The whole handler; `draws` are those of the cells.
  unfoldable pub randomize_layout : (ℕ → ℕ) → (ℕ → String) → ℕ → Page → Option Page
  unfolding random_widgets random_cells with_ids replace_layout
  randomize_layout draws ids raw_rows p = shown ids p (random_widgets (random_cells draws raw_rows))
