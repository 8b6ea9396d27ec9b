-- ===== src/Dashboard/Templates.antt =====
-- frontend/src/lib/dashboardTemplates.ts: the ready-made dashboards and how one is stretched to
-- the height of the window.
pub mod Catalog
pub mod Scaling
pub mod Tiling
pub mod Contents
use simply_se.Base.{ℕ, ◌+◌, ◌-◌, ◌*◌, ◌/◌, min, max, Option, none, some, List, [], ◌∷◌, map, String}
use simply_se.Base.Int.{ℤ}
use simply_se.Charts.Types.{ChartConfig, DatasetId}
use simply_se.Dashboard.Grid.{WidgetType, fit_limit}

abbrev pub base_rows : ℕ
base_rows = 15

abbrev pub max_rows : ℕ
max_rows = 28

pub record TemplateCell : Type 0 where
  pub type : WidgetType
  pub x : ℕ
  pub y : ℕ
  pub w : ℕ
  pub h : ℕ
  pub chart : Option ChartConfig

pub record DashboardTemplate : Type 0 where
  pub id : String
  pub icon : String
  pub cells : List TemplateCell

pub data DataFamily : Type 0 where
  denials deployments alerts fleet : DataFamily

-- A chart tile shows the family of its dataset. `none` is the lookup of a chart tile with no
-- configuration, which the source's table has no entry for.
abbrev pub family_of_dataset : DatasetId → DataFamily
family_of_dataset DatasetId.denials = denials
family_of_dataset DatasetId.signatures = denials
family_of_dataset DatasetId.commands = deployments
family_of_dataset DatasetId.alerts = alerts
family_of_dataset DatasetId.fleet = fleet

abbrev pub family_of_widget : WidgetType → Option DataFamily
family_of_widget WidgetType.stat_denials = some denials
family_of_widget WidgetType.top_signatures = some denials
family_of_widget WidgetType.denial_trend = some denials
family_of_widget WidgetType.stat_commands = some deployments
family_of_widget WidgetType.recent_deployments = some deployments
family_of_widget WidgetType.stat_alerts = some alerts
family_of_widget WidgetType.open_alerts = some alerts
family_of_widget WidgetType.stat_agents = some fleet
family_of_widget WidgetType.stat_enforcing = some fleet
family_of_widget WidgetType.stat_compliance = some fleet
family_of_widget WidgetType.agents_vignettes = some fleet
family_of_widget WidgetType.compliance_checks = some fleet
family_of_widget WidgetType.agents_by_mode = some fleet
family_of_widget WidgetType.attention_agents = some fleet
family_of_widget WidgetType.pending_suggestions = some denials
family_of_widget WidgetType.active_collections = some denials
family_of_widget WidgetType.chart = none

unfoldable pub family_of : WidgetType → Option ChartConfig → Option DataFamily
family_of WidgetType.chart (some c) = some (family_of_dataset c.dataset)
family_of WidgetType.chart none = none
family_of type _ = family_of_widget type

pub record PlacedWidget : Type 0 where
  pub type : WidgetType
  pub x : ℕ
  pub y : ℕ
  pub w : ℕ
  pub h : ℕ
  pub limit : Option ℤ
  pub config : Option ChartConfig

-- Rows of a dashboard in a window.
unfoldable pub rows_for_viewport : ℕ → ℕ
rows_for_viewport raw_rows = max base_rows (min max_rows raw_rows)

-- `Math.round(e * k)` for `k = Math.max(BASE_ROWS, rows) / BASE_ROWS`, as floor(e * k + 1/2). The
-- exact value is never halfway between two integers, since 2 * e * rows is even and an odd
-- multiple of 15 is not, so the rounding of the floating-point product does not show.
unfoldable pub scale_edge : ℕ → ℕ → ℕ
scale_edge rows e = (2 * (e * max base_rows rows) + base_rows) / (2 * base_rows)

unfoldable pub place_cell : ℕ → TemplateCell → PlacedWidget
unfolding scale_edge
place_cell rows c =
    let y = scale_edge rows c.y in
    let h = scale_edge rows (c.y + c.h) - y in
    record {
      type = c.type;
      x = c.x;
      y = y;
      w = c.w;
      h = h;
      limit = fit_limit c.type c.w h;
      config = c.chart;
    }

unfoldable pub place_template : DashboardTemplate → ℕ → List PlacedWidget
unfolding place_cell
place_template template rows = map (place_cell rows) template.cells
