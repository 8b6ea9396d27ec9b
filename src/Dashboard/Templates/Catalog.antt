-- ===== src/Dashboard/Templates/Catalog.antt =====
-- The templates of frontend/src/lib/dashboardTemplates.ts, cell by cell.
use simply_se.Base.{ℕ, none, some, List, [], ◌∷◌, String}
use simply_se.Charts.Types.{ChartConfig, DatasetId}
use simply_se.Dashboard.Grid.{WidgetType}
use simply_se.Dashboard.Templates.{TemplateCell, DashboardTemplate}

abbrev stat : WidgetType → ℕ → ℕ → TemplateCell
stat type x y = record { type = type; x = x; y = y; w = 3; h = 3; chart = none }

abbrev widget : WidgetType → ℕ → ℕ → ℕ → ℕ → TemplateCell
widget type x y w h = record { type = type; x = x; y = y; w = w; h = h; chart = none }

abbrev chart : ℕ → ℕ → ℕ → ℕ → ChartConfig → TemplateCell
chart x y w h config = record {
  type = WidgetType.chart;
  x = x;
  y = y;
  w = w;
  h = h;
  chart = some config;
}

abbrev config : DatasetId → String → String → String → ℕ → ChartConfig
config dataset kind dim measure days = record {
  dataset = dataset;
  chart = kind;
  dim = dim;
  dim2 = none;
  days = days;
  measure = some measure;
  target = none;
}

-- The default of 30 days is written out where the source leaves `days` off.
abbrev denials : String → String → ℕ → ChartConfig
denials kind dim days = config DatasetId.denials kind dim "count" days

abbrev commands : String → String → ℕ → ChartConfig
commands kind dim days = config DatasetId.commands kind dim "count" days

abbrev alerts : String → String → ℕ → ChartConfig
alerts kind dim days = config DatasetId.alerts kind dim "count" days

abbrev fleet : String → String → String → ℕ → ChartConfig
fleet kind dim measure days = config DatasetId.fleet kind dim measure days

abbrev pub overview : DashboardTemplate
overview = record {
  id = "overview";
  icon = "ph-squares-four";
  cells =
      stat WidgetType.stat_agents 0 0
      ∷ stat WidgetType.stat_denials 3 0
      ∷ stat WidgetType.stat_alerts 6 0
      ∷ stat WidgetType.stat_commands 9 0
      ∷ widget WidgetType.denial_trend 0 3 8 6
      ∷ widget WidgetType.agents_by_mode 8 3 4 6
      ∷ widget WidgetType.open_alerts 0 9 4 6
      ∷ widget WidgetType.recent_deployments 4 9 4 6
      ∷ widget WidgetType.top_signatures 8 9 4 6
      ∷ [];
}

abbrev pub security : DashboardTemplate
security = record {
  id = "security";
  icon = "ph-shield-warning";
  cells =
      chart 0 0 3 3 (denials "kpi-delta" "tclass" 7)
      ∷ stat WidgetType.stat_alerts 3 0
      ∷ stat WidgetType.stat_commands 6 0
      ∷ stat WidgetType.stat_agents 9 0
      ∷ chart 0 3 8 6 (denials "stacked-area" "tclass" 30)
      ∷ chart 8 3 4 6 (denials "bar-h" "scontext" 30)
      ∷ chart 0 9 4 6 (alerts "donut" "severity" 30)
      ∷ chart 4 9 4 6 (commands "column" "status" 30)
      ∷ chart 8 9 4 6 (fleet "bar-h" "agent" "score" 7)
      ∷ [];
}

abbrev pub compliance : DashboardTemplate
compliance = record {
  id = "compliance";
  icon = "ph-seal-check";
  cells =
      chart 0 0 3 3 (fleet "kpi-delta" "mode" "score" 7)
      ∷ stat WidgetType.stat_denials 3 0
      ∷ stat WidgetType.stat_alerts 6 0
      ∷ stat WidgetType.stat_commands 9 0
      ∷ chart 0 3 8 6 (fleet "multi-line" "mode" "score" 90)
      ∷ widget WidgetType.compliance_checks 8 3 4 6
      ∷ chart 0 9 4 6 (denials "donut" "tclass" 30)
      ∷ widget WidgetType.open_alerts 4 9 4 6
      ∷ widget WidgetType.recent_deployments 8 9 4 6
      ∷ [];
}

abbrev pub rollouts : DashboardTemplate
rollouts = record {
  id = "deployments";
  icon = "ph-rocket-launch";
  cells =
      chart 0 0 3 3 (commands "kpi-delta" "type" 7)
      ∷ stat WidgetType.stat_denials 3 0
      ∷ stat WidgetType.stat_alerts 6 0
      ∷ stat WidgetType.stat_agents 9 0
      ∷ chart 0 3 8 6 (commands "stacked-bar" "status" 30)
      ∷ widget WidgetType.recent_deployments 8 3 4 6
      ∷ chart 0 9 4 6 (denials "area" "tclass" 30)
      ∷ chart 4 9 4 6 (alerts "column" "severity" 30)
      ∷ widget WidgetType.agents_by_mode 8 9 4 6
      ∷ [];
}

abbrev pub machines : DashboardTemplate
machines = record {
  id = "fleet";
  icon = "ph-hard-drives";
  cells =
      chart 0 0 3 3 (fleet "kpi-delta" "mode" "online" 7)
      ∷ stat WidgetType.stat_denials 3 0
      ∷ stat WidgetType.stat_alerts 6 0
      ∷ stat WidgetType.stat_commands 9 0
      ∷ widget WidgetType.agents_vignettes 0 3 8 6
      ∷ chart 8 3 4 6 (fleet "bar-h" "agent" "online" 7)
      ∷ chart 0 9 4 6 (denials "bar-h" "agent" 30)
      ∷ chart 4 9 4 6 (alerts "bar-h" "agent" 30)
      ∷ chart 8 9 4 6 (commands "bar-h" "agent" 30)
      ∷ [];
}

abbrev pub dashboard_templates : List DashboardTemplate
dashboard_templates = overview ∷ security ∷ compliance ∷ rollouts ∷ machines ∷ []
