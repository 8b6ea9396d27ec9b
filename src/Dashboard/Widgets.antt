-- ===== src/Dashboard/Widgets.antt =====
-- The widgets of the dashboard, from frontend/src/lib/dashboardWidgets.tsx: the table of widget
-- types, the catalogue and the layout that stands until one is saved.
pub mod Defaults
use simply_se.Base.{ℕ, Bool, true, false, Option, none, some, List, [], ◌∷◌, String}
use simply_se.Base.Int.{ℤ, pos}
use simply_se.Charts.Types.{ChartConfig}
use simply_se.Dashboard.Grid.{WidgetType, Size, widget_min}

-- An absent `hasLimit` is false.
pub record WidgetDef : Type 0 where
  pub type : WidgetType
  pub label_key : String
  pub default_size : Size
  pub min_size : Size
  pub has_limit : Bool
  pub default_limit : Option ℤ

abbrev plain : WidgetType → String → ℕ → ℕ → WidgetDef
plain type label w h = record {
  type = type;
  label_key = label;
  default_size = record { w = w; h = h };
  min_size = widget_min type;
  has_limit = false;
  default_limit = none;
}

abbrev limited : WidgetType → String → ℕ → ℕ → ℕ → WidgetDef
limited type label w h n = record {
  type = type;
  label_key = label;
  default_size = record { w = w; h = h };
  min_size = widget_min type;
  has_limit = true;
  default_limit = some (pos n);
}

abbrev pub widget_defs : WidgetType → WidgetDef
widget_defs WidgetType.stat_agents = plain WidgetType.stat_agents "dashboard.widgets.statAgents" 4 4
widget_defs WidgetType.stat_enforcing =
    plain WidgetType.stat_enforcing "dashboard.widgets.statEnforcing" 4 4
widget_defs WidgetType.stat_denials =
    plain WidgetType.stat_denials "dashboard.widgets.statDenials" 4 4
widget_defs WidgetType.stat_commands =
    plain WidgetType.stat_commands "dashboard.widgets.statCommands" 4 4
widget_defs WidgetType.stat_alerts = plain WidgetType.stat_alerts "dashboard.widgets.statAlerts" 4 4
widget_defs WidgetType.stat_compliance =
    plain WidgetType.stat_compliance "dashboard.widgets.statCompliance" 4 4
widget_defs WidgetType.top_signatures =
    limited WidgetType.top_signatures "dashboard.widgets.topSignatures" 4 8 6
widget_defs WidgetType.recent_deployments =
    limited WidgetType.recent_deployments "dashboard.widgets.recentDeployments" 4 8 6
widget_defs WidgetType.open_alerts =
    limited WidgetType.open_alerts "dashboard.widgets.openAlerts" 4 8 6
widget_defs WidgetType.denial_trend =
    plain WidgetType.denial_trend "dashboard.widgets.denialTrend" 6 8
widget_defs WidgetType.agents_vignettes =
    limited WidgetType.agents_vignettes "dashboard.widgets.agentsVignettes" 6 8 12
widget_defs WidgetType.compliance_checks =
    plain WidgetType.compliance_checks "dashboard.widgets.complianceChecks" 6 6
widget_defs WidgetType.agents_by_mode =
    plain WidgetType.agents_by_mode "dashboard.widgets.agentsByMode" 6 6
widget_defs WidgetType.pending_suggestions =
    limited WidgetType.pending_suggestions "dashboard.widgets.pendingSuggestions" 4 8 6
widget_defs WidgetType.active_collections =
    limited WidgetType.active_collections "dashboard.widgets.activeCollections" 4 8 6
widget_defs WidgetType.attention_agents =
    limited WidgetType.attention_agents "dashboard.widgets.attentionAgents" 4 8 6
widget_defs WidgetType.chart = plain WidgetType.chart "dashboard.widgets.chart" 6 8

abbrev pub widget_catalog : List WidgetType
widget_catalog =
    WidgetType.stat_agents ∷ WidgetType.stat_enforcing ∷ WidgetType.stat_denials
    ∷ WidgetType.stat_commands ∷ WidgetType.stat_alerts ∷ WidgetType.stat_compliance
    ∷ WidgetType.top_signatures ∷ WidgetType.recent_deployments ∷ WidgetType.open_alerts
    ∷ WidgetType.denial_trend ∷ WidgetType.agents_vignettes ∷ WidgetType.compliance_checks
    ∷ WidgetType.agents_by_mode ∷ WidgetType.pending_suggestions ∷ WidgetType.active_collections
    ∷ WidgetType.attention_agents ∷ WidgetType.chart ∷ []

pub record WidgetInstance : Type 0 where
  pub id : String
  pub type : WidgetType
  pub x : ℕ
  pub y : ℕ
  pub w : ℕ
  pub h : ℕ
  pub limit : Option ℤ
  pub config : Option ChartConfig

abbrev standing : String → WidgetType → ℕ → ℕ → ℕ → ℕ → Option ℤ → WidgetInstance
standing id type x y w h limit = record {
  id = id;
  type = type;
  x = x;
  y = y;
  w = w;
  h = h;
  limit = limit;
  config = none;
}

abbrev pub default_widgets : List WidgetInstance
default_widgets =
    standing "default-stat-agents" WidgetType.stat_agents 0 0 4 4 none
    ∷ standing "default-stat-enforcing" WidgetType.stat_enforcing 4 0 4 4 none
    ∷ standing "default-stat-denials" WidgetType.stat_denials 8 0 4 4 none
    ∷ standing "default-stat-commands" WidgetType.stat_commands 0 4 4 4 none
    ∷ standing "default-stat-alerts" WidgetType.stat_alerts 4 4 4 4 none
    ∷ standing "default-stat-compliance" WidgetType.stat_compliance 8 4 4 4 none
    ∷ standing "default-top-signatures" WidgetType.top_signatures 0 8 4 8 (some (pos 6))
    ∷ standing "default-recent-deployments" WidgetType.recent_deployments 4 8 4 8 (some (pos 6))
    ∷ standing "default-open-alerts" WidgetType.open_alerts 8 8 4 8 (some (pos 6))
    ∷ standing "default-denial-trend" WidgetType.denial_trend 0 16 6 8 none
    ∷ standing "default-agents-vignettes" WidgetType.agents_vignettes 6 16 6 8 (some (pos 12))
    ∷ standing "default-compliance-checks" WidgetType.compliance_checks 0 24 6 6 none
    ∷ standing "default-agents-by-mode" WidgetType.agents_by_mode 6 24 6 6 none
    ∷ []
