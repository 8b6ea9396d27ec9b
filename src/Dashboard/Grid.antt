-- ===== src/Dashboard/Grid.antt =====
-- frontend/src/lib/dashboardGrid.ts: grid geometry and widget sizes.
pub mod Limits
use simply_se.Base.{
  ℕ, ◌+◌, ◌-◌, ◌*◌, ◌==◌, if◌then◌else◌, Bool, true, false, any, Option, none, some, List, [], ◌∷◌,
}
use simply_se.Base.Int.{ℤ, pos, ◌-ℤ◌, ◌*ℤ◌, max_ℤ, min_ℤ, floor_div}

abbrev pub grid_cols : ℕ
grid_cols = 12

abbrev pub row_height : ℕ
row_height = 32

abbrev pub margin : ℕ × ℕ
margin = (11, 11)

pub data WidgetType : Type 0 where
  stat_agents stat_enforcing stat_denials stat_commands stat_alerts stat_compliance : WidgetType
  top_signatures recent_deployments open_alerts denial_trend agents_vignettes : WidgetType
  compliance_checks agents_by_mode pending_suggestions active_collections : WidgetType
  attention_agents chart : WidgetType

-- The place of a type in the list above, by which types are compared.
abbrev type_index : WidgetType → ℕ
type_index stat_agents = 0
type_index stat_enforcing = 1
type_index stat_denials = 2
type_index stat_commands = 3
type_index stat_alerts = 4
type_index stat_compliance = 5
type_index top_signatures = 6
type_index recent_deployments = 7
type_index open_alerts = 8
type_index denial_trend = 9
type_index agents_vignettes = 10
type_index compliance_checks = 11
type_index agents_by_mode = 12
type_index pending_suggestions = 13
type_index active_collections = 14
type_index attention_agents = 15
type_index chart = 16

-- `===` on widget types.
abbrev pub same_type : WidgetType → WidgetType → Bool
same_type s t = type_index s == type_index t

pub record Size : Type 0 where
  pub w : ℕ
  pub h : ℕ

abbrev size : ℕ → ℕ → Size
size w h = record { w = w; h = h }

abbrev pub widget_min : WidgetType → Size
widget_min stat_agents = size 3 3
widget_min stat_enforcing = size 3 3
widget_min stat_denials = size 3 3
widget_min stat_commands = size 3 3
widget_min stat_alerts = size 3 3
widget_min stat_compliance = size 3 3
widget_min top_signatures = size 3 4
widget_min recent_deployments = size 3 4
widget_min open_alerts = size 3 4
widget_min denial_trend = size 4 5
widget_min agents_vignettes = size 3 4
widget_min compliance_checks = size 3 4
widget_min agents_by_mode = size 3 4
widget_min pending_suggestions = size 3 4
widget_min active_collections = size 3 4
widget_min attention_agents = size 3 4
widget_min chart = size 2 3

abbrev pub list_widgets : List WidgetType
list_widgets =
    top_signatures ∷ recent_deployments ∷ open_alerts ∷ agents_vignettes ∷ pending_suggestions
    ∷ active_collections ∷ attention_agents ∷ []

pub clamp : ℤ → ℤ → ℤ → ℤ
clamp n lo hi = max_ℤ lo (min_ℤ hi n)

-- The usable height of a widget in pixels; it is negative in a cell of one row.
abbrev pub height_px : ℕ → ℤ
height_px h = pos (h * (row_height + margin.1)) -ℤ pos 75

pub per_row : ℕ → ℤ
per_row w = max_ℤ (pos 1) (floor_div (pos (w * 100) -ℤ pos 32) 136)

abbrev pub vignettes_high : ℕ → ℤ
vignettes_high h = max_ℤ (pos 1) (floor_div (height_px h) 72)

abbrev pub lines_high : ℕ → ℤ
lines_high h = floor_div (height_px h) 38

unfoldable pub is_list_widget : WidgetType → Bool
is_list_widget type = any (λ t. same_type t type) list_widgets

-- The number of rows of a list widget: by the height, and for the vignettes by the width as well.
pub fitting_rows : WidgetType → ℕ → ℕ → ℤ
unfolding clamp per_row
fitting_rows type w h =
    if same_type type agents_vignettes
    then clamp (per_row w *ℤ vignettes_high h) (pos 2) (pos 50)
    else clamp (lines_high h) (pos 2) (pos 50)

-- How many rows of a list widget fit its cell; `none` for a widget that is no list.
unfoldable pub fit_limit : WidgetType → ℕ → ℕ → Option ℤ
unfolding is_list_widget fitting_rows
fit_limit type w h = if is_list_widget type then some (fitting_rows type w h) else none
