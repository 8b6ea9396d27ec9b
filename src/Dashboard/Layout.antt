-- ===== src/Dashboard/Layout.antt =====
-- The layout of the dashboard page: the state of frontend/src/pages/Dashboard.tsx that editing
-- changes, and its handlers. Identifiers come from `randomUUID`, which is an argument here.
pub mod Editing
use simply_se.Base.{
  ℕ, ◌+◌, max, Bool, true, false, not, Option, none, some, List, [], ◌∷◌, ◌++◌, String, str_eq,
  if◌then◌else◌, find, filter, map,
}
use simply_se.Base.Int.{ℤ}
use simply_se.Charts.Types.{ChartConfig, denials}
use simply_se.Dashboard.Grid.{WidgetType, same_type}
use simply_se.Dashboard.Templates.{
  PlacedWidget, DashboardTemplate, place_template, rows_for_viewport,
}
use simply_se.Dashboard.Widgets.{WidgetInstance, WidgetDef, widget_defs}

pub record Page : Type 0 where
  pub widgets : List WidgetInstance
  pub show_catalog : Bool
  pub configuring_id : Option String
  pub show_templates : Bool
  pub previous_layout : Option (List WidgetInstance)

-- An item of the grid component's layout; the other fields are not read.
pub record LayoutItem : Type 0 where
  pub i : String
  pub x : ℕ
  pub y : ℕ
  pub w : ℕ
  pub h : ℕ

abbrev pub default_chart : ChartConfig
default_chart = record {
  dataset = denials;
  chart = "multi-line";
  dim = "tclass";
  dim2 = none;
  days = 30;
  measure = none;
  target = none;
}

-- `widgets.reduce((m, w) => Math.max(m, w.y + w.h), 0)`.
pub max_y : ℕ → List WidgetInstance → ℕ
max_y m [] = m
max_y m (w ∷ widgets) = max_y (max m (w.y + w.h)) widgets

pub new_widget : String → WidgetType → ℕ → WidgetInstance
new_widget id type y =
    let d = widget_defs type in
    record {
      id = id;
      type = type;
      x = 0;
      y = y;
      w = d.default_size.w;
      h = d.default_size.h;
      limit = if d.has_limit then d.default_limit else none;
      config = if same_type type WidgetType.chart then some default_chart else none;
    }

unfoldable pub add_widget : String → WidgetType → Page → Page
unfolding max_y new_widget
add_widget id type p = record {
  widgets = p.widgets ++ new_widget id type (max_y 0 p.widgets) ∷ [];
  show_catalog = false;
  configuring_id = if same_type type WidgetType.chart then some id else p.configuring_id;
  show_templates = p.show_templates;
  previous_layout = p.previous_layout;
}

abbrev with_widgets : List WidgetInstance → Page → Page
with_widgets widgets p = record {
  widgets = widgets;
  show_catalog = p.show_catalog;
  configuring_id = p.configuring_id;
  show_templates = p.show_templates;
  previous_layout = p.previous_layout;
}

unfoldable pub remove_widget : String → Page → Page
remove_widget id p = with_widgets (filter (λ w. not (str_eq w.id id)) p.widgets) p

unfoldable pub limit_widget : String → ℤ → WidgetInstance → WidgetInstance
limit_widget id limit w =
    if str_eq w.id id
    then record {
      id = w.id;
      type = w.type;
      x = w.x;
      y = w.y;
      w = w.w;
      h = w.h;
      limit = some limit;
      config = w.config;
    }
    else w

unfoldable pub set_widget_limit : String → ℤ → Page → Page
unfolding limit_widget
set_widget_limit id limit p = with_widgets (map (limit_widget id limit) p.widgets) p

pub move_widget : Option LayoutItem → WidgetInstance → WidgetInstance
move_widget none w = w
move_widget (some item) w = record {
  id = w.id;
  type = w.type;
  x = item.x;
  y = item.y;
  w = item.w;
  h = item.h;
  limit = w.limit;
  config = w.config;
}

pub move_by : List LayoutItem → WidgetInstance → WidgetInstance
unfolding move_widget
move_by next w = move_widget (find (λ n. str_eq n.i w.id) next) w

unfoldable pub handle_layout_change : List LayoutItem → Page → Page
unfolding move_by
handle_layout_change next p = with_widgets (map (move_by next) p.widgets) p

unfoldable pub replace_layout : List WidgetInstance → Page → Page
replace_layout next p = record {
  widgets = next;
  show_catalog = false;
  configuring_id = p.configuring_id;
  show_templates = p.show_templates;
  previous_layout = some p.widgets;
}

-- The button that brings the replaced layout back; it is shown where there is one.
unfoldable pub undo_layout : Page → Page
undo_layout p = elim p.previous_layout [
  | none ↦ p
  | some widgets ↦ record {
    widgets = widgets;
    show_catalog = p.show_catalog;
    configuring_id = p.configuring_id;
    show_templates = p.show_templates;
    previous_layout = none;
  }
]

-- `{ id: randomUUID(), ...p }` for each widget; `ids` gives the identifiers by position.
unfoldable pub with_ids : (ℕ → String) → ℕ → List PlacedWidget → List WidgetInstance
with_ids ids n [] = []
with_ids ids n (p ∷ placed) =
    record {
      id = ids n;
      type = p.type;
      x = p.x;
      y = p.y;
      w = p.w;
      h = p.h;
      limit = p.limit;
      config = p.config;
    }
    ∷ with_ids ids (n + 1) placed

-- `raw_rows` is what `viewportRows` measures in the window.
unfoldable pub apply_template : (ℕ → String) → ℕ → DashboardTemplate → Page → Page
unfolding with_ids replace_layout
apply_template ids raw_rows template p =
    let q =
      replace_layout (with_ids ids 0 (place_template template (rows_for_viewport raw_rows))) p in
    record {
      widgets = q.widgets;
      show_catalog = q.show_catalog;
      configuring_id = q.configuring_id;
      show_templates = false;
      previous_layout = q.previous_layout;
    }
