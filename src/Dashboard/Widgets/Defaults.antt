-- ===== src/Dashboard/Widgets/Defaults.antt =====
-- The table of widgets agrees with the grid's, and the default layout fills its area.
use simply_se.Base.{
  ◌≤◌, ◌≡◌, refl, arith, map, All, count, Bool, true, ◌&&◌, not, ◌==◌, leb, if◌then◌else◌,
}
use simply_se.Dashboard.Area.{Rect, Tiles, tiles, tiles-Tiles}
use simply_se.Dashboard.Grid.{WidgetType, grid_cols, same_type, is_list_widget, widget_min}
use simply_se.Dashboard.Widgets.{
  WidgetDef, WidgetInstance, widget_defs, widget_catalog, default_widgets,
}

-- The entry of a type in the table.
pub record Describes (t : WidgetType) (d : WidgetDef) : Type 0 where
  pub same : d.type ≡ t
  pub listed : count (same_type t) widget_catalog ≡ 1
  pub limit : d.has_limit ≡ is_list_widget t
  pub minimum : d.min_size ≡ widget_min t
  pub wide : d.min_size.w ≤ d.default_size.w
  pub high : d.min_size.h ≤ d.default_size.h
  pub fits : d.default_size.w ≤ grid_cols

fits_well : WidgetType → Bool
unfolding is_list_widget
fits_well t =
    let d = widget_defs t in
    (count (same_type t) widget_catalog == 1)
    && ((if is_list_widget t then d.has_limit else not d.has_limit)
        && (leb d.min_size.w d.default_size.w
            && (leb d.min_size.h d.default_size.h && leb d.default_size.w grid_cols)))

describes :
    (t : WidgetType)
    → (widget_defs t).type ≡ t
    → (widget_defs t).min_size ≡ widget_min t
    → fits_well t ≡ true
    → Describes t (widget_defs t)
unfolding fits_well
describes t e m h = record {
  same = e;
  listed = ground arith;
  limit = ground arith;
  minimum = m;
  wide = ground arith;
  high = ground arith;
  fits = ground arith;
}

-- For every widget type the table holds the entry of that type, the catalogue lists it once, it has
-- a limit exactly if the grid counts it among the lists, its minimum size is the one of the grid, and
-- its default size is at least that and no wider than the grid.
pub widget_defs-Describes : (t : WidgetType) → Describes t (widget_defs t)
unfolding is_list_widget fits_well
widget_defs-Describes WidgetType.stat_agents = describes WidgetType.stat_agents refl refl refl
widget_defs-Describes WidgetType.stat_enforcing = describes WidgetType.stat_enforcing refl refl refl
widget_defs-Describes WidgetType.stat_denials = describes WidgetType.stat_denials refl refl refl
widget_defs-Describes WidgetType.stat_commands = describes WidgetType.stat_commands refl refl refl
widget_defs-Describes WidgetType.stat_alerts = describes WidgetType.stat_alerts refl refl refl
widget_defs-Describes WidgetType.stat_compliance =
    describes WidgetType.stat_compliance refl refl refl
widget_defs-Describes WidgetType.top_signatures = describes WidgetType.top_signatures refl refl refl
widget_defs-Describes WidgetType.recent_deployments =
    describes WidgetType.recent_deployments refl refl refl
widget_defs-Describes WidgetType.open_alerts = describes WidgetType.open_alerts refl refl refl
widget_defs-Describes WidgetType.denial_trend = describes WidgetType.denial_trend refl refl refl
widget_defs-Describes WidgetType.agents_vignettes =
    describes WidgetType.agents_vignettes refl refl refl
widget_defs-Describes WidgetType.compliance_checks =
    describes WidgetType.compliance_checks refl refl refl
widget_defs-Describes WidgetType.agents_by_mode = describes WidgetType.agents_by_mode refl refl refl
widget_defs-Describes WidgetType.pending_suggestions =
    describes WidgetType.pending_suggestions refl refl refl
widget_defs-Describes WidgetType.active_collections =
    describes WidgetType.active_collections refl refl refl
widget_defs-Describes WidgetType.attention_agents =
    describes WidgetType.attention_agents refl refl refl
widget_defs-Describes WidgetType.chart = describes WidgetType.chart refl refl refl

abbrev pub area_of : WidgetInstance → Rect
area_of w = record { x = w.x; y = w.y; w = w.w; h = w.h }

-- A widget as the table would make it.
abbrev pub IsStandard : WidgetInstance → Type 0
IsStandard w =
    (w.limit ≡ (widget_defs w.type).default_limit)
    × (((widget_min w.type).w ≤ w.w) × ((widget_min w.type).h ≤ w.h))

default_widgets-AreStandard : All IsStandard default_widgets
default_widgets-AreStandard = ground arith

-- The default layout fills 30 rows of the grid with no gap and no overlap, and each of its widgets
-- has the limit of the table and at least its minimum size.
pub default_widgets-Tiles :
    Tiles grid_cols 30 (map area_of default_widgets) × All IsStandard default_widgets
unfolding tiles
default_widgets-Tiles =
    (tiles-Tiles grid_cols 30 (map area_of default_widgets) refl, default_widgets-AreStandard)
