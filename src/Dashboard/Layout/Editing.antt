-- ===== src/Dashboard/Layout/Editing.antt =====
-- Editing the layout of the dashboard: adding, removing, moving and replacing widgets.
use simply_se.Base.{
  All-apply, ℕ, ◌+◌, ◌≤◌, ◌≡◌, refl, ap, ap₂, sym, max, Bool, true, false, not, Option, List, [],
  ◌∷◌, ◌++◌, String, str_eq, eq_iff, find, filter, map, count, any, All, arith, leb, ltb,
  Bool-cases, inl, inr, Option-cases, subst, zero, suc, none, some, get_elem?, ◌∙◌,
}
use mathlib.Core.Option as O
use mathlib.Core.Option.{some-injective}
use simply_se.Base.Int.{ℤ}
use simply_se.Charts.Types.{ChartConfig}
use simply_se.Dashboard.Area.{covers, Tiles}
use simply_se.Dashboard.Grid.{WidgetType, grid_cols}
use simply_se.Dashboard.Templates.{PlacedWidget, place_template, rows_for_viewport, base_rows}
use simply_se.Dashboard.Templates.Catalog.{dashboard_templates}
use simply_se.Dashboard.Templates.Tiling.{placed_area, dashboard_templates-Tiles}
use simply_se.Dashboard.Widgets.{WidgetInstance}
use simply_se.Dashboard.Widgets.Defaults.{area_of}
use simply_se.Dashboard.Layout.{
  Page, LayoutItem, max_y, new_widget, add_widget, remove_widget, move_widget, move_by,
  handle_layout_change, replace_layout, undo_layout, with_ids, apply_template,
}

-- A widget of the layout has this identifier.
abbrev pub has_id : String → List WidgetInstance → Bool
has_id id widgets = any (λ w. str_eq w.id id) widgets

-- How many widgets cover a square of the grid.
abbrev pub covering : ℕ → ℕ → List WidgetInstance → ℕ
covering x y widgets = count (λ w. covers x y (area_of w)) widgets

max_y-le : (m : ℕ) (widgets : List WidgetInstance) → m ≤ max_y m widgets
unfolding max_y
max_y-le m [] = omega arith
max_y-le m (w ∷ widgets) = omega (arith, max_y-le (max m (w.y + w.h)) widgets)

-- Nothing reaches below the lowest edge.
covering-below :
    (m x y : ℕ) (widgets : List WidgetInstance) → max_y m widgets ≤ y → covering x y widgets ≡ 0
unfolding max_y
covering-below m x y [] h = refl
covering-below m x y (w ∷ widgets) h =
    let lower : w.y + w.h ≤ y = omega (arith, max_y-le (max m (w.y + w.h)) widgets) in
    let miss : ltb y (w.y + w.h) ≡ false = ground arith in
    ground (arith, covering-below (max m (w.y + w.h)) x y widgets h)

covering-append :
    (x y : ℕ) (xs ys : List WidgetInstance)
    → covering x y (xs ++ ys) ≡ covering x y xs + covering x y ys
covering-append x y [] ys = omega arith
covering-append x y (w ∷ xs) ys = omega (arith, covering-append x y xs ys)

removed :
    (id : String) (w : WidgetInstance) (widgets : List WidgetInstance)
    → w.id ≡ id
    → has_id id widgets ≡ false
    → filter (λ v. not (str_eq v.id id)) (widgets ++ w ∷ []) ≡ widgets
removed id w [] e h = let same : str_eq w.id id ≡ true = (eq_iff w.id id).1 e in rw same
removed id w (v ∷ widgets) e h = ground (arith, removed id w widgets e)

-- A new widget below all others covers none of their squares.
covering-lowest :
    (x y : ℕ) (id : String) (type : WidgetType) (widgets : List WidgetInstance)
    → covering x y (widgets ++ new_widget id type (max_y 0 widgets) ∷ [])
      ≤ max 1 (covering x y widgets)
unfolding new_widget
covering-lowest x y id type widgets =
    let w = new_widget id type (max_y 0 widgets) in
    let split = covering-append x y widgets (w ∷ []) in
    let one : covering x y (w ∷ []) ≤ 1 = ground arith in
    elim (Bool-cases (leb (max_y 0 widgets) y)) [
      | inl low ↦ omega (arith, split, one, covering-below 0 x y widgets (ground arith))
      | inr high ↦
          let none : covering x y (w ∷ []) ≡ 0 = rw high (ground arith) in
          omega (arith, split, none)
    ]

-- Adding a widget puts it where nothing stands: no square of the grid comes to lie under two
-- widgets that did not before. With a new identifier, removing it again gives the layout back.
pub add_widget_free :
    (id : String) (type : WidgetType) (p : Page)
    → has_id id p.widgets ≡ false
    → ((x y : ℕ) → covering x y (add_widget id type p).widgets ≤ max 1 (covering x y p.widgets))
      × ((remove_widget id (add_widget id type p)).widgets ≡ p.widgets)
unfolding add_widget remove_widget new_widget
add_widget_free id type p h = (
  λ x y. covering-lowest x y id type p.widgets,
  removed id (new_widget id type (max_y 0 p.widgets)) p.widgets refl h,
)

area_of-with_ids :
    (ids : ℕ → String) (n : ℕ) (placed : List PlacedWidget)
    → map area_of (with_ids ids n placed) ≡ map placed_area placed
unfolding with_ids
area_of-with_ids ids n [] = refl
area_of-with_ids ids n (p ∷ placed) =
    ap (λ l. placed_area p ∷ l) (area_of-with_ids ids (n + 1) placed)

rows_enough :
    (raw_rows : ℕ) → max base_rows (rows_for_viewport raw_rows) ≡ rows_for_viewport raw_rows
unfolding rows_for_viewport
rows_enough raw_rows = omega arith

abbrev pub FillsScreen : ℕ → Page → Type 0
FillsScreen raw_rows p = Tiles grid_cols (rows_for_viewport raw_rows) (map area_of p.widgets)

-- Applying any of the templates fills the grid exactly, in a window of any height, and undoing it
-- gives back the layout that stood before.
pub apply_template-Tiles :
    (ids : ℕ → String) (raw_rows : ℕ) (p : Page)
    → All
        (λ t.
          FillsScreen raw_rows (apply_template ids raw_rows t p)
          × ((undo_layout (apply_template ids raw_rows t p)).widgets ≡ p.widgets))
        dashboard_templates
unfolding apply_template replace_layout undo_layout
apply_template-Tiles ids raw_rows p =
    let rows = rows_for_viewport raw_rows in
    All-apply (λ t. Tiles grid_cols (max base_rows rows) (map placed_area (place_template t rows)))
      (λ t.
        FillsScreen raw_rows (apply_template ids raw_rows t p)
        × ((undo_layout (apply_template ids raw_rows t p)).widgets ≡ p.widgets))
      (λ t tiled. (
        subst (λ h. Tiles grid_cols h (map area_of (with_ids ids 0 (place_template t rows))))
            (rows_enough raw_rows)
            (subst (λ areas. Tiles grid_cols (max base_rows rows) areas)
              (sym (area_of-with_ids ids 0 (place_template t rows))) tiled),
        refl,
      ))
      dashboard_templates (dashboard_templates-Tiles rows)

-- What a change of the grid leaves alone.
abbrev pub kept : WidgetInstance → String × (WidgetType × (Option ℤ × Option ChartConfig))
kept w = (w.id, (w.type, (w.limit, w.config)))

move_by-kept :
    (next : List LayoutItem) (widgets : List WidgetInstance)
    → map kept (map (move_by next) widgets) ≡ map kept widgets
unfolding move_by move_widget
move_by-kept next [] = refl
move_by-kept next (w ∷ widgets) =
    ap₂ (λ a l. a ∷ l)
      (elim (Option-cases (find (λ n. str_eq n.i w.id) next)) [
        | inl e ↦ rw e
        | inr (item, e) ↦ rw e
      ])
      (move_by-kept next widgets)

find-first :
    (id : String) (before : List LayoutItem) (item : LayoutItem) (after : List LayoutItem)
    → All (λ n. ¬ (n.i ≡ id)) before
    → item.i ≡ id
    → find (λ n. str_eq n.i id) (before ++ item ∷ after) ≡ some item
find-first id [] item after h e = rw ((eq_iff item.i id).1 e)
find-first id (n ∷ before) item after (h, hs) e = elim (Bool-cases (str_eq n.i id)) [
  | inl same ↦ absurd (h ((eq_iff n.i id).0 same))
  | inr other ↦ rw other (find-first id before item after hs e)
]

find-missing :
    (id : String) (next : List LayoutItem)
    → All (λ n. ¬ (n.i ≡ id)) next
    → find (λ n. str_eq n.i id) next ≡ none
find-missing id [] h = refl
find-missing id (n ∷ next) (h, hs) = elim (Bool-cases (str_eq n.i id)) [
  | inl same ↦ absurd (h ((eq_iff n.i id).0 same))
  | inr other ↦ rw other (find-missing id next hs)
]

-- All but the widgets of the page is the same.
pub record IsAround (p p' : Page) : Type 0 where
  pub catalog : p'.show_catalog ≡ p.show_catalog
  pub configuring : p'.configuring_id ≡ p.configuring_id
  pub templates : p'.show_templates ≡ p.show_templates
  pub previous : p'.previous_layout ≡ p.previous_layout

-- What a report of the grid makes of a widget: it takes the place and the size of the first item with
-- its identifier, it stays as it is where there is none, and nothing else of it changes.
pub record Moves (next : List LayoutItem) (w w' : WidgetInstance) : Type 0 where
  pub same : kept w' ≡ kept w
  pub moved :
      (before : List LayoutItem) (item : LayoutItem) (after : List LayoutItem)
      → next ≡ before ++ item ∷ after
      → All (λ n. ¬ (n.i ≡ w.id)) before
      → item.i ≡ w.id
      → ((w'.x ≡ item.x) × (w'.y ≡ item.y)) × ((w'.w ≡ item.w) × (w'.h ≡ item.h))
  pub unmoved : All (λ n. ¬ (n.i ≡ w.id)) next → w' ≡ w

moved_to :
    (found : Option LayoutItem) (item : LayoutItem) (w : WidgetInstance)
    → found ≡ some item
    → (((move_widget found w).x ≡ item.x) × ((move_widget found w).y ≡ item.y))
      × (((move_widget found w).w ≡ item.w) × ((move_widget found w).h ≡ item.h))
unfolding move_widget
moved_to none item w e = cc
moved_to (some found) item w e =
    let same = some-injective _ _ e in
    ((ap (λ i. i.x) same, ap (λ i. i.y) same), (ap (λ i. i.w) same, ap (λ i. i.h) same))

move_widget-kept :
    (found : Option LayoutItem) (w : WidgetInstance) → kept (move_widget found w) ≡ kept w
unfolding move_widget
move_widget-kept none w = refl
move_widget-kept (some item) w = refl

move_by-Moves : (next : List LayoutItem) (w : WidgetInstance) → Moves next w (move_by next w)
unfolding move_by move_widget
move_by-Moves next w =
    let found = find (λ n. str_eq n.i w.id) in
    record {
      same = move_widget-kept (found next) w;
      moved = λ before item after e none_before here.
          moved_to (found next) item w
            (ap found e ∙ find-first w.id before item after none_before here);
      unmoved = λ missing. ap (λ o. move_widget o w) (find-missing w.id next missing);
    }

get_elem?-move_by :
    (next : List LayoutItem) (widgets : List WidgetInstance) (i : ℕ) (w : WidgetInstance)
    → get_elem? widgets i ≡ some w
    → get_elem? (map (move_by next) widgets) i ≡ some (move_by next w)
get_elem?-move_by next [] i w h = cc
get_elem?-move_by next (v ∷ widgets) zero w h = ap (O.map (move_by next)) h
get_elem?-move_by next (v ∷ widgets) (suc i) w h = get_elem?-move_by next widgets i w h

-- A change that the grid reports moves and resizes each widget to the item of its identifier, and
-- leaves alone the widgets that the report does not name, which widgets there are, in which order,
-- and their types, limits and charts, the dialogs that are open and the layout to go back to.
pub handle_layout_change_keeps :
    (next : List LayoutItem) (p : Page)
    → (map kept (handle_layout_change next p).widgets ≡ map kept p.widgets)
      × (((i : ℕ) (w : WidgetInstance)
            → get_elem? p.widgets i ≡ some w
            → (w' : WidgetInstance) × (get_elem? (handle_layout_change next p).widgets i ≡ some w')
              × Moves next w w')
          × IsAround p (handle_layout_change next p))
unfolding handle_layout_change
handle_layout_change_keeps next p = (
  move_by-kept next p.widgets,
  (
    λ i w h. (move_by next w, get_elem?-move_by next p.widgets i w h, move_by-Moves next w),
    record { catalog = refl; configuring = refl; templates = refl; previous = refl },
  ),
)
