-- ===== src/Dashboard/Templates/Contents.antt =====
-- What a placed template shows (`placeTemplate`, `familyOf` and `DASHBOARD_TEMPLATES` of
-- frontend/src/lib/dashboardTemplates.ts).
use simply_se.Base.{
  ℕ, ◌≤◌, ◌≡◌, ◌==◌, refl, Bool, true, false, any, all, leb, ◌&&◌, Option, none, some, List, [],
  ◌∷◌, map, All, arith,
}
use simply_se.Dashboard.Grid.{widget_min}
use simply_se.Dashboard.Templates.{
  TemplateCell, DashboardTemplate, PlacedWidget, DataFamily, denials, deployments, alerts, fleet,
  family_of, place_cell, place_template,
}
use simply_se.Dashboard.Templates.Catalog.{
  overview, security, compliance, rollouts, machines, dashboard_templates,
}
use simply_se.Dashboard.Templates.Scaling.{scale_edge_grows}

abbrev family_index : DataFamily → ℕ
family_index denials = 0
family_index deployments = 1
family_index alerts = 2
family_index fleet = 3

abbrev is_family : DataFamily → Option DataFamily → Bool
is_family f none = false
is_family f (some g) = family_index f == family_index g

abbrev pub data_families : List DataFamily
data_families = denials ∷ deployments ∷ alerts ∷ fleet ∷ []

-- Some widget of the list shows data of the family.
abbrev pub Shows : List PlacedWidget → DataFamily → Type 0
Shows ps f = any (λ p. is_family f (family_of p.type p.config)) ps ≡ true

abbrev pub IsLargeEnough : PlacedWidget → Type 0
IsLargeEnough p = ((widget_min p.type).w ≤ p.w) × ((widget_min p.type).h ≤ p.h)

abbrev large_enough : TemplateCell → Bool
large_enough c = leb (widget_min c.type).w c.w && leb (widget_min c.type).h c.h

module _ (rows : ℕ) where
  place_cell-IsLargeEnough :
      (c : TemplateCell) → large_enough c ≡ true → IsLargeEnough (place_cell rows c)
  unfolding place_cell
  place_cell-IsLargeEnough c h = ground (arith, scale_edge_grows rows c.y c.h)

  All-IsLargeEnough :
      (cs : List TemplateCell)
      → all large_enough cs ≡ true
      → All IsLargeEnough (map (place_cell rows) cs)
  All-IsLargeEnough [] h = tt
  All-IsLargeEnough (c ∷ cs) h =
      (place_cell-IsLargeEnough c (ground arith), All-IsLargeEnough cs (ground arith))

  pub record IsComplete (t : DashboardTemplate) : Type 0 where
    pub families : All (Shows (place_template t rows)) data_families
    pub sizes : All IsLargeEnough (place_template t rows)

  complete :
      (t : DashboardTemplate)
      → All (Shows (place_template t rows)) data_families
      → all large_enough t.cells ≡ true
      → IsComplete t
  unfolding place_template
  complete t families large = record {
    families = families;
    sizes = All-IsLargeEnough t.cells large;
  }

-- For every height of the window each of the five templates shows something of every family of
-- data, and no widget in it is smaller than its minimum size.
pub dashboard_templates-IsComplete : (rows : ℕ) → All (IsComplete rows) dashboard_templates
unfolding place_template place_cell family_of
dashboard_templates-IsComplete rows = (
  complete rows overview (refl, (refl, (refl, (refl, tt)))) refl,
  (
    complete rows security (refl, (refl, (refl, (refl, tt)))) refl,
    (
      complete rows compliance (refl, (refl, (refl, (refl, tt)))) refl,
      (
        complete rows rollouts (refl, (refl, (refl, (refl, tt)))) refl,
        (complete rows machines (refl, (refl, (refl, (refl, tt)))) refl, tt),
      ),
    ),
  ),
)
