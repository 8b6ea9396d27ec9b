-- ===== src/Dashboard/Templates/Tiling.antt =====
-- A placed template fills the grid (`placeTemplate` and `DASHBOARD_TEMPLATES` of
-- frontend/src/lib/dashboardTemplates.ts).
use simply_se.Base.{
  ℕ, ◌+◌, ◌-◌, ◌≤◌, ◌≡◌, ◌↔◌, ◌∙◌, refl, ap, ap₂, ◌&&◌, true, leb, ltb, max, List, [], ◌∷◌, map,
  All, count, if◌then◌else◌, arith,
}
use simply_se.Dashboard.Area.{Rect, covers, Within, Tiles, tiles, tiles-Tiles}
use simply_se.Dashboard.Grid.{grid_cols}
use simply_se.Dashboard.Templates.{
  TemplateCell, DashboardTemplate, PlacedWidget, base_rows, scale_edge, place_cell, place_template,
}
use simply_se.Dashboard.Templates.Catalog.{dashboard_templates}
use simply_se.Dashboard.Templates.Scaling.{
  scale_edge_mono, scale_edge_base, IsBase, IsBase-row, scale_edge-le_iff,
}

abbrev pub design_area : TemplateCell → Rect
design_area c = record { x = c.x; y = c.y; w = c.w; h = c.h }

abbrev pub placed_area : PlacedWidget → Rect
placed_area p = record { x = p.x; y = p.y; w = p.w; h = p.h }

leb_iff : (a b c d : ℕ) → ((a ≤ b) ↔ (c ≤ d)) → leb a b ≡ leb c d
leb_iff a b c d h = ground (arith, h.0, h.1)

ltb_iff : (a b c d : ℕ) → ((c ≤ a) ↔ (d ≤ b)) → ltb a c ≡ ltb b d
ltb_iff a b c d h = ground (arith, h.0, h.1)

module _ (rows : ℕ) where
  abbrev placed : TemplateCell → Rect
  placed c = placed_area (place_cell rows c)

  covers-placed :
      (x y b : ℕ) (c : TemplateCell)
      → IsBase rows base_rows y b
      → covers x y (placed c) ≡ covers x b (design_area c)
  unfolding place_cell
  covers-placed x y b c i =
      let bottom : scale_edge rows c.y + (scale_edge rows (c.y + c.h) - scale_edge rows c.y)
          ≡ scale_edge rows (c.y + c.h) =
        omega (arith, scale_edge_mono rows c.y (c.y + c.h) (omega arith)) in
      rw bottom (
        ap₂ (λ p q. leb c.x x && ltb x (c.x + c.w) && (p && q))
          (leb_iff _ _ _ _ (scale_edge-le_iff rows c.y i))
          (ltb_iff _ _ _ _ (scale_edge-le_iff rows (c.y + c.h) i)))

  count-placed :
      (x y b : ℕ) (cs : List TemplateCell)
      → IsBase rows base_rows y b
      → count (covers x y) (map placed_area (map (place_cell rows) cs))
        ≡ count (covers x b) (map design_area cs)
  count-placed x y b [] i = refl
  count-placed x y b (c ∷ cs) i =
      rw (covers-placed x y b c i)
        (ap (λ n. (if covers x b (design_area c) then 1 else 0) + n) (count-placed x y b cs i))

  Within-placed :
      (cs : List TemplateCell)
      → All (Within grid_cols base_rows) (map design_area cs)
      → All (Within grid_cols (max base_rows rows)) (map placed_area (map (place_cell rows) cs))
  unfolding place_cell
  Within-placed [] h = tt
  Within-placed (c ∷ cs) (h, hs) = (
    (
      h.0,
      omega (
        arith,
        scale_edge_mono rows c.y (c.y + c.h) (omega arith),
        scale_edge_mono rows (c.y + c.h) 15 h.1,
        scale_edge_base rows,
      ),
    ),
    Within-placed cs hs,
  )

  -- A template that tiles its design grid of 15 rows tiles the grid of the window.
  pub place_template-Tiles :
      (t : DashboardTemplate)
      → Tiles grid_cols base_rows (map design_area t.cells)
      → Tiles grid_cols (max base_rows rows) (map placed_area (place_template t rows))
  unfolding place_template
  place_template-Tiles t design = record {
    within = Within-placed t.cells design.within;
    once = λ x y hx hy.
        let (b, i) = IsBase-row rows base_rows y (omega (arith, scale_edge_base rows)) in
        count-placed x y b t.cells i ∙ design.once x b hx i.below;
  }

-- For every height of the window each of the five templates fills the 12-column grid exactly: no
-- cell leaves the grid, and every square of it lies in exactly one cell.
pub dashboard_templates-Tiles :
    (rows : ℕ)
    → All
        (λ t. Tiles grid_cols (max base_rows rows) (map placed_area (place_template t rows)))
        dashboard_templates
unfolding tiles
dashboard_templates-Tiles rows =
    let tile =
      λ (t : DashboardTemplate) (e : tiles grid_cols base_rows (map design_area t.cells) ≡ true).
        place_template-Tiles rows t (tiles-Tiles grid_cols base_rows (map design_area t.cells) e) in
    (tile _ refl, (tile _ refl, (tile _ refl, (tile _ refl, (tile _ refl, tt)))))
