-- ===== src/Dashboard/Templates/Scaling.antt =====
-- Stretching the edges of a template (`placeTemplate` of frontend/src/lib/dashboardTemplates.ts).
use native.Mathlib.Nat.{mul-le-mul, le_trans}
use native.Mathlib.Decide.{dec_lt}
use simply_se.Base.{ℕ, zero, suc, ◌+◌, ◌≤◌, ◌<◌, ◌≡◌, ◌↔◌, max, arith}
use simply_se.Dashboard.Templates.{base_rows, scale_edge}

module _ (rows : ℕ) where
  -- Neighbours keep sharing an edge, and an edge below another stays below it.
  pub scale_edge_mono : (a b : ℕ) → a ≤ b → scale_edge rows a ≤ scale_edge rows b
  unfolding scale_edge
  scale_edge_mono a b h =
      let k = max base_rows rows in
      omega (arith, mul-le-mul {n₁ = a} {m₁ = k} {n₂ = b} {m₂ = k} h (omega arith))

  pub scale_edge_zero : scale_edge rows 0 ≡ 0
  unfolding scale_edge
  scale_edge_zero = omega arith

  pub scale_edge_base : scale_edge rows base_rows ≡ max base_rows rows
  unfolding scale_edge
  scale_edge_base = omega arith

  -- No span of rows gets smaller.
  pub scale_edge_grows : (a b : ℕ) → scale_edge rows a + b ≤ scale_edge rows (a + b)
  unfolding scale_edge
  scale_edge_grows a b =
      let k = max base_rows rows in
      omega (arith, mul-le-mul {n₁ = b} {m₁ = 15} {n₂ = b} {m₂ = k} (omega arith) (omega arith))

  -- The row of the design that is stretched over row `y` of the window.
  pub record IsBase (n y b : ℕ) : Type 0 where
    pub below : b < n
    pub from : scale_edge rows b ≤ y
    pub to : y < scale_edge rows (suc b)

  pub IsBase-row : (n y : ℕ) → y < scale_edge rows n → (b : ℕ) × IsBase n y b
  IsBase-row zero y h = absurd (omega (arith, scale_edge_zero))
  IsBase-row (suc n) y h = elim (dec_lt y (scale_edge rows n)) [
    | yes p ↦
        let (b, i) = IsBase-row n y p in
        (b, record { below = omega arith; from = i.from; to = i.to })
    | no p ↦ (n, record { below = omega arith; from = omega arith; to = h })
  ]

  pub scale_edge-le_iff : {n y b : ℕ} (e : ℕ) → IsBase n y b → (scale_edge rows e ≤ y) ↔ (e ≤ b)
  scale_edge-le_iff {y} {b} e i = (
    λ h. elim (dec_lt b e) [
      | yes p ↦ absurd (omega (arith, scale_edge_mono (suc b) e p, i.to))
      | no p ↦ omega arith
    ],
    λ h. le_trans (scale_edge_mono e b h) i.from,
  )

-- At the height of the design nothing moves.
pub scale_edge_id : (rows e : ℕ) → rows ≤ base_rows → scale_edge rows e ≡ e
unfolding scale_edge
scale_edge_id rows e h = let same : max base_rows rows ≡ 15 = omega arith in rw same (omega arith)
