-- ===== src/Charts/Shape/Hierarchy.antt =====
-- The hierarchy of a chart: the closure `tree` of `buildChartInput` in
-- frontend/src/charts/shape.ts. `keys` and `limit` are read as one list of levels.
pub mod Totals
use simply_se.Base.{
  ℕ, ◌-◌, Bool, List, [], ◌∷◌, String, if◌then◌else◌, ltb, length, take, drop, Option, none, some,
}
use simply_se.Charts.Number.{Arithmetic}
use simply_se.Charts.Types.{Row, TreeNode, TreeNodes, node, nil, cons, other}
use simply_se.Base.Objects.{field, or_else}
use simply_se.Charts.Shape.Aggregate.{slice_end, Group, group_rows, rank_by}

module _ (N : Arithmetic) where
  -- `r.dims[dim] ?? ""`.
  unfoldable pub dim_of : String → Row N → String
  unfolding field
  dim_of dim r = or_else (field dim r.dims) ""

  -- `groups.reduce((s, g) => s + g.weight, 0)`.
  pub weight_from : N.Num → List (Group N) → N.Num
  weight_from s [] = s
  weight_from s (g ∷ gs) = weight_from (N.add s g.weight) gs

  -- One node for each group of the head, with the children that `below` makes of its rows.
  pub head_nodes : (List (Row N) → TreeNodes N) → List (Group N) → TreeNodes N → TreeNodes N
  head_nodes below [] tail = tail
  head_nodes below (g ∷ gs) tail =
      cons (node g.name g.weight (below g.rows)) (head_nodes below gs tail)

  -- The groups of one level: what does not fit becomes one leaf.
  pub level_nodes : (List (Row N) → TreeNodes N) → ℕ → List (Group N) → TreeNodes N
  unfolding head_nodes weight_from
  level_nodes below limit all =
      if ltb limit (length all)
      then head_nodes below (take (slice_end limit (length all)) all) (
          cons (node other (weight_from (N.of_ℕ 0) (drop (slice_end limit (length all)) all)) nil)
            nil)
      else head_nodes below all nil

  module _ (locale_le : String → String → Bool) (additive : Bool) where
    unfoldable pub tree : List (String × ℕ) → List (Row N) → TreeNodes N
    unfolding dim_of level_nodes
    tree [] rows = nil
    tree ((dim, limit) ∷ levels) rows =
        level_nodes (tree levels) limit
          (rank_by N locale_le additive (group_rows (dim_of dim) rows))
