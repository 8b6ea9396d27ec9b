-- ===== src/Charts/Registry.antt =====
-- The chart types: frontend/src/charts/ids.ts and the table of frontend/src/charts/registry.ts,
-- without the functions that draw.
pub mod Sync
use simply_se.Base.{
  Bool, true, false, not, ◌&&◌, ◌||◌, Option, none, some, List, [], ◌∷◌, ◌++◌, String, str_eq,
  includes, filter, find, any,
}

pub data ChartCategory : Type 0 where
  classic share kpi stats corr : ChartCategory

abbrev pub chart_ids : ChartCategory → List String
chart_ids classic =
    "bar" ∷ "column" ∷ "bar-h" ∷ "grouped-bar" ∷ "stacked-bar" ∷ "stacked-100" ∷ "line"
    ∷ "multi-line" ∷ "area" ∷ "stacked-area" ∷ "step" ∷ "combo" ∷ "waterfall" ∷ "heatmap" ∷ []
chart_ids share = "pie" ∷ "donut" ∷ "semi-donut" ∷ "treemap" ∷ "sunburst" ∷ "marimekko" ∷ []
chart_ids kpi =
    "kpi" ∷ "kpi-delta" ∷ "kpi-spark" ∷ "gauge" ∷ "progress" ∷ "bullet" ∷ "target-actual"
    ∷ "scorecard" ∷ "metric-card" ∷ "delta" ∷ []
chart_ids stats =
    "histogram" ∷ "boxplot" ∷ "violin" ∷ "scatter" ∷ "bubble" ∷ "density" ∷ "dot-plot" ∷ "strip"
    ∷ "beeswarm" ∷ "ecdf" ∷ "pareto" ∷ "qq" ∷ "hour-heatmap" ∷ []
chart_ids corr = "corr-matrix" ∷ "corr-heatmap" ∷ "pair-plot" ∷ "hexbin" ∷ []

-- `Object.values(CHART_IDS).flat()`.
unfoldable pub all_chart_ids : List String
all_chart_ids =
    chart_ids classic ++ chart_ids share ++ chart_ids kpi ++ chart_ids stats ++ chart_ids corr

unfoldable pub is_tile_sized : String → Bool
is_tile_sized id = includes (chart_ids kpi) id && not (str_eq id "scorecard")

pub data Need : Type 0 where
  categories time matrix heat hourly hierarchy needs_kpi : Need
  samples1 samples3 pooled3 pooled5 points variables : Need

pub record ChartDef : Type 0 where
  pub id : String
  pub category : ChartCategory
  pub also : List ChartCategory
  pub need : Need

abbrev def : String → ChartCategory → Need → ChartDef
def id category need = record { id = id; category = category; also = []; need = need }

abbrev def_also : String → ChartCategory → Need → ChartCategory → ChartDef
def_also id category need also = record {
  id = id;
  category = category;
  also = also ∷ [];
  need = need;
}

unfoldable pub charts : List ChartDef
charts =
    def "bar" classic categories
    ∷ def "column" classic time
    ∷ def "bar-h" classic categories
    ∷ def "grouped-bar" classic matrix
    ∷ def "stacked-bar" classic matrix
    ∷ def "stacked-100" classic matrix
    ∷ def "line" classic time
    ∷ def "multi-line" classic time
    ∷ def "area" classic time
    ∷ def "stacked-area" classic time
    ∷ def "step" classic time
    ∷ def "combo" classic time
    ∷ def "waterfall" classic time
    ∷ def "heatmap" classic heat
    ∷ def "pie" share categories
    ∷ def "donut" share categories
    ∷ def "semi-donut" share categories
    ∷ def "treemap" share hierarchy
    ∷ def "sunburst" share hierarchy
    ∷ def "marimekko" share matrix
    ∷ def "kpi" kpi needs_kpi
    ∷ def "kpi-delta" kpi needs_kpi
    ∷ def "kpi-spark" kpi needs_kpi
    ∷ def "gauge" kpi needs_kpi
    ∷ def "progress" kpi needs_kpi
    ∷ def "bullet" kpi needs_kpi
    ∷ def "target-actual" kpi needs_kpi
    ∷ def "scorecard" kpi categories
    ∷ def "metric-card" kpi needs_kpi
    ∷ def "delta" kpi needs_kpi
    ∷ def "histogram" stats pooled3
    ∷ def "boxplot" stats samples3
    ∷ def "violin" stats samples3
    ∷ def_also "scatter" stats points corr
    ∷ def_also "bubble" stats points corr
    ∷ def "density" stats pooled3
    ∷ def "dot-plot" stats categories
    ∷ def "strip" stats samples1
    ∷ def "beeswarm" stats samples1
    ∷ def "ecdf" stats samples3
    ∷ def "pareto" stats categories
    ∷ def "qq" stats pooled5
    ∷ def "hour-heatmap" stats hourly
    ∷ def "corr-matrix" corr variables
    ∷ def "corr-heatmap" corr variables
    ∷ def "pair-plot" corr variables
    ∷ def "hexbin" corr points
    ∷ []

-- `CHART_BY_ID.get(id)`, for identifiers that are all different.
unfoldable pub chart_by_id : String → Option ChartDef
unfolding charts
chart_by_id id = find (λ c. str_eq c.id id) charts

abbrev pub same_category : ChartCategory → ChartCategory → Bool
same_category classic classic = true
same_category share share = true
same_category kpi kpi = true
same_category stats stats = true
same_category corr corr = true
same_category _ _ = false

unfoldable pub charts_in : ChartCategory → List ChartDef
unfolding charts
charts_in category =
    filter (λ c. same_category c.category category || any (same_category category) c.also) charts
