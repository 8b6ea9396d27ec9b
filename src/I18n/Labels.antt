-- ===== src/I18n/Labels.antt =====
-- The keys of texts that the tables of the program hold or build: the navigation
-- (frontend/src/lib/nav.ts), the widgets (frontend/src/lib/dashboardWidgets.tsx), the templates
-- (frontend/src/components/TemplatePicker.tsx), the reasons for attention, the datasets with their
-- dimensions (frontend/src/charts/datasets.ts) and the chart types (frontend/src/charts/registry.ts),
-- as frontend/src/charts/ChartGallery.tsx and frontend/src/charts/titles.ts show them.
use Prim.Native.String.{◌++◌ as join}
use simply_se.Base.{String, Bool, true, none, some, List, [], ◌∷◌, ◌++◌, map, false}
use simply_se.Charts.Number.{Arithmetic}
use simply_se.Charts.Types.{DatasetId, DatasetDef, Bucket, hour, day, week}
use simply_se.Charts.Registry.{ChartCategory, classic, share, kpi, stats, corr, charts}
use simply_se.Charts.Datasets.Catalog.{datasets}
use simply_se.Navigation.{NavCategory, NavPage, nav}
use simply_se.Dashboard.Widgets.{widget_defs, widget_catalog}
use simply_se.Dashboard.Templates.{DashboardTemplate}
use simply_se.Dashboard.Templates.Catalog.{dashboard_templates}
use simply_se.Fleet.Attention.{AttentionReason}
use simply_se.I18n.Dict.{Locale}
use simply_se.I18n.Translate.{dictionaries, lookup}

page_keys : List NavPage → List String
page_keys [] = []
page_keys (p ∷ pages) = p.key ∷ p.desc_key ∷ page_keys pages

category_keys : List NavCategory → List String
unfolding page_keys
category_keys [] = []
category_keys (c ∷ categories) = c.label_key ∷ (page_keys c.pages ++ category_keys categories)

template_keys : List DashboardTemplate → List String
template_keys [] = []
template_keys (tpl ∷ templates) =
    join "dashboard.template." (join tpl.id ".name")
    ∷ join "dashboard.template." (join tpl.id ".desc")
    ∷ template_keys templates

-- The text of an `AttentionReason` in the source.
abbrev reason_text : AttentionReason → String
reason_text AttentionReason.offline = "offline"
reason_text AttentionReason.disabled = "disabled"
reason_text AttentionReason.permissive = "permissive"
reason_text AttentionReason.policy_mismatch = "policyMismatch"
reason_text AttentionReason.outdated = "outdated"

abbrev reason_keys : List String
reason_keys =
    map (λ r. join "dashboard.attentionReason." (reason_text r))
      (AttentionReason.offline ∷ AttentionReason.disabled ∷ AttentionReason.permissive
        ∷ AttentionReason.policy_mismatch ∷ AttentionReason.outdated ∷ [])

-- The text of a `ChartCategory` and of a `Bucket` in the source.
abbrev chart_category_text : ChartCategory → String
chart_category_text classic = "classic"
chart_category_text share = "share"
chart_category_text kpi = "kpi"
chart_category_text stats = "stats"
chart_category_text corr = "corr"

abbrev bucket_text : Bucket → String
bucket_text hour = "hour"
bucket_text day = "day"
bucket_text week = "week"

-- The chart types with their categories, and the unit of a title.
unfoldable chart_keys : List String
unfolding charts
chart_keys =
    map (λ c. join "charts.types." c.id) charts
    ++ (map (λ c. join "charts.categories." (chart_category_text c.category)) charts
        ++ map (λ b. join "charts.perBucket." (bucket_text b)) (hour ∷ day ∷ week ∷ []))

unfoldable label_keys : List String
unfolding category_keys template_keys nav chart_keys
label_keys =
    chart_keys
    ++ (category_keys nav
        ++ (map (λ w. (widget_defs w).label_key) widget_catalog
            ++ (template_keys dashboard_templates ++ reason_keys)))

module _ (N : Arithmetic) where
  dataset_keys : DatasetDef N → List String
  dataset_keys def =
      def.label_key
      ∷ (map (λ d. join "charts.dims." d) def.dims
          ++ (map (λ m. m.label_key) def.measures ++ map (λ v. v.label_key) def.variables))

  unfoldable pub shown_keys : List String
  unfolding label_keys dataset_keys
  shown_keys =
      dataset_keys (datasets N DatasetId.denials)
      ++ (dataset_keys (datasets N DatasetId.commands)
          ++ (dataset_keys (datasets N DatasetId.alerts)
              ++ (dataset_keys (datasets N DatasetId.signatures)
                  ++ (dataset_keys (datasets N DatasetId.fleet) ++ label_keys))))

abbrev has_text : Locale → String → Bool
has_text l key = elim (lookup (dictionaries l) key) [ none ↦ false | some s ↦ true ]
