-- ===== src/I18n/English/Charts.antt =====
-- English texts of frontend/src/i18n/translations.ts.
use simply_se.I18n.Dict.{Dict, text, dict, [], ◌∷◌}

unfoldable pub charts_stats : Dict
charts_stats =
    text "min" "Min"
    ∷ text "max" "Max"
    ∷ text "median" "Median"
    ∷ text "mean" "Mean"
    ∷ text "q1" "1st quartile"
    ∷ text "q3" "3rd quartile"
    ∷ text "outliers" "Outliers"
    ∷ []

unfoldable pub charts_per_bucket : Dict
charts_per_bucket = text "hour" "per hour" ∷ text "day" "per day" ∷ text "week" "per week" ∷ []

unfoldable pub charts_categories : Dict
charts_categories =
    text "classic" "Classic"
    ∷ text "share" "Composition"
    ∷ text "kpi" "KPI and performance"
    ∷ text "stats" "Statistics"
    ∷ text "corr" "Correlation"
    ∷ []

unfoldable pub charts_datasets : Dict
charts_datasets =
    text "denials" "Denials"
    ∷ text "commands" "Rule deployments"
    ∷ text "alerts" "Alerts"
    ∷ text "fleet" "Fleet state"
    ∷ text "signatures" "Distinct signatures"
    ∷ []

unfoldable pub charts_dims : Dict
charts_dims =
    text "agent" "Machine"
    ∷ text "tclass" "Class"
    ∷ text "scontext" "Source domain"
    ∷ text "tcontext" "Target type"
    ∷ text "perms" "Permissions"
    ∷ text "type" "Type"
    ∷ text "status" "Status"
    ∷ text "kind" "Kind"
    ∷ text "severity" "Severity"
    ∷ text "mode" "Mode"
    ∷ text "policy" "Policy"
    ∷ text "error" "Error"
    ∷ text "acked_by" "Acknowledged by"
    ∷ []

unfoldable pub charts_measures : Dict
charts_measures =
    text "denials" "Denials"
    ∷ text "commands" "Deployments"
    ∷ text "alerts" "Alerts"
    ∷ text "score" "Compliance score"
    ∷ text "online" "Availability"
    ∷ text "openAlerts" "Open alerts (average)"
    ∷ text "failed" "Failed deployments"
    ∷ text "reverts" "Reverts"
    ∷ text "failure_rate" "Failure rate"
    ∷ text "latency" "Acknowledgement time"
    ∷ text "high" "High-severity alerts"
    ∷ text "acked" "Acknowledged"
    ∷ text "open" "Still open"
    ∷ text "ack_time" "Time to acknowledge"
    ∷ text "open_age" "Age while open"
    ∷ text "signatures" "New signatures"
    ∷ []

unfoldable pub charts_vars_denials : Dict
charts_vars_denials =
    text "total" "Denials"
    ∷ text "signatures" "Distinct signatures"
    ∷ text "hours" "Active hours"
    ∷ []

unfoldable pub charts_vars_commands : Dict
charts_vars_commands =
    text "total" "Deployments" ∷ text "failed" "Failures" ∷ text "types" "Distinct types" ∷ []

unfoldable pub charts_vars_alerts : Dict
charts_vars_alerts =
    text "total" "Alerts" ∷ text "high" "High alerts" ∷ text "types" "Distinct types" ∷ []

unfoldable pub charts_vars_fleet : Dict
charts_vars_fleet =
    text "score" "Score" ∷ text "online" "Availability (%)" ∷ text "alerts" "Open alerts" ∷ []

unfoldable pub charts_vars_signatures : Dict
charts_vars_signatures =
    text "total" "New signatures" ∷ text "sources" "Distinct source domains" ∷ []

unfoldable pub charts_vars : Dict
unfolding charts_vars_denials charts_vars_commands charts_vars_alerts charts_vars_fleet
    charts_vars_signatures
charts_vars =
    dict "denials" charts_vars_denials
    ∷ dict "commands" charts_vars_commands
    ∷ dict "alerts" charts_vars_alerts
    ∷ dict "fleet" charts_vars_fleet
    ∷ dict "signatures" charts_vars_signatures
    ∷ []

unfoldable pub charts_periods : Dict
charts_periods =
    text "1" "24 h"
    ∷ text "7" "7 days"
    ∷ text "30" "30 days"
    ∷ text "90" "90 days"
    ∷ text "365" "1 year"
    ∷ []

unfoldable pub charts_weekday : Dict
charts_weekday =
    text "label" "Day"
    ∷ text "mon" "Mon"
    ∷ text "tue" "Tue"
    ∷ text "wed" "Wed"
    ∷ text "thu" "Thu"
    ∷ text "fri" "Fri"
    ∷ text "sat" "Sat"
    ∷ text "sun" "Sun"
    ∷ []

unfoldable pub charts_title : Dict
charts_title =
    text "byDim" "{dataset} by {dim}"
    ∷ text "byDim2" "{dataset} by {dim} and {dim2}"
    ∷ text "byDim3" "{dataset} by {dim}, {dim2} and {dim3}"
    ∷ text "overTime" "{dataset} {unit}"
    ∷ text "byHour" "{dataset}: hour-of-day pattern"
    ∷ text "distribution" "{dataset}: distribution {unit}"
    ∷ text "pair" "{x} and {y}, per machine per day"
    ∷ text "vars" "Correlation: {vars}"
    ∷ text "withPeriod" "{title} ({period})"
    ∷ []

unfoldable pub charts_ui : Dict
charts_ui =
    text "target" "Target (KPI, optional)"
    ∷ text "targetHint" "previous period"
    ∷ text "dataset" "Data"
    ∷ text "dimension" "Group by"
    ∷ text "measure" "Measure"
    ∷ text "period" "Period"
    ∷ text "families" "Chart families"
    ∷ text "configure" "Choose a chart"
    ∷ text "use" "Use"
    ∷ text "add" "Add to dashboard"
    ∷ text "added" "Added to the dashboard"
    ∷ text "addFailed" "Could not add: {error}"
    ∷ text "historySince" "History kept since {date}"
    ∷ text "historyKept" "Retention: {days} days"
    ∷ text "noHistory" "No history recorded for this data yet."
    ∷ text "explain"
        "History is stored separately: a chart keeps its data even when a denial is resolved or deleted, or a deployment or alert is removed from its list."
    ∷ []

unfoldable pub charts_types : Dict
charts_types =
    text "bar" "Bar chart"
    ∷ text "column" "Column chart"
    ∷ text "bar-h" "Horizontal bar chart"
    ∷ text "grouped-bar" "Grouped bar chart"
    ∷ text "stacked-bar" "Stacked bar chart"
    ∷ text "stacked-100" "100% stacked bar chart"
    ∷ text "line" "Line chart"
    ∷ text "multi-line" "Multi-line chart"
    ∷ text "area" "Area chart"
    ∷ text "stacked-area" "Stacked area chart"
    ∷ text "step" "Step chart"
    ∷ text "combo" "Combo chart (bars + line)"
    ∷ text "waterfall" "Waterfall chart"
    ∷ text "heatmap" "Heatmap"
    ∷ text "pie" "Pie chart"
    ∷ text "donut" "Donut chart"
    ∷ text "semi-donut" "Semi-donut"
    ∷ text "treemap" "Treemap"
    ∷ text "sunburst" "Sunburst"
    ∷ text "marimekko" "Marimekko"
    ∷ text "kpi" "KPI card"
    ∷ text "kpi-delta" "KPI card + change"
    ∷ text "kpi-spark" "KPI + sparkline"
    ∷ text "gauge" "Gauge"
    ∷ text "progress" "Progress bar"
    ∷ text "bullet" "Bullet chart"
    ∷ text "target-actual" "Target vs actual"
    ∷ text "scorecard" "Scorecard"
    ∷ text "metric-card" "Metric card"
    ∷ text "delta" "Delta indicator"
    ∷ text "histogram" "Histogram"
    ∷ text "boxplot" "Box plot"
    ∷ text "violin" "Violin plot"
    ∷ text "scatter" "Scatter plot"
    ∷ text "bubble" "Bubble chart"
    ∷ text "density" "Density plot"
    ∷ text "dot-plot" "Dot plot"
    ∷ text "strip" "Strip plot"
    ∷ text "beeswarm" "Beeswarm plot"
    ∷ text "ecdf" "ECDF"
    ∷ text "pareto" "Pareto chart"
    ∷ text "qq" "QQ plot"
    ∷ text "hour-heatmap" "Hour-of-day heatmap"
    ∷ text "corr-matrix" "Correlation matrix"
    ∷ text "corr-heatmap" "Correlation heatmap"
    ∷ text "pair-plot" "Pair plot"
    ∷ text "hexbin" "Hexbin plot"
    ∷ text "scatterAgent" "Machine"
    ∷ []

unfoldable pub charts : Dict
unfolding charts_stats charts_per_bucket charts_categories charts_datasets charts_dims
    charts_measures charts_vars charts_periods charts_weekday charts_title charts_ui charts_types
charts =
    text "other" "Others"
    ∷ text "samples" "Readings"
    ∷ text "movingAverage" "Moving average ({n})"
    ∷ text "start" "Start"
    ∷ text "end" "End"
    ∷ text "increase" "Increase"
    ∷ text "decrease" "Decrease"
    ∷ text "level" "Level"
    ∷ text "observations" "observations"
    ∷ text "ofColumn" "of the column"
    ∷ text "ofTotal" "of the total"
    ∷ text "all" "All"
    ∷ text "cumulative" "Cumulative (%)"
    ∷ text "qqTheory" "Theoretical quantiles (normal)"
    ∷ text "qqObserved" "Observed quantiles"
    ∷ text "points" "pts"
    ∷ text "noPrevious" "No previous period"
    ∷ text "vsPrevious" "vs previous period"
    ∷ text "vsTarget" "vs target"
    ∷ text "target" "Target"
    ∷ text "actual" "Actual"
    ∷ text "ofTarget" "of target"
    ∷ text "periodLong" "last 24 hours | last {n} days"
    ∷ text "perBucketNote" "{n} points, {unit}"
    ∷ text "noData" "No data in this period."
    ∷ text "notEnough" "Not enough data for this chart."
    ∷ text "drawFailed" "This chart could not be drawn."
    ∷ text "unknownChart" "Unknown chart type."
    ∷ text "loadFailed" "Could not load: {error}"
    ∷ text "refreshFailed" "refresh failed"
    ∷ text "truncated"
        "A lot of data: the response was truncated. Shorten the period for a complete result."
    ∷ text "showData" "Show data"
    ∷ text "showChart" "Show chart"
    ∷ text "date" "Date"
    ∷ text "path" "Path"
    ∷ text "current" "Current period"
    ∷ text "previous" "Previous period"
    ∷ dict "stats" charts_stats
    ∷ dict "perBucket" charts_per_bucket
    ∷ dict "categories" charts_categories
    ∷ dict "datasets" charts_datasets
    ∷ dict "dims" charts_dims
    ∷ dict "measures" charts_measures
    ∷ dict "vars" charts_vars
    ∷ dict "periods" charts_periods
    ∷ dict "weekday" charts_weekday
    ∷ text "previousPeriod" "Previous period"
    ∷ text "ofPrevious" "of the previous period"
    ∷ text "noTarget" "Nothing to compare against: no recorded previous period and no target set."
    ∷ text "noCorrelation" "Undefined correlation: one of the two variables never changes."
    ∷ dict "title" charts_title
    ∷ dict "ui" charts_ui
    ∷ dict "types" charts_types
    ∷ []
