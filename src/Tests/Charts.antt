-- ===== src/Tests/Charts.antt =====
-- Runs and instances for the chart system.
use mathlib.Core.Bool.{false≢true}
use simply_se.Charts.Datasets.Keeping.{with_choice, resolve_config_keeps}
use simply_se.Base.{
  ◌≢◌, ap, str_eq, ◌+◌, ◌-◌, ◌*◌, ◌/◌, ◌≡◌, refl, String, [], ◌∷◌, get_elem?, none, some, arith,
  ltb, false,
}
use simply_se.Base.Int.{pos, negsuc, ◌+ℤ◌, ◌-ℤ◌, ◌*ℤ◌, floor_div}
use simply_se.Charts.Number.{Arithmetic, IsExact}
use simply_se.Charts.Types.{ChartConfig, MeasureDef, hour, week, fleet, percent, higher_better}
use simply_se.Charts.Datasets.Resolve.{resolve_config}
use simply_se.Charts.Shape.Time.{bucket_start, bucket_range, bucket_step, range_from, window_for}
use simply_se.Charts.Shape.Time.Buckets.{IsAligned, bucket_start_unique}
use simply_se.Charts.Shape.Time.Range.{Covers, nth_until, get_elem?-bucket_range, window_for-Covers}
use simply_se.Base.{ℕ, Bool, true, List, All, get_or, sym, subst, ◌≤◌}
use simply_se.Base.Sort.{sum_by}
use simply_se.Charts.Number.{max_safe}
use simply_se.Charts.Types.{Row, day}
use simply_se.Charts.Shape.Aggregate.{group_rows, rank_by, combine}
use simply_se.Charts.Shape.Aggregate.Exact.{Counts, sum_num}
use simply_se.Charts.Shape.Hierarchy.{tree, dim_of}
use simply_se.Charts.Shape.Hierarchy.Totals.{AddsUp, nodes_sum, tree-AddsUp}
use simply_se.Charts.Shape.Series.{series, series_rows, per_bucket, current_rows, since}
use simply_se.Charts.Shape.Headline.{kpi_of, previous_covered}
use simply_se.Charts.Shape.Headline.Comparison.{Continues, Compares, kpi_of-Continues}
use simply_se.Charts.Shape.Series.Columns.{column_sum, column_sum-series_rows}
use simply_se.Charts.Shape.Series.OverTime.{IsPast, sum_num-per_bucket_eq}
use simply_se.Charts.Shape.Aggregate.Groups.{Partitions, group_rows-Partitions}

-- Whole numbers that never overflow.
abbrev pub whole : Arithmetic
whole = record {
  Num = ℕ;
  of_ℕ = λ n. n;
  nan = 0;
  is_nan = λ n. false;
  add = λ a b. a + b;
  sub = λ a b. a - b;
  mul = λ a b. a * b;
  div = λ a b. a / b;
  lt = ltb;
}

pub whole-IsExact : IsExact whole
whole-IsExact = record {
  add-of_ℕ = λ a b h. refl;
  lt-of_ℕ = λ a b h k. refl;
  is_nan-of_ℕ = λ a h. refl;
}

-- Thursday, 1 January 1970 lies in the week of Monday, 29 December 1969.
epoch_week : bucket_start (pos 0) week ≡ negsuc 259199
unfolding bucket_start ◌+ℤ◌ ◌-ℤ◌ ◌*ℤ◌ floor_div
epoch_week = refl

three_hours : range_from 9 (pos 3600) (pos 11000) 3600 ≡ pos 3600 ∷ pos 7200 ∷ pos 10800 ∷ []
unfolding range_from ◌+ℤ◌
three_hours = refl

window_for-Covers_example : Covers (window_for 7 (pos 1700000000)) (pos 1700000000)
window_for-Covers_example = window_for-Covers 7 (pos 1700000000) (omega arith)

get_elem?-bucket_range_example :
    get_elem? (bucket_range (pos 3700) (pos 11000) hour) 2
    ≡ nth_until (bucket_start (pos 3700) hour) (bucket_step hour) (pos 11000) 2
get_elem?-bucket_range_example = get_elem?-bucket_range (pos 3700) (pos 11000) hour 2

hour_start : IsAligned (pos 7200) hour
unfolding IsAligned ◌+ℤ◌ ◌*ℤ◌
hour_start = (pos 2, refl)

bucket_start_unique_example : bucket_start (pos 7300) hour ≡ pos 7200
unfolding ◌+ℤ◌
bucket_start_unique_example =
    bucket_start_unique (pos 7300) (pos 7200) hour hour_start (omega arith) (omega arith)

abbrev fleet_config : ChartConfig
fleet_config = record {
  dataset = fleet;
  chart = "heatmap";
  dim = "unknown";
  dim2 = some "policy";
  days = 30;
  measure = some "online";
  target = none;
}

abbrev online_measure : MeasureDef
online_measure = record {
  id = "online";
  label_key = "charts.measures.online";
  field = "online";
  additive = false;
  unit = percent;
  polarity = higher_better;
  scale = some 100;
  weight_field = none;
}

policy_ne_agent : ◌≢◌ {A = String} "policy" "agent"
policy_ne_agent e = false≢true (ap (λ s. str_eq s "agent") e)

resolve_config_keeps_example :
    ((resolve_config whole (with_choice "agent" "policy" online_measure fleet_config)).dim
      ≡ "agent")
    × ((resolve_config whole (with_choice "agent" "policy" online_measure fleet_config)).dim2
        ≡ some "policy")
    × ((resolve_config whole (with_choice "agent" "policy" online_measure fleet_config)).measure
        ≡ some online_measure)
resolve_config_keeps_example =
    resolve_config_keeps whole fleet_config 1 2 1 "agent" "policy" online_measure refl refl
      policy_ne_agent refl

group_rows-Partitions_example :
    Partitions {A = String}
      (λ s. s)
      ("a" ∷ "b" ∷ "a" ∷ [])
      (group_rows {A = String} (λ s. s) ("a" ∷ "b" ∷ "a" ∷ []))
group_rows-Partitions_example = group_rows-Partitions {A = String} (λ s. s) ("a" ∷ "b" ∷ "a" ∷ [])

abbrev pub day_row : ℕ → String → String → ℕ → Row whole
day_row t agent policy n = record {
  t = some (pos t);
  dims = ("agent", agent) ∷ ("policy", policy) ∷ [];
  value = n;
  weight = n;
  raw = none;
}

abbrev some_rows : List (Row whole)
some_rows =
    day_row 1699950000 "web" "targeted" 3
    ∷ day_row 1699990000 "db" "mls" 4
    ∷ day_row 1700000000 "web" "mls" 5
    ∷ []

abbrev pub weight_of : Row whole → ℕ
weight_of r = r.weight

abbrev pub text_le : String → String → Bool
text_le a b = true

some_rows-Counts : Counts whole weight_of some_rows
some_rows-Counts = ((refl, refl), ((refl, refl), ((refl, refl), tt)))

some_rows_safe : sum_by weight_of some_rows ≤ max_safe
unfolding sum_by
some_rows_safe = omega arith

tree-AddsUp_example :
    AddsUp whole (tree whole text_le true (("agent", 2) ∷ ("policy", 1) ∷ []) some_rows)
    × (nodes_sum whole (tree whole text_le true (("agent", 2) ∷ ("policy", 1) ∷ []) some_rows)
        ≡ sum_by weight_of some_rows)
unfolding sum_by
tree-AddsUp_example =
    tree-AddsUp whole whole-IsExact weight_of text_le "agent" 2 (("policy", 1) ∷ []) some_rows
      some_rows-Counts (omega arith)

column_sum-series_rows_example :
    column_sum whole 1 (
      series whole true (pos 1699920000 ∷ pos 1700006400 ∷ []) day (
        series_rows whole 1
          (rank_by whole text_le true (group_rows (dim_of whole "agent") some_rows))))
    ≡ get_or (per_bucket whole true (pos 1699920000 ∷ pos 1700006400 ∷ []) day some_rows) 1 0
unfolding sum_by
column_sum-series_rows_example =
    column_sum-series_rows whole whole-IsExact weight_of (pos 1699920000 ∷ pos 1700006400 ∷ []) day
      1 text_le "agent" 1 some_rows some_rows-Counts (omega arith)

some_rows-ArePast : All (IsPast whole (pos 1700000000)) some_rows
unfolding IsPast
some_rows-ArePast = (λ t e. ground arith, (λ t e. ground arith, (λ t e. ground arith, tt)))

current_some : current_rows whole (window_for 7 (pos 1700000000)).period_start some_rows ≡ some_rows
unfolding current_rows since window_for bucket_start ◌+ℤ◌ ◌-ℤ◌ ◌*ℤ◌ floor_div
current_some = refl

sum_num-per_bucket_eq_example :
    sum_num whole (
      per_bucket whole true
        (bucket_range
          (window_for 7 (pos 1700000000)).period_start
          (pos 1700000000)
          (window_for 7 (pos 1700000000)).bucket)
        (window_for 7 (pos 1700000000)).bucket
        (current_rows whole (window_for 7 (pos 1700000000)).period_start some_rows))
    ≡ (combine whole true
        (current_rows whole (window_for 7 (pos 1700000000)).period_start some_rows)).value
sum_num-per_bucket_eq_example =
    sum_num-per_bucket_eq whole whole-IsExact weight_of 7 (pos 1700000000) some_rows (omega arith)
      some_rows-ArePast
      (subst (λ rows. Counts whole weight_of rows) (sym current_some) some_rows-Counts)
      (subst (λ rows. sum_by weight_of rows ≤ max_safe) (sym current_some) some_rows_safe)

kpi_of-Continues_example :
    Continues whole
      (3 ∷ 4 ∷ [])
      (kpi_of whole true "agent"
        (previous_covered (some (pos 0)) (pos 9) (pos 90))
        some_rows
        some_rows
        (3 ∷ 4 ∷ [])).spark
    × Compares whole (some (pos 0)) (pos 9) (pos 90) true some_rows (
        kpi_of whole true "agent"
          (previous_covered (some (pos 0)) (pos 9) (pos 90))
          some_rows
          some_rows
          (3 ∷ 4 ∷ []))
kpi_of-Continues_example =
    kpi_of-Continues whole whole-IsExact true "agent" (some (pos 0)) (pos 9) (pos 90) some_rows
      some_rows (3 ∷ 4 ∷ [])
