-- ===== src/Tests/Build.antt =====
-- The whole input of a chart.
use simply_se.Base.{◌≤◌, ◌≡◌, refl, subst, All, true, false, none, [], ◌∷◌, arith}
use simply_se.Base.Int.{pos, ◌+ℤ◌, ◌-ℤ◌, ◌*ℤ◌, floor_div}
use simply_se.Base.Sort.{sum_by}
use simply_se.Charts.Number.{max_safe}
use simply_se.Charts.Types.{DatasetId, MeasureDef, Polarity, MeasureUnit}
use simply_se.Charts.Datasets.Catalog.{datasets}
use simply_se.Charts.Shape.Time.{window_for, bucket_start}
use simply_se.Charts.Shape.Series.{current_rows, since}
use simply_se.Charts.Shape.Series.OverTime.{IsPast}
use simply_se.Charts.Shape.Aggregate.Exact.{Counts}
use simply_se.Charts.Shape.Matrix.Whole.{IsNamed}
use simply_se.Charts.Shape.Build.{BuildArgs, build_chart_input, split_from}
use simply_se.Charts.Shape.Build.Agreeing.{Agrees, IsSound, build_chart_input-Agrees}
use simply_se.Tests.Charts.{whole, whole-IsExact, weight_of, text_le}
use simply_se.Tests.Matrix.{rows, rows-Counts, rows_safe, rows-AreNamed}

split_test : split_from 0 "web|~|1700000000" ≡ "web" ∷ "1700000000" ∷ []
unfolding split_from
split_test = refl

abbrev counting : MeasureDef
counting = record {
  id = "count";
  label_key = "charts.measures.denials";
  field = "count";
  additive = true;
  unit = MeasureUnit.count;
  polarity = Polarity.lower_better;
  scale = none;
  weight_field = none;
}

abbrev week_args : BuildArgs whole
week_args = record {
  def = datasets whole DatasetId.denials;
  measure = counting;
  dim = "agent";
  dim2 = "policy";
  dim3 = "tclass";
  days = 7;
  win = window_for 7 (pos 1700000000);
  time_rows = rows;
  tree_rows = rows;
  var_rows = [];
  hourly_rows = none;
  now_sec = pos 1700000000;
  since_sec = none;
  truncated = false;
  top_series = none;
}

current_week : rows ≡ current_rows whole (window_for 7 (pos 1700000000)).period_start rows
unfolding current_rows since window_for bucket_start ◌+ℤ◌ ◌-ℤ◌ ◌*ℤ◌ floor_div
current_week = refl

rows-ArePast : All (IsPast whole (pos 1700000000)) rows
unfolding IsPast
rows-ArePast = (λ t e. ground arith, (λ t e. ground arith, (λ t e. ground arith, tt)))

week_args-IsSound : IsSound whole whole-IsExact weight_of text_le week_args
week_args-IsSound = record {
  additive = refl;
  some_days = omega arith;
  window = refl;
  past = rows-ArePast;
  counts = subst (λ rs. Counts whole weight_of rs) current_week rows-Counts;
  safe = subst (λ rs. sum_by weight_of rs ≤ max_safe) current_week rows_safe;
  named = subst (λ rs. All (IsNamed whole "agent" "policy") rs) current_week rows-AreNamed;
  tree_counts = rows-Counts;
  same_total = subst (λ rs. sum_by weight_of rows ≡ sum_by weight_of rs) current_week refl;
}

build_chart_input-Agrees_example :
    Agrees whole whole-IsExact weight_of text_le
      (build_chart_input whole text_le (λ t. "0") (λ s. 0) week_args)
build_chart_input-Agrees_example =
    build_chart_input-Agrees whole whole-IsExact weight_of text_le (λ t. "0") (λ s. 0) week_args
      week_args-IsSound
