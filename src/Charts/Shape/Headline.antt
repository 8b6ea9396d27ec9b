-- ===== src/Charts/Shape/Headline.antt =====
-- The headline number of a chart and what it is compared with: the part `kpi` of `buildChartInput`
-- in frontend/src/charts/shape.ts.
pub mod Comparison
use simply_se.Base.{
  ℕ, ◌*◌, Bool, true, false, not, ◌&&◌, Option, none, some, List, [], ◌∷◌, String, if◌then◌else◌,
  filter, map, length, ◌==◌,
}
use simply_se.Base.Int.{ℤ, pos, ◌-ℤ◌, leb_ℤ}
use simply_se.Charts.Number.{Arithmetic}
use simply_se.Charts.Types.{Row}
use simply_se.Charts.Shape.Aggregate.{combine, group_rows}
use simply_se.Charts.Shape.Hierarchy.{dim_of}
use simply_se.Charts.Shape.Time.{day_seconds}

pub data TargetSource : Type 0 where
  from_config from_previous no_target : TargetSource

abbrev pub max_history_seconds : ℕ
max_history_seconds = 366 * day_seconds

-- The recorded history covers the whole period before.
unfoldable pub previous_covered : Option ℤ → ℤ → ℤ → Bool
previous_covered none previous_start now = false
previous_covered (some since) previous_start now =
    leb_ℤ since previous_start && leb_ℤ (now -ℤ pos max_history_seconds) previous_start

module _ (N : Arithmetic) where
  open N use {Num, of_ℕ, is_nan, add, div, lt}

  pub record Kpi : Type 0 where
    pub value : Num
    pub previous : Option Num
    pub target : Num
    pub target_source : TargetSource
    pub spark : List Num
    pub min : Num
    pub max : Num
    pub mean : Num
    pub buckets : ℕ
    pub previous_by_category : List (String × Num)

  -- The last value that is not `NaN` is carried across gaps.
  pub spark_from : Num → List Num → List Num
  spark_from last [] = []
  spark_from last (v ∷ vs) = if is_nan v then last ∷ spark_from last vs else v ∷ spark_from v vs

  -- `values.reduce((a, b) => a + b, 0)`.
  pub sum_from : Num → List Num → Num
  sum_from s [] = s
  sum_from s (v ∷ vs) = sum_from (add s v) vs

  pub mean_of : List Num → Num
  unfolding sum_from
  mean_of values =
      if length values == 0 then N.nan else div (sum_from (of_ℕ 0) values) (of_ℕ (length values))

  -- `Math.min` and `Math.max` of a value and more, none of them `NaN`.
  pub lowest_from : Num → List Num → Num
  lowest_from m [] = m
  lowest_from m (v ∷ vs) = lowest_from (if lt v m then v else m) vs

  pub highest_from : Num → List Num → Num
  highest_from m [] = m
  highest_from m (v ∷ vs) = highest_from (if lt m v then v else m) vs

  -- `of finite.length ? f : 0`.
  pub or_zero : (Num → List Num → Num) → List Num → Num
  or_zero f [] = of_ℕ 0
  or_zero f (v ∷ vs) = f v vs

  pub value_before : Bool → List (Row N) → Option Num
  value_before additive [] = if additive then some (of_ℕ 0) else none
  value_before additive (r ∷ rows) = some (combine N additive (r ∷ rows)).value

  pub previous_of : Bool → Bool → List (Row N) → Option Num
  unfolding value_before
  previous_of covered additive before = if covered then value_before additive before else none

  pub target_of : Option Num → Num → Num × TargetSource
  target_of none value = (value, no_target)
  target_of (some previous) value = (previous, from_previous)

  -- `current` and `before` are the rows of the period and of the one before, `total` the values
  -- in the buckets of the period.
  unfoldable pub kpi_of : Bool → String → Bool → List (Row N) → List (Row N) → List Num → Kpi
  unfolding spark_from mean_of lowest_from highest_from or_zero previous_of target_of
  kpi_of additive dim covered current before total =
      let value = (combine N additive current).value in
      let previous = previous_of covered additive before in
      let (target, source) = target_of previous value in
      let finite = filter (λ v. not (is_nan v)) total in
      record {
        value = value;
        previous = previous;
        target = target;
        target_source = source;
        spark = spark_from (of_ℕ 0) total;
        min = or_zero lowest_from finite;
        max = or_zero highest_from finite;
        mean = if length finite == 0 then of_ℕ 0 else mean_of finite;
        buckets = length total;
        previous_by_category =
            map (λ g. (g.0, (combine N additive g.1).value)) (group_rows (dim_of N dim) before);
      }
