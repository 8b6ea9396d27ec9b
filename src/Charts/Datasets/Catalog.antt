-- ===== src/Charts/Datasets/Catalog.antt =====
-- The table `DATASETS` of frontend/src/charts/datasets.ts.
use Prim.Native.Nat.{ℕ}
use simply_se.Base.{true, false, Option, none, some, List, [], ◌∷◌, String}
use simply_se.Base.Objects.{field, or_else}
use simply_se.Charts.Number.{Arithmetic}
use simply_se.Charts.Types.{
  DatasetId, Polarity, lower_better, higher_better, neutral, MeasureUnit, count, percent, seconds,
  MeasureDef, Row, DatasetDef, Variable,
}

-- A measure that is summed over the rows; `id` is its field too.
abbrev counted : String → Polarity → String → MeasureDef
counted label_key polarity id = record {
  id = id;
  label_key = label_key;
  field = id;
  additive = true;
  unit = count;
  polarity = polarity;
  scale = none;
  weight_field = none;
}

abbrev averaged : String → String → MeasureUnit → Polarity → String → MeasureDef
averaged id label_key unit polarity weight_field = record {
  id = id;
  label_key = label_key;
  field = id;
  additive = false;
  unit = unit;
  polarity = polarity;
  scale = none;
  weight_field = some weight_field;
}

-- A measure of the fleet, averaged by the number of samples.
abbrev sampled : String → String → MeasureUnit → Polarity → Option ℕ → MeasureDef
sampled id label_key unit polarity scale = record {
  id = id;
  label_key = label_key;
  field = id;
  additive = false;
  unit = unit;
  polarity = polarity;
  scale = scale;
  weight_field = none;
}

abbrev var : String → String → Variable
var id label_key = record { id = id; label_key = label_key }

module _ (N : Arithmetic) where
  open N use {Num, of_ℕ, mul}

  -- The fields of the first row, of which there is one for each agent and day.
  first_raw : List (Row N) → Option (List (String × Num))
  first_raw [] = none
  first_raw (r ∷ rs) = r.raw

  -- `rows[0]?.raw?.[field] ?? 0`.
  unfoldable pub raw : List (Row N) → String → Num
  unfolding first_raw field
  raw rows name = elim (first_raw rows) [
    | none ↦ of_ℕ 0
    | some fields ↦ or_else (field name fields) (of_ℕ 0)
  ]

  abbrev pub denials : DatasetDef N
  denials = record {
    id = DatasetId.denials;
    label_key = "charts.datasets.denials";
    dims = "tclass" ∷ "agent" ∷ "scontext" ∷ "tcontext" ∷ "perms" ∷ [];
    default_dim = "tclass";
    measures = counted "charts.measures.denials" lower_better "count" ∷ [];
    variables =
        var "total" "charts.vars.denials.total"
        ∷ var "signatures" "charts.vars.denials.signatures"
        ∷ var "hours" "charts.vars.denials.hours"
        ∷ [];
    variable_group = "agent" ∷ [];
    variable_from = λ rows. raw rows "count" ∷ raw rows "signatures" ∷ raw rows "active_hours" ∷ [];
  }

  abbrev pub commands : DatasetDef N
  commands = record {
    id = DatasetId.commands;
    label_key = "charts.datasets.commands";
    dims = "type" ∷ "status" ∷ "agent" ∷ "kind" ∷ "error" ∷ [];
    default_dim = "type";
    measures =
        counted "charts.measures.commands" neutral "count"
        ∷ counted "charts.measures.failed" lower_better "failed"
        ∷ averaged "failure_rate" "charts.measures.failure_rate" percent lower_better "count"
        ∷ averaged "latency" "charts.measures.latency" seconds lower_better "acked"
        ∷ counted "charts.measures.reverts" neutral "reverts"
        ∷ [];
    variables =
        var "total" "charts.vars.commands.total"
        ∷ var "failed" "charts.vars.commands.failed"
        ∷ var "types" "charts.vars.commands.types"
        ∷ [];
    variable_group = "agent" ∷ [];
    variable_from = λ rows. raw rows "count" ∷ raw rows "failed" ∷ raw rows "types" ∷ [];
  }

  abbrev pub alerts : DatasetDef N
  alerts = record {
    id = DatasetId.alerts;
    label_key = "charts.datasets.alerts";
    dims = "severity" ∷ "type" ∷ "status" ∷ "agent" ∷ "acked_by" ∷ [];
    default_dim = "severity";
    measures =
        counted "charts.measures.alerts" lower_better "count"
        ∷ counted "charts.measures.high" lower_better "high"
        ∷ counted "charts.measures.acked" higher_better "acked"
        ∷ counted "charts.measures.open" lower_better "open"
        ∷ averaged "ack_time" "charts.measures.ack_time" seconds lower_better "acked"
        ∷ averaged "open_age" "charts.measures.open_age" seconds lower_better "open"
        ∷ [];
    variables =
        var "total" "charts.vars.alerts.total"
        ∷ var "high" "charts.vars.alerts.high"
        ∷ var "types" "charts.vars.alerts.types"
        ∷ [];
    variable_group = "agent" ∷ [];
    variable_from = λ rows. raw rows "count" ∷ raw rows "high" ∷ raw rows "types" ∷ [];
  }

  abbrev pub signatures : DatasetDef N
  signatures = record {
    id = DatasetId.signatures;
    label_key = "charts.datasets.signatures";
    dims = "tclass" ∷ "scontext" ∷ "tcontext" ∷ "perms" ∷ [];
    default_dim = "tclass";
    measures = counted "charts.measures.signatures" lower_better "count" ∷ [];
    variables =
        var "total" "charts.vars.signatures.total"
        ∷ var "sources" "charts.vars.signatures.sources"
        ∷ [];
    variable_group = "tclass" ∷ [];
    variable_from = λ rows. raw rows "count" ∷ raw rows "sources" ∷ [];
  }

  abbrev pub fleet : DatasetDef N
  fleet = record {
    id = DatasetId.fleet;
    label_key = "charts.datasets.fleet";
    dims = "mode" ∷ "agent" ∷ "policy" ∷ [];
    default_dim = "mode";
    measures =
        sampled "score" "charts.measures.score" percent higher_better none
        ∷ sampled "online" "charts.measures.online" percent higher_better (some 100)
        ∷ sampled "open_alerts" "charts.measures.openAlerts" count lower_better none
        ∷ [];
    variables =
        var "score" "charts.vars.fleet.score"
        ∷ var "online" "charts.vars.fleet.online"
        ∷ var "alerts" "charts.vars.fleet.alerts"
        ∷ [];
    variable_group = "agent" ∷ [];
    variable_from =
        λ rows. raw rows "score" ∷ mul (raw rows "online") (of_ℕ 100) ∷ raw rows "open_alerts" ∷ [];
  }

  abbrev pub datasets : DatasetId → DatasetDef N
  datasets DatasetId.denials = denials
  datasets DatasetId.commands = commands
  datasets DatasetId.alerts = alerts
  datasets DatasetId.signatures = signatures
  datasets DatasetId.fleet = fleet
