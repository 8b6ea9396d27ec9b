-- ===== src/Charts/Datasets/Resolve.antt =====
-- `resolveConfig` of frontend/src/charts/datasets.ts, and what it guarantees to a chart.
use simply_se.Base.{
  map, ◌≤◌, ◌≡◌, ◌≢◌, refl, Bool, true, false, ◌&&◌, not, Option, none, some, List, [], ◌∷◌, String,
  str_eq, if◌then◌else◌, find, includes, without, distinct, length, arith,
}
use simply_se.Charts.Number.{Arithmetic}
use simply_se.Charts.Types.{ChartConfig, MeasureDef, DatasetDef, DatasetId, denials}
use simply_se.Charts.Datasets.Catalog.{datasets}

pub record Resolved (N : Arithmetic) : Type 0 where
  pub def : DatasetDef N
  pub measure : Option MeasureDef
  pub dim : String
  pub dim2 : Option String
  pub dim3 : Option String

-- `xs[0]`.
abbrev pub first {ℓ} : {A : Type ℓ} → List A → Option A
first [] = none
first (x ∷ xs) = some x

abbrev pub or_first {ℓ} : {A : Type ℓ} → Option A → Option A → Option A
or_first none d = d
or_first (some a) d = some a

-- `dim2 && others.includes(dim2)`; the empty text counts as absent.
abbrev chosen : Option String → List String → Bool
chosen none others = false
chosen (some d) others = not (str_eq d "") && includes others d

unfoldable pub find_measure : Option String → List MeasureDef → Option MeasureDef
find_measure none measures = first measures
find_measure (some id) measures = or_first (find (λ m. str_eq m.id id) measures) (first measures)

-- `others.filter((d) => d !== dim2)`, where `dim2` may be undefined.
abbrev without_option : Option String → List String → List String
without_option none xs = xs
without_option (some s) xs = without s xs

unfoldable pub choose_dim2 : Option String → List String → Option String
choose_dim2 wanted others = if chosen wanted others then wanted else first others

pub choose_dim3 : Option String → List String → Option String
choose_dim3 dim2 others = or_first (first (without_option dim2 others)) dim2

module _ (N : Arithmetic) where
  -- The part of `resolveConfig` after the lookup of the dataset.
  unfoldable pub resolve : DatasetDef N → ChartConfig → Resolved N
  unfolding find_measure choose_dim2 choose_dim3
  resolve def cfg =
      let dim = if includes def.dims cfg.dim then cfg.dim else def.default_dim in
      let others = without dim def.dims in
      let dim2 = choose_dim2 cfg.dim2 others in
      record {
        def = def;
        measure = find_measure cfg.measure def.measures;
        dim = dim;
        dim2 = dim2;
        dim3 = choose_dim3 dim2 others;
      }

  -- The source falls back to the denials for an identifier that the table does not have; the type
  -- `DatasetId` has no such value.
  unfoldable pub resolve_config : ChartConfig → Resolved N
  unfolding resolve
  resolve_config cfg = resolve (datasets N cfg.dataset) cfg

  -- What the table of datasets has to offer for a choice to be possible.
  pub record IsUsable (def : DatasetDef N) : Type 0 where
    pub distinct_dims : distinct def.dims ≡ true
    pub enough_dims : 3 ≤ length def.dims
    pub has_default : includes def.dims def.default_dim ≡ true
    pub no_empty : includes def.dims "" ≡ false
    pub has_measure : (m : MeasureDef) × (first def.measures ≡ some m)
    pub distinct_measures : distinct (map (λ m. m.id) def.measures) ≡ true

  pub datasets-IsUsable : (d : DatasetId) → IsUsable (datasets N d)
  datasets-IsUsable denials = record {
    distinct_dims = refl;
    enough_dims = omega arith;
    has_default = refl;
    no_empty = refl;
    has_measure = (_, refl);
    distinct_measures = refl;
  }
  datasets-IsUsable _ = record {
    distinct_dims = refl;
    enough_dims = omega arith;
    has_default = refl;
    no_empty = refl;
    has_measure = (_, refl);
    distinct_measures = refl;
  }

  -- Three different dimensions of the dataset, and one of its measures.
  pub record IsValid (r : Resolved N) : Type 0 where
    pub measure : r.measure ≢ none
    pub dim : includes r.def.dims r.dim ≡ true
    pub dim2 : (d : String) × (r.dim2 ≡ some d) × (includes r.def.dims d ≡ true) × (d ≢ r.dim)
    pub dim3 :
        (d : String) × (r.dim3 ≡ some d)
        × (includes r.def.dims d ≡ true)
        × (d ≢ r.dim)
        × (some d ≢ r.dim2)
