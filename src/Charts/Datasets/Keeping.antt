-- ===== src/Charts/Datasets/Keeping.antt =====
-- `resolveConfig` of frontend/src/charts/datasets.ts keeps what the lists of a dataset offer.
use simply_se.Base.{
  ap, ℕ, zero, suc, ◌≡◌, ◌≢◌, refl, sym, ◌∙◌, true, false, some, List, [], ◌∷◌, String, str_eq,
  eq_iff, str_eq_refl, find, map, includes, without, distinct, get_elem?, Bool-cases, inl, inr,
  arith,
}
use mathlib.Core.Bool.{false≢true}
use mathlib.Core.Option.{some-injective}
use simply_se.Charts.Number.{Arithmetic}
use simply_se.Charts.Types.{ChartConfig, MeasureDef}
use simply_se.Charts.Datasets.Catalog.{datasets}
use simply_se.Charts.Datasets.Resolve.{
  resolve, resolve_config, find_measure, choose_dim2, datasets-IsUsable,
}

includes_at :
    (xs : List String) (i : ℕ) (s : String) → get_elem? xs i ≡ some s → includes xs s ≡ true
includes_at [] i s e = cc
includes_at (x ∷ xs) zero s e = let same = (eq_iff x s).1 (some-injective _ _ e) in ground arith
includes_at (x ∷ xs) (suc i) s e = ground (arith, includes_at xs i s e)

not_same : (s t : String) → s ≢ t → str_eq s t ≡ false
not_same s t ne = elim (Bool-cases (str_eq s t)) [
  | inl e ↦ absurd (ne ((eq_iff s t).0 e))
  | inr e ↦ e
]

includes-without_other :
    (s t : String) (xs : List String)
    → includes xs t ≡ true
    → t ≢ s
    → includes (without s xs) t ≡ true
includes-without_other s t [] h ne = cc
includes-without_other s t (x ∷ xs) h ne = elim (Bool-cases (str_eq x t)) [
  | inl same ↦ let kept = not_same x s (λ e. ne (sym ((eq_iff x t).0 same) ∙ e)) in ground arith
  | inr later ↦ ground (arith, includes-without_other s t xs (ground arith) ne)
]

ids_at :
    (ms : List MeasureDef) (k : ℕ) (m : MeasureDef)
    → get_elem? ms k ≡ some m
    → includes (map (λ n. n.id) ms) m.id ≡ true
ids_at [] k m e = cc
ids_at (n ∷ ms) zero m e = rw (some-injective _ _ e, str_eq_refl m.id) refl
ids_at (n ∷ ms) (suc k) m e = ground (arith, ids_at ms k m e)

find_at :
    (ms : List MeasureDef) (k : ℕ) (m : MeasureDef)
    → distinct (map (λ n. n.id) ms) ≡ true
    → get_elem? ms k ≡ some m
    → find (λ n. str_eq n.id m.id) ms ≡ some m
find_at [] k m d e = cc
find_at (n ∷ ms) zero m d e = rw (some-injective _ _ e, str_eq_refl m.id) refl
find_at (n ∷ ms) (suc k) m d e = elim (Bool-cases (str_eq n.id m.id)) [
  | inl same ↦
      let absent : includes (map (λ n. n.id) ms) n.id ≡ false = ground arith in
      absurd (false≢true (sym absent ∙ rw ((eq_iff n.id m.id).0 same) (ids_at ms k m e)))
  | inr other ↦ rw other (find_at ms k m (ground arith) e)
]

choose_dim2_wanted :
    (d : String) (others : List String)
    → d ≢ ""
    → includes others d ≡ true
    → choose_dim2 (some d) others ≡ some d
unfolding choose_dim2
choose_dim2_wanted d others ne h = rw (not_same d "" ne, h)

find_measure_wanted :
    (id : String) (m : MeasureDef) (ms : List MeasureDef)
    → find (λ n. str_eq n.id id) ms ≡ some m
    → find_measure (some id) ms ≡ some m
unfolding find_measure
find_measure_wanted id m ms e = rw e

-- A configuration whose dimensions and measure are these.
abbrev pub with_choice : String → String → MeasureDef → ChartConfig → ChartConfig
with_choice d d2 m cfg = record {
  dataset = cfg.dataset;
  chart = cfg.chart;
  dim = d;
  dim2 = some d2;
  days = cfg.days;
  measure = some m.id;
  target = cfg.target;
}

-- Two different dimensions at any places of the dataset's list, and the measure at any place of its
-- list, are what the chart gets when the configuration names them.
pub resolve_config_keeps :
    (N : Arithmetic) (cfg : ChartConfig) (i j k : ℕ) (d d2 : String) (m : MeasureDef)
    → get_elem? (datasets N cfg.dataset).dims i ≡ some d
    → get_elem? (datasets N cfg.dataset).dims j ≡ some d2
    → d2 ≢ d
    → get_elem? (datasets N cfg.dataset).measures k ≡ some m
    → ((resolve_config N (with_choice d d2 m cfg)).dim ≡ d)
      × ((resolve_config N (with_choice d d2 m cfg)).dim2 ≡ some d2)
      × ((resolve_config N (with_choice d d2 m cfg)).measure ≡ some m)
unfolding resolve_config resolve
resolve_config_keeps N cfg i j k d d2 m at_i at_j ne at_k =
    let def = datasets N cfg.dataset in
    let u = datasets-IsUsable N cfg.dataset in
    let here = includes_at def.dims i d at_i in
    let there = includes_at def.dims j d2 at_j in
    (
      rw here refl,
      rw here (
          choose_dim2_wanted d2 (without d def.dims)
            (λ e. false≢true (sym u.no_empty ∙ ap (includes def.dims) (sym e) ∙ there))
            (includes-without_other d d2 def.dims there ne)),
      find_measure_wanted m.id m def.measures (find_at def.measures k m u.distinct_measures at_k),
    )
