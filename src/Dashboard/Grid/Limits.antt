-- ===== src/Dashboard/Grid/Limits.antt =====
-- The row limit of a list widget (`fitLimit` of frontend/src/lib/dashboardGrid.ts).
use native.Mathlib.Nat.{le-div_iff_mul-le}
use simply_se.Base.{
  ℕ, ◌*◌, ◌≤◌, ◌<◌, ◌≡◌, none, some, arith, Bool-cases, inl, inr, ◌⊎◌, ◌↔◌, ◌+◌, max, min, leb,
  Option, some, ap, ap₂, refl, ◌∙◌,
}
use simply_se.Base.Int.{ℤ, pos, negsuc, ◌-ℤ◌, ◌*ℤ◌, ◌≤ℤ◌, max_ℤ, floor_div, int_laws}
use simply_se.Dashboard.Grid.{
  WidgetType, stat_agents, stat_enforcing, stat_denials, stat_commands, stat_alerts,
  stat_compliance, top_signatures, recent_deployments, open_alerts, denial_trend, agents_vignettes,
  compliance_checks, agents_by_mode, pending_suggestions, active_collections, attention_agents,
  chart, clamp, per_row, vignettes_high, lines_high, is_list_widget, fitting_rows, fit_limit,
}

-- What a widget lists: lines of text, vignettes, or nothing.
pub data Listing : Type 0 where
  lines vignettes no_list : Listing

abbrev pub listing : WidgetType → Listing
listing stat_agents = no_list
listing stat_enforcing = no_list
listing stat_denials = no_list
listing stat_commands = no_list
listing stat_alerts = no_list
listing stat_compliance = no_list
listing top_signatures = lines
listing recent_deployments = lines
listing open_alerts = lines
listing denial_trend = no_list
listing agents_vignettes = vignettes
listing compliance_checks = no_list
listing agents_by_mode = no_list
listing pending_suggestions = lines
listing active_collections = lines
listing attention_agents = lines
listing chart = no_list

-- The greatest number of pieces of `unit` pixels that fit beside `rest` pixels, but at least one.
pub record IsMost (n unit rest pixels : ℕ) : Type 0 where
  pub one : 1 ≤ n
  pub fits : (n * unit + rest ≤ pixels) ⊎ (n ≡ 1)
  pub greatest : pixels < (n + 1) * unit + rest

-- The greatest number of lines of 38 pixels under a title of 75 pixels, in rows of 43 pixels, between
-- 2 and 50.
pub record LinesFit (h n : ℕ) : Type 0 where
  pub at_least : 2 ≤ n
  pub at_most : n ≤ 50
  pub fits : (n * 38 + 75 ≤ h * 43) ⊎ (n ≡ 2)
  pub greatest : (h * 43 < (n + 1) * 38 + 75) ⊎ (n ≡ 50)

abbrev pub LimitFits : Listing → ℕ → ℕ → Option ℤ → Type 0
LimitFits lines w h limit = (n : ℕ) × (limit ≡ some (pos n)) × LinesFit h n
LimitFits vignettes w h limit =
    (a b : ℕ) × (limit ≡ some (pos (max 2 (min 50 (a * b)))))
    × IsMost a 136 32 (w * 100)
    × IsMost b 72 75 (h * 43)
LimitFits no_list w h limit = limit ≡ none

-- A number of pieces fits exactly up to the rounded quotient.
le-floor_div_iff : (m : ℕ) (z : ℤ) (d : ℕ) → 0 < d → (pos m ≤ℤ floor_div z d) ↔ (pos (m * d) ≤ℤ z)
unfolding floor_div
le-floor_div_iff m (pos n) d p =
    let both = le-div_iff_mul-le {k = d} {x = m} {y = n} p in
    (λ h. omega (arith, both.0 (omega arith)), λ h. omega (arith, both.1 (omega arith)))
le-floor_div_iff m (negsuc n) d p = (λ h. absurd (omega arith), λ h. absurd (omega arith))

fits-floor_div : (m a k d : ℕ) → 0 < d → pos m ≤ℤ floor_div (pos a -ℤ pos k) d → m * d + k ≤ a
fits-floor_div m a k d p h = omega (int_laws, (le-floor_div_iff m (pos a -ℤ pos k) d p).0 h)

floor_div-greatest :
    (m a k d : ℕ) → 0 < d → ¬ (pos m ≤ℤ floor_div (pos a -ℤ pos k) d) → a < m * d + k
floor_div-greatest m a k d p h = elim (Bool-cases (leb (m * d + k) a)) [
  | inl e ↦
      let le : m * d + k ≤ a = ground arith in
      absurd (h ((le-floor_div_iff m (pos a -ℤ pos k) d p).1 (omega int_laws)))
  | inr e ↦ ground arith
]

clamp_cases :
    (f : ℤ)
    → (n : ℕ) × (clamp f (pos 2) (pos 50) ≡ pos n)
      × (2 ≤ n)
      × (n ≤ 50)
      × ((pos n ≤ℤ f) ⊎ (n ≡ 2))
      × (¬ (pos (n + 1) ≤ℤ f) ⊎ (n ≡ 50))
unfolding clamp
clamp_cases (pos m) = elim (Bool-cases (leb m 1)) [
  | inl low ↦ (2, ground arith, omega arith, omega arith, inr refl, inl λ h. ground arith)
  | inr high ↦ elim (Bool-cases (leb m 50)) [
    | inl e ↦ (m, ground arith, ground arith, ground arith, inl (omega arith), inl λ h. omega arith)
    | inr e ↦ (50, ground arith, omega arith, omega arith, inl (ground arith), inr refl)
  ]
]
clamp_cases (negsuc m) =
    (2, ground arith, omega arith, omega arith, inr refl, inl λ h. absurd (omega arith))

max_cases :
    (f : ℤ)
    → (n : ℕ) × (max_ℤ (pos 1) f ≡ pos n)
      × (1 ≤ n)
      × ((pos n ≤ℤ f) ⊎ (n ≡ 1))
      × ¬ (pos (n + 1) ≤ℤ f)
max_cases (pos m) = elim (Bool-cases (leb m 1)) [
  | inl low ↦ (1, ground arith, omega arith, inr refl, λ h. ground arith)
  | inr high ↦ (m, ground arith, ground arith, inl (omega arith), λ h. omega arith)
]
max_cases (negsuc m) = (1, ground arith, omega arith, inr refl, λ h. absurd (omega arith))

clamp_pos : (m : ℕ) → clamp (pos m) (pos 2) (pos 50) ≡ pos (max 2 (min 50 m))
unfolding clamp
clamp_pos m = ground arith

lines-LinesFit : (h : ℕ) → LimitFits lines 0 h (some (clamp (lines_high h) (pos 2) (pos 50)))
lines-LinesFit h =
    let (n, e, low, high, fits, greatest) = clamp_cases (lines_high h) in
    (
      n,
      ap some e,
      record {
        at_least = low;
        at_most = high;
        fits = elim fits [
          | inl f ↦ inl (fits-floor_div n (h * 43) 75 38 (omega arith) f)
          | inr f ↦ inr f
        ];
        greatest = elim greatest [
          | inl f ↦ inl (floor_div-greatest (n + 1) (h * 43) 75 38 (omega arith) f)
          | inr f ↦ inr f
        ];
      },
    )

max-IsMost :
    (pixels rest unit : ℕ)
    → 0 < unit
    → (n : ℕ) × (max_ℤ (pos 1) (floor_div (pos pixels -ℤ pos rest) unit) ≡ pos n)
      × IsMost n unit rest pixels
max-IsMost pixels rest unit p =
    let (n, e, low, fits, greatest) = max_cases (floor_div (pos pixels -ℤ pos rest) unit) in
    (
      n,
      e,
      record {
        one = low;
        fits = elim fits [ inl f ↦ inl (fits-floor_div n pixels rest unit p f) | inr f ↦ inr f ];
        greatest = floor_div-greatest (n + 1) pixels rest unit p greatest;
      },
    )

vignettes-fit :
    (w h : ℕ)
    → LimitFits vignettes w h (some (clamp (per_row w *ℤ vignettes_high h) (pos 2) (pos 50)))
unfolding per_row
vignettes-fit w h =
    let (a, e, wide) = max-IsMost (w * 100) 32 136 (omega arith) in
    let (b, f, high) = max-IsMost (h * 43) 75 72 (omega arith) in
    let product : per_row w *ℤ vignettes_high h ≡ pos (a * b) =
      ap₂ (λ x y. x *ℤ y) e f ∙ omega int_laws in
    (
      a,
      b,
      ap (λ z. some (clamp z (pos 2) (pos 50))) product ∙ ap some (clamp_pos (a * b)),
      wide,
      high,
    )

-- A list of lines, or of vignettes, has as many rows as fit its cell, between 2 and 50. A line takes
-- 38 pixels of the height, and a title 75. A vignette takes 136 pixels of the width, of which 32 are
-- left free, and 72 of the height; there are as many as fit side by side times as many as fit one
-- above another, at least one each way. Other widgets have no limit.
pub fit_limit_fits :
    (type : WidgetType) (w h : ℕ) → LimitFits (listing type) w h (fit_limit type w h)
unfolding fit_limit fitting_rows is_list_widget
fit_limit_fits stat_agents w h = refl
fit_limit_fits stat_enforcing w h = refl
fit_limit_fits stat_denials w h = refl
fit_limit_fits stat_commands w h = refl
fit_limit_fits stat_alerts w h = refl
fit_limit_fits stat_compliance w h = refl
fit_limit_fits top_signatures w h = lines-LinesFit h
fit_limit_fits recent_deployments w h = lines-LinesFit h
fit_limit_fits open_alerts w h = lines-LinesFit h
fit_limit_fits denial_trend w h = refl
fit_limit_fits agents_vignettes w h = vignettes-fit w h
fit_limit_fits compliance_checks w h = refl
fit_limit_fits agents_by_mode w h = refl
fit_limit_fits pending_suggestions w h = lines-LinesFit h
fit_limit_fits active_collections w h = lines-LinesFit h
fit_limit_fits attention_agents w h = lines-LinesFit h
fit_limit_fits chart w h = refl
