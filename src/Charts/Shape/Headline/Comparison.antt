-- ===== src/Charts/Shape/Headline/Comparison.antt =====
-- What the headline card shows: a curve without gaps, and a comparison only where there is one.
use simply_se.Base.{
  ℕ, zero, suc, ◌≡◌, refl, ◌∙◌, ap, Bool, true, false, Option, none, some, List, [], ◌∷◌, String,
  get_elem?, length, All, Bool-cases, inl, inr, arith, sym,
}
use mathlib.Core.Option.{some-injective}
use simply_se.Base.Int.{ℤ, pos, ◌-ℤ◌, ◌≤ℤ◌}
use simply_se.Charts.Number.{Arithmetic, IsExact}
use simply_se.Charts.Types.{Row}
use simply_se.Charts.Shape.Aggregate.{combine}
use simply_se.Charts.Shape.Headline.{
  Kpi, from_previous, no_target, spark_from, value_before, previous_of, target_of, kpi_of,
  previous_covered,
}

-- A curve over the same places that keeps every value and fills every gap.
pub record Continues (N : Arithmetic) (total spark : List N.Num) : Type 0 where
  pub same_length : length spark ≡ length total
  pub no_gap : All (λ v. N.is_nan v ≡ false) spark
  pub keeps :
      (i : ℕ) (v : N.Num)
      → get_elem? total i ≡ some v
      → N.is_nan v ≡ false
      → get_elem? spark i ≡ some v
  pub carries :
      (i : ℕ) (v : N.Num)
      → get_elem? total (suc i) ≡ some v
      → N.is_nan v ≡ true
      → get_elem? spark (suc i) ≡ get_elem? spark i

-- The history reaches back to the start of the period before, and that lies within the 366 days that
-- are kept.
abbrev pub IsRecorded : Option ℤ → ℤ → ℤ → Type 0
IsRecorded since previous_start now =
    (s : ℤ) × (since ≡ some s) × (s ≤ℤ previous_start) × (now -ℤ pos 31622400 ≤ℤ previous_start)

previous_covered-IsRecorded :
    (since : Option ℤ) (previous_start now : ℤ)
    → previous_covered since previous_start now ≡ true
    → IsRecorded since previous_start now
unfolding previous_covered
previous_covered-IsRecorded none previous_start now e = cc
previous_covered-IsRecorded (some s) previous_start now e = (s, refl, ground arith, ground arith)

IsRecorded-previous_covered :
    (since : Option ℤ) (previous_start now : ℤ)
    → IsRecorded since previous_start now
    → previous_covered since previous_start now ≡ true
unfolding previous_covered
IsRecorded-previous_covered none previous_start now (s, e, h, k) = cc
IsRecorded-previous_covered (some t) previous_start now (s, e, h, k) =
    let same : t ≡ s = some-injective _ _ e in rw same (ground arith)

module _ (N : Arithmetic) where
  length-spark_from :
      (last : N.Num) (total : List N.Num) → length (spark_from N last total) ≡ length total
  unfolding spark_from
  length-spark_from last [] = refl
  length-spark_from last (v ∷ vs) = elim (Bool-cases (N.is_nan v)) [
    | inl e ↦ rw e (ap suc (length-spark_from last vs))
    | inr e ↦ rw e (ap suc (length-spark_from v vs))
  ]

  spark_from-no_gap :
      (last : N.Num) (total : List N.Num)
      → N.is_nan last ≡ false
      → All (λ v. N.is_nan v ≡ false) (spark_from N last total)
  unfolding spark_from
  spark_from-no_gap last [] h = tt
  spark_from-no_gap last (v ∷ vs) h = elim (Bool-cases (N.is_nan v)) [
    | inl e ↦ rw e (h, spark_from-no_gap last vs h)
    | inr e ↦ rw e (e, spark_from-no_gap v vs e)
  ]

  spark_from-keeps :
      (last : N.Num) (total : List N.Num) (i : ℕ) (v : N.Num)
      → get_elem? total i ≡ some v
      → N.is_nan v ≡ false
      → get_elem? (spark_from N last total) i ≡ some v
  unfolding spark_from
  spark_from-keeps last [] i v e h = cc
  spark_from-keeps last (w ∷ vs) zero v e h =
      let same : w ≡ v = cc in let real : N.is_nan w ≡ false = ap N.is_nan same ∙ h in rw real e
  spark_from-keeps last (w ∷ vs) (suc i) v e h = elim (Bool-cases (N.is_nan w)) [
    | inl n ↦ rw n (spark_from-keeps last vs i v e h)
    | inr n ↦ rw n (spark_from-keeps w vs i v e h)
  ]

  spark_from-carries :
      (last : N.Num) (total : List N.Num) (i : ℕ) (v : N.Num)
      → get_elem? total (suc i) ≡ some v
      → N.is_nan v ≡ true
      → get_elem? (spark_from N last total) (suc i) ≡ get_elem? (spark_from N last total) i
  unfolding spark_from
  spark_from-carries last [] i v e h = cc
  spark_from-carries last (u ∷ []) i v e h = cc
  spark_from-carries last (u ∷ w ∷ vs) zero v e h =
      let same : w ≡ v = cc in
      let gap : N.is_nan w ≡ true = ap N.is_nan same ∙ h in
      elim (Bool-cases (N.is_nan u)) [ inl n ↦ rw n (rw gap refl) | inr n ↦ rw n (rw gap refl) ]
  spark_from-carries last (u ∷ w ∷ vs) (suc i) v e h = elim (Bool-cases (N.is_nan u)) [
    | inl n ↦ rw n (spark_from-carries last (w ∷ vs) i v e h)
    | inr n ↦ rw n (spark_from-carries u (w ∷ vs) i v e h)
  ]

  -- The comparison of the headline number, for the start of the recorded history, the start of the
  -- period before, the present and the rows of the period before.
  pub record Compares (since : Option ℤ) (previous_start now : ℤ) (additive : Bool)
      (before : List (Row N)) (k : Kpi N) : Type 0 where
    pub honest :
        (p : N.Num)
        → k.previous ≡ some p
        → (IsRecorded since previous_start now × (before ≡ [] → additive ≡ true))
          × (p ≡ (combine N additive before).value)
    pub compared :
        IsRecorded since previous_start now
        → (before ≡ [] → additive ≡ true)
        → k.previous ≡ some (combine N additive before).value
    pub without : k.previous ≡ none → (k.target ≡ k.value) × (k.target_source ≡ no_target)
    pub with_previous :
        (p : N.Num) → k.previous ≡ some p → (k.target ≡ p) × (k.target_source ≡ from_previous)

  value_before-some :
      (additive : Bool) (before : List (Row N)) (p : N.Num)
      → value_before N additive before ≡ some p
      → (before ≡ [] → additive ≡ true) × (p ≡ (combine N additive before).value)
  unfolding value_before combine
  value_before-some true [] p e = (λ h. refl, sym (some-injective _ _ e))
  value_before-some false [] p e = cc
  value_before-some additive (r ∷ before) p e = (λ h. absurd cc, sym (some-injective _ _ e))

  value_before-given :
      (additive : Bool) (before : List (Row N))
      → (before ≡ [] → additive ≡ true)
      → value_before N additive before ≡ some (combine N additive before).value
  unfolding value_before combine
  value_before-given true [] h = refl
  value_before-given false [] h = absurd (cc (h refl))
  value_before-given additive (r ∷ before) h = refl

  previous_of-some :
      (covered additive : Bool) (before : List (Row N)) (p : N.Num)
      → previous_of N covered additive before ≡ some p
      → (covered ≡ true) × (value_before N additive before ≡ some p)
  unfolding previous_of
  previous_of-some true additive before p e = (refl, e)
  previous_of-some false additive before p e = cc

  target_of-none :
      (p : Option N.Num) (value : N.Num) → p ≡ none → target_of N p value ≡ (value, no_target)
  unfolding target_of
  target_of-none p value e = rw e refl

  target_of-some :
      (p : Option N.Num) (value q : N.Num) → p ≡ some q → target_of N p value ≡ (q, from_previous)
  unfolding target_of
  target_of-some p value q e = rw e refl

  -- The curve of the card covers the buckets of the period, keeps their values and fills each gap
  -- with the value before it. A previous value is given exactly if the recorded history, of which 366
  -- days are kept, reaches back to the start of the period before, and there are rows in that period or
  -- the measure is additive; it is then the aggregate of those rows. The target is the previous value
  -- where there is one, and else the value itself.
  pub kpi_of-Continues :
      (exact : IsExact N) (additive : Bool) (dim : String) (since : Option ℤ)
      (previous_start now : ℤ) (current before : List (Row N)) (total : List N.Num)
      → Continues N total
          (kpi_of N additive dim
            (previous_covered since previous_start now)
            current
            before
            total).spark
        × Compares since previous_start now additive before
            (kpi_of N additive dim (previous_covered since previous_start now) current before total)
  unfolding kpi_of previous_of
  kpi_of-Continues exact additive dim since previous_start now current before total =
      let value = (combine N additive current).value in
      let covered = previous_covered since previous_start now in
      let previous = previous_of N covered additive before in
      (
        record {
          same_length = length-spark_from (N.of_ℕ 0) total;
          no_gap = spark_from-no_gap (N.of_ℕ 0) total (exact.is_nan-of_ℕ 0 (omega arith));
          keeps = spark_from-keeps (N.of_ℕ 0) total;
          carries = spark_from-carries (N.of_ℕ 0) total;
        },
        record {
          honest = λ p e.
              let (c, v) = previous_of-some covered additive before p e in
              let (h, q) = value_before-some additive before p v in
              ((previous_covered-IsRecorded since previous_start now c, h), q);
          compared = λ r h.
              rw (IsRecorded-previous_covered since previous_start now r)
                (value_before-given additive before h);
          without =
              λ e. let t = target_of-none previous value e in (ap (λ x. x.0) t, ap (λ x. x.1) t);
          with_previous = λ p e.
              let t = target_of-some previous value p e in (ap (λ x. x.0) t, ap (λ x. x.1) t);
        },
      )
