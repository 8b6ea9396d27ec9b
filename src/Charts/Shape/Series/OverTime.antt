-- ===== src/Charts/Shape/Series/OverTime.antt =====
-- The time axis of a chart has a bucket for every row of the period, so over time the series add up
-- to the headline number (`buildChartInput` of frontend/src/charts/shape.ts).
use simply_se.Base.{
  ℕ, zero, suc, ◌+◌, ◌-◌, ◌*◌, ◌≤◌, ◌≡◌, ◌≢◌, ◌∙◌, ap, sym, true, false, List, [], ◌∷◌, none, some,
  get_elem?, All, arith, Bool-cases, inl, inr, Option-cases,
}
use simply_se.Base.Int.{ℤ, pos, pos_part, neg_part, ◌+ℤ◌, ◌≤ℤ◌, leb_ℤ, int_laws}
use simply_se.Base.Sort.{sum_by}
use simply_se.Charts.Number.{Arithmetic, IsExact, max_safe}
use simply_se.Charts.Types.{Row, Bucket, hour, day, week}
use simply_se.Charts.Shape.Time.{bucket_start, bucket_range, bucket_step, window_for}
use simply_se.Charts.Shape.Time.Buckets.{
  IsAligned, bucket_start_unique, bucket_start-IsAligned, bucket_start_bounds, bucket_start_mono,
}
use simply_se.Charts.Shape.Time.Range.{
  get_elem?-bucket_range, nth_until, window_for-Covers, bucket_step-pos, le→leb_ℤ, leb_ℤ→le,
}
use simply_se.Charts.Shape.Aggregate.{combine}
use simply_se.Charts.Shape.Aggregate.Exact.{Counts, sum_num, combine_exact}
use simply_se.Charts.Shape.Series.{per_bucket, current_rows, since, index_of}
use simply_se.Charts.Shape.Series.Placing.{IsPlaced}
use simply_se.Charts.Shape.Series.Totals.{per_bucket_sum}

index_of-found : (t : ℤ) (ts : List ℤ) (i : ℕ) → get_elem? ts i ≡ some t → index_of t ts ≢ none
unfolding index_of
index_of-found t [] i h = cc
index_of-found t (s ∷ ts) zero h = ground arith
index_of-found t (s ∷ ts) (suc i) h = ground (arith, index_of-found t ts i h)

-- Whole steps lead from an aligned instant to a later one.
steps_between :
    (p k : ℤ) (b : Bucket)
    → IsAligned p b
    → IsAligned k b
    → p ≤ℤ k
    → (i : ℕ) × (p +ℤ pos (i * bucket_step b) ≡ k)
unfolding IsAligned
steps_between p k hour (j, e) (l, f) h = (
  pos_part l + neg_part j - (pos_part j + neg_part l),
  omega (int_laws, ap pos_part e, ap neg_part e, ap pos_part f, ap neg_part f),
)
steps_between p k day (j, e) (l, f) h = (
  pos_part l + neg_part j - (pos_part j + neg_part l),
  omega (int_laws, ap pos_part e, ap neg_part e, ap pos_part f, ap neg_part f),
)
steps_between p k week (j, e) (l, f) h = (
  pos_part l + neg_part j - (pos_part j + neg_part l),
  omega (int_laws, ap pos_part e, ap neg_part e, ap pos_part f, ap neg_part f),
)

-- The axis from an aligned instant holds the bucket of every instant after it.
bucket_range-found :
    (p t now : ℤ) (b : Bucket)
    → IsAligned p b
    → p ≤ℤ t
    → t ≤ℤ now
    → index_of (bucket_start t b) (bucket_range p now b) ≢ none
bucket_range-found p t now b a h k =
    let start : bucket_start p b ≡ p =
      bucket_start_unique p p b a (omega arith) (omega (int_laws, bucket_step-pos b)) in
    let low = bucket_start_mono p t b h in
    let (i, e) =
      steps_between p (bucket_start t b) b a (bucket_start-IsAligned t b)
        (omega (arith, ap pos_part start, ap neg_part start)) in
    index_of-found (bucket_start t b) (bucket_range p now b) i (
      get_elem?-bucket_range p now b i
      ∙ ap (λ s. nth_until s (bucket_step b) now i) start
      ∙ rw e (rw (le→leb_ℤ (bucket_start t b) now (omega (arith, bucket_start_bounds t b)))))

module _ (N : Arithmetic) where
  -- A row of the past, or one without an instant.
  unfoldable pub IsPast : ℤ → Row N → Type 0
  IsPast now r = (t : ℤ) → r.t ≡ some t → t ≤ℤ now

  module _ (c : Row N → ℕ) (p now : ℤ) (b : Bucket) (aligned : IsAligned p b) where
    row-IsPlaced :
        (r : Row N) → IsPast now r → since N p r ≡ true → IsPlaced N c (bucket_range p now b) b r
    unfolding IsPlaced IsPast since
    row-IsPlaced r past here = elim (Option-cases r.t) [
      | inl e ↦ let no : false ≡ true = rw e at here in cc
      | inr (t, e) ↦
          let low : leb_ℤ p t ≡ true = rw e at here in
          rw e (bucket_range-found p t now b aligned (leb_ℤ→le p t low) (past t e))
    ]

    current-ArePlaced :
        (rows : List (Row N))
        → All (IsPast now) rows
        → All (IsPlaced N c (bucket_range p now b) b) (current_rows N p rows)
    unfolding current_rows
    current-ArePlaced [] h = tt
    current-ArePlaced (r ∷ rows) (past, h) = elim (Bool-cases (since N p r)) [
      | inl e ↦ rw e (row-IsPlaced r past e, current-ArePlaced rows h)
      | inr e ↦ rw e (current-ArePlaced rows h)
    ]

  -- For an additive measure of whole numbers whose total is a safe integer, over rows of which none
  -- is in the future, the values of the total in all buckets of the window add up to the headline
  -- number of the chart.
  pub sum_num-per_bucket_eq :
      (exact : IsExact N) (c : Row N → ℕ) (days : ℕ) (now : ℤ) (rows : List (Row N))
      → 1 ≤ days
      → All (IsPast now) rows
      → Counts N c (current_rows N (window_for days now).period_start rows)
      → sum_by c (current_rows N (window_for days now).period_start rows) ≤ max_safe
      → sum_num N (
          per_bucket N true
            (bucket_range (window_for days now).period_start now (window_for days now).bucket)
            (window_for days now).bucket
            (current_rows N (window_for days now).period_start rows))
        ≡ (combine N true (current_rows N (window_for days now).period_start rows)).value
  sum_num-per_bucket_eq exact c days now rows h past counts safe =
      let w = window_for days now in
      let covers = window_for-Covers days now h in
      let current = current_rows N w.period_start rows in
      per_bucket_sum N exact c (bucket_range w.period_start now w.bucket) w.bucket current counts
        safe (current-ArePlaced c w.period_start now w.bucket covers.period_aligned rows past)
      ∙ sym (ap (λ t. t.value) (combine_exact N exact c current counts safe))
