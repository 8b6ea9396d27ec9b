-- ===== src/Charts/Shape/Series/Totals.antt =====
-- The time series of a chart add up: over time to the headline number, and at each instant to the
-- total (`buildChartInput` of frontend/src/charts/shape.ts).
use simply_se.Base.{
  ℕ, zero, suc, ◌+◌, ◌≤◌, ◌≡◌, refl, ◌∙◌, ap, ap₂, true, List, [], ◌∷◌, map, get_or, All,
  All-append, arith, inl, inr, Option-cases, length-map,
}
use simply_se.Base.Int.{ℤ}
use simply_se.Base.Sort.{sum_by}
use simply_se.Charts.Number.{Arithmetic, IsExact, max_safe}
use simply_se.Charts.Types.{Row, Bucket}
use simply_se.Charts.Shape.Aggregate.Exact.{Counts, sum_num, combine_exact, sum_small}
use simply_se.Charts.Shape.Series.{
  push_at, place, place_rows, row_bucket, empty_cells, cell_value, per_bucket, index_of,
}
use simply_se.Charts.Shape.Series.Placing.{
  nth, at_cell, at_cell-le, IsPlaced, sum_by-nth-place_rows, sum_by-place_rows,
}

module _ {ℓ κ} {A : Type ℓ} (P : A → Type κ) where
  All-push_at :
      (j : ℕ) (a : A) (cells : List (List A))
      → P a
      → All (All P) cells
      → All (All P) (push_at j a cells)
  unfolding push_at
  All-push_at j a [] p h = tt
  All-push_at zero a (x ∷ cells) p (q, h) = (All-append P x (a ∷ []) q (p, tt), h)
  All-push_at (suc j) a (x ∷ cells) p (q, h) = (q, All-push_at j a cells p h)

  All-nth : (i : ℕ) (cells : List (List A)) → All (All P) cells → All P (nth cells i)
  All-nth i [] h = tt
  All-nth zero (x ∷ cells) (p, h) = p
  All-nth (suc i) (x ∷ cells) (p, h) = All-nth i cells h

module _ (N : Arithmetic) (exact : IsExact N) (c : Row N → ℕ) (ts : List ℤ) (b : Bucket) where
  abbrev Fine : List (Row N) → Type 0
  Fine rows = Counts N c rows

  All-place :
      (r : Row N) (cells : List (List (Row N)))
      → Fine (r ∷ [])
      → All Fine cells
      → All Fine (place N ts b r cells)
  unfolding place
  All-place r cells (p, _) h = elim (Option-cases (index_of (row_bucket N b r) ts)) [
    | inl e ↦ rw (e, place) h
    | inr (j, e) ↦ rw (e, place) (All-push_at _ j r cells p h)
  ]

  All-place_rows :
      (rows : List (Row N)) (cells : List (List (Row N)))
      → Fine rows
      → All Fine cells
      → All Fine (place_rows N ts b cells rows)
  unfolding place_rows
  All-place_rows [] cells p h = h
  All-place_rows (r ∷ rows) cells (p, ps) h =
      All-place_rows rows (place N ts b r cells) ps (All-place r cells (p, tt) h)

  cell_value_exact :
      (rows : List (Row N))
      → Fine rows
      → sum_by c rows ≤ max_safe
      → cell_value N true rows ≡ N.of_ℕ (sum_by c rows)
  unfolding cell_value sum_by
  cell_value_exact [] h b = refl
  cell_value_exact (r ∷ rows) h b = ap (λ t. t.value) (combine_exact N exact c (r ∷ rows) h b)

  get_or-cells :
      (i : ℕ) (cells : List (List (Row N)))
      → get_or (map (cell_value N true) cells) i (N.of_ℕ 0) ≡ cell_value N true (nth cells i)
  unfolding cell_value
  get_or-cells i [] = refl
  get_or-cells zero (x ∷ cells) = refl
  get_or-cells (suc i) (x ∷ cells) = get_or-cells i cells

  sum_num-cells :
      (cells : List (List (Row N)))
      → All Fine cells
      → sum_by (sum_by c) cells ≤ max_safe
      → sum_num N (map (cell_value N true) cells) ≡ N.of_ℕ (sum_by (sum_by c) cells)
  unfolding sum_num sum_by
  sum_num-cells [] h b = refl
  sum_num-cells (x ∷ cells) (p, h) b =
      ap₂ N.add (cell_value_exact x p (omega arith)) (sum_num-cells cells h (omega arith))
      ∙ exact.add-of_ℕ (sum_by c x) (sum_by (sum_by c) cells) (omega arith)

  empty-Fine : (ts : List ℤ) → All Fine (empty_cells N ts)
  empty-Fine [] = tt
  empty-Fine (t ∷ ts) = (tt, empty-Fine ts)

  empty_sum : (ts : List ℤ) → sum_by (sum_by c) (empty_cells N ts) ≡ 0
  unfolding sum_by
  empty_sum [] = refl
  empty_sum (t ∷ ts) = omega (arith, empty_sum ts)

  empty_nth : (ts : List ℤ) (i : ℕ) → nth (empty_cells N ts) i ≡ []
  empty_nth [] i = refl
  empty_nth (t ∷ ts) zero = refl
  empty_nth (t ∷ ts) (suc i) = empty_nth ts i

  -- The value of one bucket is the sum of the rows in it.
  pub per_bucket_at :
      (i : ℕ) (rows : List (Row N))
      → Fine rows
      → sum_by c rows ≤ max_safe
      → get_or (per_bucket N true ts b rows) i (N.of_ℕ 0)
        ≡ N.of_ℕ (sum_by (at_cell N c ts b i) rows)
  unfolding per_bucket sum_by
  per_bucket_at i rows h s =
      let cells = place_rows N ts b (empty_cells N ts) rows in
      let shared : sum_by c (nth cells i) ≡ sum_by (at_cell N c ts b i) rows =
        sum_by-nth-place_rows N c ts b i rows (empty_cells N ts) (length-map (λ t. []) ts)
        ∙ ap (λ x. sum_by c x + sum_by (at_cell N c ts b i) rows) (empty_nth ts i)
        ∙ omega arith in
      let fine = All-nth _ i cells (All-place_rows rows (empty_cells N ts) h (empty-Fine ts)) in
      get_or-cells i cells
      ∙ cell_value_exact (nth cells i) fine (
          omega
            (arith, shared, sum_small N exact c (at_cell N c ts b i) (at_cell-le N c ts b i) rows))
      ∙ ap N.of_ℕ shared

  -- Where every row falls on the axis, the buckets add up to the rows.
  pub per_bucket_sum :
      (rows : List (Row N))
      → Fine rows
      → sum_by c rows ≤ max_safe
      → All (IsPlaced N c ts b) rows
      → sum_num N (per_bucket N true ts b rows) ≡ N.of_ℕ (sum_by c rows)
  unfolding per_bucket
  per_bucket_sum rows h s placed =
      let cells = place_rows N ts b (empty_cells N ts) rows in
      let total : sum_by (sum_by c) cells ≡ sum_by c rows =
        sum_by-place_rows N c ts b rows (empty_cells N ts) (length-map (λ t. []) ts) placed
        ∙ ap (λ n. n + sum_by c rows) (empty_sum ts)
        ∙ omega arith in
      sum_num-cells cells (All-place_rows rows (empty_cells N ts) h (empty-Fine ts))
        (omega (arith, total))
      ∙ ap N.of_ℕ total
