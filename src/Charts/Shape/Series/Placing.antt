-- ===== src/Charts/Shape/Series/Placing.antt =====
-- Which rows end up in which cell of the time axis.
use simply_se.Base.{
  ℕ, zero, suc, ◌+◌, ◌≤◌, ◌<◌, ◌≡◌, ◌≢◌, refl, ◌∙◌, ap, List, [], ◌∷◌, if◌then◌else◌, length,
  get_or, ◌==◌, All, arith, inl, inr, none, some, Option-cases,
}
use simply_se.Base.Int.{ℤ}
use simply_se.Base.Sort.{sum_by, sum_by-append}
use simply_se.Charts.Number.{Arithmetic}
use simply_se.Charts.Types.{Row, Bucket}
use simply_se.Charts.Shape.Series.{index_of, push_at, place, place_rows, row_bucket}

index_of-lt-length : (t : ℤ) (ts : List ℤ) (i : ℕ) → index_of t ts ≡ some i → i < length ts
unfolding index_of
index_of-lt-length t [] i e = cc
index_of-lt-length t (s ∷ ts) zero e = omega arith
index_of-lt-length t (s ∷ ts) (suc i) e = ground (arith, index_of-lt-length t ts i)

-- What an element adds to cell `i` if it is pushed to cell `j`.
abbrev pub share : ℕ → ℕ → ℕ → ℕ
share i j n = if i == j then n else 0

abbrev pub nth {ℓ} : {A : Type ℓ} → List (List A) → ℕ → List A
nth cells i = get_or cells i []

module _ {ℓ} {A : Type ℓ} where
  length-push_at :
      (j : ℕ) (a : A) (cells : List (List A)) → length (push_at j a cells) ≡ length cells
  unfolding push_at
  length-push_at j a [] = refl
  length-push_at zero a (c ∷ cells) = refl
  length-push_at (suc j) a (c ∷ cells) = ap suc (length-push_at j a cells)

  module _ (c : A → ℕ) where
    sum_by-nth-push_at :
        (i j : ℕ) (a : A) (cells : List (List A))
        → j < length cells
        → sum_by c (nth (push_at j a cells) i) ≡ sum_by c (nth cells i) + share i j (c a)
    unfolding push_at sum_by
    sum_by-nth-push_at i j a [] h = absurd (omega arith)
    sum_by-nth-push_at zero zero a (x ∷ cells) h = omega (arith, sum_by-append c x (a ∷ []))
    sum_by-nth-push_at (suc i) zero a (x ∷ cells) h = ground arith
    sum_by-nth-push_at zero (suc j) a (x ∷ cells) h = ground arith
    sum_by-nth-push_at (suc i) (suc j) a (x ∷ cells) h =
        ground (arith, sum_by-nth-push_at i j a cells)

    sum_by-push_at :
        (j : ℕ) (a : A) (cells : List (List A))
        → j < length cells
        → sum_by (sum_by c) (push_at j a cells) ≡ sum_by (sum_by c) cells + c a
    unfolding push_at sum_by
    sum_by-push_at j a [] h = absurd (omega arith)
    sum_by-push_at zero a (x ∷ cells) h = omega (arith, sum_by-append c x (a ∷ []))
    sum_by-push_at (suc j) a (x ∷ cells) h = omega (arith, sum_by-push_at j a cells (omega arith))

module _ (N : Arithmetic) (c : Row N → ℕ) (ts : List ℤ) (b : Bucket) where
  -- What a row adds to cell `i`.
  unfoldable pub at_cell : ℕ → Row N → ℕ
  at_cell i r = elim (index_of (row_bucket N b r) ts) [ none ↦ 0 | some j ↦ share i j (c r) ]

  unfoldable pub IsPlaced : Row N → Type 0
  IsPlaced r = index_of (row_bucket N b r) ts ≢ none

  pub at_cell-le : (i : ℕ) (r : Row N) → at_cell i r ≤ c r
  unfolding at_cell
  at_cell-le i r = ground arith

  length-place :
      (r : Row N) (cells : List (List (Row N))) → length (place N ts b r cells) ≡ length cells
  unfolding place
  length-place r cells = elim (Option-cases (index_of (row_bucket N b r) ts)) [
    | inl e ↦ rw (e, place)
    | inr (j, e) ↦ rw (e, place) (length-push_at j r cells)
  ]

  sum_by-nth-place :
      (i : ℕ) (r : Row N) (cells : List (List (Row N)))
      → length cells ≡ length ts
      → sum_by c (nth (place N ts b r cells) i) ≡ sum_by c (nth cells i) + at_cell i r
  unfolding place at_cell
  sum_by-nth-place i r cells len = elim (Option-cases (index_of (row_bucket N b r) ts)) [
    | inl e ↦ rw (e, place, at_cell) (omega arith)
    | inr (j, e) ↦
        rw (e, place, at_cell)
          (sum_by-nth-push_at c i j r cells (omega (arith, index_of-lt-length _ ts j e)))
  ]

  sum_by-place :
      (r : Row N) (cells : List (List (Row N)))
      → length cells ≡ length ts
      → IsPlaced r
      → sum_by (sum_by c) (place N ts b r cells) ≡ sum_by (sum_by c) cells + c r
  unfolding place IsPlaced
  sum_by-place r cells len p = elim (Option-cases (index_of (row_bucket N b r) ts)) [
    | inl e ↦ absurd (p e)
    | inr (j, e) ↦
        rw (e, place) (sum_by-push_at c j r cells (omega (arith, index_of-lt-length _ ts j e)))
  ]

  pub sum_by-nth-place_rows :
      (i : ℕ) (rows : List (Row N)) (cells : List (List (Row N)))
      → length cells ≡ length ts
      → sum_by c (nth (place_rows N ts b cells rows) i)
        ≡ sum_by c (nth cells i) + sum_by (at_cell i) rows
  unfolding place_rows sum_by
  sum_by-nth-place_rows i [] cells len = omega arith
  sum_by-nth-place_rows i (r ∷ rows) cells len = omega (
    arith,
    sum_by-nth-place_rows i rows (place N ts b r cells) (length-place r cells ∙ len),
    sum_by-nth-place i r cells len,
  )

  pub sum_by-place_rows :
      (rows : List (Row N)) (cells : List (List (Row N)))
      → length cells ≡ length ts
      → All IsPlaced rows
      → sum_by (sum_by c) (place_rows N ts b cells rows) ≡ sum_by (sum_by c) cells + sum_by c rows
  unfolding place_rows sum_by
  sum_by-place_rows [] cells len h = omega arith
  sum_by-place_rows (r ∷ rows) cells len (p, h) = omega (
    arith,
    sum_by-place_rows rows (place N ts b r cells) (length-place r cells ∙ len) h,
    sum_by-place r cells len p,
  )

  pub length-place_rows :
      (rows : List (Row N)) (cells : List (List (Row N)))
      → length (place_rows N ts b cells rows) ≡ length cells
  unfolding place_rows
  length-place_rows [] cells = refl
  length-place_rows (r ∷ rows) cells =
      length-place_rows rows (place N ts b r cells) ∙ length-place r cells
