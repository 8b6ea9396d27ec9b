-- ===== src/Charts/Shape/Matrix/Whole.antt =====
-- The matrix of a chart adds up to the headline number (`matrixOf` of
-- frontend/src/charts/shape.ts).
use simply_se.Base.{
  ℕ, ◌≤◌, ◌≡◌, ◌≢◌, refl, ◌∙◌, ap, sym, Bool, true, false, List, [], ◌∷◌, ◌++◌, String,
  if◌then◌else◌, ltb, length, includes, All, All-apply, All-zip, All-append, Bool-cases, inl, inr,
}
use simply_se.Base.Separator.{has_bar}
use simply_se.Base.Sort.{sum_by}
use simply_se.Charts.Number.{Arithmetic, IsExact, max_safe}
use simply_se.Charts.Types.{Row, other}
use simply_se.Charts.Shape.Aggregate.{Group, combine, group_rows, rank_by}
use simply_se.Charts.Shape.Aggregate.Exact.{Counts, combine_exact}
use simply_se.Charts.Shape.Hierarchy.{dim_of}
use simply_se.Charts.Shape.Matrix.{head_names, keep_names, kept_name, cell_key, matrix_of}
use simply_se.Charts.Shape.Matrix.Keeping.{kept_once_all, head_names-names}
use simply_se.Charts.Shape.Matrix.Totals.{matrix_sum, cells_total, key}

-- A row whose names a matrix can tell from each other and from the merged rest.
pub record IsNamed (N : Arithmetic) (dim dim2 : String) (r : Row N) : Type 0 where
  pub no_bar : has_bar (dim_of N dim r) ≡ false
  pub no_rest : dim_of N dim r ≢ other
  pub no_rest2 : dim_of N dim2 r ≢ other

with_rest {κ} :
    (P : String → Type κ) (more : Bool) (names : List String)
    → All P names
    → P other
    → All P (if more then names ++ other ∷ [] else names)
with_rest P true names h p = All-append P names (other ∷ []) h (p, tt)
with_rest P false names h p = h

module _ (N : Arithmetic) (exact : IsExact N) (c : Row N → ℕ)
    (locale_le : String → String → Bool) where
  abbrev by : String → List (Row N) → List (Group N)
  by dim rows = rank_by N locale_le true (group_rows (dim_of N dim) rows)

  kept_name-no_bar :
      (kept : List String) (dim : String) (r : Row N)
      → has_bar (dim_of N dim r) ≡ false
      → has_bar (kept_name N kept dim r) ≡ false
  unfolding kept_name
  kept_name-no_bar kept dim r h = elim (Bool-cases (includes kept (dim_of N dim r))) [
    | inl e ↦ rw e h
    | inr e ↦ rw e refl
  ]

  names-no_bar :
      (dim : String) (rows : List (Row N)) (limit : ℕ)
      → All (λ r. has_bar (dim_of N dim r) ≡ false) rows
      → All (λ n. has_bar n ≡ false) (keep_names N (by dim rows) limit).names
  unfolding keep_names
  names-no_bar dim rows limit h =
      let heads = head_names-names N locale_le dim rows (λ n. has_bar n ≡ false) limit h in
      with_rest (λ n. has_bar n ≡ false) (ltb limit (length (by dim rows)))
        (head_names N limit (by dim rows)) heads refl

  -- For an additive measure of whole numbers whose total is a safe integer, the cells of the matrix
  -- add up to the whole, whatever room there is for rows and columns, as long as no name of the
  -- first dimension holds a bar and no name is that of the merged rest.
  pub matrix_sum-matrix_of :
      (dim dim2 : String) (row_limit col_limit : ℕ) (rows : List (Row N))
      → Counts N c rows
      → sum_by c rows ≤ max_safe
      → All (IsNamed N dim dim2) rows
      → matrix_sum N
          (matrix_of N true dim dim2 (by dim rows) (by dim2 rows) rows row_limit col_limit).values
        ≡ (combine N true rows).value
  unfolding matrix_of cell_key key
  matrix_sum-matrix_of dim dim2 row_limit col_limit rows counts safe named =
      let row_keep = keep_names N (by dim rows) row_limit in
      let col_keep = keep_names N (by dim2 rows) col_limit in
      let kr = kept_name N row_keep.kept dim in
      let kc = kept_name N col_keep.kept dim2 in
      let no_bars =
        All-apply _ (λ r. has_bar (dim_of N dim r) ≡ false) (λ r n. n.no_bar) rows named in
      let placed =
        All-zip _ _ rows
          (kept_once_all N locale_le dim rows exact c counts safe row_limit
            (All-apply _ _ (λ r n. n.no_rest) rows named))
          (kept_once_all N locale_le dim2 rows exact c counts safe col_limit
            (All-apply _ _ (λ r n. n.no_rest2) rows named)) in
      cells_total N exact c rows counts safe kr kc row_keep.names col_keep.names
        (All-apply _ _ (λ r h. kept_name-no_bar row_keep.kept dim r h) rows no_bars)
        (names-no_bar dim rows row_limit no_bars) placed
      ∙ sym (ap (λ t. t.value) (combine_exact N exact c rows counts safe))
