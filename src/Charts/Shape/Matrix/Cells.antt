-- ===== src/Charts/Shape/Matrix/Cells.antt =====
-- The value of one cell of a matrix: the rows whose two names are its row and its column.
use simply_se.Base.{
  ℕ, ◌≤◌, ◌≡◌, refl, ◌∙◌, ap, sym, subst, true, false, ◌&&◌, List, [], ◌∷◌, String, str_eq, eq_iff,
  if◌then◌else◌, All-filter, arith, Bool-cases, inl, inr,
}
use simply_se.Base.Sort.{sum_by, sum_by-filter}
use simply_se.Base.Separator.{has_bar, joined, joined_inj}
use simply_se.Charts.Number.{Arithmetic, IsExact, max_safe}
use simply_se.Charts.Types.{Row}
use simply_se.Charts.Shape.Aggregate.{group_rows}
use simply_se.Charts.Shape.Aggregate.Groups.{rows_of, group_rows-Partitions}
use simply_se.Charts.Shape.Aggregate.Exact.{Counts, combine_exact}
use simply_se.Charts.Shape.Matrix.{rows_at, cell_of}

-- The two parts of a key can be told apart.
pub str_eq-joined :
    (a c b d : String)
    → has_bar a ≡ false
    → has_bar c ≡ false
    → str_eq (joined a b) (joined c d) ≡ str_eq a c && str_eq b d
str_eq-joined a c b d h k = elim (Bool-cases (str_eq (joined a b) (joined c d))) [
  | inl e ↦
      let (p, q) = joined_inj a c b d h k ((eq_iff (joined a b) (joined c d)).0 e) in
      e ∙ sym (rw ((eq_iff a c).1 p, (eq_iff b d).1 q) refl)
  | inr e ↦ elim (Bool-cases (str_eq a c)) [
    | inr n ↦ e ∙ sym (rw n refl)
    | inl n ↦ elim (Bool-cases (str_eq b d)) [
      | inr m ↦ e ∙ sym (rw (n, m) refl)
      | inl m ↦
          let same : joined a b ≡ joined c d =
            ap (λ s. joined s b) ((eq_iff a c).0 n) ∙ ap (joined c) ((eq_iff b d).0 m) in
          let no = (eq_iff (joined a b) (joined c d)).1 same in ground arith
    ]
  ]
]

module _ (N : Arithmetic) (exact : IsExact N) (c : Row N → ℕ) where
  cell_of_rows :
      (k : String) (out : List (String × List (Row N)))
      → Counts N c (rows_of k out)
      → sum_by c (rows_of k out) ≤ max_safe
      → (cell_of N true (rows_at k out)).value ≡ N.of_ℕ (sum_by c (rows_of k out))
  unfolding rows_at rows_of cell_of sum_by
  cell_of_rows k [] h s = refl
  cell_of_rows k ((j, rs) ∷ out) h s = elim (Bool-cases (str_eq j k)) [
    | inl e ↦ rw e (ap (λ t. t.value) (combine_exact N exact c rs (rw e at h) (rw e at s)))
    | inr e ↦ rw e (cell_of_rows k out (rw e at h) (rw e at s))
  ]

  -- The cell of a key holds what the rows with that key add up to.
  pub cell_of_key :
      (key : Row N → String) (k : String) (rows : List (Row N))
      → Counts N c rows
      → sum_by (λ r. if str_eq (key r) k then c r else 0) rows ≤ max_safe
      → (cell_of N true (rows_at k (group_rows key rows))).value
        ≡ N.of_ℕ (sum_by (λ r. if str_eq (key r) k then c r else 0) rows)
  cell_of_key key k rows h s =
      let members = (group_rows-Partitions key rows).members k in
      let total : sum_by c (rows_of k (group_rows key rows))
          ≡ sum_by (λ r. if str_eq (key r) k then c r else 0) rows =
        ap (sum_by c) members ∙ sum_by-filter c (λ r. str_eq (key r) k) rows in
      cell_of_rows k (group_rows key rows)
        (subst (λ rs. Counts N c rs) (sym members) (All-filter _ (λ r. str_eq (key r) k) rows h))
        (omega (arith, total))
      ∙ ap N.of_ℕ total
