-- ===== src/Charts/Shape/Matrix/Totals.antt =====
-- The cells of a matrix add up to the whole (`matrixOf` of frontend/src/charts/shape.ts).
use simply_se.Base.{
  ℕ, ◌≤◌, ◌≡◌, ◌⊎◌, refl, ◌∙◌, ap, ap₂, sym, Bool, true, false, ◌&&◌, List, [], ◌∷◌, String, str_eq,
  eq_iff, if◌then◌else◌, map, All, All-apply, arith, inl, inr,
}
use simply_se.Base.Separator.{has_bar, joined}
use simply_se.Base.Sort.{sum_by, sum_by-All, sum_by-ext, sum_by-zero, sum_by-swap}
use simply_se.Charts.Number.{Arithmetic, IsExact, max_safe}
use simply_se.Charts.Types.{Row}
use simply_se.Charts.Shape.Aggregate.{group_rows}
use simply_se.Charts.Shape.Aggregate.Exact.{Counts, sum_num, sum_small}
use simply_se.Charts.Shape.Matrix.{cell_of, cells_of, rows_at}
use simply_se.Charts.Shape.Matrix.Occurs.{occurs}
use simply_se.Charts.Shape.Matrix.Cells.{str_eq-joined, cell_of_key}

-- The sum of all cells.
unfoldable pub matrix_sum : (N : Arithmetic) → List (List N.Num) → N.Num
unfolding sum_num
matrix_sum N values = sum_num N (map (sum_num N) values)

-- Of names among which `y` stands once, one picks a number out.
pick_none :
    (y : String) (n : ℕ) (xs : List String)
    → occurs y xs ≡ 0
    → sum_by (λ x. if str_eq y x then n else 0) xs ≡ 0
unfolding sum_by
pick_none y n [] h = refl
pick_none y n (x ∷ xs) h = ground (arith, pick_none y n xs, eq_iff x y, eq_iff y x)

pick :
    (y : String) (n : ℕ) (xs : List String)
    → occurs y xs ≡ 1
    → sum_by (λ x. if str_eq y x then n else 0) xs ≡ n
unfolding sum_by
pick y n [] h = absurd (omega arith)
pick y n (x ∷ xs) h = ground (arith, pick y n xs, pick_none y n xs, eq_iff x y, eq_iff y x)

pick_zero :
    (y : String) (n : ℕ) (xs : List String)
    → n ≡ 0
    → sum_by (λ x. if str_eq y x then n else 0) xs ≡ n
unfolding sum_by
pick_zero y n [] h = sym h
pick_zero y n (x ∷ xs) h = ground (arith, pick_zero y n xs)

pick_if :
    (b : Bool) (y : String) (n : ℕ) (xs : List String)
    → (n ≡ 0) ⊎ (occurs y xs ≡ 1)
    → sum_by (λ x. if b && str_eq y x then n else 0) xs ≡ (if b then n else 0)
pick_if false y n xs p = sum_by-zero xs
pick_if true y n xs (inl z) = pick_zero y n xs z
pick_if true y n xs (inr o) = pick y n xs o

all_of {ℓ κ} : {A : Type ℓ} {P : A → Type κ} → ((a : A) → P a) → (xs : List A) → All P xs
all_of f [] = tt
all_of f (x ∷ xs) = (f x, all_of f xs)

module _ (N : Arithmetic) (exact : IsExact N) where
  sum_num_exact {ℓ} :
      {A : Type ℓ} (v : A → N.Num) (n : A → ℕ) (xs : List A)
      → All (λ x. v x ≡ N.of_ℕ (n x)) xs
      → sum_by n xs ≤ max_safe
      → sum_num N (map v xs) ≡ N.of_ℕ (sum_by n xs)
  unfolding sum_num sum_by
  sum_num_exact v n [] h s = refl
  sum_num_exact v n (x ∷ xs) (p, h) s =
      ap₂ N.add p (sum_num_exact v n xs h (omega arith))
      ∙ exact.add-of_ℕ (n x) (sum_by n xs) (omega arith)

  cell_value : List (String × List (Row N)) → String → String → N.Num
  cell_value groups rc cc = (cell_of N true (rows_at (joined rc cc) groups)).value

  row_sum :
      (groups : List (String × List (Row N))) (rc : String) (cols : List String)
      → sum_num N
          (map (λ c. c.value) (map (λ cc. cell_of N true (rows_at (joined rc cc) groups)) cols))
        ≡ sum_num N (map (cell_value groups rc) cols)
  unfolding sum_num cell_value
  row_sum groups rc [] = refl
  row_sum groups rc (cc ∷ cols) = ap (N.add (cell_value groups rc cc)) (row_sum groups rc cols)

  cells_sum :
      (groups : List (String × List (Row N))) (rows cols : List String)
      → matrix_sum N (map (map (λ c. c.value)) (cells_of N true groups rows cols))
        ≡ sum_num N (map (λ rc. sum_num N (map (cell_value groups rc) cols)) rows)
  unfolding matrix_sum sum_num cells_of
  cells_sum groups [] cols = refl
  cells_sum groups (rc ∷ rows) cols =
      ap₂ N.add (row_sum groups rc cols) (cells_sum groups rows cols)

  module _ (c : Row N → ℕ) (rows : List (Row N)) (counts : Counts N c rows)
      (safe : sum_by c rows ≤ max_safe) (kr kc : Row N → String) (rcs ccs : List String) where
    abbrev share : String → String → Row N → ℕ
    share rc cc r = if str_eq (kr r) rc && str_eq (kc r) cc then c r else 0

    -- A row with a weight has one place among the names of either side.
    abbrev pub Placed : Row N → Type 0
    Placed r = ((c r ≡ 0) ⊎ (occurs (kr r) rcs ≡ 1)) × ((c r ≡ 0) ⊎ (occurs (kc r) ccs ≡ 1))

    total : ℕ
    total = sum_by (λ rc. sum_by (λ cc. sum_by (share rc cc) rows) ccs) rcs

    one_place : (r : Row N) → Placed r → sum_by (λ rc. sum_by (λ cc. share rc cc r) ccs) rcs ≡ c r
    one_place r (p, q) =
        sum_by-ext (λ rc. sum_by (λ cc. share rc cc r) ccs)
          (λ rc. if true && str_eq (kr r) rc then c r else 0) rcs
          (λ rc. pick_if (str_eq (kr r) rc) (kc r) (c r) ccs q)
        ∙ pick_if true (kr r) (c r) rcs p

    -- Every row is counted in one cell.
    total_eq : All Placed rows → total ≡ sum_by c rows
    unfolding total
    total_eq placed =
        sum_by-ext _ (λ rc. sum_by (λ r. sum_by (λ cc. share rc cc r) ccs) rows) rcs
          (λ rc. sum_by-swap (λ cc. share rc cc) ccs rows)
        ∙ sum_by-swap (λ rc r. sum_by (λ cc. share rc cc r) ccs) rcs rows
        ∙ sum_by-All _ c rows (All-apply Placed _ one_place rows placed)

    col_total :
        (rc : String) → All Placed rows → sum_by (λ cc. sum_by (share rc cc) rows) ccs ≤ max_safe
    col_total rc placed =
        let swapped = sum_by-swap (λ cc. share rc cc) ccs rows in
        let picked : sum_by (λ r. sum_by (λ cc. share rc cc r) ccs) rows
            ≡ sum_by (λ r. if str_eq (kr r) rc then c r else 0) rows =
          sum_by-All _ _ rows (
            All-apply Placed _ (λ r p. pick_if (str_eq (kr r) rc) (kc r) (c r) ccs p.1) rows
              placed) in
        let bound =
          sum_small N exact c (λ r. if str_eq (kr r) rc then c r else 0) (λ r. ground arith) rows in
        omega arith

    unfoldable pub key : Row N → String
    key r = joined (kr r) (kc r)

    -- The cell of two names holds the rows with these names.
    cell_exact :
        (rc cc : String)
        → All (λ r. has_bar (kr r) ≡ false) rows
        → has_bar rc ≡ false
        → cell_value (group_rows key rows) rc cc ≡ N.of_ℕ (sum_by (share rc cc) rows)
    unfolding cell_value key
    cell_exact rc cc row_bars bar =
        let same : sum_by (λ r. if str_eq (key r) (joined rc cc) then c r else 0) rows
            ≡ sum_by (share rc cc) rows =
          sum_by-All _ _ rows (
            All-apply _ _
              (λ r b. ap (λ t. if t then c r else 0) (str_eq-joined (kr r) rc (kc r) cc b bar)) rows
              row_bars) in
        let bound = sum_small N exact c (share rc cc) (λ r. ground arith) rows in
        cell_of_key N exact c key (joined rc cc) rows counts (omega arith) ∙ ap N.of_ℕ same

    -- So the cells add up to the rows.
    pub cells_total :
        All (λ r. has_bar (kr r) ≡ false) rows
        → All (λ rc. has_bar rc ≡ false) rcs
        → All Placed rows
        → matrix_sum N (map (map (λ c. c.value)) (cells_of N true (group_rows key rows) rcs ccs))
          ≡ N.of_ℕ (sum_by c rows)
    unfolding total
    cells_total row_bars bars placed =
        let whole = total_eq placed in
        cells_sum (group_rows key rows) rcs ccs
        ∙ sum_num_exact (λ rc. sum_num N (map (cell_value (group_rows key rows) rc) ccs))
            (λ rc. sum_by (λ cc. sum_by (share rc cc) rows) ccs) rcs
            (All-apply _ _
              (λ rc bar.
                sum_num_exact (cell_value (group_rows key rows) rc)
                  (λ cc. sum_by (share rc cc) rows) ccs
                  (all_of (λ cc. cell_exact rc cc row_bars bar) ccs) (col_total rc placed))
              rcs bars)
            (omega arith)
        ∙ ap N.of_ℕ whole
