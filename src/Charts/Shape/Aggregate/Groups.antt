-- ===== src/Charts/Shape/Aggregate/Groups.antt =====
-- Grouping rows by a key (`groupRows` of frontend/src/charts/shape.ts).
use simply_se.Base.{
  All, All-append, ℕ, ◌+◌, ◌≡◌, refl, ◌∙◌, true, ◌||◌, List, [], ◌∷◌, ◌++◌, String, str_eq, eq_iff,
  if◌then◌else◌, filter, Bool-cases, inl, inr, arith, distinct, includes, any, sym,
}
use mathlib.Core.List.{append-nil, append_assoc}
use simply_se.Base.Sort.{sum_by, sum_by-append}
use simply_se.Charts.Shape.Aggregate.{push_row, group_from, group_rows}

-- The list of a key; `[]` for a key that is not set.
unfoldable pub rows_of {ℓ} : {A : Type ℓ} → String → List (String × List A) → List A
rows_of k [] = []
rows_of k ((j, rs) ∷ out) = if str_eq j k then rs else rows_of k out

abbrev pub keys {ℓ} : {A : Type ℓ} → List (String × List A) → List String
keys [] = []
keys ((k, rs) ∷ out) = k ∷ keys out

module _ {ℓ} {A : Type ℓ} where
  rows_of-push_row :
      (k j : String) (r : A) (out : List (String × List A))
      → rows_of j (push_row k r out)
        ≡ (if str_eq k j then rows_of j out ++ r ∷ [] else rows_of j out)
  unfolding push_row rows_of
  rows_of-push_row k j r [] = refl
  rows_of-push_row k j r ((i, rs) ∷ out) =
      ground (arith, eq_iff k j, eq_iff i k, eq_iff i j, rows_of-push_row k j r out)

  rows_of-group_from :
      (key : A → String) (k : String) (out : List (String × List A)) (rows : List A)
      → rows_of k (group_from key out rows) ≡ rows_of k out ++ filter (λ r. str_eq (key r) k) rows
  unfolding group_from
  rows_of-group_from key k out [] = sym (append-nil _)
  rows_of-group_from key k out (r ∷ rows) =
      rows_of-group_from key k (push_row (key r) r out) rows
      ∙ rw (rows_of-push_row (key r) k r out) (elim (Bool-cases (str_eq (key r) k)) [
        | inl e ↦ rw e (append_assoc (rows_of k out) (r ∷ []) (filter (λ r. str_eq (key r) k) rows))
        | inr e ↦ rw e
      ])

  keys-push_row :
      (k j : String) (r : A) (out : List (String × List A))
      → includes (keys (push_row k r out)) j ≡ str_eq k j || includes (keys out) j
  unfolding push_row
  keys-push_row k j r [] = refl
  keys-push_row k j r ((i, rs) ∷ out) =
      ground (arith, eq_iff i k, eq_iff i j, eq_iff k j, keys-push_row k j r out)

  distinct-push_row :
      (k : String) (r : A) (out : List (String × List A))
      → distinct (keys out) ≡ true
      → distinct (keys (push_row k r out)) ≡ true
  unfolding push_row
  distinct-push_row k r [] h = refl
  distinct-push_row k r ((i, rs) ∷ out) h =
      ground (arith, distinct-push_row k r out, keys-push_row k i r out, eq_iff i k, eq_iff k i)

  keys-group_from :
      (key : A → String) (k : String) (out : List (String × List A)) (rows : List A)
      → includes (keys (group_from key out rows)) k
        ≡ includes (keys out) k || any (λ r. str_eq (key r) k) rows
  unfolding group_from
  keys-group_from key k out [] = ground arith
  keys-group_from key k out (r ∷ rows) =
      ground
        (arith, keys-group_from key k (push_row (key r) r out) rows, keys-push_row (key r) k r out)

  distinct-group_from :
      (key : A → String) (out : List (String × List A)) (rows : List A)
      → distinct (keys out) ≡ true
      → distinct (keys (group_from key out rows)) ≡ true
  unfolding group_from
  distinct-group_from key out [] h = h
  distinct-group_from key out (r ∷ rows) h =
      distinct-group_from key (push_row (key r) r out) rows (distinct-push_row (key r) r out h)

  sum_by-push_row :
      (f : A → ℕ) (k : String) (r : A) (out : List (String × List A))
      → sum_by (λ g. sum_by f g.1) (push_row k r out) ≡ sum_by (λ g. sum_by f g.1) out + f r
  unfolding push_row sum_by
  sum_by-push_row f k r [] = omega arith
  sum_by-push_row f k r ((i, rs) ∷ out) =
      ground (arith, sum_by-push_row f k r out, sum_by-append f rs (r ∷ []))

  sum_by-group_from :
      (f : A → ℕ) (key : A → String) (out : List (String × List A)) (rows : List A)
      → sum_by (λ g. sum_by f g.1) (group_from key out rows)
        ≡ sum_by (λ g. sum_by f g.1) out + sum_by f rows
  unfolding group_from sum_by
  sum_by-group_from f key out [] = omega arith
  sum_by-group_from f key out (r ∷ rows) = omega (
    arith,
    sum_by-group_from f key (push_row (key r) r out) rows,
    sum_by-push_row f (key r) r out,
  )

-- A partition of rows by their key.
pub record Partitions {ℓ} {A : Type ℓ} (key : A → String) (rows : List A)
    (out : List (String × List A)) : Type ℓ where
  pub once : distinct (keys out) ≡ true
  pub known : (k : String) → includes (keys out) k ≡ any (λ r. str_eq (key r) k) rows
  pub members : (k : String) → rows_of k out ≡ filter (λ r. str_eq (key r) k) rows

-- `groupRows` keeps every row once: the list of a key holds exactly the rows with that key, in
-- their order, and the keys are those of the rows, each once.
pub group_rows-Partitions {ℓ} :
    {A : Type ℓ} (key : A → String) (rows : List A) → Partitions key rows (group_rows key rows)
unfolding group_rows rows_of
group_rows-Partitions key rows = record {
  once = distinct-group_from key [] rows refl;
  known = λ k. keys-group_from key k [] rows;
  members = λ k. rows_of-group_from key k [] rows;
}

-- So a total over the groups is the total over the rows.
pub sum_by-group_rows {ℓ} :
    {A : Type ℓ} (f : A → ℕ) (key : A → String) (rows : List A)
    → sum_by (λ g. sum_by f g.1) (group_rows key rows) ≡ sum_by f rows
unfolding group_rows sum_by
sum_by-group_rows f key rows = omega (arith, sum_by-group_from f key [] rows)

-- What holds of every row holds of the rows of every group.
module _ {ℓ κ} {A : Type ℓ} (P : A → Type κ) where
  All-push_row :
      (k : String) (r : A) (out : List (String × List A))
      → P r
      → All (λ g. All P g.1) out
      → All (λ g. All P g.1) (push_row k r out)
  unfolding push_row
  All-push_row k r [] p h = ((p, tt), tt)
  All-push_row k r ((j, rs) ∷ out) p (q, h) = elim (Bool-cases (str_eq j k)) [
    | inl e ↦ rw e (All-append P rs (r ∷ []) q (p, tt), h)
    | inr e ↦ rw e (q, All-push_row k r out p h)
  ]

  All-group_from :
      (key : A → String) (out : List (String × List A)) (rows : List A)
      → All (λ g. All P g.1) out
      → All P rows
      → All (λ g. All P g.1) (group_from key out rows)
  unfolding group_from
  All-group_from key out [] h _ = h
  All-group_from key out (r ∷ rows) h (p, ps) =
      All-group_from key (push_row (key r) r out) rows (All-push_row (key r) r out p h) ps

  pub All-group_rows :
      (key : A → String) (rows : List A) → All P rows → All (λ g. All P g.1) (group_rows key rows)
  unfolding group_rows
  All-group_rows key rows ps = All-group_from key [] rows tt ps

-- The rows of a group have its name as their key, and a name has what the keys of rows have.
module _ {ℓ} {A : Type ℓ} (key : A → String) where
  abbrev Keyed : String × List A → Type 0
  Keyed g = All (λ r. key r ≡ g.0) g.1

  push_row-AreKeyed :
      (r : A) (out : List (String × List A)) → All Keyed out → All Keyed (push_row (key r) r out)
  unfolding push_row
  push_row-AreKeyed r [] h = ((refl, tt), tt)
  push_row-AreKeyed r ((j, rs) ∷ out) (q, h) = elim (Bool-cases (str_eq j (key r))) [
    | inl e ↦ rw e (All-append (λ r. key r ≡ j) rs (r ∷ []) q (sym ((eq_iff j (key r)).0 e), tt), h)
    | inr e ↦ rw e (q, push_row-AreKeyed r out h)
  ]

  group_from-AreKeyed :
      (out : List (String × List A)) (rows : List A)
      → All Keyed out
      → All Keyed (group_from key out rows)
  unfolding group_from
  group_from-AreKeyed out [] h = h
  group_from-AreKeyed out (r ∷ rows) h =
      group_from-AreKeyed (push_row (key r) r out) rows (push_row-AreKeyed r out h)

module _ {ℓ κ} {A : Type ℓ} (key : A → String) (P : String → Type κ) where
  names-push_row :
      (k : String) (r : A) (out : List (String × List A))
      → P k
      → All (λ g. P g.0) out
      → All (λ g. P g.0) (push_row k r out)
  unfolding push_row
  names-push_row k r [] p h = (p, tt)
  names-push_row k r ((j, rs) ∷ out) p (q, h) = elim (Bool-cases (str_eq j k)) [
    | inl e ↦ rw e (q, h)
    | inr e ↦ rw e (q, names-push_row k r out p h)
  ]

  names-group_from :
      (out : List (String × List A)) (rows : List A)
      → All (λ r. P (key r)) rows
      → All (λ g. P g.0) out
      → All (λ g. P g.0) (group_from key out rows)
  unfolding group_from
  names-group_from out [] ps h = h
  names-group_from out (r ∷ rows) (p, ps) h =
      names-group_from (push_row (key r) r out) rows ps (names-push_row (key r) r out p h)

pub group_rows-AreKeyed {ℓ} :
    {A : Type ℓ} (key : A → String) (rows : List A)
    → All (λ g. All (λ r. key r ≡ g.0) g.1) (group_rows key rows)
unfolding group_rows
group_rows-AreKeyed key rows = group_from-AreKeyed key [] rows tt

pub names-group_rows {ℓ κ} :
    {A : Type ℓ} (key : A → String) (P : String → Type κ) (rows : List A)
    → All (λ r. P (key r)) rows
    → All (λ g. P g.0) (group_rows key rows)
unfolding group_rows
names-group_rows key P rows ps = names-group_from key P [] rows ps tt
