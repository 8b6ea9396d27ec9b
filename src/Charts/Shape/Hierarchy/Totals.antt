-- ===== src/Charts/Shape/Hierarchy/Totals.antt =====
-- The hierarchy adds up: a node's children always add up to it.
use simply_se.Base.{
  ℕ, ◌+◌, ◌≤◌, ◌≡◌, ◌⊎◌, All-take, All-drop, refl, ◌∙◌, ap, ap₂, sym, Bool, true, List, [], ◌∷◌,
  String, ltb, length, take, drop, All, arith, Bool-cases, inl, inr,
}
use native.Mathlib.Nat.{le_refl}
use simply_se.Base.Sort.{sum_by, sum_by-take-drop}
use simply_se.Charts.Number.{Arithmetic, IsExact, max_safe}
use simply_se.Charts.Types.{Row, TreeNodes, node, nil, cons, other}
use simply_se.Charts.Shape.Aggregate.{slice_end, Group, group_rows, rank_by}
use simply_se.Charts.Shape.Aggregate.Exact.{
  Counts, group_sum, IsCounted, sum_ranked, rank_by-IsCounted,
}
use simply_se.Charts.Shape.Hierarchy.{dim_of, weight_from, head_nodes, level_nodes, tree}

module _ (N : Arithmetic) where
  -- The sum of the values of a list of nodes.
  pub nodes_sum : TreeNodes N → N.Num
  nodes_sum nil = N.of_ℕ 0
  nodes_sum (cons (node name value below) rest) = N.add value (nodes_sum rest)

  -- Wherever a node has children, they add up to its value.
  pub AddsUp : TreeNodes N → Type 0
  AddsUp nil = Unit
  AddsUp (cons (node name value nil) rest) = AddsUp rest
  AddsUp (cons (node name value (cons n ns)) rest) =
      (nodes_sum (cons n ns) ≡ value) × AddsUp (cons n ns) × AddsUp rest

  AddsUp-cons :
      (name : String) (value : N.Num) (below rest : TreeNodes N)
      → (below ≡ nil) ⊎ (nodes_sum below ≡ value)
      → AddsUp below
      → AddsUp rest
      → AddsUp (cons (node name value below) rest)
  unfolding AddsUp
  AddsUp-cons name value nil rest e b r = r
  AddsUp-cons name value (cons n ns) rest (inl e) b r = cc
  AddsUp-cons name value (cons n ns) rest (inr e) b r = (e, b, r)

module _ (N : Arithmetic) (exact : IsExact N) (c : Row N → ℕ) where
  abbrev Good : Group N → Type 0
  Good = IsCounted N exact c

  abbrev total : List (Group N) → ℕ
  total = group_sum N exact c c

  -- The nodes made of some rows add up to the rows, or there are none.
  pub Fits : (List (Row N) → TreeNodes N) → List (Row N) → Type 0
  Fits below rows =
      AddsUp N (below rows)
      × ((below rows ≡ nil) ⊎ (nodes_sum N (below rows) ≡ N.of_ℕ (sum_by c rows)))

  abbrev AllFit : (List (Row N) → TreeNodes N) → Type 0
  AllFit below =
      (rows : List (Row N)) → Counts N c rows → sum_by c rows ≤ max_safe → Fits below rows

  weight_from_exact :
      (n : ℕ) (gs : List (Group N))
      → All Good gs
      → n + total gs ≤ max_safe
      → weight_from N (N.of_ℕ n) gs ≡ N.of_ℕ (n + total gs)
  unfolding weight_from sum_by
  weight_from_exact n [] h b = ap N.of_ℕ (omega arith)
  weight_from_exact n (g ∷ gs) (h, hs) b =
      ap (λ s. weight_from N s gs)
        (ap (N.add (N.of_ℕ n)) h.weight ∙ exact.add-of_ℕ n (sum_by c g.rows) (omega arith))
      ∙ weight_from_exact (n + sum_by c g.rows) gs hs (omega arith)
      ∙ ap N.of_ℕ (omega arith)

  module _ (below : List (Row N) → TreeNodes N) (fit : AllFit below) where
    head_nodes-total :
        (gs : List (Group N)) (tail : TreeNodes N) (t : ℕ)
        → All Good gs
        → nodes_sum N tail ≡ N.of_ℕ t
        → total gs + t ≤ max_safe
        → nodes_sum N (head_nodes N below gs tail) ≡ N.of_ℕ (total gs + t)
    unfolding head_nodes nodes_sum sum_by
    head_nodes-total [] tail t h e b = e ∙ ap N.of_ℕ (omega arith)
    head_nodes-total (g ∷ gs) tail t (h, hs) e b =
        ap₂ N.add h.weight (head_nodes-total gs tail t hs e (omega arith))
        ∙ exact.add-of_ℕ (sum_by c g.rows) (total gs + t) (omega arith)
        ∙ ap N.of_ℕ (omega arith)

    head_nodes-AddsUp :
        (gs : List (Group N)) (tail : TreeNodes N)
        → All Good gs
        → AddsUp N tail
        → AddsUp N (head_nodes N below gs tail)
    unfolding head_nodes Fits
    head_nodes-AddsUp [] tail h a = a
    head_nodes-AddsUp (g ∷ gs) tail (h, hs) a =
        let (ok, sum) = fit g.rows h.counts h.safe in
        AddsUp-cons N g.name g.weight (below g.rows) (head_nodes N below gs tail) (reweigh sum) ok
          (head_nodes-AddsUp gs tail hs a)
      where
        reweigh :
            (below g.rows ≡ nil) ⊎ (nodes_sum N (below g.rows) ≡ N.of_ℕ (sum_by c g.rows))
            → (below g.rows ≡ nil) ⊎ (nodes_sum N (below g.rows) ≡ g.weight)
        reweigh (inl e) = inl e
        reweigh (inr e) = inr (e ∙ sym h.weight)

    level_nodes-total :
        (limit : ℕ) (gs : List (Group N))
        → All Good gs
        → total gs ≤ max_safe
        → AddsUp N (level_nodes N below limit gs)
          × (nodes_sum N (level_nodes N below limit gs) ≡ N.of_ℕ (total gs))
    unfolding level_nodes AddsUp nodes_sum
    level_nodes-total limit gs h b = elim (Bool-cases (ltb limit (length gs))) [
      | inl more ↦
          let end = slice_end limit (length gs) in
          let head = take end gs in
          let tail = drop end gs in
          let split = sum_by-take-drop (λ g. sum_by c g.rows) end gs in
          let rest = weight_from_exact 0 tail (All-drop Good end gs h) (omega arith) in
          let leaf = cons (node other (weight_from N (N.of_ℕ 0) tail) nil) nil in
          let leaf_sum : nodes_sum N leaf ≡ N.of_ℕ (total tail) =
            ap (λ w. N.add w (N.of_ℕ 0)) rest
            ∙ exact.add-of_ℕ (0 + total tail) 0 (omega arith)
            ∙ ap N.of_ℕ (omega arith) in
          let taken = All-take Good end gs h in
          rw more (
            head_nodes-AddsUp head leaf taken tt,
            head_nodes-total head leaf (total tail) taken leaf_sum (omega arith) ∙ ap N.of_ℕ split,
          )
      | inr all ↦ rw all (
        head_nodes-AddsUp gs nil h tt,
        head_nodes-total gs nil 0 h refl (omega arith) ∙ ap N.of_ℕ (omega arith),
      )
    ]

  module _ (locale_le : String → String → Bool) where
    tree-level :
        (dim : String) (limit : ℕ) (levels : List (String × ℕ)) (rows : List (Row N))
        → AllFit (tree N locale_le true levels)
        → Counts N c rows
        → sum_by c rows ≤ max_safe
        → AddsUp N (tree N locale_le true ((dim, limit) ∷ levels) rows)
          × (nodes_sum N (tree N locale_le true ((dim, limit) ∷ levels) rows)
              ≡ N.of_ℕ (sum_by c rows))
    unfolding tree
    tree-level dim limit levels rows fit h b =
        let gs = rank_by N locale_le true (group_rows (dim_of N dim) rows) in
        let ranked =
          sum_ranked N exact c c (λ r. le_refl (c r)) locale_le (dim_of N dim) rows h b in
        let counted = rank_by-IsCounted N exact c locale_le (dim_of N dim) rows h b in
        let (ok, sum) =
          level_nodes-total (tree N locale_le true levels) fit limit gs counted (omega arith) in
        (ok, sum ∙ ap N.of_ℕ ranked)

    tree-Fits : (levels : List (String × ℕ)) → AllFit (tree N locale_le true levels)
    unfolding Fits tree AddsUp
    tree-Fits [] rows h b = (tt, inl refl)
    tree-Fits ((dim, limit) ∷ levels) rows h b =
        let (ok, sum) = tree-level dim limit levels rows (tree-Fits levels) h b in (ok, inr sum)

    -- For an additive measure of whole numbers whose total is a safe integer the first level of the
    -- hierarchy adds up to the rows, and the children of a node, where it has any, add up to it.
    pub tree-AddsUp :
        (dim : String) (limit : ℕ) (levels : List (String × ℕ)) (rows : List (Row N))
        → Counts N c rows
        → sum_by c rows ≤ max_safe
        → AddsUp N (tree N locale_le true ((dim, limit) ∷ levels) rows)
          × (nodes_sum N (tree N locale_le true ((dim, limit) ∷ levels) rows)
              ≡ N.of_ℕ (sum_by c rows))
    tree-AddsUp dim limit levels rows h b = tree-level dim limit levels rows (tree-Fits levels) h b
