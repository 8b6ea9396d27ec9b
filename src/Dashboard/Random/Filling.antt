-- ===== src/Dashboard/Random/Filling.antt =====
-- The random layout fills the screen, whatever is drawn.
use native.Mathlib.Nat.{div-lt_iff_lt-mul}
use simply_se.Base.{
  count-append, ℕ, zero, suc, ◌+◌, ◌-◌, ◌*◌, ◌^◌, ◌≤◌, ◌<◌, ◌≡◌, ◌⊎◌, refl, ap, Bool, true, false,
  List, [], ◌∷◌, ◌++◌, if◌then◌else◌, ltb, ◌==◌, length, filter, get_or, any, count, All, All-apply,
  All-append, arith, Bool-cases, inl, inr, length-append,
}
use simply_se.Base.Sort.{All-sort_by}
use simply_se.Dashboard.Area.{Rect, covers, Within, Tiles}
use simply_se.Dashboard.Grid.{grid_cols}
use simply_se.Dashboard.Random.{
  min_side, splits, bigger, same_cell, remove_cell, random_int, choose_cell, middle, cut_width,
  halves, cut_round, candidates, cut_cells, random_rows, target_cells, random_cells,
}

-- A cell of an area that is not too small.
abbrev Good : ℕ → Rect → Type 0
Good rows c = Within grid_cols rows c × ((min_side ≤ c.w) × (min_side ≤ c.h))

module _ {ℓ} {A : Type ℓ} where
  All-get_or {κ} :
      (P : A → Type κ) (xs : List A) (i : ℕ) (d : A) → P d → All P xs → P (get_or xs i d)
  All-get_or P [] i d p h = p
  All-get_or P (x ∷ xs) zero d p (q, h) = q
  All-get_or P (x ∷ xs) (suc i) d p (q, h) = All-get_or P xs i d p h

-- A member of the list that can be cut.
abbrev IsCandidate : List Rect → Rect → Type 0
IsCandidate cells c = (any (same_cell c) cells ≡ true) × (splits c ≡ true)

filter-AreCandidates :
    (known : List Rect) (cells : List Rect)
    → ((c : Rect) → any (same_cell c) cells ≡ true → any (same_cell c) known ≡ true)
    → All (IsCandidate known) (filter splits cells)
filter-AreCandidates known [] h = tt
filter-AreCandidates known (c ∷ cells) h =
    let tail = filter-AreCandidates known cells λ d e. h d (ground arith) in
    elim (Bool-cases (splits c)) [
      | inl e ↦ rw e ((h c (ground arith), e), tail)
      | inr e ↦ rw e tail
    ]

candidates-AreCandidates : (cells : List Rect) → All (IsCandidate cells) (candidates cells)
candidates-AreCandidates cells =
    All-sort_by bigger (IsCandidate cells) (filter splits cells)
      (filter-AreCandidates cells cells λ c e. e)

-- Taking a cell out takes away what it covers, and leaves the others.
remove_cell-count :
    (x y : ℕ) (c : Rect) (cells : List Rect)
    → any (same_cell c) cells ≡ true
    → count (covers x y) (remove_cell c cells) + count (covers x y) (c ∷ [])
      ≡ count (covers x y) cells
unfolding remove_cell
remove_cell-count x y c [] h = cc
remove_cell-count x y c (d ∷ cells) h = elim (Bool-cases (same_cell c d)) [
  | inl e ↦ rw e (ground arith)
  | inr e ↦ let ih = remove_cell-count x y c cells (rw e at h) in rw e (omega (arith, ih))
]

length-remove_cell :
    (c : Rect) (cells : List Rect)
    → any (same_cell c) cells ≡ true
    → suc (length (remove_cell c cells)) ≡ length cells
unfolding remove_cell
length-remove_cell c [] h = cc
length-remove_cell c (d ∷ cells) h = elim (Bool-cases (same_cell c d)) [
  | inl e ↦ rw e refl
  | inr e ↦ rw e (ap suc (length-remove_cell c cells (rw e at h)))
]

module _ {κ} (P : Rect → Type κ) where
  All-remove_cell : (c : Rect) (cells : List Rect) → All P cells → All P (remove_cell c cells)
  unfolding remove_cell
  All-remove_cell c [] h = tt
  All-remove_cell c (d ∷ cells) (p, h) = elim (Bool-cases (same_cell c d)) [
    | inl e ↦ rw e h
    | inr e ↦ rw e (p, All-remove_cell c cells h)
  ]

module _ (random : ℕ → ℕ) (fair : (n : ℕ) → random n < 2 ^ 53) where
  pub random_int-bounds :
      (n lo hi : ℕ) → lo ≤ hi → (lo ≤ random_int random n lo hi) × (random_int random n lo hi ≤ hi)
  unfolding random_int
  random_int-bounds n lo hi h =
      let k = hi - lo + 1 in
      let product : random n * k < k * 2 ^ 53 = grind (arith, fair n) in
      let quotient =
        (div-lt_iff_lt-mul {k = 2 ^ 53} {x = random n * k} {y = k} (omega arith)).1 product in
      omega arith

  middle-bounds :
      (n size : ℕ)
      → 2 * min_side ≤ size
      → (min_side ≤ middle random n size) × (middle random n size + min_side ≤ size)
  unfolding middle
  middle-bounds n size h =
      let a = random_int-bounds n min_side (size - min_side) (omega arith) in
      let b = random_int-bounds (n + 1) min_side (size - min_side) (omega arith) in
      omega (arith, a, b)

  halves-count :
      (x y : ℕ) (wide : Bool) (n : ℕ) (c : Rect)
      → 2 * min_side ≤ (if wide then c.w else c.h)
      → count (covers x y) (halves random wide n c) ≡ count (covers x y) (c ∷ [])
  unfolding halves
  halves-count x y true n c h = let bounds = middle-bounds n c.w h in ground (arith, bounds)
  halves-count x y false n c h = let bounds = middle-bounds n c.h h in ground (arith, bounds)

  halves-Good :
      (rows : ℕ) (wide : Bool) (n : ℕ) (c : Rect)
      → 2 * min_side ≤ (if wide then c.w else c.h)
      → Good rows c
      → All (Good rows) (halves random wide n c)
  unfolding halves
  halves-Good rows true n c h g = let bounds = middle-bounds n c.w h in ground (arith, bounds)
  halves-Good rows false n c h g = let bounds = middle-bounds n c.h h in ground (arith, bounds)

  choose_cell-IsCandidate :
      (n : ℕ) (cells : List Rect) (c : Rect) (rest : List Rect)
      → All (IsCandidate cells) (c ∷ rest)
      → IsCandidate cells (choose_cell random n c rest).0
  unfolding choose_cell
  choose_cell-IsCandidate n cells c rest (p, h) =
      elim (Bool-cases (ltb (random n) 6305039478318694)) [
        | inl e ↦ rw e p
        | inr e ↦ rw e (All-get_or (IsCandidate cells) (c ∷ rest) _ c p (p, h))
      ]

  -- The side that is cut is long enough for two cells.
  cut_width-fits :
      (n : ℕ) (c : Rect)
      → splits c ≡ true
      → 2 * min_side ≤ (if (cut_width random n c).0 then c.w else c.h)
  unfolding cut_width
  cut_width-fits n c h = ground arith

  -- The cells of a layout in progress: each square of the area lies in one of them.
  abbrev IsFilled : ℕ → List Rect → Type 0
  IsFilled rows cells =
      All (Good rows) cells × ((x y : ℕ) → x < grid_cols → y < rows → count (covers x y) cells ≡ 1)

  All-found :
      (P : Rect → Type 0) (c : Rect) (cells : List Rect)
      → ((a b : Rect) → same_cell a b ≡ true → P b → P a)
      → any (same_cell c) cells ≡ true
      → All P cells
      → P c
  All-found P c [] same h ps = cc
  All-found P c (d ∷ cells) same h (p, ps) = elim (Bool-cases (same_cell c d)) [
    | inl e ↦ same c d e p
    | inr e ↦ All-found P c cells same (rw e at h) ps
  ]

  cut-IsFilled :
      (rows n : ℕ) (wide : Bool) (c : Rect) (cells : List Rect)
      → IsCandidate cells c
      → 2 * min_side ≤ (if wide then c.w else c.h)
      → IsFilled rows cells
      → IsFilled rows (remove_cell c cells ++ halves random wide n c)
  cut-IsFilled rows n wide c cells (found, can) fits (good, once) = (
    All-append (Good rows) (remove_cell c cells) (halves random wide n c)
        (All-remove_cell (Good rows) c cells good)
        (halves-Good rows wide n c fits
          (All-found (Good rows) c cells (λ a b e g. ground arith) found good)),
    λ x y hx hy.
        let split = count-append (covers x y) (remove_cell c cells) (halves random wide n c) in
        omega (
          arith,
          split,
          halves-count x y wide n c fits,
          remove_cell-count x y c cells found,
          once x y hx hy,
        ),
  )

  cut_round-IsFilled :
      (rows n : ℕ) (cells cands : List Rect)
      → All (IsCandidate cells) cands
      → IsFilled rows cells
      → IsFilled rows (cut_round random n cells cands).0
  unfolding cut_round
  cut_round-IsFilled rows n cells [] h filled = filled
  cut_round-IsFilled rows n cells (c ∷ rest) h filled =
      let chosen = choose_cell-IsCandidate n cells c rest h in
      let (cell, k) = choose_cell random n c rest in
      cut-IsFilled rows (cut_width random k cell).1 (cut_width random k cell).0 cell cells chosen
        (cut_width-fits k cell chosen.1) filled

  length-halves : (wide : Bool) (n : ℕ) (c : Rect) → length (halves random wide n c) ≡ 2
  unfolding halves
  length-halves true n c = refl
  length-halves false n c = refl

  length-cut_round :
      (n : ℕ) (cells cands : List Rect)
      → All (IsCandidate cells) cands
      → (length cands == 0) ≡ false
      → length (cut_round random n cells cands).0 ≡ suc (length cells)
  unfolding cut_round
  length-cut_round n cells [] h some = cc
  length-cut_round n cells (c ∷ rest) h some =
      let (cell, k) = choose_cell random n c rest in
      let (wide, m) = cut_width random k cell in
      let found = (choose_cell-IsCandidate n cells c rest h).0 in
      omega (
        arith,
        length-append (remove_cell cell cells) (halves random wide m cell),
        length-halves wide m cell,
        length-remove_cell cell cells found,
      )

  -- A filled area of as many cells as were asked for, or of fewer that are all too small to cut.
  abbrev Ends : ℕ → ℕ → List Rect → Type 0
  Ends target rows cells =
      IsFilled rows cells
      × ((length cells ≡ target) ⊎ ((length cells < target) × (length (candidates cells) ≡ 0)))

  -- The loop ends.
  cut_cells-Ends :
      (fuel n target rows : ℕ) (cells : List Rect)
      → IsFilled rows cells
      → length cells ≤ target
      → target ≤ length cells + fuel
      → Ends target rows (cut_cells random fuel n target cells)
  unfolding cut_cells
  cut_cells-Ends zero n target rows cells filled low enough = (filled, inl (omega arith))
  cut_cells-Ends (suc fuel) n target rows cells filled low enough =
      let cands = candidates-AreCandidates cells in
      let (next, m) = cut_round random n cells (candidates cells) in
      let kept = cut_round-IsFilled rows n cells (candidates cells) cands filled in
      elim (Bool-cases (ltb (length cells) target)) [
        | inr done ↦ rw done (filled, inl (ground arith))
        | inl more ↦ elim (Bool-cases (length (candidates cells) == 0)) [
          | inl stuck ↦ rw more (rw stuck (filled, inr (ground arith, ground arith)))
          | inr some ↦
              let longer = length-cut_round n cells (candidates cells) cands some in
              rw more (
                rw some (
                  cut_cells-Ends fuel m target rows next kept (ground arith)
                    (omega (arith, longer))))
        ]
      ]

  one_cell :
      (rows : ℕ) → 9 ≤ rows → IsFilled rows (record { x = 0; y = 0; w = grid_cols; h = rows } ∷ [])
  one_cell rows h = (ground arith, λ x y hx hy. ground arith)

  -- For any draws and any height of the window the random layout fills the grid exactly: no cell
  -- leaves it, and every square of it lies in exactly one cell. Every cell is at least three columns
  -- wide and three rows high. There are six to nine cells, or fewer of which none can be cut.
  pub random_cells-Tiles :
      (raw_rows : ℕ)
      → Tiles grid_cols (random_rows raw_rows) (random_cells random raw_rows)
        × (All (λ c. (min_side ≤ c.w) × (min_side ≤ c.h)) (random_cells random raw_rows)
            × ((length (random_cells random raw_rows) ≤ 9)
                × ((6 ≤ length (random_cells random raw_rows))
                    ⊎ (length (candidates (random_cells random raw_rows)) ≡ 0))))
  unfolding random_cells
  random_cells-Tiles raw_rows =
      let rows = random_rows raw_rows in
      let target = target_cells random in
      let (low, high) = random_int-bounds 0 6 9 (omega arith) in
      let (filled, ends) =
        cut_cells-Ends target 1 target rows (record { x = 0; y = 0; w = grid_cols; h = rows } ∷ [])
          (one_cell rows (omega arith)) (omega arith) (omega arith) in
      (
        record {
          within = All-apply _ (Within grid_cols rows) (λ c g. g.0) _ filled.0;
          once = filled.1;
        },
        (
          All-apply _ (λ c. (min_side ≤ c.w) × (min_side ≤ c.h)) (λ c g. g.1) _ filled.0,
          (grind arith, grind arith),
        ),
      )
