-- ===== src/Dashboard/Random.antt =====
-- The cells of a random layout: the loop of `randomizeLayout` in frontend/src/pages/Dashboard.tsx.
-- `Math.random()` is a parameter: its n-th draw is `random n / 2 ^ 53`.
pub mod Filling
pub mod Choice
pub mod Searching
pub mod Fitting
use simply_se.Base.{
  ℕ, zero, suc, ◌+◌, ◌-◌, ◌*◌, ◌/◌, ◌^◌, min, max, Bool, true, false, not, ◌&&◌, ◌||◌, List, [],
  ◌∷◌, ◌++◌, if◌then◌else◌, ltb, leb, ◌==◌, length, filter, get_or,
}
use simply_se.Base.Sort.{sort_by}
use simply_se.Dashboard.Area.{Rect}
use simply_se.Dashboard.Grid.{grid_cols, row_height, margin}

abbrev pub min_side : ℕ
min_side = 3

abbrev pub splits : Rect → Bool
splits c = leb (2 * min_side) c.w || leb (2 * min_side) c.h

-- The comparator `b.w * b.h - a.w * a.h`.
abbrev pub bigger : Rect → Rect → Bool
bigger a b = leb (b.w * b.h) (a.w * a.h)

abbrev pub same_cell : Rect → Rect → Bool
same_cell a b = a.x == b.x && (a.y == b.y && (a.w == b.w && a.h == b.h))

-- `cells.splice(cells.indexOf(cell), 1)`. The source finds the object; two cells of a layout never
-- have the same place, so the first cell with the same place is that object.
pub remove_cell : Rect → List Rect → List Rect
remove_cell c [] = []
remove_cell c (d ∷ cells) = if same_cell c d then cells else d ∷ remove_cell c cells

abbrev pub candidates : List Rect → List Rect
candidates cells = sort_by bigger (filter splits cells)

-- `clamp(viewportRows(), 9, 28)`, for the rows that are measured in the window; a negative measure is
-- read as 0, which the clamp treats alike.
abbrev pub random_rows : ℕ → ℕ
random_rows raw_rows = max 9 (min 28 raw_rows)

module _ (random : ℕ → ℕ) where
  -- `Math.floor(Math.random() * (hi - lo + 1))` above `lo`, by the exact product. The rounding of the
  -- floating-point product can only give the value of a neighbouring draw; each draw is used once.
  pub random_int : ℕ → ℕ → ℕ → ℕ
  random_int n lo hi = lo + random n * (hi - lo + 1) / 2 ^ 53

  -- Comparisons of the n-th draw with 0.7, 0.8 and 0.2, the nearest floating-point numbers.
  abbrev below_seven_tenths : ℕ → Bool
  below_seven_tenths n = ltb (random n) 6305039478318694

  abbrev below_eight_tenths : ℕ → Bool
  below_eight_tenths n = ltb (random n) 7205759403792794

  abbrev below_two_tenths : ℕ → Bool
  below_two_tenths n = ltb (4 * random n) 7205759403792794

  -- The cell to cut among `c ∷ rest`, and the number of the next draw.
  pub choose_cell : ℕ → Rect → List Rect → Rect × ℕ
  unfolding random_int
  choose_cell n c rest =
      if below_seven_tenths n
      then (c, n + 1)
      else (get_or (c ∷ rest) (random_int (n + 1) 0 (length (c ∷ rest) - 1)) c, n + 2)

  -- `Math.round` of the mean of two draws between the smallest sides.
  pub middle : ℕ → ℕ → ℕ
  unfolding random_int
  middle n size =
      (random_int n min_side (size - min_side) + random_int (n + 1) min_side (size - min_side) + 1)
      / 2

  -- Whether to cut the width, and the number of the next draw.
  pub cut_width : ℕ → Rect → Bool × ℕ
  cut_width n c =
      if leb (2 * min_side) c.w
      then if leb (2 * min_side) c.h
        then (
          if leb (c.h * (row_height + margin.1)) (c.w * 100)
              then below_eight_tenths n
              else below_two_tenths n,
          n + 1,
        )
        else (true, n)
      else (false, n)

  pub halves : Bool → ℕ → Rect → List Rect
  unfolding middle
  halves wide n c =
      if wide
      then record { x = c.x; y = c.y; w = middle n c.w; h = c.h }
        ∷ record { x = c.x + middle n c.w; y = c.y; w = c.w - middle n c.w; h = c.h }
        ∷ []
      else record { x = c.x; y = c.y; w = c.w; h = middle n c.h }
        ∷ record { x = c.x; y = c.y + middle n c.h; w = c.w; h = c.h - middle n c.h }
        ∷ []

  -- One round of the loop on the cells that can be cut, the biggest first.
  pub cut_round : ℕ → List Rect → List Rect → List Rect × ℕ
  unfolding choose_cell cut_width halves remove_cell
  cut_round n cells [] = (cells, n)
  cut_round n cells (c ∷ rest) =
      let (cell, k) = choose_cell n c rest in
      let (wide, m) = cut_width k cell in (remove_cell cell cells ++ halves wide m cell, m + 2)

  -- The loop, on fuel: a round adds a cell, so `target` rounds are enough.
  pub cut_cells : ℕ → ℕ → ℕ → List Rect → List Rect
  unfolding cut_round
  cut_cells zero n target cells = cells
  cut_cells (suc fuel) n target cells =
      let (next, m) = cut_round n cells (candidates cells) in
      let rest = cut_cells fuel m target next in
      if ltb (length cells) target
      then if length (candidates cells) == 0 then cells else rest
      else cells

  abbrev pub target_cells : ℕ
  target_cells = random_int 0 6 9

  unfoldable pub random_cells : ℕ → List Rect
  unfolding cut_cells random_int
  random_cells raw_rows =
      cut_cells target_cells 1 target_cells
        (record { x = 0; y = 0; w = grid_cols; h = random_rows raw_rows } ∷ [])
