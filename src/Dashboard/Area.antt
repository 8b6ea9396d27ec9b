-- ===== src/Dashboard/Area.antt =====
-- Rectangles of grid squares, and what it means that they fill an area with no gap and no overlap.
use native.Mathlib.Decide.{dec_lt}
use simply_se.Base.{
  ℕ, zero, suc, ◌+◌, ◌≤◌, ◌<◌, ◌≡◌, ◌&&◌, Bool, true, leb, ltb, ◌==◌, List, [], ◌∷◌, All, all,
  count, arith, ==_iff,
}

pub record Rect : Type 0 where
  pub x : ℕ
  pub y : ℕ
  pub w : ℕ
  pub h : ℕ

-- The rectangle holds the grid square in column `x` and row `y`.
abbrev pub covers : ℕ → ℕ → Rect → Bool
covers x y r = leb r.x x && ltb x (r.x + r.w) && (leb r.y y && ltb y (r.y + r.h))

abbrev pub Within : ℕ → ℕ → Rect → Type 0
Within cols rows r = (r.x + r.w ≤ cols) × (r.y + r.h ≤ rows)

-- No rectangle leaves the area, and every square of the area lies in exactly one of them.
pub record Tiles (cols rows : ℕ) (rs : List Rect) : Type 0 where
  pub within : All (Within cols rows) rs
  pub once : (x y : ℕ) → x < cols → y < rows → count (covers x y) rs ≡ 1

-- The same by evaluation, for an area of fixed size: a test of the places before `places`.
everywhere : (test : ℕ → Bool) (places : ℕ) → Bool
everywhere test zero = true
everywhere test (suc last) = everywhere test last && test last

test_of_everywhere :
    (test : ℕ → Bool) (places : ℕ) {place : ℕ}
    → place < places
    → everywhere test places ≡ true
    → test place ≡ true
unfolding everywhere
test_of_everywhere test zero before passed = absurd (omega arith)
test_of_everywhere test (suc last) {place} before passed = elim (dec_lt place last) [
  | yes earlier ↦ test_of_everywhere test last earlier (ground arith)
  | no here ↦ let same : place ≡ last = omega arith in rw same (ground arith)
]

all_sound :
    (p : Rect → Bool) (P : Rect → Type 0)
    → ((r : Rect) → p r ≡ true → P r)
    → (rs : List Rect) → all p rs ≡ true
    → All P rs
all_sound p P sound [] h = tt
all_sound p P sound (r ∷ rs) h = (sound r (ground arith), all_sound p P sound rs (ground arith))

abbrev within : ℕ → ℕ → Rect → Bool
within cols rows r = leb (r.x + r.w) cols && leb (r.y + r.h) rows

unfoldable pub tiles : ℕ → ℕ → List Rect → Bool
unfolding everywhere
tiles cols rows rs =
    all (within cols rows) rs
    && everywhere (λ x. everywhere (λ y. count (covers x y) rs == 1) rows) cols

pub tiles-Tiles : (cols rows : ℕ) (rs : List Rect) → tiles cols rows rs ≡ true → Tiles cols rows rs
unfolding tiles
tiles-Tiles cols rows rs h = record {
  within = all_sound (within cols rows) (Within cols rows) (λ r e. ground arith) rs (ground arith);
  once = λ x y hx hy.
      let column = λ (x : ℕ). everywhere (λ y. count (covers x y) rs == 1) rows in
      let columns : everywhere column cols ≡ true = ground arith in
      (==_iff _ 1).0 (test_of_everywhere _ rows hy (test_of_everywhere column cols hx columns));
}
