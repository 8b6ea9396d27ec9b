-- ===== src/Charts/Number.antt =====
-- The numbers of the measures. A JavaScript number is a floating-point value, which the library
-- has no type for: its values and operations are a parameter of the chart system.
use simply_se.Base.{ℕ, ◌+◌, ◌≤◌, ◌≡◌, Bool, false, ltb}

pub record Arithmetic : Type 1 where
  pub Num : Type 0
  pub of_ℕ : ℕ → Num
  pub nan : Num
  pub is_nan : Num → Bool
  pub add : Num → Num → Num
  pub sub : Num → Num → Num
  pub mul : Num → Num → Num
  pub div : Num → Num → Num
  -- `a < b`; false where one of the two is `NaN`.
  pub lt : Num → Num → Bool

-- The whole numbers that a JavaScript number holds exactly, `Number.MAX_SAFE_INTEGER` the largest.
abbrev pub max_safe : ℕ
max_safe = 9007199254740991

-- What JavaScript documents of whole numbers up to that bound: sums and comparisons are exact, and
-- none of them is `NaN`.
pub record IsExact (N : Arithmetic) : Type 0 where
  pub add-of_ℕ : (a b : ℕ) → a + b ≤ max_safe → N.add (N.of_ℕ a) (N.of_ℕ b) ≡ N.of_ℕ (a + b)
  pub lt-of_ℕ : (a b : ℕ) → a ≤ max_safe → b ≤ max_safe → N.lt (N.of_ℕ a) (N.of_ℕ b) ≡ ltb a b
  pub is_nan-of_ℕ : (a : ℕ) → a ≤ max_safe → N.is_nan (N.of_ℕ a) ≡ false
