-- ===== src/Charts/Shape/Matrix/Occurs.antt =====
-- How often a name stands among the rows or columns of a matrix of
-- frontend/src/charts/shape.ts.
use simply_se.Base.{
  ℕ, ◌≤◌, ◌≡◌, ◌≢◌, refl, ap, sym, Bool, true, false, List, [], ◌∷◌, ◌++◌, String, str_eq, eq_iff,
  includes, distinct, if◌then◌else◌, filter, map, Bool-cases, inl, inr, arith, str_eq_refl,
}
use simply_se.Base.Sort.{sum_by, sum_by-append}
use simply_se.Charts.Types.{other}

abbrev pub mark : String → String → ℕ
mark k n = if str_eq n k then 1 else 0

-- How often a name stands in a list.
abbrev pub occurs : String → List String → ℕ
occurs k names = sum_by (mark k) names

pub occurs_absent :
    (k : String) (names : List String) → includes names k ≡ false → occurs k names ≡ 0
unfolding sum_by
occurs_absent k [] h = refl
occurs_absent k (n ∷ names) h = ground (arith, occurs_absent k names)

pub occurs_present :
    (k : String) (names : List String) → includes names k ≡ true → 1 ≤ occurs k names
unfolding sum_by
occurs_present k [] h = cc
occurs_present k (n ∷ names) h = ground (arith, occurs_present k names)

pub occurs-distinct :
    (k : String) (names : List String) → distinct names ≡ true → occurs k names ≤ 1
unfolding sum_by
occurs-distinct k [] h = omega arith
occurs-distinct k (n ∷ names) h =
    ground (arith, occurs-distinct k names, occurs_absent k names, eq_iff n k)

pub sum_by-map-le {ℓ κ} :
    {A : Type ℓ} {B : Type κ} (f : A → ℕ) (g : B → ℕ) (t : A → B) (p : B → Bool) (xs : List A)
    → ((x : A) → g (t x) ≡ f x)
    → sum_by g (filter p (map t xs)) ≤ sum_by f xs
unfolding sum_by
sum_by-map-le f g t p [] h = omega arith
sum_by-map-le f g t p (x ∷ xs) h = ground (arith, sum_by-map-le f g t p xs h, h x)

pub differs : (a b : String) → a ≢ b → str_eq a b ≡ false
differs a b h = ground (arith, eq_iff a b)

-- The place of a name among the head of the names, and of another one behind it.
pub place_tail :
    (k : String) (head : List String)
    → occurs k head ≤ 1
    → occurs other head ≡ 0
    → k ≢ other
    → occurs (if includes head k then k else other) (head ++ other ∷ []) ≡ 1
unfolding sum_by
place_tail k head one none p = elim (Bool-cases (includes head k)) [
  | inl e ↦ rw e (
      omega (
        arith,
        sum_by-append (mark k) head (other ∷ []),
        occurs_present k head e,
        ap {B = ℕ} (λ b. if b then 1 else 0) (differs other k (λ q. p (sym q))),
      ))
  | inr e ↦ rw e (
      omega (
        arith,
        sum_by-append (mark other) head (other ∷ []),
        ap {B = ℕ} (λ b. if b then 1 else 0) (str_eq_refl other),
      ))
]

pub place_all :
    (k : String) (head : List String)
    → occurs k head ≤ 1
    → includes head k ≡ true
    → occurs (if includes head k then k else other) head ≡ 1
place_all k head one e = rw e (omega (arith, occurs_present k head e))

pub placed :
    (more : Bool) (k : String) (head : List String)
    → occurs k head ≤ 1
    → occurs other head ≡ 0
    → k ≢ other
    → (more ≡ false → includes head k ≡ true)
    → occurs (if includes head k then k else other) (if more then head ++ other ∷ [] else head) ≡ 1
placed true k head one none p h = place_tail k head one none p
placed false k head one none p h = place_all k head one (h refl)
