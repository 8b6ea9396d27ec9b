-- ===== src/Dashboard/Random/Searching.antt =====
-- What the searches of `randomizeLayout` in frontend/src/pages/Dashboard.tsx find.
use simply_se.Base.{
  ℕ, zero, suc, ◌<◌, ◌≡◌, refl, Bool, true, false, Option, none, some, List, [], ◌∷◌, if◌then◌else◌,
  length, filter, find, any, get_or, All, arith, Bool-cases, inl, inr,
}
use simply_se.Base.Objects.{or_else}
use simply_se.Charts.Datasets.Resolve.{or_first}
use simply_se.Dashboard.Area.{Rect}
use simply_se.Dashboard.Random.{same_cell}

pub All-member :
    (known : List Rect) (cells : List Rect)
    → ((c : Rect) → any (same_cell c) cells ≡ true → any (same_cell c) known ≡ true)
    → All (λ c. any (same_cell c) known ≡ true) cells
All-member known [] h = tt
All-member known (c ∷ cells) h =
    (h c (ground arith), All-member known cells λ d e. h d (ground arith))

module _ {ℓ} {A : Type ℓ} where
  pub find_holds : (p : A → Bool) (xs : List A) (a : A) → find p xs ≡ some a → p a ≡ true
  find_holds p [] a h = cc
  find_holds p (x ∷ xs) a h = ground (arith, find_holds p xs a)

  pub or_else_holds :
      (p : A → Bool) (o : Option A) (d : A)
      → ((a : A) → o ≡ some a → p a ≡ true)
      → p d ≡ true
      → p (or_else o d) ≡ true
  or_else_holds p none d h k = k
  or_else_holds p (some a) d h k = h a refl

  pub or_first_holds :
      (p : A → Bool) (o o2 : Option A)
      → ((a : A) → o ≡ some a → p a ≡ true)
      → ((a : A) → o2 ≡ some a → p a ≡ true)
      → (a : A) → or_first o o2 ≡ some a
      → p a ≡ true
  or_first_holds p none o2 h k = k
  or_first_holds p (some b) o2 h k = h

  pub either {κ} : (P : A → Type κ) (b : Bool) (x y : A) → P x → P y → P (if b then x else y)
  either P true x y h k = h
  either P false x y h k = k

  pub filter_holds :
      (p : A → Bool) (b : Bool) (q : A → Bool) (xs : List A)
      → ((x : A) → q x ≡ true → p x ≡ b)
      → All (λ x. p x ≡ b) (filter q xs)
  filter_holds p b q [] h = tt
  filter_holds p b q (x ∷ xs) h = elim (Bool-cases (q x)) [
    | inl e ↦ rw e (h x e, filter_holds p b q xs h)
    | inr e ↦ rw e (filter_holds p b q xs h)
  ]

  pub get_or_all :
      (p : A → Bool) (b : Bool) (xs : List A) (i : ℕ) (d : A)
      → i < length xs
      → All (λ x. p x ≡ b) xs
      → p (get_or xs i d) ≡ b
  get_or_all p b [] i d h k = absurd (omega arith)
  get_or_all p b (x ∷ xs) zero d h (e, k) = e
  get_or_all p b (x ∷ xs) (suc i) d h (e, k) = get_or_all p b xs i d (omega arith) k
