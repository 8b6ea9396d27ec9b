-- ===== src/Base/Sort.antt =====
-- `Array.prototype.sort`: a stable sort by a comparator, here as insertion sort. `before a b` says
-- that the comparator does not put `a` after `b`.
use mathlib.Core.Path.{sym, ap, ◌∙◌, ◌≡◌, refl}
use mathlib.Core.Logic.{inl, inr}
use mathlib.Core.Bool.{Bool, true, false, ◌||◌}
use mathlib.Core.List.{List, [], ◌∷◌, ◌++◌, map}
use Prim.Native.Nat.{ℕ, ◌+◌}
use native.Mathlib.Omega.{arith}
use simply_se.Base.Tests.{if◌then◌else◌, Bool-cases}
use simply_se.Base.Lists.{take, drop, take-append-drop, All, filter, any}

module _ {ℓ} {A : Type ℓ} (before : A → A → Bool) where
  insert_by : A → List A → List A
  insert_by x [] = x ∷ []
  insert_by x (y ∷ ys) = if before x y then x ∷ y ∷ ys else y ∷ insert_by x ys

  unfoldable pub sort_by : List A → List A
  unfolding insert_by
  sort_by [] = []
  sort_by (x ∷ xs) = insert_by x (sort_by xs)

unfoldable pub sum_by {ℓ} : {A : Type ℓ} → (A → ℕ) → List A → ℕ
sum_by f [] = 0
sum_by f (x ∷ xs) = f x + sum_by f xs

pub sum_by-append {ℓ} :
    {A : Type ℓ} (f : A → ℕ) (xs ys : List A) → sum_by f (xs ++ ys) ≡ sum_by f xs + sum_by f ys
unfolding sum_by
sum_by-append f [] ys = omega arith
sum_by-append f (x ∷ xs) ys = omega (arith, sum_by-append f xs ys)

pub sum_by-take-drop {ℓ} :
    {A : Type ℓ} (f : A → ℕ) (n : ℕ) (xs : List A)
    → sum_by f (take n xs) + sum_by f (drop n xs) ≡ sum_by f xs
sum_by-take-drop f n xs =
    sym (sum_by-append f (take n xs) (drop n xs)) ∙ ap (sum_by f) (take-append-drop n xs)

pub sum_by-All {ℓ} :
    {A : Type ℓ} (f g : A → ℕ) (xs : List A) → All (λ x. f x ≡ g x) xs → sum_by f xs ≡ sum_by g xs
unfolding sum_by
sum_by-All f g [] h = refl
sum_by-All f g (x ∷ xs) (p, h) = omega (arith, p, sum_by-All f g xs h)

pub sum_by-ext {ℓ} :
    {A : Type ℓ} (f g : A → ℕ) (xs : List A) → ((x : A) → f x ≡ g x) → sum_by f xs ≡ sum_by g xs
unfolding sum_by
sum_by-ext f g [] h = refl
sum_by-ext f g (x ∷ xs) h = omega (arith, h x, sum_by-ext f g xs h)

pub sum_by-filter {ℓ} :
    {A : Type ℓ} (f : A → ℕ) (p : A → Bool) (xs : List A)
    → sum_by f (filter p xs) ≡ sum_by (λ x. if p x then f x else 0) xs
unfolding sum_by
sum_by-filter f p [] = refl
sum_by-filter f p (x ∷ xs) = ground (arith, sum_by-filter f p xs)

pub sum_by-zero {ℓ} : {A : Type ℓ} (xs : List A) → sum_by (λ x. 0) xs ≡ 0
unfolding sum_by
sum_by-zero [] = refl
sum_by-zero (x ∷ xs) = omega (arith, sum_by-zero xs)

sum_by-plus {ℓ} :
    {A : Type ℓ} (f g : A → ℕ) (xs : List A)
    → sum_by (λ x. f x + g x) xs ≡ sum_by f xs + sum_by g xs
unfolding sum_by
sum_by-plus f g [] = refl
sum_by-plus f g (x ∷ xs) = omega (arith, sum_by-plus f g xs)

-- The order of two sums does not matter.
pub sum_by-swap {ℓ κ} :
    {A : Type ℓ} {B : Type κ} (f : A → B → ℕ) (xs : List A) (ys : List B)
    → sum_by (λ x. sum_by (f x) ys) xs ≡ sum_by (λ y. sum_by (λ x. f x y) xs) ys
unfolding sum_by
sum_by-swap f [] ys = sym (sum_by-zero ys)
sum_by-swap f (x ∷ xs) ys =
    ap (λ n. sum_by (f x) ys + n) (sum_by-swap f xs ys)
    ∙ sym (sum_by-plus (f x) (λ y. sum_by (λ x. f x y) xs) ys)

module _ {ℓ} {A : Type ℓ} (before : A → A → Bool) where
  sum_by-insert_by :
      (f : A → ℕ) (x : A) (xs : List A) → sum_by f (insert_by before x xs) ≡ f x + sum_by f xs
  unfolding sum_by insert_by
  sum_by-insert_by f x [] = refl
  sum_by-insert_by f x (y ∷ ys) = ground (arith, sum_by-insert_by f x ys)

  pub sum_by-sort_by : (f : A → ℕ) (xs : List A) → sum_by f (sort_by before xs) ≡ sum_by f xs
  unfolding sum_by sort_by
  sum_by-sort_by f [] = refl
  sum_by-sort_by f (x ∷ xs) =
      omega (arith, sum_by-insert_by f x (sort_by before xs), sum_by-sort_by f xs)

  All-insert_by {κ} :
      (P : A → Type κ) (x : A) (xs : List A) → P x → All P xs → All P (insert_by before x xs)
  unfolding insert_by
  All-insert_by P x [] p h = (p, tt)
  All-insert_by P x (y ∷ ys) p (q, h) = elim (Bool-cases (before x y)) [
    | inl e ↦ rw e (p, (q, h))
    | inr e ↦ rw e (q, All-insert_by P x ys p h)
  ]

  pub All-sort_by {κ} : (P : A → Type κ) (xs : List A) → All P xs → All P (sort_by before xs)
  unfolding sort_by
  All-sort_by P [] h = tt
  All-sort_by P (x ∷ xs) (p, h) = All-insert_by P x (sort_by before xs) p (All-sort_by P xs h)

-- Neighbours stand in the order of the comparator.
unfoldable pub IsSorted {ℓ} : {A : Type ℓ} → (A → A → Bool) → List A → Type 0
IsSorted before [] = Unit
IsSorted before (x ∷ []) = Unit
IsSorted before (x ∷ y ∷ ys) = (before x y ≡ true) × IsSorted before (y ∷ ys)

pub IsSorted-ext {ℓ} :
    {A : Type ℓ} (f g : A → A → Bool)
    → ((a b : A) → f a b ≡ g a b)
    → (xs : List A) → IsSorted f xs
    → IsSorted g xs
unfolding IsSorted
IsSorted-ext f g same [] h = tt
IsSorted-ext f g same (x ∷ []) h = tt
IsSorted-ext f g same (x ∷ y ∷ ys) (p, h) = (sym (same x y) ∙ p, IsSorted-ext f g same (y ∷ ys) h)

module _ {ℓ} {A : Type ℓ} (before : A → A → Bool)
    (total : (a b : A) → before a b ≡ false → before b a ≡ true) where
  insert_by-IsSorted_tail :
      (x y : A) (ys : List A)
      → before y x ≡ true
      → IsSorted before (y ∷ ys)
      → IsSorted before (y ∷ insert_by before x ys)
  unfolding insert_by IsSorted
  insert_by-IsSorted_tail x y [] h s = (h, tt)
  insert_by-IsSorted_tail x y (z ∷ zs) h (p, s) = elim (Bool-cases (before x z)) [
    | inl e ↦ rw e (h, (e, s))
    | inr e ↦ rw e (p, insert_by-IsSorted_tail x z zs (total x z e) s)
  ]

  insert_by-IsSorted :
      (x : A) (xs : List A) → IsSorted before xs → IsSorted before (insert_by before x xs)
  unfolding insert_by IsSorted
  insert_by-IsSorted x [] s = tt
  insert_by-IsSorted x (y ∷ ys) s = elim (Bool-cases (before x y)) [
    | inl e ↦ rw e (e, s)
    | inr e ↦ rw e (insert_by-IsSorted_tail x y ys (total x y e) s)
  ]

  -- A comparator that is total sorts; transitivity is not needed for the order of neighbours.
  pub sort_by-IsSorted : (xs : List A) → IsSorted before (sort_by before xs)
  unfolding sort_by IsSorted
  sort_by-IsSorted [] = tt
  sort_by-IsSorted (x ∷ xs) = insert_by-IsSorted x (sort_by before xs) (sort_by-IsSorted xs)

module _ {ℓ} {A : Type ℓ} where
  any-insert_by :
      (before : A → A → Bool) (p : A → Bool) (x : A) (xs : List A)
      → any p (insert_by before x xs) ≡ (p x || any p xs)
  unfolding insert_by
  any-insert_by before p x [] = refl
  any-insert_by before p x (y ∷ xs) = ground (arith, any-insert_by before p x xs)

  pub any-sort_by :
      (before : A → A → Bool) (p : A → Bool) (xs : List A) → any p (sort_by before xs) ≡ any p xs
  unfolding sort_by
  any-sort_by before p [] = refl
  any-sort_by before p (x ∷ xs) =
      ground (arith, any-insert_by before p x (sort_by before xs), any-sort_by before p xs)

module _ {ℓ κ} {A : Type ℓ} {B : Type κ} (before : B → B → Bool) (f : A → B) where
  map-insert_by :
      (x : A) (xs : List A)
      → map f (insert_by (λ a b. before (f a) (f b)) x xs) ≡ insert_by before (f x) (map f xs)
  unfolding insert_by
  map-insert_by x [] = refl
  map-insert_by x (y ∷ xs) = elim (Bool-cases (before (f x) (f y))) [
    | inl e ↦ rw e refl
    | inr e ↦ rw e (ap (λ ys. f y ∷ ys) (map-insert_by x xs))
  ]

  pub map-sort_by :
      (xs : List A) → map f (sort_by (λ a b. before (f a) (f b)) xs) ≡ sort_by before (map f xs)
  unfolding sort_by
  map-sort_by [] = refl
  map-sort_by (x ∷ xs) =
      map-insert_by x (sort_by (λ a b. before (f a) (f b)) xs)
      ∙ ap (insert_by before (f x)) (map-sort_by xs)
