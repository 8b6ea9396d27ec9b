-- ===== src/Navigation/Finding.antt =====
-- Which page a path shows.
use simply_se.Base.{
  ◌≡◌, refl, ◌∙◌, ap, sym, Bool, true, false, none, some, List, [], ◌∷◌, String, find, any, All,
  All-apply, Bool-cases, Option-cases, inl, inr, ◌⊎◌, eq_iff, str_eq, ◌||◌, arith, if◌then◌else◌,
}
use Prim.Native.String.{◌++◌}
use text.Mathlib.Text.{starts_with}
use text.Mathlib.TextBridge.{IsPrefix}
use text.Mathlib.TextEquality.{starts_with_iff}
use simply_se.Navigation.{NavPage, NavCategory, nav, is_page_active, find_in, find_current}

module _ {ℓ} {A : Type ℓ} (test : A → Bool) where
  find-passes : (xs : List A) (a : A) → find test xs ≡ some a → test a ≡ true
  find-passes [] a e = cc
  find-passes (x ∷ xs) a e = elim (Bool-cases (test x)) [
    | inl t ↦
        let found : some x ≡ some a = rw t at e in let same : x ≡ a = cc in ap test (sym same) ∙ t
    | inr t ↦ find-passes xs a (rw t at e)
  ]

  find-any : (xs : List A) → find test xs ≡ none → any test xs ≡ false
  find-any [] e = refl
  find-any (x ∷ xs) e = elim (Bool-cases (test x)) [
    | inl t ↦ let found : some x ≡ none = rw t at e in cc
    | inr t ↦ rw t (find-any xs (rw t at e))
  ]

-- No page of the categories is active.
abbrev Inactive : String → List NavCategory → Type 0
Inactive pathname categories =
    All (λ c. any (λ p. is_page_active p pathname) c.pages ≡ false) categories

find_in-active :
    (pathname : String) (categories : List NavCategory) (c : NavCategory) (p : NavPage)
    → find_in pathname categories ≡ some (c, p)
    → is_page_active p pathname ≡ true
unfolding find_in
find_in-active pathname [] c p e = cc
find_in-active pathname (d ∷ categories) c p e =
    elim (Option-cases (find (λ q. is_page_active q pathname) d.pages)) [
      | inl n ↦ find_in-active pathname categories c p (rw (n, find_in) at e)
      | inr (q, n) ↦
          let found : some (d, q) ≡ some (c, p) = rw (n, find_in) at e in
          let same : q ≡ p = cc in
          ap (λ x. is_page_active x pathname) (sym same)
          ∙ find-passes (λ x. is_page_active x pathname) d.pages q n
    ]

find_in-Inactive :
    (pathname : String) (categories : List NavCategory)
    → find_in pathname categories ≡ none
    → Inactive pathname categories
unfolding find_in
find_in-Inactive pathname [] e = tt
find_in-Inactive pathname (d ∷ categories) e =
    elim (Option-cases (find (λ q. is_page_active q pathname) d.pages)) [
      | inl n ↦ (
        find-any (λ q. is_page_active q pathname) d.pages n,
        find_in-Inactive pathname categories (rw (n, find_in) at e),
      )
      | inr (q, n) ↦ let found : some (d, q) ≡ none = rw (n, find_in) at e in cc
    ]

-- A path belongs to a page: it is the path of the page or, unless the page wants its path alone, it
-- lies below it, after a slash.
abbrev pub IsAt : NavPage → String → Type 0
IsAt p pathname = (pathname ≡ p.to) ⊎ ((p.end ≡ false) × IsPrefix (p.to ++ "/") pathname)

active_at :
    (end exact below : Bool) {P Q : Type 0}
    → (exact ≡ true → P)
    → (below ≡ true → Q)
    → (if end then exact else exact || below) ≡ true
    → P ⊎ ((end ≡ false) × Q)
active_at true true below p q e = inl (p refl)
active_at true false below p q e = cc
active_at false true below p q e = inl (p refl)
active_at false false true p q e = inr (refl, q refl)
active_at false false false p q e = cc

at_active :
    (end exact below : Bool) {P Q : Type 0}
    → (P → exact ≡ true)
    → (Q → below ≡ true)
    → P ⊎ ((end ≡ false) × Q)
    → (if end then exact else exact || below) ≡ true
at_active end exact below p q (inl a) = let e = p a in ground arith
at_active end exact below p q (inr (n, b)) = let e = q b in ground arith

is_page_active-IsAt :
    (p : NavPage) (pathname : String) → is_page_active p pathname ≡ true → IsAt p pathname
unfolding is_page_active
is_page_active-IsAt p pathname =
    active_at p.end (str_eq pathname p.to) (starts_with pathname (p.to ++ "/"))
      (eq_iff pathname p.to).0 (starts_with_iff pathname (p.to ++ "/")).0

IsAt-is_page_active :
    (p : NavPage) (pathname : String) → IsAt p pathname → is_page_active p pathname ≡ true
unfolding is_page_active
IsAt-is_page_active p pathname =
    at_active p.end (str_eq pathname p.to) (starts_with pathname (p.to ++ "/"))
      (eq_iff pathname p.to).1 (starts_with_iff pathname (p.to ++ "/")).1

-- The path belongs to none of the pages.
abbrev pub IsElsewhere : String → List NavPage → Type 0
IsElsewhere pathname pages = All (λ p. ¬ (IsAt p pathname)) pages

any-IsElsewhere :
    (pathname : String) (pages : List NavPage)
    → any (λ p. is_page_active p pathname) pages ≡ false
    → IsElsewhere pathname pages
any-IsElsewhere pathname [] h = tt
any-IsElsewhere pathname (p ∷ pages) h = (
  λ at. let active = IsAt-is_page_active p pathname at in ground arith,
  any-IsElsewhere pathname pages (ground arith),
)

-- The page that is found for a path is one that the path belongs to, and none is found only where the
-- path belongs to no page of the navigation. Each page of the navigation is the one that is found at
-- its own path, with its category.
pub find_current_finds :
    (pathname : String)
    → ((c : NavCategory) (p : NavPage) → find_current pathname ≡ some (c, p) → IsAt p pathname)
      × ((find_current pathname ≡ none → All (λ c. IsElsewhere pathname c.pages) nav)
          × All (λ c. All (λ p. find_current p.to ≡ some (c, p)) c.pages) nav)
unfolding find_current find_in is_page_active nav
find_current_finds pathname = (
  λ c p e. is_page_active-IsAt p pathname (find_in-active pathname nav c p e),
  (
    λ e.
        All-apply (λ c. any (λ p. is_page_active p pathname) c.pages ≡ false)
          (λ c. IsElsewhere pathname c.pages) (λ c h. any-IsElsewhere pathname c.pages h) nav
          (find_in-Inactive pathname nav e),
    (
      (refl, (refl, tt)),
      (
        (refl, (refl, tt)),
        (
          (refl, (refl, (refl, (refl, tt)))),
          ((refl, (refl, (refl, tt))), ((refl, (refl, tt)), tt)),
        ),
      ),
    ),
  ),
)
