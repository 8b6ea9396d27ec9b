-- ===== src/Base/Strings.antt =====
-- Lists of distinct texts: membership, removal of one text, and the first of the rest.
use Prim.Native.Nat.{suc, ◌≤◌}
use Prim.Native.String.{String}
use mathlib.Core.Path.{◌≡◌, refl}
use mathlib.Core.Logic.{◌≢◌, inl, inr}
use mathlib.Core.Bool.{Bool, true, false, not, ◌&&◌}
use mathlib.Core.List.{List, [], ◌∷◌}
use native.Mathlib.Omega.{arith}
use text.Mathlib.Text.{◌==◌ as str_eq}
use text.Mathlib.TextEquality.{eq_iff}
use simply_se.Base.Tests.{Bool-cases}
use simply_se.Base.Lists.{length, any, filter}

-- `xs.includes(s)`.
abbrev pub includes : List String → String → Bool
includes xs s = any (λ x. str_eq x s) xs

-- `xs.filter((x) => x !== s)`.
abbrev pub without : String → List String → List String
without s xs = filter (λ x. not (str_eq x s)) xs

abbrev pub distinct : List String → Bool
distinct [] = true
distinct (x ∷ xs) = not (includes xs x) && distinct xs

pub str_eq_refl : (s : String) → str_eq s s ≡ true
str_eq_refl s = (eq_iff s s).1 refl

pub includes-without :
    (s t : String) (xs : List String)
    → includes (without s xs) t ≡ true
    → (includes xs t ≡ true) × (t ≢ s)
includes-without s t [] h = cc
includes-without s t (x ∷ xs) h =
    let ih = includes-without s t xs in
    elim (Bool-cases (str_eq x s)) [
      | inl same ↦ (ground arith, (ih (ground arith)).1)
      | inr other ↦ elim (Bool-cases (str_eq x t)) [
        | inl here ↦ (ground arith, λ e. ground (arith, eq_iff x t, eq_iff x s))
        | inr later ↦ (ground arith, (ih (ground arith)).1)
      ]
    ]

includes-without-false :
    (s t : String) (xs : List String) → includes xs t ≡ false → includes (without s xs) t ≡ false
includes-without-false s t [] h = refl
includes-without-false s t (x ∷ xs) h = ground (arith, includes-without-false s t xs)

pub distinct-without :
    (s : String) (xs : List String) → distinct xs ≡ true → distinct (without s xs) ≡ true
distinct-without s [] h = refl
distinct-without s (x ∷ xs) h = ground (arith, distinct-without s xs, includes-without-false s x xs)

without_absent : (s : String) (xs : List String) → includes xs s ≡ false → without s xs ≡ xs
without_absent s [] h = refl
without_absent s (x ∷ xs) h = ground (arith, without_absent s xs)

pub length-without :
    (s : String) (xs : List String) → distinct xs ≡ true → length xs ≤ suc (length (without s xs))
length-without s [] h = omega arith
length-without s (x ∷ xs) h = elim (Bool-cases (str_eq x s)) [
  | inl same ↦
      rw same (rw (without_absent s xs (rw (← (eq_iff x s).0 same) (ground arith))) (omega arith))
  | inr other ↦ rw other (omega (arith, length-without s xs (ground arith)))
]
