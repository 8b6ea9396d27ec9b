-- ===== src/I18n/Total.antt =====
-- `t` of frontend/src/i18n/index.tsx gives a text whatever the key and the variables.
use simply_se.Base.{
  String, ℕ, Bool, true, false, Option, none, some, List, [], ◌∷◌, map, Bool-cases, arith, refl,
  ◌≡◌, ◌≤◌, length, inl, inr, length-map, if◌then◌else◌,
}
use mathlib.Core.Option as O
use Prim.Native.Char.{Char}
use simply_se.Base.Objects.{field}
use simply_se.I18n.Text.{contains, split, trim, onto_first}
use simply_se.I18n.Template.{fits}
use simply_se.I18n.Dict.{Locale}
use simply_se.I18n.Complete.{both_fit}
use simply_se.I18n.Translate.{
  pick_half, resolve_plural, Value, word, number, fill, template, for_count, t,
}

length-onto_first : (c : Char) (ss : List String) → length ss ≤ length (onto_first c ss)
length-onto_first c [] = omega arith
length-onto_first c (s ∷ ss) = omega arith

length-split : (c : ℕ) (s : String) → 1 ≤ length (split c s)
length-split c String.[] = omega arith
length-split c (String.◌∷◌ d s) = ground (arith, length-split c s, length-onto_first d (split c s))

-- A text that holds the separator is split in at least two.
length-split_many : (c : ℕ) (s : String) → contains c s ≡ true → 2 ≤ length (split c s)
length-split_many c String.[] h = cc
length-split_many c (String.◌∷◌ d s) h =
    ground (arith, length-split c s, length-split_many c s, length-onto_first d (split c s))

pick_half_total :
    (b : Bool) (ss : List String) → 2 ≤ length ss → (s : String) × (pick_half b ss ≡ some s)
unfolding pick_half
pick_half_total b [] h = absurd (omega arith)
pick_half_total b (s ∷ []) h = absurd (omega arith)
pick_half_total true (s ∷ p ∷ ss) h = (s, refl)
pick_half_total false (s ∷ p ∷ ss) h = (p, refl)

resolve_plural_total :
    (template : String) (b : Bool) → (s : String) × (resolve_plural template b ≡ some s)
unfolding resolve_plural
resolve_plural_total template b = elim (Bool-cases (contains b'|' template)) [
  | inl has ↦
      let (s, e) = pick_half_total b (map trim (split b'|' template)) (
        ground
          (arith, length-map trim (split b'|' template), length-split_many b'|' template has)) in
      (s, rw (has, e))
  | inr has_not ↦ (template, rw (has_not))
]

pub both_fit_found :
    (o : Option String) (s : String)
    → both_fit (some s) o ≡ true
    → (s' : String) × (o ≡ some s') × (fits s s' ≡ true)
unfolding both_fit
both_fit_found none s h = cc
both_fit_found (some s') s h = (s', refl, h)

-- What is shown of a text: the text with the variables filled in by `f`, or one of its halves.
pub record Shown {N : Type 0} (f : String → String) (is_one : Value N → Bool)
    (count : Option (Value N)) (text : String) (out : Option String) : Type 0 where
  pub no_count : count ≡ none → out ≡ some (f text)
  pub no_bar : contains b'|' text ≡ false → out ≡ some (f text)
  pub halves :
      (v : Value N) (a b : String) (rest : List String)
      → count ≡ some v
      → contains b'|' text ≡ true
      → split b'|' text ≡ a ∷ b ∷ rest
      → out ≡ some (f (if is_one v then trim a else trim b))

module _ {N : Type 0} (show : N → String) (is_one : N → Bool) (reads_one : String → Bool) where
  fill_resolved :
      (vars : List (String × Value N)) (o : Option String)
      → ((s : String) × (o ≡ some s))
      → (s : String) × (O.map (fill show is_one reads_one vars) o ≡ some s)
  fill_resolved vars none (s, e) = cc
  fill_resolved vars (some s') h = (fill show is_one reads_one vars s', refl)

  for_count_total :
      (v : Option (Value N)) (template : String)
      → (s : String) × (for_count show is_one reads_one v template ≡ some s)
  unfolding for_count
  for_count_total none template = (template, refl)
  for_count_total (some (word s)) template = resolve_plural_total template (reads_one s)
  for_count_total (some (number n)) template = resolve_plural_total template (is_one n)

  -- Whatever the language, the key and the variables, `t` gives a text: a template with a bar has
  -- both of its halves.
  pub t_total :
      (l : Locale) (key : String) (vars : Option (List (String × Value N)))
      → (s : String) × (t show is_one reads_one l key vars ≡ some s)
  unfolding t
  t_total l key none = (_, refl)
  t_total l key (some vars) =
      fill_resolved vars
        (for_count show is_one reads_one (field "count" vars)
          (template show is_one reads_one l key))
        (for_count_total (field "count" vars) (template show is_one reads_one l key))
