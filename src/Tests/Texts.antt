-- ===== src/Tests/Texts.antt =====
-- Texts in the three languages.
use simply_se.Base.{
  String, true, none, some, [], ◌∷◌, ◌≡◌, refl, ℕ, ◌==◌, Option, List, str_eq, Bool, if◌then◌else◌,
}
use simply_se.I18n.Dict.{Locale, en, fr, es, at}
use simply_se.I18n.Text.{trim}
use simply_se.I18n.Translate.{dictionaries, lookup, Value, number, t, resolve_plural}
use simply_se.I18n.Complete.{both_fit, both_fit-lookup}
use simply_se.I18n.Total.{t_total}
use simply_se.I18n.Choice.{detect_default_locale, set_locale, detect_default_locale-set_locale}

-- One digit is enough for the tests.
abbrev digit : ℕ → String
digit n = if n == 1 then "1" else if n == 3 then "3" else "many"

abbrev one : ℕ → Bool
one n = n == 1

abbrev reads : String → Bool
reads s = str_eq s "1"

abbrev say : Locale → String → Option (List (String × Value ℕ)) → Option String
say = t digit one reads

trim_test : trim " a b\n " ≡ "a b"
trim_test = refl

one_test : resolve_plural "one | {count} more" true ≡ some "one"
unfolding resolve_plural
one_test = refl

unknown_test : say fr "nav.nothing" none ≡ some "nav.nothing"
unfolding t dictionaries at
unknown_test = refl

inner_test : say fr "nav" none ≡ some "nav"
unfolding t dictionaries at
inner_test = refl

plural_test :
    say fr "denials.occurrenceCount" (some (("count", number 3) ∷ [])) ≡ some "3 occurrences"
unfolding t dictionaries at
plural_test = refl

both_fit-lookup_example :
    both_fit
      (lookup (dictionaries en) "charts.periodLong")
      (lookup (dictionaries fr) "charts.periodLong")
    ≡ true
both_fit-lookup_example = both_fit-lookup fr "charts.periodLong"

t_total_example :
    (s : String) × (say es "charts.periodLong" (some (("n", number 3) ∷ ("count", number 3) ∷ []))
      ≡ some s)
t_total_example =
    t_total digit one reads es "charts.periodLong"
      (some (("n", number 3) ∷ ("count", number 3) ∷ []))

stored_test : detect_default_locale (λ s. s) (some (some "es")) "en-GB" ≡ es
unfolding detect_default_locale
stored_test = refl

browser_test : detect_default_locale (λ s. s) (some (some "de")) "en-GB" ≡ en
unfolding detect_default_locale
browser_test = refl

detect_default_locale-set_locale_example :
    detect_default_locale (λ s. s) (set_locale es (some (some "fr"))) "en-GB" ≡ es
detect_default_locale-set_locale_example =
    detect_default_locale-set_locale (λ s. s) es (some "fr") "en-GB"
