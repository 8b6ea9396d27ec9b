-- ===== src/I18n/Choice.antt =====
-- The choice of the language, in frontend/src/i18n/index.tsx: what the browser stores and what
-- `setLocale` writes there. A blocked storage, whose reads and writes throw, is `none`. How a
-- text is put in lower case is a parameter.
use simply_se.Base.{String, Option, none, some, List, [], ◌∷◌, find, refl, ◌≡◌, str_eq}
use simply_se.I18n.Dict.{Locale, en, fr, es}

abbrev pub locales : List Locale
locales = en ∷ fr ∷ es ∷ []

-- The text that is a `Locale` in the source.
abbrev pub locale_text : Locale → String
locale_text en = "en"
locale_text fr = "fr"
locale_text es = "es"

-- `locales.includes(s)`, with the language it finds.
abbrev pub read_locale : String → Option Locale
read_locale s = find (λ l. str_eq (locale_text l) s) locales

-- `s.slice(0, 2)`.
abbrev pub first_two : String → String
first_two String.[] = String.[]
first_two (String.◌∷◌ c String.[]) = String.◌∷◌ c String.[]
first_two (String.◌∷◌ c (String.◌∷◌ d s)) = String.◌∷◌ c (String.◌∷◌ d String.[])

-- The item of the browser's storage: `none` when the storage is blocked, `some none` when it has
-- no such item.
abbrev pub Storage : Type 0
Storage = Option (Option String)

abbrev or_french : Option Locale → Locale
or_french none = fr
or_french (some l) = l

abbrev or_else_read : Option Locale → Option Locale → Option Locale
or_else_read none o = o
or_else_read (some l) o = some l

abbrev read_stored : Storage → Option Locale
read_stored none = none
read_stored (some none) = none
read_stored (some (some s)) = read_locale s

unfoldable pub detect_default_locale : (String → String) → Storage → String → Locale
detect_default_locale lower storage language =
    or_french (or_else_read (read_stored storage) (read_locale (lower (first_two language))))

unfoldable pub set_locale : Locale → Storage → Storage
set_locale l none = none
set_locale l (some item) = some (some (locale_text l))

-- With a storage that works, the language that was chosen is the one that the next visit starts
-- with, whatever was stored before and whatever the browser's language is.
pub detect_default_locale-set_locale :
    (lower : String → String) (l : Locale) (item : Option String) (language : String)
    → detect_default_locale lower (set_locale l (some item)) language ≡ l
unfolding detect_default_locale set_locale
detect_default_locale-set_locale lower en item language = refl
detect_default_locale-set_locale lower fr item language = refl
detect_default_locale-set_locale lower es item language = refl
