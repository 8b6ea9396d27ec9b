-- ===== src/I18n/Complete.antt =====
-- `lookup` of frontend/src/i18n/index.tsx in the three dictionaries of
-- frontend/src/i18n/translations.ts.
use simply_se.Base.{Bool, true, false, Option, none, some, String, refl, ◌≡◌, List, [], ◌∷◌}
use simply_se.I18n.Text.{split}
use simply_se.I18n.Template.{fits}
use simply_se.I18n.Agree.{agree, alike, agree-at, alike-found}
use simply_se.I18n.Dict.{Locale, en, fr, es, Found, missing, found_text, found_dict, at}
use simply_se.I18n.Translate.{dictionaries, walk, lookup}

-- Two results of `lookup`: both fail, or both find a text and the texts fit.
unfoldable pub both_fit : Option String → Option String → Bool
unfolding fits
both_fit none none = true
both_fit none (some s) = false
both_fit (some s) none = false
both_fit (some s) (some s') = fits s s'

pub alike-walk :
    (u u' : Found) (parts : List String)
    → alike u u' ≡ true
    → both_fit (walk u parts) (walk u' parts) ≡ true
unfolding alike walk both_fit
alike-walk missing missing [] h = refl
alike-walk missing missing (k ∷ parts) h = refl
alike-walk missing (found_text s) parts h = cc
alike-walk missing (found_dict d) parts h = cc
alike-walk (found_text s) missing parts h = cc
alike-walk (found_text s) (found_text s') [] h = h
alike-walk (found_text s) (found_text s') (k ∷ parts) h = refl
alike-walk (found_text s) (found_dict d) parts h = cc
alike-walk (found_dict d) missing parts h = cc
alike-walk (found_dict d) (found_text s) parts h = cc
alike-walk (found_dict d) (found_dict d') [] h = refl
alike-walk (found_dict d) (found_dict d') (k ∷ parts) h =
    alike-walk (at d k) (at d' k) parts (agree-at d d' k h)

-- The test passes for each language against the English dictionary.
agree-dictionaries : (l : Locale) → agree (dictionaries en) (dictionaries l) ≡ true
unfolding agree dictionaries
agree-dictionaries en = refl
agree-dictionaries fr = refl
agree-dictionaries es = refl

-- Whatever the key, it has a text in English exactly when it has one in each other language, and
-- the two texts have the same placeholders, and a plural form or none in both.
pub both_fit-lookup :
    (l : Locale) (key : String)
    → both_fit (lookup (dictionaries en) key) (lookup (dictionaries l) key) ≡ true
unfolding lookup
both_fit-lookup l key =
    alike-walk (found_dict (dictionaries en)) (found_dict (dictionaries l)) (split b'.' key)
      (alike-found (dictionaries en) (dictionaries l) (agree-dictionaries l))
