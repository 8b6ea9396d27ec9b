-- ===== src/I18n/Agree.antt =====
-- A test that compares two dictionaries of frontend/src/i18n/translations.ts key by key.
use simply_se.Base.{
  Bool, true, false, ◌&&◌, String, str_eq, eq_iff, refl, ◌≡◌, subst, if◌then◌else◌, arith,
}
use simply_se.I18n.Template.{fits}
use simply_se.I18n.Dict.{Dict, [], ◌∷◌, text, dict, Found, missing, found_text, found_dict, at}

unfoldable pub agree : Dict → Dict → Bool
unfolding fits
agree [] [] = true
agree [] (e ∷ d) = false
agree (e ∷ d) [] = false
agree (text k s ∷ d) (text j s' ∷ d') = str_eq k j && (fits s s' && agree d d')
agree (dict k s ∷ d) (dict j s' ∷ d') = str_eq k j && (agree s s' && agree d d')
agree (text k s ∷ d) (dict j s' ∷ d') = false
agree (dict k s ∷ d) (text j s' ∷ d') = false

-- Two findings that `agree` allows under the same key.
unfoldable pub alike : Found → Found → Bool
unfolding agree fits
alike missing missing = true
alike missing (found_text s) = false
alike missing (found_dict d) = false
alike (found_text s) missing = false
alike (found_text s) (found_text s') = fits s s'
alike (found_text s) (found_dict d) = false
alike (found_dict d) missing = false
alike (found_dict d) (found_text s) = false
alike (found_dict d) (found_dict d') = agree d d'

alike_if :
    (b : Bool) (u u' v v' : Found)
    → alike u u' ≡ true
    → alike v v' ≡ true
    → alike (if b then u else v) (if b then u' else v') ≡ true
alike_if true u u' v v' hu hv = hu
alike_if false u u' v v' hu hv = hv

alike-step :
    (k j p : String) (u u' v v' : Found)
    → str_eq k j ≡ true
    → alike u u' ≡ true
    → alike v v' ≡ true
    → alike (if str_eq k p then u else v) (if str_eq j p then u' else v') ≡ true
alike-step k j p u u' v v' h hu hv =
    subst (λ j. alike (if str_eq k p then u else v) (if str_eq j p then u' else v') ≡ true)
      ((eq_iff k j).0 h) (alike_if (str_eq k p) u u' v v' hu hv)

pub agree-at : (d d' : Dict) (p : String) → agree d d' ≡ true → alike (at d p) (at d' p) ≡ true
unfolding agree at alike
agree-at [] [] p h = refl
agree-at [] (e ∷ d) p h = cc
agree-at (e ∷ d) [] p h = cc
agree-at (text k s ∷ d) (text j s' ∷ d') p h =
    alike-step k j p (found_text s) (found_text s') (at d p) (at d' p) (ground arith) (ground arith)
      (agree-at d d' p (ground arith))
agree-at (dict k s ∷ d) (dict j s' ∷ d') p h =
    alike-step k j p (found_dict s) (found_dict s') (at d p) (at d' p) (ground arith) (ground arith)
      (agree-at d d' p (ground arith))
agree-at (text k s ∷ d) (dict j s' ∷ d') p h = cc
agree-at (dict k s ∷ d) (text j s' ∷ d') p h = cc

pub alike-found : (d d' : Dict) → agree d d' ≡ true → alike (found_dict d) (found_dict d') ≡ true
unfolding alike
alike-found d d' h = h
