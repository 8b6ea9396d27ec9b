-- ===== src/I18n/Template.antt =====
-- What two templates of frontend/src/i18n/translations.ts share when they are used alike.
use simply_se.Base.{String, Bool, ◌&&◌, List, [], ◌∷◌, ◌++◌, ◌==◌, leb, all, includes, length}
use simply_se.I18n.Text.{split}

-- What stands before the first `}` of each piece.
unfoldable pub names_in : List String → List String
names_in [] = []
names_in (s ∷ rest) = before (split b'}' s) ++ names_in rest
  where
    before : List String → List String
    before [] = []
    before (t ∷ ts) = t ∷ []

abbrev after_first : List String → List String
after_first [] = []
after_first (s ∷ rest) = rest

-- The names of the placeholders `{name}` of a template.
unfoldable pub placeholders : String → List String
unfolding names_in
placeholders s = names_in (after_first (split b'{' s))

abbrev pub halves : String → List String
halves s = split b'|' s

-- Two templates that take the same variables and agree on having a plural, of two halves.
unfoldable pub fits : String → String → Bool
unfolding placeholders
fits s s' =
    all (includes (placeholders s')) (placeholders s)
    && all (includes (placeholders s)) (placeholders s')
    && (length (halves s) == length (halves s') && leb (length (halves s)) 2)
