-- ===== src/I18n/Dict.antt =====
-- `Locale` and `Dict` of frontend/src/i18n/translations.ts.
use simply_se.Base.{String, str_eq, if◌then◌else◌}

pub data Locale : Type 0 where
  en fr es : Locale

infixr 60 ◌∷◌
mutual
  pub data Entry : Type 0 where
    text : String → String → Entry
    dict : String → Dict → Entry

  pub data Dict : Type 0 where
    [] : Dict
    ◌∷◌ : Entry → Dict → Dict

-- What is found under one key: nothing, a text or a dictionary.
pub data Found : Type 0 where
  missing : Found
  found_text : String → Found
  found_dict : Dict → Found

abbrev pub key_of : Entry → String
key_of (text k s) = k
key_of (dict k d) = k

abbrev pub value_of : Entry → Found
value_of (text k s) = found_text s
value_of (dict k d) = found_dict d

-- `cur[part]`.
unfoldable pub at : Dict → String → Found
at [] k = missing
at (e ∷ d) k = if str_eq (key_of e) k then value_of e else at d k
