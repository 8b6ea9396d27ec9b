-- ===== src/I18n/Translate.antt =====
-- frontend/src/i18n/index.tsx: `lookup`, `resolvePlural` and `t`. How a number is written as a text
-- and whether a text is the number 1 are parameters, which stand for `String` and `Number`.
use simply_se.Base.{
  String, Bool, true, false, Option, none, some, List, [], ◌∷◌, map, if◌then◌else◌,
}
use Prim.Native.String.{◌++◌}
use mathlib.Core.Option as O
use simply_se.Base.Objects.{field, or_else}
use simply_se.I18n.Text.{contains, split, trim, replace_from}
use simply_se.I18n.Dict.{Locale, en, fr, es, Dict, Found, missing, found_text, found_dict, at}
use simply_se.I18n.English.{en_dict}
use simply_se.I18n.French.{fr_dict}
use simply_se.I18n.Spanish.{es_dict}

unfoldable pub dictionaries : Locale → Dict
unfolding en_dict fr_dict es_dict
dictionaries en = en_dict
dictionaries fr = fr_dict
dictionaries es = es_dict

-- The loop of `lookup` over the parts of a path.
unfoldable pub walk : Found → List String → Option String
walk (found_text s) [] = some s
walk missing [] = none
walk (found_dict d) [] = none
walk missing (k ∷ parts) = none
walk (found_text s) (k ∷ parts) = none
walk (found_dict d) (k ∷ parts) = walk (at d k) parts

unfoldable pub lookup : Dict → String → Option String
unfolding walk
lookup d path = walk (found_dict d) (split b'.' path)

-- The first two halves of a template, as the destructuring takes them.
unfoldable pub pick_half : Bool → List String → Option String
pick_half true [] = none
pick_half true (s ∷ rest) = some s
pick_half false [] = none
pick_half false (s ∷ []) = none
pick_half false (s ∷ p ∷ rest) = some p

unfoldable pub resolve_plural : String → Bool → Option String
unfolding pick_half
resolve_plural template is_one =
    if contains b'|' template
    then pick_half is_one (map trim (split b'|' template))
    else some template

-- A value of `vars`, a text or a number.
pub data Value (N : Type 0) : Type 0 where
  word : String → Value N
  number : N → Value N

-- `String(n)`, `n === 1`, and `Number(s) === 1`.
module _ {N : Type 0} (show : N → String) (is_one : N → Bool) (reads_one : String → Bool) where
  abbrev pub written : Value N → String
  written (word s) = s
  written (number n) = show n

  abbrev pub counts_one : Value N → Bool
  counts_one (word s) = reads_one s
  counts_one (number n) = is_one n

  -- The fold over the entries of `vars`.
  unfoldable pub fill : List (String × Value N) → String → String
  unfolding replace_from
  fill [] acc = acc
  fill ((k, v) ∷ vars) acc = fill vars (replace_from ("{" ++ k ++ "}") (written v) 0 acc)

  abbrev pub template : Locale → String → String
  template l key =
      or_else (lookup (dictionaries l) key) (or_else (lookup (dictionaries en) key) key)

  -- The template once `vars.count` has chosen its half.
  unfoldable pub for_count : Option (Value N) → String → Option String
  unfolding resolve_plural
  for_count none template = some template
  for_count (some v) template = resolve_plural template (counts_one v)

  -- `none` is a template without the half that is asked for, which the source would read from.
  unfoldable pub t : Locale → String → Option (List (String × Value N)) → Option String
  unfolding lookup for_count fill field
  t l key none = some (template l key)
  t l key (some vars) = O.map (fill vars) (for_count (field "count" vars) (template l key))
