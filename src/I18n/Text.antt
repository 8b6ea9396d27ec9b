-- ===== src/I18n/Text.antt =====
-- The functions on texts that frontend/src/i18n/index.tsx calls: `split`, `trim`, `includes`, and
-- `split` and `join` to replace. A text is a list of characters.
use Prim.Native.Char.{Char, code}
use Prim.Native.String.{◌++◌, count}
use text.Mathlib.Text.{starts_with}
use simply_se.Base.{
  String, ℕ, zero, suc, ◌-◌, Bool, false, ◌&&◌, ◌||◌, List, [], ◌∷◌, ◌==◌, leb, if◌then◌else◌,
}

-- `s.includes(c)` for one character.
abbrev pub contains : ℕ → String → Bool
contains c String.[] = false
contains c (String.◌∷◌ d s) = code d == c || contains c s

abbrev pub onto_first : Char → List String → List String
onto_first c [] = String.◌∷◌ c String.[] ∷ []
onto_first c (s ∷ ss) = String.◌∷◌ c s ∷ ss

-- `s.split(c)` for one character.
abbrev pub split : ℕ → String → List String
split c String.[] = String.[] ∷ []
split c (String.◌∷◌ d s) =
    let rest = split c s in if code d == c then String.[] ∷ rest else onto_first d rest

-- What `trim` takes for white space.
abbrev pub is_space : ℕ → Bool
is_space c =
    leb 9 c && leb c 13
    || (c == 32
        || (c == 160
            || (c == 5760
                || (leb 8192 c && leb c 8202
                    || (c == 8232
                        || (c == 8233
                            || (c == 8239 || (c == 8287 || (c == 12288 || c == 65279)))))))))

abbrev pub trim_start : String → String
trim_start String.[] = String.[]
trim_start (String.◌∷◌ c s) =
    let rest = trim_start s in if is_space (code c) then rest else String.◌∷◌ c s

abbrev onto_trimmed : Char → String → String
onto_trimmed c String.[] = if is_space (code c) then String.[] else String.◌∷◌ c String.[]
onto_trimmed c (String.◌∷◌ d s) = String.◌∷◌ c (String.◌∷◌ d s)

abbrev pub trim_end : String → String
trim_end String.[] = String.[]
trim_end (String.◌∷◌ c s) = onto_trimmed c (trim_end s)

abbrev pub trim : String → String
trim s = trim_start (trim_end s)

-- `s.split(needle).join(v)` for a needle that is not empty; `skip` characters belong to a needle
-- that has been replaced.
unfoldable pub replace_from : String → String → ℕ → String → String
replace_from needle v skip String.[] = String.[]
replace_from needle v zero (String.◌∷◌ c s) =
    let hit = starts_with (String.◌∷◌ c s) needle in
    let rest = replace_from needle v (if hit then count needle - 1 else 0) s in
    if hit then v ++ rest else String.◌∷◌ c rest
replace_from needle v (suc skip) (String.◌∷◌ c s) = replace_from needle v skip s
